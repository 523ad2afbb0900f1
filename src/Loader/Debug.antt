-- ===== src/Loader/Debug.antt =====
-- `string_iter_t` of vm/module.c and the loop of `module_load` that fills the table of debug
-- symbols of a function with it. The iterator is the list of bytes from `cur` to `end`; a string is
-- the bytes up to its NUL, and `none` is NULL.
use lgears.Prelude.{
  ℕ, zero, suc, ◌≡◌, ◌≢◌, refl, arith, Option, none, some, List, [], ◌∷◌, ◌++◌, ◌==◌, false,
  if◌then◌else◌, length, map, All,
}
use mathlib.Core.List.{append_assoc}

-- The loop of `string_iter_next`: the bytes of the string that it has not passed, and the iterator
-- behind it.
unfoldable pub string_iter_next : List ℕ → Option (List ℕ) × List ℕ
string_iter_next [] = (none, [])
string_iter_next (c ∷ cur) =
    let (res, rest) = string_iter_next cur in
    if c == 0
    then (some [], cur)
    else (elim res [ none ↦ none | some bytes ↦ some (c ∷ bytes) ], rest)

-- The loop over the instructions of a function.
unfoldable pub dbg_table : ℕ → List ℕ → List (Option (List ℕ)) × List ℕ
dbg_table zero itr = ([], itr)
dbg_table (suc op_count) itr =
    let (res, itr) = string_iter_next itr in
    let (table, itr) = dbg_table op_count itr in (res ∷ table, itr)

-- Strings one after the other, each with its NUL.
abbrev pub put_strings : List (List ℕ) → List ℕ
put_strings [] = []
put_strings (s ∷ ss) = s ++ 0 ∷ put_strings ss

abbrev pub IsString : List ℕ → Type 0
IsString s = All (λ c. c ≢ 0) s

string_iter_next-put :
    (s rest : List ℕ) → IsString s → string_iter_next (s ++ 0 ∷ rest) ≡ (some s, rest)
unfolding string_iter_next
string_iter_next-put [] rest v = refl
string_iter_next-put (c ∷ s) rest v =
    let letter : (c == 0) ≡ false = let h = v.0 in ground arith in
    rw (string_iter_next-put s rest v.1, letter)

-- The loop gives each instruction its symbol: the strings that a buffer starts with come out one
-- by one, and the iterator stops behind the last of them.
pub dbg_table-put_strings :
    (ss : List (List ℕ)) (rest : List ℕ)
    → All IsString ss
    → dbg_table (length ss) (put_strings ss ++ rest) ≡ (map some ss, rest)
unfolding dbg_table
dbg_table-put_strings [] rest v = refl
dbg_table-put_strings (s ∷ ss) rest v = rw (
  append_assoc s (0 ∷ put_strings ss) rest,
  string_iter_next-put s (put_strings ss ++ rest) v.0,
  dbg_table-put_strings ss rest v.1,
)
