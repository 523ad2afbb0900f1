-- ===== src/Symbols.antt =====
-- Symbols, `make_symbol` of vm/strings.c with its table. The table's functions read the strings that
-- its keys point to, in the memory of the call; `new` is what `malloc` answers. The lock has no
-- counterpart, since a thread waits for the one before it.
pub mod Interned
use lgears.Prelude.{ℕ, ◌+◌, List, [], some, ◌==◌, if◌then◌else◌, length}
use lgears.Object.{make_const_ptr}
use lgears.Hash.{HashTable, hash_table_insert, hash_table_lookup}
use lgears.Hash.Functions.{Strcmp, string_hash, string_equal}
use lgears.Pool.{Pool, const_allocator_alloc}
use lgears.Types.{t_symbol}

-- The table of symbols and the pool that they stand in; `text` is what the memory holds at the
-- address of a string, up to its NUL.
pub record Symbols : Type 0 where
  pub sym_table : HashTable
  pub pool : Pool
  pub text : ℕ → List ℕ

-- A table as it works on strings.
abbrev pub over : Strcmp → (ℕ → List ℕ) → HashTable → HashTable
over lib text tbl = record tbl {
  hash = λ p. string_hash (text p);
  equal = some (λ p q. string_equal lib (text p) (text q));
}

-- `memcpy` of a string to an address where none stands.
abbrev pub copied_to : (ℕ → List ℕ) → ℕ → ℕ → ℕ → List ℕ
copied_to text res str p = if res == p then text str else text p

unfoldable pub make_symbol : Strcmp → ℕ → ℕ → Symbols → ℕ × Symbols
make_symbol lib new str s =
    let res = hash_table_lookup (over lib s.text s.sym_table) str in
    let sz = length (s.text str) + 1 in
    let (mem, pool) = const_allocator_alloc new s.pool sz t_symbol in
    let text = copied_to s.text mem str in
    if res == 0
    then (
      make_const_ptr mem,
      record {
        sym_table = (hash_table_insert (over lib text s.sym_table) mem mem).0;
        pool = pool;
        text = text;
      },
    )
    else (make_const_ptr res, s)
