-- ===== src/Loader/Fasl/Reads.antt =====
-- What the readers of vm/module.c take of the bytes of a constant.
use mathlib.Core.List.{append_assoc}
use lgears.Prelude.{
  ℕ, ◌+◌, ◌-◌, ◌^◌, ◌<◌, ◌≡◌, refl, sym, arith, true, false, List, [], ◌∷◌, ◌++◌, length,
  length-append, ◌==◌, leb,
}
use lgears.Prelude.Run.{ok}
use lgears.Strings.{up_to_nul}
use lgears.Loader.Code.{little_endian, split, split-append, code_read_bytes, code_read8, code_peek8}
use lgears.Loader.Layout.{at, code_read_bytes-append}
use lgears.Loader.Debug.{IsString}
use lgears.Loader.Fasl.{code_read_string}
use lgears.Loader.Fasl.Datum.{
  Datum, datum_fixnum, datum_char, datum_symbol, datum_string, datum_static, datum_boolean,
  datum_null, datum_pairs, datum_struct, put_word, put_name, put, size,
}

pub take_bytes :
    (xs ys : List ℕ) (c n k : ℕ)
    → length xs ≡ c
    → n ≡ c + k
    → code_read_bytes (at (xs ++ ys) n) c ≡ ok (xs, at ys k)
take_bytes xs ys c n k len e = rw e (code_read_bytes-append xs ys c k len)

pub take8 :
    (b : ℕ) (rest : List ℕ) (n k : ℕ)
    → b < 2 ^ 8
    → n ≡ 1 + k
    → code_read8 (at (b ∷ rest) n) ≡ ok (b, at rest k)
unfolding code_read8
take8 b rest n k byte e =
    let same : little_endian (b ∷ []) ≡ b = omega arith in
    rw (take_bytes (b ∷ []) rest 1 n k refl e, same)

pub peek :
    (b : ℕ) (rest : List ℕ) (n k : ℕ) → b < 2 ^ 8 → n ≡ 1 + k → code_peek8 (at (b ∷ rest) n) ≡ ok b
unfolding code_peek8
peek b rest n k byte e =
    let enough : leb 1 n ≡ true = ground arith in
    let same : little_endian (b ∷ []) ≡ b = omega arith in rw (enough, same)

pub word16 : (w : ℕ) → w < 2 ^ 16 → little_endian (put_word 2 w) ≡ w
word16 w h = omega arith

pub word64 : (w : ℕ) → w < 2 ^ 64 → little_endian (put_word 8 w) ≡ w
word64 w h = omega arith

pub split_name : (s rest : List ℕ) → split (length s + 1) (s ++ 0 ∷ rest) ≡ ok (s ++ 0 ∷ [], rest)
split_name s rest =
    let e : s ++ 0 ∷ rest ≡ (s ++ 0 ∷ []) ++ rest = sym (append_assoc s (0 ∷ []) rest) in
    let len : length s + 1 ≡ length (s ++ 0 ∷ []) = omega (arith, length-append s (0 ∷ [])) in
    rw (e, len) (split-append (s ++ 0 ∷ []) rest)

pub take_name :
    (s rest : List ℕ) (n k : ℕ)
    → length s + 1 < 2 ^ 8
    → n ≡ length s + 2 + k
    → code_read_string (at (put_name s rest) n) ≡ ok (s ++ 0 ∷ rest, at rest k)
unfolding code_read_string
take_name s rest n k short e =
    let first = take8 (length s + 1) (s ++ 0 ∷ rest) n (length s + 1 + k) short (omega arith) in
    let enough : leb (length s + 1) (length s + 1 + k) ≡ true = ground arith in
    let left : length s + 1 + k - (length s + 1) ≡ k = omega arith in
    rw (first, enough, split_name s rest, left)

pub text_name : (s rest : List ℕ) → IsString s → up_to_nul (s ++ 0 ∷ rest) ≡ ok s
unfolding up_to_nul
text_name [] rest v = refl
text_name (c ∷ s) rest v =
    let letter : (c == 0) ≡ false = let h = v.0 in ground arith in rw (letter, text_name s rest v.1)

pub size-positive : (d : Datum) → 0 < size d
size-positive (datum_fixnum w) = omega arith
size-positive (datum_char w) = omega arith
size-positive (datum_symbol s) = omega arith
size-positive (datum_string s) = omega arith
size-positive (datum_static s) = omega arith
size-positive (datum_boolean b) = omega arith
size-positive datum_null = omega arith
size-positive (datum_pairs d ds) = omega arith
size-positive (datum_struct s ds) = omega arith

-- No datum begins with the mark of the end of a list.
pub peek-put :
    (d : Datum) (rest : List ℕ) (n k : ℕ)
    → n ≡ 1 + k
    → (tag : ℕ) × (code_peek8 (at (put d rest) n) ≡ ok tag) × ((tag == 6) ≡ false)
peek-put (datum_fixnum w) rest n k e = (0, peek 0 _ n k (omega arith) e, refl)
peek-put (datum_char w) rest n k e = (1, peek 1 _ n k (omega arith) e, refl)
peek-put (datum_string s) rest n k e = (2, peek 2 _ n k (omega arith) e, refl)
peek-put (datum_symbol s) rest n k e = (3, peek 3 _ n k (omega arith) e, refl)
peek-put (datum_static s) rest n k e = (4, peek 4 _ n k (omega arith) e, refl)
peek-put (datum_pairs d ds) rest n k e = (5, peek 5 _ n k (omega arith) e, refl)
peek-put (datum_struct s ds) rest n k e = (7, peek 7 _ n k (omega arith) e, refl)
peek-put (datum_boolean b) rest n k e = (8, peek 8 _ n k (omega arith) e, refl)
peek-put datum_null rest n k e = (9, peek 9 _ n k (omega arith) e, refl)
