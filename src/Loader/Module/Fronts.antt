-- ===== src/Loader/Module/Fronts.antt =====
-- The bytes of serialised constants stand in front of what follows, and are as many as their size
-- says.
use mathlib.Core.List.{append_assoc}
use lgears.Prelude.{
  ℕ, ◌+◌, ◌≡◌, refl, ap, sym, arith, List, [], ◌∷◌, ◌++◌, length, length-append, if◌then◌else◌,
}
use lgears.Loader.Fasl.Datum.{
  Datum, datum_fixnum, datum_char, datum_symbol, datum_string, datum_static, datum_boolean,
  datum_null, datum_pairs, datum_struct, Data, no_data, more, count, put_word, put_name, put,
  put_all, size, size_all,
}

-- The list is so many bytes in front of the rest.
abbrev pub IsFront : List ℕ → List ℕ → ℕ → Type 0
IsFront whole rest n = (front : List ℕ) × (whole ≡ front ++ rest) × (length front ≡ n)

then-IsFront : (a b c : List ℕ) (n k : ℕ) → IsFront a b n → IsFront b c k → IsFront a c (n + k)
then-IsFront a b c n k (f, e, l) (g, e', l') =
    (f ++ g, rw (e, e') (sym (append_assoc f g c)), omega (arith, length-append f g))

name-IsFront : (s rest : List ℕ) → IsFront (put_name s rest) rest (length s + 2)
name-IsFront s rest = (
  (length s + 1) ∷ (s ++ 0 ∷ []),
  ap (λ r. (length s + 1) ∷ r) (sym (append_assoc s (0 ∷ []) rest)),
  omega (arith, length-append s (0 ∷ [])),
)

byte-IsFront : (b n k : ℕ) (a c : List ℕ) → IsFront a c n → k ≡ n + 1 → IsFront (b ∷ a) c k
byte-IsFront b n k a c (f, e, l) h = (b ∷ f, rw e, omega arith)

mutual
  put-IsFront : (d : Datum) (rest : List ℕ) → IsFront (put d rest) rest (size d)
  put-IsFront (datum_fixnum w) rest = (0 ∷ put_word 8 w, refl, refl)
  put-IsFront (datum_char w) rest = (1 ∷ put_word 2 w, refl, refl)
  put-IsFront (datum_string s) rest =
      byte-IsFront 2 _ _ (put_name s rest) rest (name-IsFront s rest) (omega arith)
  put-IsFront (datum_symbol s) rest =
      byte-IsFront 3 _ _ (put_name s rest) rest (name-IsFront s rest) (omega arith)
  put-IsFront (datum_static s) rest =
      byte-IsFront 4 _ _ (put_name s rest) rest (name-IsFront s rest) (omega arith)
  put-IsFront (datum_pairs d ds) rest =
      byte-IsFront 5 _ _ _ rest
        (then-IsFront _ _ _ _ _ (put-IsFront d (put_all ds (6 ∷ rest)))
          (then-IsFront _ _ _ _ _ (put_all-IsFront ds (6 ∷ rest)) (6 ∷ [], refl, refl)))
        (omega arith)
  put-IsFront (datum_struct s ds) rest =
      byte-IsFront 7 _ _ _ rest
        (then-IsFront _ _ _ _ _ (name-IsFront s (count ds ∷ put_all ds rest))
          (byte-IsFront (count ds) _ _ _ rest (put_all-IsFront ds rest) refl))
        (omega arith)
  put-IsFront (datum_boolean b) rest = (8 ∷ (if b then 1 else 0) ∷ [], refl, refl)
  put-IsFront datum_null rest = (9 ∷ [], refl, refl)

  pub put_all-IsFront : (ds : Data) (rest : List ℕ) → IsFront (put_all ds rest) rest (size_all ds)
  put_all-IsFront no_data rest = ([], refl, refl)
  put_all-IsFront (more d ds) rest =
      then-IsFront _ _ _ _ _ (put-IsFront d (put_all ds rest)) (put_all-IsFront ds rest)
