-- ===== src/Hash/Functions.antt =====
-- The hash and comparison functions of vm/hash.c, over the memory that their keys point to. What
-- `strlen` and `strcmp` see of a string are its bytes before the NUL; a `char` is signed.
use lgears.Prelude.{
  ℕ, ◌+◌, ◌-◌, ◌*◌, ◌%◌, ◌^◌, ◌≡◌, ◌↔◌, refl, sym, ap, ◌∙◌, Bool, true, some, List, [], ◌∷◌, arith,
  ◌==◌, ltb, if◌then◌else◌, ==_iff,
}
use lgears.Prelude.Int.{ℤ, pos, negsuc}
use lgears.Hash.Keys.{same, Lawful}

-- `*str` in `unsigned` arithmetic.
abbrev pub sign_extend : ℕ → ℕ
sign_extend c = if ltb c 128 then c else c + 2 ^ 32 - 2 ^ 8

-- `h = (h << 5) - h + *str`
abbrev pub hash_step : ℕ → ℕ → ℕ
hash_step h c = (h * 2 ^ 5 % 2 ^ 32 + 2 ^ 32 - h + sign_extend c) % 2 ^ 32

hash_loop : ℕ → List ℕ → ℕ
hash_loop h [] = h
hash_loop h (c ∷ str) = hash_loop (hash_step h c) str

unfoldable pub string_hash : List ℕ → ℕ
unfolding hash_loop
string_hash str = hash_loop 0 str

-- The polynomial in 31 whose coefficients are the bytes.
unfoldable pub polynomial : ℕ → List ℕ → ℕ
polynomial acc [] = acc
polynomial acc (c ∷ str) = polynomial (acc * 31 + sign_extend c) str

hash_step-mod : (acc c : ℕ) → hash_step (acc % 2 ^ 32) c ≡ (acc * 31 + sign_extend c) % 2 ^ 32
hash_step-mod acc c = ground arith

hash_loop-polynomial :
    (acc : ℕ) (str : List ℕ) → hash_loop (acc % 2 ^ 32) str ≡ polynomial acc str % 2 ^ 32
unfolding hash_loop polynomial
hash_loop-polynomial acc [] = refl
hash_loop-polynomial acc (c ∷ str) =
    let step : hash_step (acc % 2 ^ 32) c ≡ (acc * 31 + sign_extend c) % 2 ^ 32 =
      hash_step-mod acc c in
    ap (λ h. hash_loop h str) step ∙ hash_loop-polynomial (acc * 31 + sign_extend c) str

-- `string_hash` is the value of the polynomial modulo 2 ^ 32.
pub string_hash-polynomial : (str : List ℕ) → string_hash str ≡ polynomial 0 str % 2 ^ 32
unfolding string_hash
string_hash-polynomial str = hash_loop-polynomial 0 str

-- The documented behaviour of `strcmp`: it answers 0 exactly on equal strings.
pub record Strcmp : Type 0 where
  pub strcmp : List ℕ → List ℕ → ℤ
  pub strcmp_iff : (a b : List ℕ) → (strcmp a b ≡ pos 0) ↔ (a ≡ b)

abbrev pub is_zero : ℤ → Bool
is_zero (pos n) = n == 0
is_zero (negsuc n) = 1 == 0

unfoldable pub string_equal : Strcmp → List ℕ → List ℕ → Bool
string_equal lib a b = is_zero (lib.strcmp a b)

-- `int_hash` and `int_equal` read the `unsigned` at the key; `direct_hash` truncates the address.
unfoldable pub int_hash : ℕ → ℕ
int_hash word = word

unfoldable pub int_equal : ℕ → ℕ → Bool
int_equal a b = a == b

unfoldable pub direct_hash : ℕ → ℕ
direct_hash src = src % 2 ^ 32

unfoldable pub direct_equal : ℕ → ℕ → Bool
direct_equal a b = a == b

pub string_equal_iff : (lib : Strcmp) (a b : List ℕ) → (string_equal lib a b ≡ true) ↔ (a ≡ b)
unfolding string_equal
string_equal_iff lib a b =
    let r = lib.strcmp_iff a b in (λ h. r.0 (is_zero-pos (lib.strcmp a b) h), λ h. rw (r.1 h))
  where
    is_zero-pos : (v : ℤ) → is_zero v ≡ true → v ≡ pos 0
    is_zero-pos (pos n) h = ground arith
    is_zero-pos (negsuc n) h = cc

-- A test that holds of equal readings alone, with a hash of the reading.
reading-Lawful {ℓ} :
    {A : Type ℓ} (read : ℕ → A) (hash : A → ℕ) (test : A → A → Bool)
    → ((a b : A) → (test a b ≡ true) ↔ (a ≡ b))
    → Lawful (λ p. hash (read p)) (λ p q. test (read p) (read q))
reading-Lawful read hash test iff = record {
  eq_refl = λ a. (iff (read a) (read a)).1 refl;
  eq_symm = λ a b h. (iff (read b) (read a)).1 (sym ((iff (read a) (read b)).0 h));
  eq_trans = λ a b c h k.
      (iff (read a) (read c)).1 ((iff (read a) (read b)).0 h ∙ (iff (read b) (read c)).0 k);
  eq-hash = λ a b h. ap hash ((iff (read a) (read b)).0 h);
}

-- Each pair of functions serves a table: comparison is an equivalence, and equal keys have equal
-- hashes. `text` and `word` are what the memory holds at an address.
pub string_keys-Lawful :
    (lib : Strcmp) (text : ℕ → List ℕ)
    → Lawful (λ p. string_hash (text p)) (same (some (λ p q. string_equal lib (text p) (text q))))
string_keys-Lawful lib text =
    reading-Lawful text string_hash (string_equal lib) (string_equal_iff lib)

pub int_keys-Lawful :
    (word : ℕ → ℕ)
    → Lawful (λ p. int_hash (word p)) (same (some (λ p q. int_equal (word p) (word q))))
unfolding int_hash int_equal
int_keys-Lawful word = reading-Lawful word int_hash int_equal ==_iff

pub direct_keys-Lawful : Lawful direct_hash (same (some direct_equal))
unfolding direct_hash direct_equal
direct_keys-Lawful = reading-Lawful (λ p. p) direct_hash direct_equal ==_iff
