-- ===== src/Hash/Keys.antt =====
-- What a table asks of its hash and comparison functions: they are given by the caller, and the
-- table compares addresses where no comparison is given.
use lgears.Prelude.{ℕ, Bool, true, Option, none, some, ◌≡◌, arith, ◌==◌}

-- The comparison that a table makes of two keys.
abbrev pub same : Option (ℕ → ℕ → Bool) → ℕ → ℕ → Bool
same (some equal) a b = equal a b
same none a b = a == b

pub record Lawful (hash : ℕ → ℕ) (eq : ℕ → ℕ → Bool) : Type 0 where
  pub eq_refl : (a : ℕ) → eq a a ≡ true
  pub eq_symm : (a b : ℕ) → eq a b ≡ true → eq b a ≡ true
  pub eq_trans : (a b c : ℕ) → eq a b ≡ true → eq b c ≡ true → eq a c ≡ true
  pub eq-hash : (a b : ℕ) → eq a b ≡ true → hash a ≡ hash b

module _ {hash : ℕ → ℕ} {eq : ℕ → ℕ → Bool} (laws : Lawful hash eq) where
  -- Two keys that are equal to one key are equal to the same keys.
  pub eq_congr : (a b c : ℕ) → eq a b ≡ true → eq c a ≡ eq c b
  eq_congr a b c e = ground (arith, laws.eq_trans c a b, laws.eq_trans c b a, laws.eq_symm a b)

  pub eq_congr_left : (a b c : ℕ) → eq a b ≡ true → eq a c ≡ eq b c
  eq_congr_left a b c e = ground (arith, laws.eq_trans a b c, laws.eq_trans b a c, laws.eq_symm a b)

-- Comparison by address is lawful for every hash function.
pub same_none-Lawful : (hash : ℕ → ℕ) → Lawful hash (same none)
same_none-Lawful hash = record {
  eq_refl = λ a. ground arith;
  eq_symm = λ a b. ground arith;
  eq_trans = λ a b c. ground arith;
  eq-hash = λ a b h. let e : a ≡ b = ground arith in rw e;
}
