-- ===== src/Hash/Primes.antt =====
-- `spaced_primes_closest` against its table, and the size that `hash_table_resize` takes from it.
use lgears.Prelude.{
  false, ℕ, ◌*◌, ◌≤◌, ◌<◌, ◌≡◌, refl, inl, inr, List, [], ◌∷◌, arith, ltb, All, All-mono,
  Bool-cases,
}
use lgears.Hash.{
  closest, primes, must_resize, spaced_primes_closest, clamp, hash_table_min_size,
  hash_table_max_size,
}

-- The table grows, by less than a factor of three at each step.
abbrev Spaced : ℕ → List ℕ → Type 0
Spaced b [] = hash_table_max_size < 3 * b
Spaced b (p ∷ ps) = (b < p) × (p < 3 * b) × Spaced p ps

primes-Spaced : Spaced 4 primes
primes-Spaced = omega arith

All-above : (b : ℕ) (ps : List ℕ) → Spaced b ps → All (λ p. b < p) ps
All-above b [] s = tt
All-above b (p ∷ ps) s =
    (s.0, All-mono (λ q. p < q) (λ q. b < q) (λ q h. omega arith) ps (All-above p ps s.2))

closest-le : (ps : List ℕ) (n : ℕ) → All (λ p. p ≤ 13845163) ps → closest ps n ≤ 13845163
unfolding closest
closest-le [] n a = omega arith
closest-le (p ∷ ps) n a = ground (arith, closest-le ps n)

closest-gt : (ps : List ℕ) (n : ℕ) → n < 13845163 → n < closest ps n
unfolding closest
closest-gt [] n h = h
closest-gt (p ∷ ps) n h = ground (arith, closest-gt ps n)

closest-ge : (ps : List ℕ) (n : ℕ) → All (λ p. 11 ≤ p) ps → 11 ≤ closest ps n
unfolding closest
closest-ge [] n a = omega arith
closest-ge (p ∷ ps) n a = ground (arith, closest-ge ps n)

-- Every prime of the table below the answer is too small.
closest-least :
    (b : ℕ) (ps : List ℕ) (n r : ℕ) → Spaced b ps → r ≡ closest ps n → All (λ p. p < r → p ≤ n) ps
unfolding closest
closest-least b [] n r s e = tt
closest-least b (p ∷ ps) n r s e = elim (Bool-cases (ltb n p)) [
  | inl small ↦
      let r-p : r ≡ p = rw small at e in
      (
        λ h. omega arith,
        All-mono (λ q. p < q) (λ q. q < r → q ≤ n) (λ q h k. omega arith) ps (All-above p ps s.2),
      )
  | inr large ↦ (λ h. ground arith, closest-least p ps n r s.2 (rw large at e))
]

closest-lt_triple : (b : ℕ) (ps : List ℕ) (n : ℕ) → b ≤ n → Spaced b ps → closest ps n < 3 * n
unfolding closest
closest-lt_triple b [] n h s = omega arith
closest-lt_triple b (p ∷ ps) n h s = ground (arith, closest-lt_triple p ps n)

closest-last :
    (ps : List ℕ) (n : ℕ) → All (λ p. p ≤ 13845163) ps → 13845163 ≤ n → closest ps n ≡ 13845163
unfolding closest
closest-last [] n a h = refl
closest-last (p ∷ ps) n a h = ground (arith, closest-last ps n)

-- The answer lies within the table and is the least prime of the table above the number, or the
-- last one where none is; from four on it is less than three times the number.
pub record Closest (n r : ℕ) : Type 0 where
  pub lower : hash_table_min_size ≤ r
  pub upper : r ≤ hash_table_max_size
  pub above : n < hash_table_max_size → n < r
  pub last : hash_table_max_size ≤ n → r ≡ hash_table_max_size
  pub least : All (λ p. p < r → p ≤ n) primes
  pub spaced : 4 ≤ n → r < 3 * n

-- The size chosen for a table lies within the table of primes; it exceeds the number of nodes where
-- a prime does, and is then the least such prime; it is the last prime otherwise; and from four
-- nodes on it is less than three times their number.
pub spaced_primes_closest_lem : (n : ℕ) → Closest n (spaced_primes_closest n)
unfolding spaced_primes_closest
spaced_primes_closest_lem n = record {
  lower = closest-ge primes n (omega arith);
  upper = closest-le primes n (omega arith);
  above = closest-gt primes n;
  last = closest-last primes n (omega arith);
  least = closest-least 4 primes n _ primes-Spaced refl;
  spaced = λ h. closest-lt_triple 4 primes n h primes-Spaced;
}

-- So the bounds on the size of a table do not change what `hash_table_resize` takes from it.
pub clamp-closest :
    (n : ℕ)
    → clamp (spaced_primes_closest n) hash_table_min_size hash_table_max_size
      ≡ spaced_primes_closest n
clamp-closest n =
    ground (arith, (spaced_primes_closest_lem n).lower, (spaced_primes_closest_lem n).upper)

-- A table of the size that is chosen is not resized again.
pub must_resize-closest : (n : ℕ) → must_resize (spaced_primes_closest n) n ≡ false
must_resize-closest n =
    let c = spaced_primes_closest_lem n in
    ground (arith, c.least.0, c.spaced, c.last, c.above, c.upper)
