-- ===== src/Machine/Arith/Meaning.antt =====
-- What the expressions of the arithmetic instructions and comparisons stand for on integers,
-- described apart from the code: a quotient with its remainder, the order of integers.
use Prim.Native.Nat.{bit_xor}
use native.Mathlib.Nat.{div-add-mod, mod-lt, div-le_self, mod-le}
use lgears.Prelude.{
  ◌↔◌, ℕ, suc, ◌+◌, ◌*◌, ◌/◌, ◌%◌, ◌^◌, ◌<◌, ◌≤◌, ◌≡◌, ◌⊎◌, inl, inr, refl, ap, subst, arith, Bool,
  true, false, bit_and, bit_or, Bool-cases, leb, ◌==◌, if◌then◌else◌,
}
use lgears.Prelude.Int.{
  ℤ, pos, negsuc, pos_part, neg_part, sub_ℕ, ltb_ℤ, ◌+ℤ◌, ◌-ℤ◌, ◌*ℤ◌, to_word, signed64, InRange,
}
use lgears.Prelude.Run.{Run, ok, undefined}
use lgears.Machine.Arith.{
  long, abs, apply_long, ArithmeticOp, op_mod, op_div, op_mul, op_add, op_sub, op_bit_and,
  op_bit_ior, op_bit_xor, CompareOp, op_eq, op_gt, op_lt, compare_long, long_div, long_mod, differ,
  is_negative, signed,
}

abbrev pub minus : ℕ → ℤ
minus n = sub_ℕ 0 n

-- The integers have one sign, where zero is with the positive ones.
abbrev pub alike : ℤ → ℤ → Bool
alike (pos m) (pos n) = true
alike (pos m) (negsuc n) = false
alike (negsuc m) (pos n) = false
alike (negsuc m) (negsuc n) = true

abbrev pub below_zero : ℤ → Bool
below_zero (pos n) = false
below_zero (negsuc n) = true

abbrev pub magnitude : ℤ → ℕ
magnitude (pos n) = n
magnitude (negsuc n) = suc n

-- A value, where it is a `long`.
abbrev pub IsLong : ℤ → Run ℤ → Type 0
IsLong v r = InRange (2 ^ 63) v × (r ≡ ok v) ⊎ (¬ InRange (2 ^ 63) v) × (r ≡ undefined)

-- The quotient and the remainder of the magnitudes.
pub record IsDivided (x y : ℤ) (q rest : ℕ) : Type 0 where
  pub sum : magnitude y * q + rest ≡ magnitude x
  pub less : rest < magnitude y

abbrev pub IsValue : ArithmeticOp → ℤ → ℤ → Run ℤ → Type 0
IsValue op_add x y r = r ≡ ok (x +ℤ y)
IsValue op_sub x y r = r ≡ ok (x -ℤ y)
IsValue op_mul x y r = IsLong (x *ℤ y) r
IsValue op_div x y r =
    (y ≡ pos 0) × (r ≡ undefined)
    ⊎ (q : ℕ) × (rest : ℕ) × IsDivided x y q rest × (r ≡ ok (if alike x y then pos q else minus q))
IsValue op_mod x y r =
    (y ≡ pos 0) × (r ≡ undefined)
    ⊎ (q : ℕ) × (rest : ℕ) × IsDivided x y q rest
      × (r ≡ ok (if below_zero x then minus rest else pos rest))
IsValue op_bit_and x y r = r ≡ ok (signed64 (bit_and (to_word x) (to_word y)))
IsValue op_bit_ior x y r = r ≡ ok (signed64 (bit_or (to_word x) (to_word y)))
IsValue op_bit_xor x y r = r ≡ ok (signed64 (bit_xor (to_word x) (to_word y)))

-- The order of the integers.
abbrev pub IsBelow : ℤ → ℤ → Type 0
IsBelow (pos m) (pos n) = m < n
IsBelow (pos m) (negsuc n) = ⊥
IsBelow (negsuc m) (pos n) = Unit {0}
IsBelow (negsuc m) (negsuc n) = n < m

abbrev pub Holds : CompareOp → ℤ → ℤ → Type 0
Holds op_eq x y = x ≡ y
Holds op_gt x y = IsBelow y x
Holds op_lt x y = IsBelow x y

long_lem : (v : ℤ) → IsLong v (long v)
long_lem v = elim (Bool-cases (leb (suc (pos_part v)) (2 ^ 63))) [
  | inr over ↦ inr (λ h. ground arith, rw over)
  | inl up ↦ elim (Bool-cases (leb (neg_part v) (2 ^ 63))) [
    | inr under ↦ inr (λ h. ground arith, rw (up, under))
    | inl down ↦ inl ((ground arith, ground arith), rw (up, down))
  ]
]

long-InRange : (v : ℤ) → InRange (2 ^ 63) v → long v ≡ ok v
long-InRange v h = elim (long_lem v) [ inl (fits, e) ↦ e | inr (off, e) ↦ absurd (off h) ]

sub_ℕ-InRange : (a b : ℕ) → a < 2 ^ 63 → b ≤ 2 ^ 63 → InRange (2 ^ 63) (sub_ℕ a b)
sub_ℕ-InRange a b h k = elim (Bool-cases (leb b a)) [
  | inl more ↦ rw more (omega arith)
  | inr less ↦ rw less (ground arith)
]

abs-magnitude : (v : ℤ) → abs v ≡ magnitude v
abs-magnitude (pos n) = omega arith
abs-magnitude (negsuc n) = omega arith

divided :
    (x y : ℤ)
    → 0 < magnitude y
    → IsDivided x y (magnitude x / magnitude y) (magnitude x % magnitude y)
divided x y h = record {
  sum = div-add-mod (magnitude x) (magnitude y);
  less = mod-lt (magnitude x) h;
}

signed-alike :
    (x y : ℤ) (n : ℕ)
    → signed (differ (is_negative x) (is_negative y)) n ≡ (if alike x y then pos n else minus n)
signed-alike (pos a) (pos b) n = refl
signed-alike (pos a) (negsuc b) n = refl
signed-alike (negsuc a) (pos b) n = refl
signed-alike (negsuc a) (negsuc b) n = refl

signed-below :
    (x : ℤ) (n : ℕ) → signed (is_negative x) n ≡ (if below_zero x then minus n else pos n)
signed-below (pos a) n = refl
signed-below (negsuc a) n = refl

signed-InRange : (c : Bool) (n : ℕ) → n < 2 ^ 63 → InRange (2 ^ 63) (signed c n)
signed-InRange true n h = sub_ℕ-InRange 0 n (omega arith) (omega arith)
signed-InRange false n h = omega arith

magnitude-zero : (y : ℤ) → magnitude y ≡ 0 → y ≡ pos 0
magnitude-zero (pos n) e = rw e
magnitude-zero (negsuc n) e = absurd (omega arith)

magnitude-small : (x : ℤ) → InRange (2 ^ 60) x → magnitude x ≤ 2 ^ 60
magnitude-small (pos n) h = omega arith
magnitude-small (negsuc n) h = omega arith

-- A division of two fixnums, by a magnitude that is not zero.
quotient :
    (x y : ℤ) (c : Bool) (q : ℕ)
    → q ≤ magnitude x
    → InRange (2 ^ 60) x
    → long (signed c q) ≡ ok (signed c q)
quotient x y c q h fits =
    let small = magnitude-small x fits in
    long-InRange (signed c q) (signed-InRange c q (omega arith))

module _ (x y : ℤ) (fits_x : InRange (2 ^ 60) x) (fits_y : InRange (2 ^ 60) y) where
  add-IsValue : IsValue op_add x y (long (x +ℤ y))
  unfolding ◌+ℤ◌
  add-IsValue = long-InRange _ (sub_ℕ-InRange _ _ (omega arith) (omega arith))

  sub-IsValue : IsValue op_sub x y (long (x -ℤ y))
  unfolding ◌-ℤ◌
  sub-IsValue = long-InRange _ (sub_ℕ-InRange _ _ (omega arith) (omega arith))

  div-IsValue : IsValue op_div x y (long_div x y)
  unfolding long_div
  div-IsValue = elim (Bool-cases (abs y == 0)) [
    | inl none_left ↦ let e = abs-magnitude y in inl (magnitude-zero y (ground arith), rw none_left)
    | inr some_left ↦
        let e = abs-magnitude y in
        let d = divided x y (ground arith) in
        let less : magnitude x / magnitude y ≤ magnitude x =
          div-le_self (magnitude x) (magnitude y) in
        inr (
          magnitude x / magnitude y,
          magnitude x % magnitude y,
          d,
          rw (
            some_left,
            abs-magnitude x,
            e,
            quotient x y (differ (is_negative x) (is_negative y)) (magnitude x / magnitude y) less
                fits_x,
            signed-alike x y (magnitude x / magnitude y),
          ),
        )
  ]

  mod-IsValue : IsValue op_mod x y (long_mod x y)
  unfolding long_mod
  mod-IsValue = elim (Bool-cases (abs y == 0)) [
    | inl none_left ↦ let e = abs-magnitude y in inl (magnitude-zero y (ground arith), rw none_left)
    | inr some_left ↦
        let e = abs-magnitude y in
        let d = divided x y (ground arith) in
        let less : magnitude x % magnitude y ≤ magnitude x =
          omega (arith, d.sum, some_left, e, mod-le (magnitude x) (magnitude y)) in
        inr (
          magnitude x / magnitude y,
          magnitude x % magnitude y,
          d,
          rw (
            some_left,
            abs-magnitude x,
            e,
            quotient x y (is_negative x) (magnitude x % magnitude y) less fits_x,
            signed-below x (magnitude x % magnitude y),
          ),
        )
  ]

  pub apply_long-IsValue : (op : ArithmeticOp) → IsValue op x y (apply_long op x y)
  unfolding apply_long
  apply_long-IsValue op_mod = mod-IsValue
  apply_long-IsValue op_div = div-IsValue
  apply_long-IsValue op_mul = long_lem (x *ℤ y)
  apply_long-IsValue op_add = add-IsValue
  apply_long-IsValue op_sub = sub-IsValue
  apply_long-IsValue op_bit_and = refl
  apply_long-IsValue op_bit_ior = refl
  apply_long-IsValue op_bit_xor = refl

below_lem : (x y : ℤ) → (ltb_ℤ x y ≡ true) ↔ IsBelow x y
below_lem (pos m) (pos n) = (λ e. ground arith, λ h. ground arith)
below_lem (pos m) (negsuc n) = (λ e. ground arith, λ h. elim h [ ])
below_lem (negsuc m) (pos n) = (λ e. tt, λ h. ground arith)
below_lem (negsuc m) (negsuc n) = (λ e. ground arith, λ h. ground arith)

equal_self : (x : ℤ) → compare_long op_eq x x ≡ true
unfolding compare_long
equal_self (pos n) = ground arith
equal_self (negsuc n) = ground arith

equal_only : (x y : ℤ) → compare_long op_eq x y ≡ true → x ≡ y
unfolding compare_long
equal_only (pos m) (pos n) e = ap pos (ground arith)
equal_only (pos m) (negsuc n) e = ground arith
equal_only (negsuc m) (pos n) e = ground arith
equal_only (negsuc m) (negsuc n) e = ap negsuc (ground arith)

equal_lem : (x y : ℤ) → (compare_long op_eq x y ≡ true) ↔ (x ≡ y)
equal_lem x y = (equal_only x y, λ h. subst (λ z. compare_long op_eq x z ≡ true) h (equal_self x))

pub compare_long-Holds : (op : CompareOp) (x y : ℤ) → (compare_long op x y ≡ true) ↔ Holds op x y
unfolding compare_long
compare_long-Holds op_eq x y = equal_lem x y
compare_long-Holds op_gt x y = below_lem y x
compare_long-Holds op_lt x y = below_lem x y
