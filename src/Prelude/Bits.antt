-- ===== src/Prelude/Bits.antt =====
-- Laws of the bit operations that the tags of objects need: a mask of low ones keeps a remainder,
-- the mask of a tag clears it, and `or` of a shifted value with a tag is a sum.
use Prim.Native.Nat.{
  ℕ, zero, suc, ◌+◌, ◌-◌, ◌*◌, ◌/◌, ◌%◌, ◌^◌, ◌≤◌, ◌<◌, min, max, bit_and, bit_or, digits,
  bit_and-bitwise, bit_or-bitwise,
}
use mathlib.Core.Path.{◌≡◌, refl, ap, ◌∙◌}
use native.Mathlib.Omega.{arith}
use native.Mathlib.Nat.{
  two-pow-succ, one-le-pow, mod-lt, mod-eq_of_lt, div-add-mod', mul-add, mul-add-mod_self_right,
}

-- The digit recursion does not depend on its fuel, once that reaches the number.
digits_enough :
    (base : ℕ → ℕ) (digit : ℕ → ℕ → ℕ) (n m a b : ℕ)
    → a ≤ n
    → a ≤ m
    → digits base digit n a b ≡ digits base digit m a b
digits_enough base digit zero zero a b p q = refl
digits_enough base digit (suc n) zero zero b p q = refl
digits_enough base digit zero (suc m) zero b p q = refl
digits_enough base digit (suc n) (suc m) zero b p q = refl
digits_enough base digit zero m (suc a) b p q = absurd (omega arith)
digits_enough base digit (suc n) zero (suc a) b p q = absurd (omega arith)
digits_enough base digit (suc n) (suc m) (suc a) b p q =
    rw (digits_enough base digit n m (suc a / 2) (b / 2) (omega arith) (omega arith))

-- The lowest digit of each operation, and the same operation on the other digits.
pub bit_or-low : (a b : ℕ) → bit_or a b ≡ bit_or (a / 2) (b / 2) * 2 + max (a % 2) (b % 2)
bit_or-low zero b = omega (arith, bit_or-bitwise 0 b, bit_or-bitwise 0 (b / 2))
bit_or-low (suc a) b = omega (
  arith,
  bit_or-bitwise (suc a) b,
  bit_or-bitwise (suc a / 2) (b / 2),
  digits_enough (λ y. y) max a (suc a / 2) (suc a / 2) (b / 2) (omega arith) (omega arith),
)

pub bit_and-low : (a b : ℕ) → bit_and a b ≡ bit_and (a / 2) (b / 2) * 2 + min (a % 2) (b % 2)
bit_and-low zero b = omega (arith, bit_and-bitwise 0 b, bit_and-bitwise 0 (b / 2))
bit_and-low (suc a) b = omega (
  arith,
  bit_and-bitwise (suc a) b,
  bit_and-bitwise (suc a / 2) (b / 2),
  digits_enough (λ y. 0) min a (suc a / 2) (suc a / 2) (b / 2) (omega arith) (omega arith),
)

zero-bit_or : (b : ℕ) → bit_or 0 b ≡ b
zero-bit_or b = bit_or-bitwise 0 b

or_zero_within : (n a : ℕ) → a ≤ n → bit_or a 0 ≡ a
or_zero_within n zero h = refl
or_zero_within zero (suc a) h = absurd (omega arith)
or_zero_within (suc n) (suc a) h =
    omega (arith, bit_or-low (suc a) 0, or_zero_within n (suc a / 2) (omega arith))

bit_or-zero : (a : ℕ) → bit_or a 0 ≡ a
bit_or-zero a = or_zero_within a a (omega arith)

-- A tag of three bits joins a value that is a multiple of eight.
pub bit_or-tag : (v tag : ℕ) → tag < 8 → bit_or (v * 8) tag ≡ v * 8 + tag
bit_or-tag v tag h =
    let cleared : tag / 2 / 2 / 2 ≡ 0 = omega arith in
    omega (
      arith,
      bit_or-low (v * 8) tag,
      bit_or-low (v * 8 / 2) (tag / 2),
      bit_or-low (v * 8 / 2 / 2) (tag / 2 / 2),
      ap (bit_or (v * 8 / 2 / 2 / 2)) cleared,
      bit_or-zero (v * 8 / 2 / 2 / 2),
    )

zero-bit_and : (b : ℕ) → bit_and 0 b ≡ 0
zero-bit_and b = bit_and-bitwise 0 b

and_zero_within : (n a : ℕ) → a ≤ n → bit_and a 0 ≡ 0
and_zero_within n zero h = refl
and_zero_within zero (suc a) h = absurd (omega arith)
and_zero_within (suc n) (suc a) h =
    omega (arith, bit_and-low (suc a) 0, and_zero_within n (suc a / 2) (omega arith))

pub bit_and-zero : (a : ℕ) → bit_and a 0 ≡ 0
bit_and-zero a = and_zero_within a a (omega arith)

mod_double : (p a : ℕ) → 0 < p → a % (p + p) ≡ a / 2 % p * 2 + a % 2
mod_double p a h =
    let low = a / 2 % p * 2 + a % 2 in
    let whole : a ≡ a / 2 / p * (p + p) + low =
      omega (arith, div-add-mod' (a / 2) p, mul-add (a / 2 / p) p p) in
    ap (λ n. n % (p + p)) whole
    ∙ mul-add-mod_self_right (a / 2 / p) (p + p) low
    ∙ mod-eq_of_lt (omega (arith, mod-lt (a / 2) h))

-- A mask of `k` ones keeps the remainder modulo `2 ^ k`.
pub bit_and-ones : (k a : ℕ) → bit_and a (2 ^ k - 1) ≡ a % 2 ^ k
bit_and-ones zero a = omega (arith, bit_and-zero a)
bit_and-ones (suc k) a =
    let p = 2 ^ k in
    let some_p : 0 < p = one-le-pow k 2 (omega arith) in
    let half : (p + p - 1) / 2 ≡ p - 1 = omega arith in
    let odd : (p + p - 1) % 2 ≡ 1 = omega arith in
    rw (two-pow-succ k) (
      omega (
        arith,
        bit_and-low a (p + p - 1),
        odd,
        ap (bit_and (a / 2)) half,
        bit_and-ones k (a / 2),
        mod_double p a some_p,
      ))

pub bit_and-seven : (a : ℕ) → bit_and a 7 ≡ a % 8
bit_and-seven a = bit_and-ones 3 a

-- The mask that clears a tag of three bits out of a 64-bit word.
pub bit_and-clear : (a : ℕ) → a < 2 ^ 64 → bit_and a (2 ^ 64 - 8) ≡ a / 8 * 8
bit_and-clear a h = omega (
  arith,
  bit_and-low a (2 ^ 64 - 8),
  bit_and-low (a / 2) (2 ^ 63 - 4),
  bit_and-low (a / 2 / 2) (2 ^ 62 - 2),
  bit_and-ones 61 (a / 2 / 2 / 2),
)
