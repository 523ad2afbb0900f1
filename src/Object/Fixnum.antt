-- ===== src/Object/Fixnum.antt =====
-- Fixnums and characters come back as they were stored, when they fit the bits beside the tag.
use lgears.Prelude.{ℕ, ◌+◌, ◌-◌, ◌*◌, ◌%◌, ◌^◌, ◌<◌, ◌≡◌, ◌↔◌, ◌∙◌, arith}
use lgears.Prelude.Int.{ℤ, pos, negsuc, to_word, signed64, InRange}
use lgears.Prelude.Bits.{bit_or-tag}
use lgears.Object.{make_obj, make_fixnum, untag_long, fixnum, char, make_char}

-- A shift by three drops the three highest bits of the value.
pub make_obj-sum : (o tag : ℕ) → tag < 8 → make_obj o tag ≡ o % 2 ^ 61 * 8 + tag
unfolding make_obj
make_obj-sum o tag h =
    let shifted : o * 8 % 2 ^ 64 ≡ o % 2 ^ 61 * 8 = omega arith in
    rw shifted (bit_or-tag (o % 2 ^ 61) tag h)

pub make_fixnum-sum : (v : ℤ) → make_fixnum v ≡ to_word v % 2 ^ 61 * 8
unfolding make_fixnum
make_fixnum-sum v = omega (arith, make_obj-sum (to_word v) 0 (omega arith))

-- What is read back is the value of the 61 low bits, as a signed number.
abbrev pub signed61 : ℕ → ℤ
signed61 w = untag_long (signed64 (w % 2 ^ 61 * 8))

fixnum_wraps : (v : ℤ) → fixnum (make_fixnum v) ≡ signed61 (to_word v)
unfolding fixnum
fixnum_wraps v = rw (make_fixnum-sum v)

-- A `long` is read back from the fixnum made of it exactly when it lies between -(2 ^ 60) and
-- 2 ^ 60 - 1.
pub fixnum-make_fixnum :
    (v : ℤ) → InRange (2 ^ 63) v → (fixnum (make_fixnum v) ≡ v) ↔ InRange (2 ^ 60) v
unfolding untag_long
fixnum-make_fixnum (pos n) long =
    let wraps = fixnum_wraps (pos n) in
    (λ e. (ground arith, ground arith), λ fits. wraps ∙ ground arith)
fixnum-make_fixnum (negsuc n) long =
    let wraps = fixnum_wraps (negsuc n) in
    (λ e. (ground arith, ground arith), λ fits. wraps ∙ ground arith)

-- A `short` is read back from the character made of it.
pub char-make_char : (v : ℤ) → InRange (2 ^ 15) v → char (make_char v) ≡ v
unfolding char make_char
char-make_char (pos n) h = rw (make_obj-sum (n % 2 ^ 64) 3 (omega arith)) (ground arith)
char-make_char (negsuc n) h =
    rw (make_obj-sum (2 ^ 64 - 1 - n % 2 ^ 64) 3 (omega arith)) (ground arith)
