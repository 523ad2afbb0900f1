-- ===== src/Object/Pointer.antt =====
-- Tagged pointers: the address of an aligned block and the tag are both read back.
use lgears.Prelude.{ℕ, ◌+◌, ◌*◌, ◌/◌, ◌%◌, ◌^◌, ◌<◌, ◌≡◌, arith}
use lgears.Prelude.Bits.{bit_or-tag, bit_and-clear, bit_and-seven}
use lgears.Object.{ptr, make_tagged_ptr, get_tag, unset_tag}

pub unset_tag-div : (o : ℕ) → o < 2 ^ 64 → unset_tag o ≡ o / 8 * 8
unfolding unset_tag
unset_tag-div o h = bit_and-clear o h

pub get_tag-mod : (o : ℕ) → get_tag o ≡ o % 8
unfolding get_tag
get_tag-mod o = bit_and-seven o

pub make_tagged_ptr-sum :
    (p tag : ℕ) → p < 2 ^ 64 → tag < 8 → make_tagged_ptr p tag ≡ p / 8 * 8 + tag
unfolding make_tagged_ptr
make_tagged_ptr-sum p tag h t = rw (unset_tag-div p h) (bit_or-tag (p / 8) tag t)

-- The address of a block of words, which is a multiple of eight, comes back from a pointer with
-- any tag, and so does the tag.
pub ptr-make_tagged_ptr :
    (p tag : ℕ)
    → p < 2 ^ 64
    → p % 8 ≡ 0
    → tag < 8
    → (ptr (make_tagged_ptr p tag) ≡ p) × (get_tag (make_tagged_ptr p tag) ≡ tag)
unfolding ptr
ptr-make_tagged_ptr p tag h aligned t =
    let sum = make_tagged_ptr-sum p tag h t in
    (
      omega (arith, unset_tag-div (make_tagged_ptr p tag) (omega arith)),
      omega (arith, get_tag-mod (make_tagged_ptr p tag)),
    )
