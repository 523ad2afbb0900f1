-- ===== src/Object.antt =====
-- Tagged words, vm/types.h: an `obj_t` is a 64-bit word whose low three bits are its tag. Shifts
-- and masks are written as the macros write them; `Object/Fixnum.antt`, `Object/Pointer.antt` and
-- `Object/Kinds.antt` have the laws.
pub mod Tag
pub mod Fixnum
pub mod Pointer
pub mod Kinds
use lgears.Prelude.{ℕ, ◌*◌, ◌/◌, ◌%◌, ◌^◌, Bool, ◌||◌, bit_and, bit_or, ◌==◌, if◌then◌else◌}
use lgears.Prelude.Int.{ℤ, pos, negsuc, to_word, signed64, signed16}

-- `((o) << TAG_SIZE) | tag`
unfoldable pub add_tag : ℕ → ℕ → ℕ
add_tag o tag = bit_or (o * 2 ^ Tag.size % 2 ^ 64) tag

-- `(o) >> TAG_SIZE`, of an unsigned word and of a `long`, whose sign the shift keeps
unfoldable pub untag : ℕ → ℕ
untag o = o / 2 ^ Tag.size

unfoldable pub untag_long : ℤ → ℤ
untag_long (pos n) = pos (n / 2 ^ Tag.size)
untag_long (negsuc n) = negsuc (n / 2 ^ Tag.size)

unfoldable pub set_tag : ℕ → ℕ → ℕ
set_tag o tag = bit_or o tag

unfoldable pub unset_tag : ℕ → ℕ
unset_tag o = bit_and o Tag.unmask

unfoldable pub get_tag : ℕ → ℕ
get_tag o = bit_and o Tag.mask

abbrev pub test_tag : ℕ → ℕ → Bool
test_tag o tag = get_tag o == tag

unfoldable pub make_obj : ℕ → ℕ → ℕ
unfolding add_tag
make_obj o tag = add_tag o tag

unfoldable pub make_fixnum : ℤ → ℕ
unfolding make_obj
make_fixnum v = make_obj (to_word v) Tag.fixnum

unfoldable pub fixnum : ℕ → ℤ
unfolding untag_long
fixnum o = untag_long (signed64 o)

abbrev pub is_fixnum : ℕ → Bool
is_fixnum v = test_tag v Tag.fixnum

-- The address in a tagged pointer, and a pointer with a tag.
unfoldable pub ptr : ℕ → ℕ
unfolding unset_tag
ptr o = unset_tag o

unfoldable pub make_tagged_ptr : ℕ → ℕ → ℕ
unfolding set_tag unset_tag
make_tagged_ptr v tag = set_tag (unset_tag v) tag

abbrev pub make_heap_ptr : ℕ → ℕ
make_heap_ptr v = make_tagged_ptr v Tag.ptr

abbrev pub make_const_ptr : ℕ → ℕ
make_const_ptr v = make_tagged_ptr v Tag.const_ptr

abbrev pub make_func : ℕ → ℕ
make_func v = make_tagged_ptr v Tag.func

abbrev pub is_heap_ptr : ℕ → Bool
is_heap_ptr v = test_tag v Tag.ptr

abbrev pub is_const_ptr : ℕ → Bool
is_const_ptr v = test_tag v Tag.const_ptr

unfoldable pub char : ℕ → ℤ
unfolding untag
char o = signed16 (untag o)

unfoldable pub make_char : ℤ → ℕ
unfolding make_obj
make_char v = make_obj (to_word v) Tag.char

abbrev pub is_char : ℕ → Bool
is_char v = test_tag v Tag.char

abbrev pub is_const : ℕ → Bool
is_const v = test_tag v Tag.const

-- `DEFINE_CONST`
unfoldable pub define_const : ℕ → ℕ
unfolding make_obj
define_const val = make_obj val Tag.const

abbrev pub cnull : ℕ
unfolding define_const
cnull = define_const 0

abbrev pub ctrue : ℕ
unfolding define_const
ctrue = define_const 1

abbrev pub cfalse : ℕ
unfolding define_const
cfalse = define_const 2

abbrev pub cvoid : ℕ
unfolding define_const
cvoid = define_const 3

abbrev pub ceof : ℕ
unfolding define_const
ceof = define_const 4

abbrev pub is_null : ℕ → Bool
is_null o = o == cnull

abbrev pub is_true : ℕ → Bool
is_true o = o == ctrue

abbrev pub is_false : ℕ → Bool
is_false o = o == cfalse

abbrev pub is_bool : ℕ → Bool
is_bool o = is_true o || is_false o

abbrev pub is_void : ℕ → Bool
is_void o = o == cvoid

abbrev pub is_eof : ℕ → Bool
is_eof o = o == ceof

-- `CIF`
unfoldable pub cif : Bool → ℕ
unfolding define_const
cif a = if a then ctrue else cfalse
