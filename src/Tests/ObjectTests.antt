-- ===== src/Tests/ObjectTests.antt =====
-- Tagged words.
use lgears.Prelude.{◌-◌, ◌^◌, ◌≡◌, ◌↔◌, refl, arith}
use lgears.Prelude.Int.{pos, negsuc, InRange}
use lgears.Object.{
  make_fixnum, fixnum, make_char, char, make_tagged_ptr, ptr, get_tag, cnull, ctrue, cfalse,
  define_const, cif, is_true, is_false, is_null,
}
use lgears.Object.Fixnum.{fixnum-make_fixnum, char-make_char}
use lgears.Object.Kinds.{heap_object, kind, make, kind-make, is_true-cif}
use lgears.Object.Pointer.{ptr-make_tagged_ptr}
use lgears.Prelude.{true, false}

words : Unit {0}
unfolding make_fixnum fixnum make_char char make_tagged_ptr ptr get_tag define_const
words = tt

negative_fixnum : (make_fixnum (negsuc 4) ≡ 2 ^ 64 - 40) × (fixnum (2 ^ 64 - 40) ≡ negsuc 4)
unfolding words
negative_fixnum = (refl, refl)

-- The bit above the sign bit of a fixnum is lost.
large_fixnum : fixnum (make_fixnum (pos (2 ^ 60))) ≡ negsuc (2 ^ 60 - 1)
unfolding words
large_fixnum = refl

constants : (cnull ≡ 5) × (ctrue ≡ 13) × (cfalse ≡ 21)
unfolding words
constants = (refl, refl, refl)

fixnum-make_fixnum_example :
    (fixnum (make_fixnum (negsuc 4)) ≡ negsuc 4) ↔ InRange (2 ^ 60) (negsuc 4)
fixnum-make_fixnum_example = fixnum-make_fixnum (negsuc 4) (omega arith)

char-make_char_example : char (make_char (pos 955)) ≡ pos 955
char-make_char_example = char-make_char (pos 955) (omega arith)

ptr-make_tagged_ptr_example :
    (ptr (make_tagged_ptr 4096 1) ≡ 4096) × (get_tag (make_tagged_ptr 4096 1) ≡ 1)
ptr-make_tagged_ptr_example = ptr-make_tagged_ptr 4096 1 (omega arith) refl (omega arith)

kind-make_example : kind (make (heap_object 4096)) ≡ heap_object 4096
kind-make_example = kind-make (heap_object 4096) (omega arith)

is_true-cif_example :
    (is_true (cif true) ≡ true) × (is_false (cif true) ≡ false) × (is_null (cif true) ≡ false)
is_true-cif_example = is_true-cif true
