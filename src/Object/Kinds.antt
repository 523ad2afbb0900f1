-- ===== src/Object/Kinds.antt =====
-- What a word stands for, by the `switch` on its tag in `print_obj` of vm/native.c, and what the
-- macros of vm/types.h make. `print_const` reads the number of a constant as an `int`.
use lgears.Prelude.{
  ℕ, zero, suc, ◌%◌, ◌^◌, ◌<◌, ◌≡◌, refl, arith, Bool, true, false, not, ◌==◌, if◌then◌else◌,
}
use lgears.Prelude.Int.{ℤ, pos, negsuc, to_word, signed32, InRange}
use lgears.Object.{
  get_tag, fixnum, make_fixnum, ptr, make_heap_ptr, make_const_ptr, make_func, char, make_char,
  define_const, cif, cnull, ctrue, cfalse, cvoid, ceof, is_true, is_false, is_null,
}
use lgears.Object.Fixnum.{make_obj-sum, make_fixnum-sum, fixnum-make_fixnum, char-make_char}
use lgears.Object.Pointer.{get_tag-mod, ptr-make_tagged_ptr}
use lgears.Object.Tag

pub data Kind : Type 0 where
  number : ℤ → Kind
  heap_object : ℕ → Kind
  const_object : ℕ → Kind
  character : ℤ → Kind
  function : ℕ → Kind
  constant : ℤ → Kind
  unknown : Kind

unfoldable pub kind : ℕ → Kind
kind o =
    let tag = get_tag o in
    if tag == Tag.const_ptr
    then const_object (ptr o)
    else if tag == Tag.ptr
    then heap_object (ptr o)
    else if tag == Tag.fixnum
    then number (fixnum o)
    else if tag == Tag.char
    then character (char o)
    else if tag == Tag.func
    then function (ptr o)
    else if tag == Tag.const
    then constant (signed32 (to_word (fixnum o)))
    else unknown

-- The word that stands for a value.
unfoldable pub make : Kind → ℕ
make (number v) = make_fixnum v
make (heap_object p) = make_heap_ptr p
make (const_object p) = make_const_ptr p
make (character v) = make_char v
make (function p) = make_func p
make (constant (pos n)) = define_const n
make (constant (negsuc n)) = 7
make unknown = 7

abbrev pub IsAligned : ℕ → Type 0
IsAligned p = (p < 2 ^ 64) × (p % 8 ≡ 0)

-- The values that a word has room for.
abbrev pub Fits : Kind → Type 0
Fits (number v) = InRange (2 ^ 60) v
Fits (heap_object p) = IsAligned p
Fits (const_object p) = IsAligned p
Fits (character v) = InRange (2 ^ 15) v
Fits (function p) = IsAligned p
Fits (constant (pos n)) = n < 5
Fits (constant (negsuc n)) = ⊥
Fits unknown = Unit {0}

pub number_tag : (v : ℤ) → get_tag (make_fixnum v) ≡ Tag.fixnum
number_tag v = omega (arith, get_tag-mod (make_fixnum v), make_fixnum-sum v)

character_tag : (v : ℤ) → get_tag (make_char v) ≡ Tag.char
unfolding make_char
character_tag v =
    omega (arith, get_tag-mod (make_char v), make_obj-sum (to_word v) Tag.char (omega arith))

constant_kind : (n : ℕ) → n < 5 → kind (define_const n) ≡ constant (pos n)
unfolding kind define_const fixnum get_tag
constant_kind zero h = refl
constant_kind (suc zero) h = refl
constant_kind (suc (suc zero)) h = refl
constant_kind (suc (suc (suc zero))) h = refl
constant_kind (suc (suc (suc (suc zero)))) h = refl
constant_kind (suc (suc (suc (suc (suc n))))) h = absurd (omega arith)

-- The word made for a value that fits is read back, by its tag, as the value that it was made for;
-- so words of two different kinds, or with two different values, differ.
pub kind-make : (k : Kind) → Fits k → kind (make k) ≡ k
unfolding kind make get_tag
kind-make (number v) h = rw (number_tag v, (fixnum-make_fixnum v (omega arith)).1 h)
kind-make (heap_object p) h =
    let (address, tag) = ptr-make_tagged_ptr p Tag.ptr h.0 h.1 (omega arith) in rw (tag, address)
kind-make (const_object p) h =
    let (address, tag) = ptr-make_tagged_ptr p Tag.const_ptr h.0 h.1 (omega arith) in
    rw (tag, address)
kind-make (character v) h = rw (character_tag v, char-make_char v h)
kind-make (function p) h =
    let (address, tag) = ptr-make_tagged_ptr p Tag.func h.0 h.1 (omega arith) in rw (tag, address)
kind-make (constant (pos n)) h = constant_kind n h
kind-make (constant (negsuc n)) h = absurd h
kind-make unknown h = refl

-- `CIF` makes one of the two booleans, the one of the test, and never the empty list.
pub is_true-cif :
    (b : Bool) → (is_true (cif b) ≡ b) × (is_false (cif b) ≡ not b) × (is_null (cif b) ≡ false)
unfolding cif
is_true-cif true = (refl, refl, refl)
is_true-cif false = (refl, refl, refl)

-- The five constants as words.
pub constants : (cnull ≡ 5) × (ctrue ≡ 13) × (cfalse ≡ 21) × (cvoid ≡ 29) × (ceof ≡ 37)
unfolding define_const
constants = (refl, refl, refl, refl, refl)
