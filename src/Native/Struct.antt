-- ===== src/Native/Struct.antt =====
-- `struct-ref` and `struct-set!` of vm/struct.c.
use lgears.Prelude.{
  ◌-◌, ◌%◌, ◌∙◌, ℕ, ◌^◌, ◌<◌, ◌≤◌, ◌≡◌, ◌⊎◌, inl, inr, refl, arith, Bool, true, false, some, List,
  ◌==◌, if◌then◌else◌, length, get_elem?, set, Bool-cases, ltb,
}
use lgears.Prelude.Int.{ℤ, pos, negsuc, pos_part, InRange}
use lgears.Prelude.Run.{ok}
use lgears.Object.{make_fixnum, is_fixnum, is_heap_ptr, ptr, cvoid}
use lgears.Object.Fixnum.{fixnum-make_fixnum}
use lgears.Object.Kinds.{number_tag}
use lgears.Memory.{Memory, Block, Payload, struct, write, is_type}
use lgears.Machine.{Thread}
use lgears.Types.{t_struct}
use lgears.Machine.Stack.{store-set, get_elem?-some, get_elem?-set}
use lgears.Native.{
  rc_error, return_obj, is_struct, assign, int_of, in_range, struct_ref, struct_set,
}

-- The object is a structure on the heap with such fields.
pub record HasStruct (t : Thread) (obj : ℕ) (b : Block) (type_name array : ℕ) (fields : List ℕ)
    : Type 0 where
  pub tested : is_struct t obj ≡ true
  pub on_heap : is_heap_ptr obj ≡ true
  pub block : t.memory (ptr obj) ≡ some b
  pub body : b.body ≡ struct type_name (length fields) array fields

pub in_range-bound : (p : ℤ) (n : ℕ) → in_range p n ≡ true → pos_part p < n
in_range-bound (pos k) n h = ground arith
in_range-bound (negsuc k) n h = ground arith

pub is_type-write :
    (m : Memory) (obj tid : ℕ) (b : Block) (body : Payload)
    → m (ptr obj) ≡ some b
    → is_type (write m (ptr obj) (some (record { hdr = b.hdr; body = body }))) obj tid
      ≡ is_type m obj tid
unfolding is_type
is_type-write m obj tid b body e =
    let same : (ptr obj == ptr obj) ≡ true = ground arith in rw (same, e)

pub int_of-make_fixnum : (n : ℕ) → n < 2 ^ 31 → int_of (make_fixnum (pos n)) ≡ pos n
int_of-make_fixnum n h =
    let fits : InRange (2 ^ 60) (pos n) = omega arith in
    let read = (fixnum-make_fixnum (pos n) (omega arith)).1 fits in
    let low : n % 2 ^ 64 % 2 ^ 32 ≡ n = omega arith in
    let small : ltb n (2 ^ 31) ≡ true = ground arith in rw (read, low, small)

-- A fixnum that an `int` has room for is read as its value.
pub int_of-int : (z : ℤ) → InRange (2 ^ 31) z → int_of (make_fixnum z) ≡ z
int_of-int (pos n) h = int_of-make_fixnum n (omega arith)
int_of-int (negsuc n) h =
    let fits : InRange (2 ^ 60) (negsuc n) = omega arith in
    let read = (fixnum-make_fixnum (negsuc n) (omega arith)).1 fits in
    let low : (2 ^ 64 - 1 - n % 2 ^ 64) % 2 ^ 32 ≡ 2 ^ 32 - 1 - n = omega arith in
    let large : ltb (2 ^ 32 - 1 - n) (2 ^ 31) ≡ false = ground arith in
    let back : 2 ^ 32 - 1 - (2 ^ 32 - 1 - n) ≡ n = omega arith in rw (read, low, large, back)

pub is_fixnum-make_fixnum : (v : ℤ) → is_fixnum (make_fixnum v) ≡ true
is_fixnum-make_fixnum v = ground (arith, number_tag v)

pub in_range-small : (n size : ℕ) → n < size → in_range (pos n) size ≡ true
in_range-small n size h = ground arith

module _ (obj : ℕ) (b : Block) (type_name array : ℕ) (fields : List ℕ) where
  -- A reference to a structure on the heap by a fixnum gives the field at the position, where this
  -- is inside, and an error otherwise; it never reads outside the fields.
  pub struct_ref_lem :
      (t : Thread) (opos : ℕ)
      → HasStruct t obj b type_name array fields
      → is_fixnum opos ≡ true
      → (in_range (int_of opos) (length fields) ≡ false)
          × (struct_ref t obj opos ≡ ok (rc_error, t))
        ⊎ (in_range (int_of opos) (length fields) ≡ true)
          × (val : ℕ) × (get_elem? fields (pos_part (int_of opos)) ≡ some val)
          × (struct_ref t obj opos ≡ return_obj t val)
  unfolding struct_ref
  struct_ref_lem t opos h fix = elim (Bool-cases (in_range (int_of opos) (length fields))) [
    | inr outside ↦ inl (outside, rw (h.tested, fix, h.block, h.body, outside))
    | inl inside ↦
        let (val, e) =
          get_elem?-some fields (pos_part (int_of opos))
            (in_range-bound (int_of opos) (length fields) inside) in
        inr (inside, val, e, rw (h.tested, fix, h.block, h.body, inside, e))
  ]

some-if : (c : Bool) (x y : ℕ) → (if c then some x else some y) ≡ some (if c then x else y)
some-if true x y = refl
some-if false x y = refl

-- The thread after an assignment to one field.
abbrev pub updated : Thread → ℕ → Block → ℕ → ℕ → List ℕ → ℕ → ℕ → Thread
updated t obj b type_name array fields n val =
    assign t obj b (struct type_name (length fields) array (set fields n val))

module _ (t : Thread) (obj : ℕ) (b : Block) (type_name array : ℕ) (fields : List ℕ)
    (h : HasStruct t obj b type_name array fields) (n val : ℕ) (inside : n < length fields)
    (int : length fields ≤ 2 ^ 31) where
  struct_set-updated :
      struct_set t obj (make_fixnum (pos n)) val
      ≡ return_obj (updated t obj b type_name array fields n val) cvoid
  unfolding struct_set
  struct_set-updated = rw (
    h.tested,
    h.on_heap,
    h.block,
    h.body,
    int_of-make_fixnum n (omega arith),
    in_range-small n (length fields) inside,
    store-set fields n val inside,
  )

  -- An assignment to a field of a structure on the heap is read back there, and every other field
  -- is read as before.
  pub struct_ref-struct_set :
      (k : ℕ)
      → k < length fields
      → (old : ℕ) × (get_elem? fields k ≡ some old)
        × (struct_set t obj (make_fixnum (pos n)) val
            ≡ return_obj (updated t obj b type_name array fields n val) cvoid)
        × (struct_ref (updated t obj b type_name array fields n val) obj (make_fixnum (pos k))
            ≡ return_obj
                (updated t obj b type_name array fields n val)
                (if n == k then val else old))
  unfolding struct_ref
  struct_ref-struct_set k below =
      let (old, e) = get_elem?-some fields k below in
      let after = updated t obj b type_name array fields n val in
      let kept : is_struct after obj ≡ true =
        is_type-write t.memory obj t_struct b
          (struct type_name (length fields) array (set fields n val)) h.block
        ∙ h.tested in
      let same : (ptr obj == ptr obj) ≡ true = ground arith in
      let new : get_elem? (set fields n val) k ≡ some (if n == k then val else old) =
        rw (get_elem?-set fields n k val inside, e) (some-if (n == k) val old) in
      let read : struct_ref after obj (make_fixnum (pos k))
          ≡ return_obj after (if n == k then val else old) =
        rw (
          kept,
          is_fixnum-make_fixnum (pos k),
          same,
          int_of-make_fixnum k (omega arith),
          in_range-small k (length fields) below,
          new,
        ) in
      (old, e, struct_set-updated, read)
