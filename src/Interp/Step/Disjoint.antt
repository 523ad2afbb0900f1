-- ===== src/Interp/Step/Disjoint.antt =====
-- The types that OP_TYPE_TEST tells apart: no object has two of them, but that a list is the empty
-- list or a pair.
use lgears.Prelude.{
  ℕ, ◌≡◌, ◌≢◌, ◌⊎◌, inl, inr, refl, sym, ◌∙◌, arith, Bool, true, false, ◌&&◌, ◌||◌, Option, some,
  none, ◌==◌, if◌then◌else◌,
}
use lgears.Prelude.Run.{ok}
use lgears.Object.{
  get_tag, test_tag, is_char, is_bool, is_true, is_false, is_heap_ptr, is_const_ptr, ptr,
}
use lgears.Object.Tag
use lgears.Object.Kinds.{constants}
use lgears.Memory.{Memory, Block, is_type}
use lgears.Types.{t_closure, t_pair, t_cont, t_string, t_symbol, t_struct, t_bytevector}
use lgears.Machine.{Thread}
use lgears.Lists.{is_func}
use lgears.Interp.Step.{
  TypeTest, tt_fixnum, tt_null, tt_list, tt_pair, tt_procedure, tt_boolean, tt_char, tt_symbol,
  tt_struct, tt_string, tt_bytevector, tt_eof, test_type,
}

-- The type of a constant, by its word, and of a block, by the type in its header.
abbrev constant_type : ℕ → Option TypeTest
constant_type o =
    if o == 5
    then some tt_null
    else if o == 13
    then some tt_boolean
    else if o == 21
    then some tt_boolean
    else if o == 37
    then some tt_eof
    else none

abbrev block_type : ℕ → Option TypeTest
block_type type_id =
    if type_id == t_pair
    then some tt_pair
    else if type_id == t_symbol
    then some tt_symbol
    else if type_id == t_struct
    then some tt_struct
    else if type_id == t_string
    then some tt_string
    else if type_id == t_bytevector
    then some tt_bytevector
    else if type_id == t_closure
    then some tt_procedure
    else if type_id == t_cont
    then some tt_procedure
    else none

-- The type of an object, by its tag.
abbrev type_by_tag : Memory → ℕ → ℕ → Option TypeTest
type_by_tag m o tag =
    if tag == Tag.fixnum
    then some tt_fixnum
    else if tag == Tag.char
    then some tt_char
    else if tag == Tag.func
    then some tt_procedure
    else if tag == Tag.const
    then constant_type o
    else elim (m (ptr o)) [ some b ↦ block_type b.hdr.type_id | none ↦ none ]

abbrev type_of : Thread → ℕ → Option TypeTest
type_of t o = type_by_tag t.memory o (get_tag o)

split_and : (a b : Bool) → (a && b) ≡ true → (a ≡ true) × (b ≡ true)
split_and false b e = ground arith
split_and true b e = (refl, e)

split_or : (a b : Bool) → (a || b) ≡ true → (a ≡ true) ⊎ (b ≡ true)
split_or false b e = inr e
split_or true b e = inl refl

has_type :
    (x : Option Block) (k : ℕ)
    → (elim x [ some b ↦ b.hdr.type_id == k | none ↦ false ]) ≡ true
    → (b : Block) × (x ≡ some b) × (b.hdr.type_id ≡ k)
has_type none k e = ground arith
has_type (some b) k e = (b, refl, ground arith)

is_type-block :
    (m : Memory) (o k : ℕ)
    → is_type m o k ≡ true
    → (get_tag o ≡ Tag.ptr ⊎ get_tag o ≡ Tag.const_ptr)
      × (b : Block) × (m (ptr o) ≡ some b)
      × (b.hdr.type_id ≡ k)
unfolding is_type
is_type-block m o k e =
    let (pointer, found) = split_and (is_heap_ptr o || is_const_ptr o) _ e in
    let (b, here, kind) = has_type (m (ptr o)) k found in
    let tag : get_tag o ≡ Tag.ptr ⊎ get_tag o ≡ Tag.const_ptr =
      elim (split_or (is_heap_ptr o) (is_const_ptr o) pointer) [
        | inl heap ↦ inl (ground arith)
        | inr const ↦ inr (ground arith)
      ] in
    (tag, b, here, kind)

type_of-block : (t : Thread) (o k : ℕ) → is_type t.memory o k ≡ true → type_of t o ≡ block_type k
type_of-block t o k e =
    let (tag, b, here, kind) = is_type-block t.memory o k e in
    elim tag [ inl heap ↦ rw (heap, here, kind) | inr const ↦ rw (const, here, kind) ]

type_of-constant :
    (t : Thread) (o word : ℕ)
    → (o == word) ≡ true
    → get_tag word ≡ Tag.const
    → type_of t o ≡ constant_type word
type_of-constant t o word e tag = let same : o ≡ word = ground arith in rw (same, tag)

type_of-procedure : (t : Thread) (o : ℕ) → is_func t o ≡ true → type_of t o ≡ some tt_procedure
type_of-procedure t o e = elim (split_or (test_tag o Tag.func) _ e) [
  | inl func ↦ let tag : get_tag o ≡ Tag.func = ground arith in rw tag
  | inr pointer ↦
      elim (split_or (is_type t.memory o t_closure) _ (split_and (is_heap_ptr o) _ pointer).1) [
        | inl closure ↦ type_of-block t o t_closure closure
        | inr cont ↦ type_of-block t o t_cont cont
      ]
]

type_of-boolean : (t : Thread) (o : ℕ) → is_bool o ≡ true → type_of t o ≡ some tt_boolean
unfolding get_tag
type_of-boolean t o e = elim (split_or (is_true o) (is_false o) e) [
  | inl set ↦ type_of-constant t o 13 (rw (sym constants.1) set) refl
  | inr unset ↦ type_of-constant t o 21 (rw (sym constants.2) unset) refl
]

answered : (a : Bool) → ok a ≡ ok true → a ≡ true
answered true e = refl
answered false e = cc e

-- A word that passes the test of a type, other than that of lists, is of the type.
type_of-test :
    (test : TypeTest) (t : Thread) (o : ℕ)
    → test ≢ tt_list
    → test_type test t o ≡ ok true
    → type_of t o ≡ some test
unfolding test_type get_tag
type_of-test tt_fixnum t o base e = let tag = answered _ e in rw tag
type_of-test tt_null t o base e = type_of-constant t o 5 (rw (sym constants.0) (answered _ e)) refl
type_of-test tt_list t o base e = absurd (base refl)
type_of-test tt_pair t o base e = type_of-block t o t_pair (answered _ e)
type_of-test tt_procedure t o base e = type_of-procedure t o (answered _ e)
type_of-test tt_boolean t o base e = type_of-boolean t o (answered _ e)
type_of-test tt_char t o base e =
    let tag = answered (is_char o) e in let same : get_tag o ≡ Tag.char = ground arith in rw same
type_of-test tt_symbol t o base e = type_of-block t o t_symbol (answered _ e)
type_of-test tt_struct t o base e = type_of-block t o t_struct (answered _ e)
type_of-test tt_string t o base e = type_of-block t o t_string (answered _ e)
type_of-test tt_bytevector t o base e = type_of-block t o t_bytevector (answered _ e)
type_of-test tt_eof t o base e = type_of-constant t o 37 (rw (sym constants.4) (answered _ e)) refl

some_injective : (a b : TypeTest) → some a ≡ some b → a ≡ b
some_injective a b e = cc e

-- No object passes the tests of two types, where neither is that of lists.
pub test_type-disjoint :
    (a b : TypeTest) (t : Thread) (o : ℕ)
    → a ≢ tt_list
    → b ≢ tt_list
    → test_type a t o ≡ ok true
    → test_type b t o ≡ ok true
    → a ≡ b
test_type-disjoint a b t o base_a base_b is_a is_b =
    some_injective a b (sym (type_of-test a t o base_a is_a) ∙ type_of-test b t o base_b is_b)
