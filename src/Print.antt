-- ===== src/Print.antt =====
-- Printing, `print_obj` of vm/native.c with the procedures that `register_type` is given in
-- vm/primitives.c, vm/strings.c, vm/struct.c and vm/bytevector.c, and `display`. What is printed is
-- a list of bytes. `fuel` bounds the depth and the length of what is printed.
pub mod Listing
use lgears.Prelude.{
  ℕ, zero, suc, ◌-◌, ◌+◌, true, false, Bool, Option, none, some, List, [], ◌∷◌, ◌++◌, ◌==◌,
  if◌then◌else◌, get_elem?, ltb,
}
use lgears.Prelude.Text.{codes}
use lgears.Prelude.Int.{ℤ, pos, negsuc, sub_ℕ}
use lgears.Prelude.Run.{Run, ok, fatal, undefined, ◌>>=◌, defined}
use lgears.Object.{ptr, is_null, cvoid}
use lgears.Object.Kinds.{
  Kind, kind, number, heap_object, const_object, character, function, constant, unknown,
}
use lgears.Memory.{Memory, Block, Payload, pair, string, symbol, struct, bytevector, is_type}
use lgears.Types.{t_env, t_closure, t_pair, t_cont, t_string, t_symbol, t_struct, t_bytevector}
use lgears.Interp.{Callable, NativeFunc}
use lgears.Strings.{string_at, chars, up_to_nul}
use lgears.Machine.{Thread}
use lgears.Native.{Rc, return_obj}

-- What is outside of the objects: the texts that `printf` makes of a `long` and of a wide
-- character, the functions by address, the names of the procedures in C, and the bytes that are in
-- no block.
pub record Printer : Type 0 where
  pub show_long : ℤ → List ℕ
  pub show_char : ℤ → List ℕ
  pub callable : ℕ → Option Callable
  pub name : ℕ → List ℕ
  pub static : ℕ → Option (List ℕ)

-- `print_const`
unfoldable pub print_const : ℤ → Run (List ℕ)
print_const (negsuc n) = fatal
print_const (pos n) =
    elim (get_elem? (codes "()" ∷ codes "#t" ∷ codes "#f" ∷ codes "<void>" ∷ codes "<eof>" ∷ [])
      n) [ none ↦ fatal | some descr ↦ ok descr ]

-- The name of a type that has no procedure to print its objects.
abbrev pub type_name : ℕ → List ℕ
type_name tid =
    if tid == t_env then codes "env" else if tid == t_closure then codes "closure" else codes "cont"

module _ (w : Printer) where
  unfoldable pub print_func : ℕ → Run (List ℕ)
  print_func p = elim (w.callable p) [
    | none ↦ undefined
    | some (Callable.interpreted func home) ↦
        ok (codes "<lambda/" ++ (w.show_long (sub_ℕ func.argc 1) ++ codes ">"))
    | some (Callable.native nt) ↦ ok (
        codes "<native "
        ++ (w.name p ++ (codes "/" ++ (w.show_long (sub_ℕ nt.argc 1) ++ codes ">"))))
  ]

  -- The bytes of a symbol, of which `%s` prints those in front of the NUL.
  unfoldable pub symbol_repr : Payload → Run (List ℕ)
  symbol_repr (symbol bytes) = up_to_nul bytes
  symbol_repr other = undefined

  unfoldable pub string_repr : Memory → ℕ → Run (List ℕ)
  string_repr m o = do s ← string_at m o; bytes ← chars w.static m s; up_to_nul bytes

  -- The loop of `bv_repr` from the position `i` on.
  unfoldable pub bytes_repr : ℕ → ℕ → List ℕ → Run (List ℕ)
  bytes_repr zero i bytes = ok []
  bytes_repr (suc rounds) i [] = undefined
  bytes_repr (suc rounds) i (b ∷ bytes) = do
    rest ← bytes_repr rounds (i + 1) bytes
    ok (w.show_long (pos b) ++ ((if rounds == 0 then [] else codes " ") ++ rest))

  unfoldable pub bv_repr : Payload → Run (List ℕ)
  unfolding bytes_repr
  bv_repr (bytevector array size bytes) = do
    text ← bytes_repr size 0 bytes
    ok (codes "#vu8(" ++ (text ++ codes ")"))
  bv_repr other = undefined

  -- The loop of `struct_repr` over the fields.
  unfoldable pub fields_repr : (ℕ → Run (List ℕ)) → ℕ → List ℕ → Run (List ℕ)
  fields_repr print zero fields = ok []
  fields_repr print (suc rounds) [] = undefined
  fields_repr print (suc rounds) (o ∷ fields) = do
    text ← print o
    rest ← fields_repr print rounds fields
    ok (text ++ ((if rounds == 0 then [] else codes " ") ++ rest))

  unfoldable pub struct_repr : (ℕ → Run (List ℕ)) → Memory → Payload → Run (List ℕ)
  unfolding symbol_repr fields_repr
  struct_repr print m (struct name size array fields) = do
    b ← defined (m (ptr name))
    title ← symbol_repr b.body
    text ← fields_repr print size fields
    ok (codes "#<" ++ (title ++ (codes ": " ++ (text ++ codes ">"))))
  struct_repr print m other = undefined

  -- The two words of a pair.
  abbrev pub words_of : Payload → Run (ℕ × ℕ)
  words_of (pair car cdr is_list count) = ok (car, cdr)
  words_of other = undefined

  -- `disp_pair`, given the second word of the pair, over at most so many pairs.
  unfoldable pub disp_pair : (ℕ → Run (List ℕ)) → ℕ → Memory → ℕ → Run (List ℕ)
  disp_pair print zero m cdr = undefined
  disp_pair print (suc rounds) m cdr =
      let more : Run (List ℕ) = (do
        b ← defined (m (ptr cdr))
        (car, next) ← words_of b.body
        text ← print car
        rest ← disp_pair print rounds m next
        ok (codes " " ++ (text ++ rest))) in
      if is_type m cdr t_pair
      then more
      else if is_null cdr
      then ok []
      else (print cdr >>= λ text. ok (codes " . " ++ text))

  unfoldable pub pair_repr : (ℕ → Run (List ℕ)) → ℕ → Memory → Payload → Run (List ℕ)
  unfolding disp_pair
  pair_repr print rounds m body = do
    (car, cdr) ← words_of body
    first ← print car
    rest ← disp_pair print rounds m cdr
    ok (codes "(" ++ (first ++ (rest ++ codes ")")))

  -- `print_ptr`
  unfoldable pub print_ptr : (ℕ → Run (List ℕ)) → ℕ → Memory → ℕ → Run (List ℕ)
  unfolding pair_repr string_repr symbol_repr struct_repr bv_repr
  print_ptr print rounds m o = do
    b ← defined (m (ptr o))
    if b.hdr.type_id == t_pair
        then pair_repr print rounds m b.body
        else if b.hdr.type_id == t_string
        then string_repr m o
        else if b.hdr.type_id == t_symbol
        then symbol_repr b.body
        else if b.hdr.type_id == t_struct
        then struct_repr print m b.body
        else if b.hdr.type_id == t_bytevector
        then bv_repr b.body
        else ok (codes "<ptr:" ++ (type_name b.hdr.type_id ++ codes ">"))

  unfoldable pub print_obj : ℕ → Memory → ℕ → Run (List ℕ)
  unfolding print_ptr print_func print_const
  print_obj zero m o = undefined
  print_obj (suc fuel) m o = elim (kind o) [
    | const_object p ↦ print_ptr (print_obj fuel m) fuel m o
    | heap_object p ↦ print_ptr (print_obj fuel m) fuel m o
    | number v ↦ ok (w.show_long v)
    | character c ↦ ok (codes "#\\" ++ w.show_char c)
    | function p ↦ print_func p
    | constant id ↦ print_const id
    | unknown ↦ ok (codes "unknown obj")
  ]

  -- `display`, with what it prints.
  unfoldable pub display : ℕ → Thread → ℕ → Run (List ℕ × Rc × Thread)
  unfolding print_obj
  display fuel t o = do
    text ← print_obj fuel t.memory o
    (rc, t) ← return_obj t cvoid
    ok (text, rc, t)
