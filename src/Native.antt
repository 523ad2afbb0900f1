-- ===== src/Native.antt =====
-- The procedures in C that need no allocation, of vm/primitives.c, vm/struct.c and
-- vm/bytevector.c, and what they share, of vm/native.h. A procedure takes the words that its
-- arguments point to: these are below the top of the stack, where RETURN_OBJ does not write.
-- A pointer to what is no such structure is undefined. `Native/Struct.antt` and
-- `Native/Bytes.antt` have the laws.
pub mod Struct
pub mod Bytes
use lgears.Prelude.{
  ℕ, suc, ◌+◌, Bool, true, false, not, ◌&&◌, ◌||◌, Option, none, some, List, ◌==◌, if◌then◌else◌,
  get_elem?, set,
}
use lgears.Prelude.Int.{ℤ, pos, negsuc, pos_part, ltb_ℤ, to_word, signed32}
use lgears.Prelude.Run.{Run, ok, fatal, undefined, ◌>>=◌, defined}
use lgears.Object.{
  make_fixnum, fixnum, is_fixnum, ptr, is_heap_ptr, make_char, char, is_char, cif, cvoid, ceof,
  is_null, test_tag,
}
use lgears.Object.Tag
use lgears.Memory.{
  Memory, Block, Payload, raw, env, closure, cont, pair, string, symbol, struct, bytevector,
  forwarded, write, is_type,
}
use lgears.Machine.{Thread, stack_push, store}
use lgears.Types.{t_closure, t_cont, t_pair, t_struct, t_bytevector}

pub data Rc : Type 0 where
  rc_ok rc_error rc_exit : Rc

-- RETURN_OBJ, RETURN_FIXNUM, RETURN_CHAR and RETURN_BOOL
abbrev pub return_obj : Thread → ℕ → Run (Rc × Thread)
return_obj t obj = stack_push t obj >>= λ t. ok (rc_ok, t)

abbrev pub return_fixnum : Thread → ℤ → Run (Rc × Thread)
return_fixnum t num = return_obj t (make_fixnum num)

-- SAFE_ASSERT; what is printed is left out.
abbrev pub safe_assert : Bool → Thread → Run (Rc × Thread) → Run (Rc × Thread)
safe_assert e t next = if e then next else ok (rc_error, t)

abbrev pub is_struct : Thread → ℕ → Bool
is_struct t obj = is_type t.memory obj t_struct

abbrev pub is_bytevector_ptr : Thread → ℕ → Bool
is_bytevector_ptr t obj = is_type t.memory obj t_bytevector

abbrev pub is_pair : Thread → ℕ → Bool
is_pair t obj = is_type t.memory obj t_pair

-- `int pos = FIXNUM(o)`
abbrev pub int_of : ℕ → ℤ
int_of o = signed32 (to_word (fixnum o))

-- `pos >= 0 && pos < size`
abbrev pub in_range : ℤ → ℕ → Bool
in_range p size = not (ltb_ℤ p (pos 0)) && ltb_ℤ p (pos size)

-- The structure that a pointer leads to.
abbrev pub struct_of : Payload → Run (ℕ × ℕ × ℕ × List ℕ)
struct_of (struct type_name size array fields) = ok (type_name, size, array, fields)
struct_of other = undefined

abbrev pub bytes_of : Payload → Run (ℕ × ℕ × List ℕ)
bytes_of (bytevector array size bytes) = ok (array, size, bytes)
bytes_of other = undefined

abbrev pub pair_of : Payload → Run (ℕ × ℕ × Bool × ℕ)
pair_of (pair car cdr is_list count) = ok (car, cdr, is_list, count)
pair_of other = undefined

abbrev pub block_at : Thread → ℕ → Run Block
block_at t obj = defined (t.memory (ptr obj))

-- An assignment to a part of the structure that a pointer leads to.
abbrev pub assign : Thread → ℕ → Block → Payload → Thread
assign t obj b body = record t {
  memory = write t.memory (ptr obj) (some (record { hdr = b.hdr; body = body }));
}

unfoldable pub struct_size : Thread → ℕ → Run (Rc × Thread)
struct_size t obj = safe_assert (is_struct t obj) t (do
  b ← block_at t obj
  (type_name, size, array, fields) ← struct_of b.body
  return_fixnum t (pos size))

-- `fields[pos]`, where `pos` has been tested.
abbrev pub field : ℤ → List ℕ → Run ℕ
field p fields = defined (get_elem? fields (pos_part p))

unfoldable pub struct_ref : Thread → ℕ → ℕ → Run (Rc × Thread)
struct_ref t obj opos = safe_assert (is_struct t obj) t (
    safe_assert (is_fixnum opos) t (do
      b ← block_at t obj
      (type_name, size, array, fields) ← struct_of b.body
      safe_assert (in_range (int_of opos) size) t
          (do val ← field (int_of opos) fields; return_obj t val)))

unfoldable pub struct_set : Thread → ℕ → ℕ → ℕ → Run (Rc × Thread)
struct_set t obj opos val = safe_assert (is_struct t obj) t (
    safe_assert (is_heap_ptr obj) t (do
      b ← block_at t obj
      (type_name, size, array, fields) ← struct_of b.body
      safe_assert (in_range (int_of opos) size) t (do
        fields ← store fields (pos_part (int_of opos)) val
        return_obj (assign t obj b (struct type_name size array fields)) cvoid)))

unfoldable pub struct_type : Thread → ℕ → Run (Rc × Thread)
struct_type t obj = safe_assert (is_struct t obj) t (do
  b ← block_at t obj
  (type_name, size, array, fields) ← struct_of b.body
  return_obj t type_name)

unfoldable pub bytevector_length : Thread → ℕ → Run (Rc × Thread)
bytevector_length t obj =
    safe_assert (is_bytevector_ptr t obj) t
      (do b ← block_at t obj; (array, size, bytes) ← bytes_of b.body; return_fixnum t (pos size))

unfoldable pub is_bytevector : Thread → ℕ → Run (Rc × Thread)
is_bytevector t obj = return_obj t (cif (is_bytevector_ptr t obj))

-- The position is tested twice to be a fixnum, and the value not at all.
unfoldable pub bytevector_8_set : Thread → ℕ → ℕ → ℕ → Run (Rc × Thread)
bytevector_8_set t obv opos oval = safe_assert (is_bytevector_ptr t obv) t (
    safe_assert (is_fixnum opos) t (
      safe_assert (is_fixnum opos) t (do
        b ← block_at t obv
        (array, size, bytes) ← bytes_of b.body
        safe_assert (in_range (int_of opos) size) t (
            safe_assert (ltb_ℤ (pos 0) (int_of oval) && ltb_ℤ (int_of oval) (pos 256)) t (do
              bytes ← store bytes (pos_part (int_of opos)) (pos_part (int_of oval))
              return_obj (assign t obv b (bytevector array size bytes)) cvoid)))))

unfoldable pub list_length : Thread → ℕ → Run (Rc × Thread)
list_length t obj =
    if is_null obj
    then return_fixnum t (pos 0)
    else if is_pair t obj
    then (do
      b ← block_at t obj
      (car, cdr, is_list, count) ← pair_of b.body
      safe_assert is_list t (return_fixnum t (pos count)))
    else ok (rc_error, t)

unfoldable pub char_to_integer : Thread → ℕ → Run (Rc × Thread)
char_to_integer t chr = safe_assert (is_char chr) t (return_fixnum t (char chr))

unfoldable pub integer_to_char : Thread → ℕ → Run (Rc × Thread)
integer_to_char t i = safe_assert (is_fixnum i) t (return_obj t (make_char (fixnum i)))

unfoldable pub get_void : Thread → Run (Rc × Thread)
get_void t = return_obj t cvoid

unfoldable pub get_eof : Thread → Run (Rc × Thread)
get_eof t = return_obj t ceof

-- What is printed is left out.
unfoldable pub vm_exit : Thread → Run (Rc × Thread)
vm_exit t = ok (rc_exit, t)

-- Procedures of a variable number of arguments: `argv[0]` is the continuation, which `argc` counts.
unfoldable pub exception_handlers : Thread → List ℕ → ℕ → Run (Rc × Thread)
exception_handlers t argv argc =
    if argc == 2
    then (do
      handlers ← defined (get_elem? argv 1)
      safe_assert (is_pair t handlers || is_null handlers) t
          (return_obj (record t { exception_handlers = handlers }) cvoid))
    else return_obj t t.exception_handlers

unfoldable pub library_cache : Thread → List ℕ → ℕ → Run (Rc × Thread)
library_cache t argv argc =
    if argc == 2
    then (do
      cache ← defined (get_elem? argv 1)
      safe_assert (is_pair t cache) t (return_obj (record t { lib_cache = cache }) cvoid))
    else return_obj t t.lib_cache
