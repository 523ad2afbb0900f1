-- ===== src/Tests/NativeTests.antt =====
-- Procedures on structures and byte vectors, and the registry of types.
use lgears.Prelude.{
  ℕ, ◌≡◌, ◌⊎◌, refl, arith, true, false, none, some, List, [], ◌∷◌, ◌==◌, if◌then◌else◌, get_elem?,
  set,
}
use lgears.Prelude.Int.{pos, pos_part}
use lgears.Prelude.Run.{Run, ok, ◌>>=◌}
use lgears.Object.{make_fixnum, ptr, cvoid, fixnum, get_tag}
use lgears.Memory.{Memory, Block, BlockHdr, struct, bytevector, is_type}
use lgears.Tests.Data.{idle}
use lgears.Machine.{Thread, on_stack}
use lgears.Types.{
  register_type, t_env, t_closure, t_pair, t_cont, t_string, t_symbol, t_struct, t_bytevector,
}
use lgears.Native.{
  rc_error, return_obj, assign, int_of, in_range, struct_ref, struct_set, bytevector_8_set,
}
use lgears.Native.Struct.{HasStruct, updated, struct_ref_lem, struct_ref-struct_set}
use lgears.Native.Bytes.{HasBytes, IsAccepted, bytevector_8_set_lem}

abbrev header : ℕ → BlockHdr
header type_id = record {
  type_id = type_id;
  forward = false;
  generation = 0;
  remembered = false;
  size = 40;
}

abbrev point : Block
point = record { hdr = header t_struct; body = struct 99 2 88 (8 ∷ 16 ∷ []) }

abbrev vector : Block
vector = record { hdr = header t_bytevector; body = bytevector 144 3 (1 ∷ 2 ∷ 3 ∷ []) }

-- A structure of two fields at 64 and three bytes at 128.
abbrev memory : Memory
memory p = if p == 64 then some point else if p == 128 then some vector else none

abbrev thread : Thread
thread = record {
  heap = idle;
  memory = memory;
  opstack = 0 ∷ 0 ∷ 0 ∷ 0 ∷ [];
  op_stack_idx = 0;
  objects = on_stack 0;
  env = 0;
  bindmap = none;
  func = 0;
  closure = 0;
  heap_env = false;
  lib_cache = 0;
  exception_handlers = 0;
  local_roots = [];
  tramp = record { func = 0; argc = 0 };
}

point-HasStruct : HasStruct thread 65 point 99 88 (8 ∷ 16 ∷ [])
unfolding is_type ptr get_tag
point-HasStruct = record { tested = refl; on_heap = refl; block = refl; body = refl }

vector-HasBytes : HasBytes thread 129 vector 144 (1 ∷ 2 ∷ 3 ∷ [])
unfolding is_type ptr get_tag
vector-HasBytes = record { tested = refl; block = refl; body = refl }

struct_ref_lem_example :
    (in_range (int_of 8) 2 ≡ false) × (struct_ref thread 65 8 ≡ ok (rc_error, thread))
    ⊎ (in_range (int_of 8) 2 ≡ true)
      × (val : ℕ) × (get_elem? (8 ∷ 16 ∷ []) (pos_part (int_of 8)) ≡ some val)
      × (struct_ref thread 65 8 ≡ return_obj thread val)
unfolding get_tag
struct_ref_lem_example = struct_ref_lem 65 point 99 88 (8 ∷ 16 ∷ []) thread 8 point-HasStruct refl

struct_ref-struct_set_example :
    (old : ℕ) × (get_elem? (8 ∷ 16 ∷ []) 0 ≡ some old)
    × (struct_set thread 65 (make_fixnum (pos 1)) 24
        ≡ return_obj (updated thread 65 point 99 88 (8 ∷ 16 ∷ []) 1 24) cvoid)
    × (struct_ref (updated thread 65 point 99 88 (8 ∷ 16 ∷ []) 1 24) 65 (make_fixnum (pos 0))
        ≡ return_obj
            (updated thread 65 point 99 88 (8 ∷ 16 ∷ []) 1 24)
            (if 1 == 0 then 24 else old))
struct_ref-struct_set_example =
    struct_ref-struct_set thread 65 point 99 88 (8 ∷ 16 ∷ []) point-HasStruct 1 24 (omega arith)
      (omega arith) 0 (omega arith)

-- A zero is refused.
bytevector_8_set_lem_example :
    ((k n : ℕ) → ¬ IsAccepted (pos 1) (pos 7) (1 ∷ 2 ∷ 3 ∷ []) k n)
      × (bytevector_8_set thread 129 (make_fixnum (pos 1)) (make_fixnum (pos 7))
          ≡ ok (rc_error, thread))
    ⊎ (k : ℕ) × (n : ℕ) × IsAccepted (pos 1) (pos 7) (1 ∷ 2 ∷ 3 ∷ []) k n
      × (bytevector_8_set thread 129 (make_fixnum (pos 1)) (make_fixnum (pos 7))
          ≡ return_obj
              (assign thread 129 vector (bytevector 144 3 (set (1 ∷ 2 ∷ 3 ∷ []) k n)))
              cvoid)
bytevector_8_set_lem_example =
    bytevector_8_set_lem thread 129 (pos 1) (pos 7) vector 144 (1 ∷ 2 ∷ 3 ∷ []) vector-HasBytes
      (omega arith) (omega arith)

zero_refused : bytevector_8_set thread 129 8 0 ≡ ok (rc_error, thread)
unfolding bytevector_8_set fixnum is_type get_tag ptr
zero_refused = refl

-- The order of the registrations gives the types their numbers.
abbrev registered : Run (List ℕ)
registered = do
  (env, table) ← register_type {A = ℕ} [] 0
  (closure, table) ← register_type table 1
  (pair, table) ← register_type table 2
  (cont, table) ← register_type table 3
  (string, table) ← register_type table 4
  (symbol, table) ← register_type table 5
  (struct_, table) ← register_type table 6
  (bytes, table) ← register_type table 7
  ok (env ∷ closure ∷ pair ∷ cont ∷ string ∷ symbol ∷ struct_ ∷ bytes ∷ [])

numbers :
    registered
    ≡ ok (t_env ∷ t_closure ∷ t_pair ∷ t_cont ∷ t_string ∷ t_symbol ∷ t_struct ∷ t_bytevector ∷ [])
unfolding register_type
numbers = refl
