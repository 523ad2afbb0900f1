-- ===== src/Heap/Visit.antt =====
-- The visitors of the heap types, which `register_type` is given in vm/vm.c, vm/primitives.c,
-- vm/strings.c, vm/struct.c and vm/bytevector.c: each marks the words of an object that may be
-- pointers, and sets the pointer to an array that stands behind the structure. Marking leaves the
-- words of the object that is visited alone, so these are read together, and written at the end
-- below the header that the object has then.
use lgears.Prelude.{ℕ, zero, suc, ◌+◌, some, List, [], ◌∷◌, ◌==◌, if◌then◌else◌}
use lgears.Prelude.Run.{Run, ok, undefined, ◌>>=◌, defined}
use lgears.Object.{ptr, make_heap_ptr}
use lgears.Memory.{Payload, env, closure, cont, pair, string, struct, bytevector, write, bhdr_size}
use lgears.Types.{t_env, t_closure, t_pair, t_cont, t_string, t_struct, t_bytevector}
use lgears.Heap.{Store}
use lgears.Heap.Mark.{heap_mark}

-- The sizes of the structures that an array stands behind.
abbrev pub sizeof_env : ℕ
sizeof_env = 24

abbrev pub sizeof_struct : ℕ
sizeof_struct = 24

abbrev pub sizeof_string : ℕ
sizeof_string = 16

abbrev pub sizeof_bytevector : ℕ
sizeof_bytevector = 16

-- A new payload under the header of the block.
abbrev pub put_body : Store → ℕ → Payload → Run Store
put_body s p body = do
  b ← defined (s.memory p)
  ok (record s { memory = write s.memory p (some (record b { body = body })) })

-- `old_mem` is what `malloc` answers where the old region is set up.
module _ (old_mem : ℕ) where
  -- The loop over the first words of an array.
  unfoldable pub mark_words : ℕ → Store → List ℕ → Run (List ℕ × Store)
  mark_words zero s words = ok (words, s)
  mark_words (suc n) s [] = undefined
  mark_words (suc n) s (w ∷ words) = do
    (w, s) ← heap_mark old_mem s w
    (words, s) ← mark_words n s words
    ok (w ∷ words, s)

  -- `mark_env`
  unfoldable pub mark_env : Store → ℕ → Run (ℕ × Store)
  mark_env s e =
      if e == 0
      then ok (0, s)
      else (do (word, s) ← heap_mark old_mem s (make_heap_ptr e); ok (ptr word, s))

  unfoldable pub env_visit : Store → ℕ → Payload → Run Store
  unfolding mark_words mark_env
  env_visit s p (env prev size depth array objects) = do
    (objects, s) ← mark_words size s objects
    (prev, s) ← mark_env s prev
    put_body s p (env prev size depth (p + sizeof_env) objects)
  env_visit s p other = undefined

  unfoldable pub closure_visit : Store → ℕ → Payload → Run Store
  unfolding mark_env
  closure_visit s p (closure e func) = do (e, s) ← mark_env s e; put_body s p (closure e func)
  closure_visit s p other = undefined

  unfoldable pub pair_visit : Store → ℕ → Payload → Run Store
  pair_visit s p (pair car cdr is_list count) = do
    (car, s) ← heap_mark old_mem s car
    (cdr, s) ← heap_mark old_mem s cdr
    put_body s p (pair car cdr is_list count)
  pair_visit s p other = undefined

  unfoldable pub continuation_visit : Store → ℕ → Payload → Run Store
  continuation_visit s p (cont func) = do
    (func, s) ← heap_mark old_mem s func
    put_body s p (cont func)
  continuation_visit s p other = undefined

  unfoldable pub struct_visit : Store → ℕ → Payload → Run Store
  unfolding mark_words
  struct_visit s p (struct type_name size array fields) = do
    (fields, s) ← mark_words size s fields
    put_body s p (struct type_name size (p + sizeof_struct) fields)
  struct_visit s p other = undefined

  unfoldable pub string_visit : Store → ℕ → Payload → Run Store
  string_visit s p (string str size allocated bytes) =
      put_body s p (string (if allocated then p + sizeof_string else str) size allocated bytes)
  string_visit s p other = undefined

  unfoldable pub bv_visit : Store → ℕ → Payload → Run Store
  bv_visit s p (bytevector array size bytes) =
      put_body s p (bytevector (p + sizeof_bytevector) size bytes)
  bv_visit s p other = undefined

  -- The visitor of a type, by its number in the table.
  unfoldable pub visit : ℕ → Store → ℕ → Payload → Run Store
  unfolding env_visit closure_visit pair_visit continuation_visit string_visit struct_visit bv_visit
  visit type_id s p body =
      if type_id == t_env
      then env_visit s p body
      else if type_id == t_closure
      then closure_visit s p body
      else if type_id == t_pair
      then pair_visit s p body
      else if type_id == t_cont
      then continuation_visit s p body
      else if type_id == t_string
      then string_visit s p body
      else if type_id == t_struct
      then struct_visit s p body
      else if type_id == t_bytevector
      then bv_visit s p body
      else ok s

  unfoldable pub visit_hdr : Store → ℕ → Run Store
  unfolding visit
  visit_hdr s hdr = do
    b ← defined (s.memory (hdr + bhdr_size))
    visit b.hdr.type_id s (hdr + bhdr_size) b.body
