-- ===== src/Vectors.antt =====
-- The procedures of vm/struct.c and vm/bytevector.c that allocate. A negative number of fields is
-- left out as undefined: it makes a structure with a negative size.
use lgears.Prelude.{
  ℕ, zero, suc, ◌+◌, ◌-◌, ◌*◌, ◌%◌, ◌^◌, Bool, List, [], ◌∷◌, replicate, get_elem?,
}
use lgears.Prelude.Int.{ℤ, pos, negsuc, to_word}
use lgears.Prelude.Run.{Run, ok, undefined, ◌>>=◌, defined}
use lgears.Object.{ptr, fixnum, is_fixnum, make_heap_ptr}
use lgears.Memory.{struct, bytevector, is_type}
use lgears.Types.{t_struct, t_bytevector, t_symbol}
use lgears.Machine.{Thread}
use lgears.Allocator.{Allocator, Pointer, fill_in, argument, heap_allocator}
use lgears.Collector.{heap_require_blocks}
use lgears.Heap.Visit.{sizeof_struct, sizeof_bytevector}
use lgears.Lists.{sizeof_pair, list_of}
use lgears.Native.{Rc, return_obj, safe_assert, int_of, struct_of, is_struct}

abbrev pub is_symbol : Thread → ℕ → Bool
is_symbol t o = is_type t.memory o t_symbol

-- An `int` that is not negative.
abbrev pub natural : ℤ → Run ℕ
natural (pos n) = ok n
natural (negsuc n) = undefined

-- The fields are those that the callers assign next.
unfoldable pub struct_new : {S : Type 0} → Allocator S → Pointer S → ℕ → List ℕ → S → Run (ℕ × S)
struct_new al type_name size fields s = do
  (p, s) ← al.alloc s (sizeof_struct + 8 * size) t_struct
  name ← type_name s
  s ← fill_in al s p (struct name size (p + sizeof_struct) fields)
  ok (p, s)

-- `count` words from an index of the operand stack on.
unfoldable pub words_from : Thread → ℕ → ℕ → Run (List ℕ)
words_from t base zero = ok []
words_from t base (suc n) = do
  w ← defined (get_elem? t.opstack base)
  ws ← words_from t (base + 1) n
  ok (w ∷ ws)

module _ (old_mem fuel : ℕ) where
  abbrev heap : Allocator Thread
  heap = heap_allocator old_mem fuel

  -- A structure whose fields are assigned from words that are read after the allocation.
  unfoldable pub build : Pointer Thread → ℕ → (Thread → Run (List ℕ)) → Thread → Run (Rc × Thread)
  build type_name size fields t = do
    (p, t) ← struct_new heap type_name size [] t
    name ← type_name t
    words ← fields t
    t ← fill_in heap t p (struct name size (p + sizeof_struct) words)
    return_obj t (make_heap_ptr p)

  unfoldable pub make_struct : ℕ → ℕ → Thread → Run (Rc × Thread)
  make_struct argv argc t = do
    name ← argument argv 1 t
    safe_assert (is_symbol t name) t
        (build (argument argv 1) (argc - 2) (λ t. words_from t (argv + 2) (argc - 2)) t)

  unfoldable pub alloc_struct :
      Pointer Thread → Pointer Thread → Pointer Thread → Thread → Run (Rc × Thread)
  alloc_struct type_name count fill t = do
    name ← type_name t
    c ← count t
    safe_assert (is_symbol t name) t (
        safe_assert (is_fixnum c) t (do
          size ← natural (int_of c)
          build type_name size (λ t. fill t >>= λ w. ok (replicate size w)) t))

  unfoldable pub struct_to_list : Pointer Thread → Thread → Run (Rc × Thread)
  struct_to_list obj t = do
    o ← obj t
    safe_assert (is_struct t o) t (do
      b ← defined (t.memory (ptr o))
      (name, size, array, fields) ← struct_of b.body
      t ← heap_require_blocks old_mem fuel t sizeof_pair size
      o ← obj t
      b ← defined (t.memory (ptr o))
      (name, size, array, fields) ← struct_of b.body
      (res, t) ← list_of old_mem fuel (λ i t. defined (get_elem? fields i)) size t
      return_obj t res)

  -- `bv_new` and the `memset` of `make_bytevector`; with a negative count the `memset` is undefined.
  unfoldable pub make_bytevector : Pointer Thread → Pointer Thread → Thread → Run (Rc × Thread)
  make_bytevector count fill t = do
    c ← count t
    f ← fill t
    safe_assert (is_fixnum c) t (
        safe_assert (is_fixnum f) t (do
          size ← natural (int_of c)
          (p, t) ← heap.alloc t (sizeof_bytevector + size) t_bytevector
          f ← fill t
          t ← fill_in heap t p (
              bytevector (p + sizeof_bytevector) size (replicate size (to_word (fixnum f) % 2 ^ 8)))
          return_obj t (make_heap_ptr p)))
