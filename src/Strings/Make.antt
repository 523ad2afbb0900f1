-- ===== src/Strings/Make.antt =====
-- The procedures of vm/strings.c that allocate a string.
use lgears.Prelude.{
  ℕ, ◌+◌, ◌-◌, Bool, true, false, ◌&&◌, not, Option, List, [], ◌∷◌, replicate, ◌++◌,
}
use lgears.Prelude.Int.{pos, pos_part, ltb_ℤ}
use lgears.Prelude.Run.{Run, ◌>>=◌, defined}
use lgears.Object.{ptr, fixnum, is_fixnum, is_char, make_heap_ptr}
use lgears.Memory.{string}
use lgears.Types.{t_string}
use lgears.Machine.{Thread}
use lgears.Space.{align_up}
use lgears.Heap.Visit.{sizeof_string}
use lgears.Allocator.{Allocator, Pointer, fill_in, heap_allocator}
use lgears.Vectors.{is_symbol}
use lgears.Native.{Rc, return_obj, safe_assert, int_of}
use lgears.Strings.{
  is_string, string_at, symbol_of, bytes_from, copy_over, up_to_nul, byte_of, int_size, length_of,
  string_new, chars,
}

module _ (static : ℕ → Option (List ℕ)) (old_mem fuel : ℕ) where
  abbrev heap : Allocator Thread
  heap = heap_allocator old_mem fuel

  -- The bytes behind a new structure: what was asked for, with its padding, all zero.
  abbrev room : ℕ → List ℕ
  room n = replicate (align_up (sizeof_string + n) 8 - sizeof_string) 0

  -- A string whose characters stand behind it, with the bytes as they are written.
  abbrev finish : Thread → ℕ → ℕ → Bool → List ℕ → Run (Rc × Thread)
  finish t p size allocated bytes = do
    t ← fill_in (heap_allocator old_mem fuel) t p (string (p + sizeof_string) size allocated bytes)
    return_obj t (make_heap_ptr p)

  unfoldable pub make_string : Pointer Thread → Pointer Thread → Thread → Run (Rc × Thread)
  make_string olen ofill t = do
    l ← olen t
    f ← ofill t
    safe_assert (is_fixnum l) t (
        safe_assert (is_char f) t (do
          len ← length_of (fixnum l)
          n ← int_size (sizeof_string + len + 1)
          (p, t) ← heap.alloc t n t_string
          f ← ofill t
          bytes ← copy_over (room (len + 1)) 0 (replicate len (byte_of f) ++ 0 ∷ [])
          finish t p (len + 1) true bytes))

  -- The structures are read before the allocation, so that a collection in it leaves `a` and `b`
  -- dangling; `allocated` is not assigned.
  unfoldable pub string_concat : ℕ → ℕ → Thread → Run (Rc × Thread)
  string_concat oa ob t = safe_assert (is_string t oa) t (
      safe_assert (is_string t ob) t (do
        a ← string_at t.memory oa
        b ← string_at t.memory ob
        let new_size = a.size + b.size - 1
        n ← int_size (new_size + sizeof_string)
        (p, t) ← heap.alloc t n t_string
        a ← string_at t.memory oa
        b ← string_at t.memory ob
        ca ← chars static t.memory a
        cb ← chars static t.memory b
        head ← bytes_from ca 0 (a.size - 1)
        tail ← bytes_from cb 0 b.size
        bytes ← copy_over (room new_size) 0 head
        bytes ← copy_over bytes (a.size - 1) tail
        finish t p new_size false bytes))

  unfoldable pub string_copy : Pointer Thread → Thread → Run (Rc × Thread)
  string_copy osrc t = do
    o ← osrc t
    safe_assert (is_string t o) t (do
      s ← string_at t.memory o
      let size = s.size
      n ← int_size (size + sizeof_string)
      (p, t) ← heap.alloc t n t_string
      o ← osrc t
      s ← string_at t.memory o
      from ← chars static t.memory s
      new ← bytes_from from 0 size
      bytes ← copy_over (room size) 0 new
      finish t p size true bytes)

  -- The size counts a NUL that is neither allocated nor written.
  unfoldable pub substring :
      Pointer Thread → Pointer Thread → Pointer Thread → Thread → Run (Rc × Thread)
  substring ostr ostart oend t = do
    o ← ostr t
    s0 ← ostart t
    e0 ← oend t
    safe_assert (is_string t o) t (
        safe_assert (is_fixnum s0) t (
          safe_assert (is_fixnum e0) t (do
            s ← string_at t.memory o
            let start = int_of s0
            let end = int_of e0
            safe_assert
                (not (ltb_ℤ start (pos 0)) && not (ltb_ℤ end start) && ltb_ℤ end (pos s.size)) t
                (do
                  let nsize = pos_part end - pos_part start
                  n ← int_size (nsize + sizeof_string)
                  (p, t) ← heap.alloc t n t_string
                  o ← ostr t
                  s ← string_at t.memory o
                  from ← chars static t.memory s
                  new ← bytes_from from (pos_part start) nsize
                  bytes ← copy_over (room nsize) 0 new
                  finish t p (nsize + 1) true bytes))))

-- A symbol's bytes do not move.
unfoldable pub symbol_to_string : ℕ → ℕ → ℕ → Thread → Run (Rc × Thread)
unfolding symbol_of
symbol_to_string old_mem fuel sym t = safe_assert (is_symbol t sym) t (do
  b ← defined (t.memory (ptr sym))
  bytes ← symbol_of b.body
  text ← up_to_nul bytes
  (res, t) ← string_new (heap_allocator old_mem fuel) (ptr sym) text false t
  return_obj t res)
