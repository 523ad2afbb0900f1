-- ===== src/Heap/Mark.antt =====
-- `heap_mark` of vm/heap.c, which the collector applies to each word that may be a pointer: what it
-- points to is copied out of the space that is given up, and the word is made to point to the copy.
pub mod Young
pub mod Promoted
use lgears.Prelude.{
  ℕ, suc, ◌+◌, ◌-◌, ◌%◌, Bool, true, false, not, ◌&&◌, ◌||◌, Option, none, some, ltb, ◌==◌,
  if◌then◌else◌,
}
use lgears.Prelude.Run.{Run, ok, fatal, undefined, ◌>>=◌, defined}
use lgears.Object.{ptr, is_heap_ptr, make_heap_ptr}
use lgears.Hash.{hash_table_lookup}
use lgears.Memory.{Memory, Block, BlockHdr, bhdr_size, Payload, forwarded, write}
use lgears.Space.{Space, space_init, space_put, in_space, old_size}
use lgears.Heap.{Heap, Store, heap_remember}

-- Assignments to the header of a block, and to its payload.
abbrev pub set_hdr : Memory → ℕ → Block → BlockHdr → Memory
set_hdr m p b hdr = write m p (some (record b { hdr = hdr }))

-- `*forward`, the first word of the payload.
abbrev pub forward_of : Payload → Run ℕ
forward_of (forwarded q) = ok q
forward_of other = undefined

-- The second branch on an object of the old region: the map of moved objects, if there is one.
unfoldable pub mark_moved : Store → ℕ → ℕ → Run (ℕ × Store)
mark_moved s obj p = elim s.heap.old_map [
  | none ↦ ok (obj, s)
  | some tbl ↦
      let res = hash_table_lookup tbl (p - bhdr_size) in
      ok (if res == 0 then obj else make_heap_ptr (res + bhdr_size), s)
]

-- The object joins the remembered set.
abbrev pub remembered_at : Store → ℕ → Block → Store
remembered_at s p b = record {
  heap = heap_remember s.heap (p - bhdr_size);
  memory = set_hdr s.memory p b (record b.hdr { remembered = true });
}

-- The branch on an object of the old region.
unfoldable pub mark_old : Store → ℕ → ℕ → Run (ℕ × Store)
mark_old s obj p =
    if s.heap.full_gc
    then (do
      b ← defined (s.memory p)
      if b.hdr.remembered then mark_moved s obj p else ok (obj, remembered_at s p b))
    else mark_moved s obj p

-- `old_mem` is what `malloc` answers where the old region is set up.
abbrev pub old_space : ℕ → Store → Store
old_space old_mem s =
    if s.heap.old.mem == 0
    then (let (old, m) = space_init old_mem old_size s.memory in
        record { heap = record s.heap { old = old }; memory = m })
    else s

-- What `heap_mark` does after a copy: the forward pointer at the old place, with the header that is
-- left there, and the header of the copy, which is that of the original but for two fields.
abbrev pub moved : Memory → ℕ → Block → BlockHdr → ℕ → Memory
moved m p b left new_pos =
    write
      (write m p (
        some (record {
          hdr = record left { forward = true };
          body = forwarded (new_pos + bhdr_size);
        })))
      (new_pos + bhdr_size)
      (some (record b {
        hdr = record b.hdr { forward = false; generation = (b.hdr.generation + 1) % 4 };
      }))

-- An object of the third generation goes to the old region. The field `remembered` is reset in the
-- header at the old place, after the copy was made.
unfoldable pub mark_third : ℕ → Store → ℕ → ℕ → Block → Run (ℕ × Store)
mark_third old_mem s obj p b =
    if s.heap.full_gc then ok (obj, if b.hdr.remembered then s else remembered_at s p b) else (do
      let s = old_space old_mem s
      (new_pos, old, m) ← space_put s.heap.old (p - bhdr_size) (b.hdr.size + bhdr_size) s.memory
      ok (
        make_heap_ptr (new_pos + bhdr_size),
        record {
          heap = heap_remember (record s.heap { old = old }) new_pos;
          memory = moved m p b (record b.hdr { remembered = false }) new_pos;
        },
      ))

-- A younger one goes to the space of the survivors.
unfoldable pub mark_young : Store → ℕ → Block → Run (ℕ × Store)
mark_young s p b = do
  (new_pos, survived, m) ←
      space_put s.heap.future_survived (p - bhdr_size) (b.hdr.size + bhdr_size) s.memory
  ok (
    make_heap_ptr (new_pos + bhdr_size),
    record {
      heap = record s.heap { future_survived = survived };
      memory = moved m p b b.hdr new_pos;
    },
  )

unfoldable pub mark_fresh : ℕ → Store → ℕ → ℕ → Run (ℕ × Store)
mark_fresh old_mem s obj p = do
  b ← defined (s.memory p)
  if b.hdr.forward
      then (forward_of b.body >>= λ q. ok (make_heap_ptr q, s))
      else if b.hdr.generation == 3
      then mark_third old_mem s obj p b
      else mark_young s p b

-- The answer is the word that the pointer to it leads to afterwards.
unfoldable pub heap_mark : ℕ → Store → ℕ → Run (ℕ × Store)
heap_mark old_mem s obj =
    let p = ptr obj in
    let heap = s.heap in
    if not (is_heap_ptr obj)
    then ok (obj, s)
    else if (ltb p heap.mem || ltb (heap.mem + heap.mem_size) p) && not (in_space heap.old p)
    then fatal
    else if in_space heap.future_survived p
    then ok (obj, s)
    else if in_space heap.old p
    then mark_old s obj p
    else mark_fresh old_mem s obj p
