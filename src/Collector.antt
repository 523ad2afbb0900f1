-- ===== src/Collector.antt =====
-- A collection, `heap_gc` of vm/heap.c with the roots of a thread of vm/vm.c, and allocation. The
-- loops run as long as there are blocks that have not been looked at; `fuel` bounds their rounds,
-- and `old_mem` is what `malloc` answers where the old region is set up.
pub mod Chain
pub mod Valid
pub mod Later
pub mod Filled
pub mod Copies
pub mod Placed
pub mod Marks
pub mod Words
pub mod Roots
pub mod Written
pub mod Visits
pub mod Scans
pub mod Loops
pub mod Remembered
pub mod Drains
pub mod Main
pub mod Arranged
pub mod Settled
pub mod Whole
pub mod Progress
use lgears.Prelude.{
  ℕ, zero, suc, ◌+◌, ◌*◌, true, false, ◌&&◌, not, none, some, List, [], ◌∷◌, ltb, ◌==◌,
  if◌then◌else◌, get_elem?, length,
}
use lgears.Prelude.Run.{Run, ok, out_of_memory, undefined, ◌>>=◌, defined}
use lgears.Hash.{HashTable, hash_table_init, hash_table_insert}
use lgears.Hash.Functions.{direct_hash, direct_equal}
use lgears.Memory.{Memory, bhdr_size}
use lgears.Space.{
  Space, space_alloc, space_put, space_reset, space_reset0, space_enough, blocks_size, next_hdr,
  align_up, survived_size,
}
use lgears.Heap.{Store, heap_remember, forget, heap_swap_survived}
use lgears.Heap.Mark.{heap_mark, set_hdr}
use lgears.Heap.Visit.{mark_words, mark_env, visit_hdr}
use lgears.Machine.{Thread, in_env}

-- The heap of a thread with its memory.
abbrev pub store_of : Thread → Store
store_of t = record { heap = t.heap; memory = t.memory }

abbrev pub with_store : Thread → Store → Thread
with_store t s = record t { heap = s.heap; memory = s.memory }

module _ (old_mem fuel : ℕ) where
  -- `heap_scan_references`: `i` blocks have been looked at, and the next header is at `hdr`.
  unfoldable pub scan_references : ℕ → Store → ℕ → ℕ → Run (ℕ × ℕ × Store)
  scan_references zero s i hdr =
      if ltb i s.heap.future_survived.blocks then undefined else ok (i, hdr, s)
  scan_references (suc rounds) s i hdr =
      if ltb i s.heap.future_survived.blocks
      then (do
        s ← visit_hdr old_mem s hdr
        b ← defined (s.memory (hdr + bhdr_size))
        scan_references rounds s (i + 1) (next_hdr hdr b.hdr))
      else ok (i, hdr, s)

  -- `heap_scan_old`, whose loop sees the blocks that it adds itself.
  unfoldable pub scan_old : ℕ → Store → ℕ → ℕ → Run Store
  scan_old zero s i hdr = if ltb i s.heap.old.blocks then undefined else ok s
  scan_old (suc rounds) s i hdr =
      if ltb i s.heap.old.blocks
      then (do
        s ← visit_hdr old_mem s hdr
        b ← defined (s.memory (hdr + bhdr_size))
        scan_old rounds s (i + 1) (next_hdr hdr b.hdr))
      else ok s

  -- The loop of `heap_scan_remebered`, which sees what is appended meanwhile: `k` is the place of
  -- the next object in the set.
  unfoldable pub scan_remembered : ℕ → Store → ℕ → Run Store
  scan_remembered zero s k = elim (get_elem? s.heap.remembered_set k) [
    | none ↦ ok s
    | some hdr ↦ undefined
  ]
  scan_remembered (suc rounds) s k = elim (get_elem? s.heap.remembered_set k) [
    | none ↦ ok s
    | some hdr ↦ visit_hdr old_mem s hdr >>= λ s. scan_remembered rounds s (k + 1)
  ]

  -- The `while` loop of `heap_gc_main`.
  unfoldable pub drain : ℕ → Store → ℕ → ℕ → Run Store
  drain zero s i hdr = elim s.heap.remembered_set [ [] ↦ ok s | _ ∷ _ ↦ undefined ]
  drain (suc rounds) s i hdr = elim s.heap.remembered_set [
    | [] ↦ ok s
    | _ ∷ _ ↦ do
      s ← scan_remembered fuel s 0
      let s : Store = record s { heap = forget s.heap }
      (i, hdr, s) ←
          (if ltb i s.heap.future_survived.blocks
            then scan_references fuel s i hdr
            else ok (i, hdr, s))
      drain rounds s i hdr
  ]

  -- `thread_get_roots`
  unfoldable pub thread_get_roots : Thread → Run Thread
  thread_get_roots t = do
    let s = store_of t
    (env, s) ← mark_env old_mem s t.env
    (opstack, s) ← mark_words old_mem t.op_stack_idx s t.opstack
    (closure, s) ← mark_env old_mem s t.closure
    (lib_cache, s) ← heap_mark old_mem s t.lib_cache
    (handlers, s) ← heap_mark old_mem s t.exception_handlers
    (roots, s) ← mark_words old_mem (length t.local_roots) s t.local_roots
    ok (record t {
      heap = s.heap;
      memory = s.memory;
      env = env;
      opstack = opstack;
      closure = closure;
      lib_cache = lib_cache;
      exception_handlers = handlers;
      local_roots = roots;
    })

  unfoldable pub heap_gc_main : Thread → Run Thread
  heap_gc_main t = do
    t ← thread_get_roots t
    let s = store_of t
    s ← (if s.heap.full_gc then ok s else scan_old fuel s 0 s.heap.old.mem)
    (i, hdr, s) ← scan_references fuel s 0 s.heap.future_survived.mem
    s ← drain fuel s i hdr
    ok (with_store t s)

-- The first loop of `heap_gc_old`: the headers of the objects that were reached.
unfoldable pub live_set : ℕ → Memory → ℕ → Run (List ℕ)
live_set zero m hdr = ok []
live_set (suc blocks) m hdr = do
  b ← defined (m (hdr + bhdr_size))
  live ← live_set blocks m (next_hdr hdr b.hdr)
  ok (if b.hdr.remembered then hdr ∷ live else live)

-- `space_move` of a block, which is read before it is overwritten: what stood in the place is gone.
unfoldable pub space_move : Space → ℕ → ℕ → Memory → Run (ℕ × Space × Memory)
space_move space p size m = do
  (res, space, m) ← space_put space p size m
  ok (res, space, λ q. if ltb (res + bhdr_size) q && ltb q (res + size) then none else m q)

-- The second loop.
unfoldable pub move_live : List ℕ → Store → HashTable → Run (Store × HashTable)
move_live [] s tbl = ok (s, tbl)
move_live (hdr ∷ live) s tbl = do
  b ← defined (s.memory (hdr + bhdr_size))
  let m = set_hdr s.memory (hdr + bhdr_size) b (record b.hdr { remembered = false })
  (new_pos, old, m) ← space_move s.heap.old hdr (bhdr_size + b.hdr.size) m
  move_live live (record { heap = heap_remember (record s.heap { old = old }) new_pos; memory = m })
      (hash_table_insert tbl hdr new_pos).0

unfoldable pub heap_gc_old : Store → Run Store
heap_gc_old s = do
  live ← live_set s.heap.old.blocks s.memory s.heap.old.mem
  (s, tbl) ←
      move_live live (record s { heap = record s.heap { old = space_reset s.heap.old } })
        (hash_table_init direct_hash (some direct_equal))
  ok (record s { heap = record s.heap { old_map = some tbl } })

-- The part of `heap_gc` that a scheduled full collection adds.
unfoldable pub full_collection : ℕ → ℕ → Thread → Run Thread
full_collection old_mem fuel t = do
  s ← heap_gc_old (store_of t)
  t ←
      heap_gc_main old_mem fuel
        (with_store t (record s { heap = record s.heap { full_gc = false } }))
  ok (record t { heap = record t.heap { old_map = none } })

-- `thread_after_gc`
abbrev pub thread_after_gc : Thread → Thread
thread_after_gc t = if t.heap_env then record t { objects = in_env t.env } else t

-- The end of `heap_gc`, where the next full collection is scheduled.
unfoldable pub finish_gc : Thread → Thread
finish_gc t =
    let (fresh, m) = space_reset0 t.heap.fresh t.memory in
    let s = heap_swap_survived (record { heap = record t.heap { fresh = fresh }; memory = m }) in
    let t = thread_after_gc (with_store t s) in
    if not (t.heap.old.mem == 0) && ltb t.heap.old.free_mem survived_size
    then record t { heap = record t.heap { full_gc = true } }
    else t

module _ (old_mem fuel : ℕ) where
  unfoldable pub heap_gc : Thread → Run Thread
  heap_gc t = do
    t ← heap_gc_main old_mem fuel t
    t ← (if t.heap.full_gc then full_collection old_mem fuel t else ok t)
    ok (finish_gc t)

  -- The thread after an allocation that the fresh space has served.
  abbrev pub served : Thread → ℕ × Space × Memory → Run (ℕ × Thread)
  served t (p, fresh, m) = ok (p, record t { heap = record t.heap { fresh = fresh }; memory = m })

  unfoldable pub heap_alloc : Thread → ℕ → ℕ → Run (ℕ × Thread)
  heap_alloc t size type_id = elim (space_alloc t.heap.fresh size type_id t.memory) [
    | some r ↦ served t r
    | none ↦ do
      t ← heap_gc t
      elim (space_alloc t.heap.fresh size type_id t.memory) [
        | none ↦ out_of_memory size t.heap.fresh.free_mem
        | some r ↦ served t r
      ]
  ]

  unfoldable pub heap_require : Thread → ℕ → Run Thread
  heap_require t size = if space_enough t.heap.fresh size then ok t else heap_gc t

  unfoldable pub heap_require_blocks : Thread → ℕ → ℕ → Run Thread
  heap_require_blocks t size count =
      blocks_size size count >>= λ n. if space_enough t.heap.fresh n then ok t else heap_gc t
