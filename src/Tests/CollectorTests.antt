-- ===== src/Tests/CollectorTests.antt =====
-- Marking and collections on a small heap.
use lgears.Prelude.{
  ℕ, List, Option, ◌≤◌, ◌<◌, ◌≡◌, ◌⊎◌, refl, arith, true, false, some, none, [], ◌∷◌, ◌==◌,
  if◌then◌else◌,
}
use lgears.Prelude.Run.{ok, out_of_memory, ◌>>=◌}
use lgears.Object.{make_heap_ptr, make_tagged_ptr, get_tag, ptr}
use lgears.Memory.{Memory, Block, pair}
use lgears.Types.{t_pair}
use lgears.Space.{in_space, space_put, space_reset0, Space}
use lgears.Space.Layout.{IsSpace}
use lgears.Heap.{heap_remember, Store, heap_swap_survived}
use lgears.Heap.Mark.{heap_mark, mark_fresh, mark_young}
use lgears.Heap.Visit.{mark_env, mark_words, visit_hdr, visit, pair_visit}
use lgears.Heap.Mark.Young.{IsOutside, IsYoung, Copied, copied, copy_of, heap_mark-young}
use lgears.Heap.Mark.Promoted.{IsThird, IsFull, promoted, heap_mark-promoted}
use lgears.Collector.{
  heap_gc, heap_gc_main, thread_get_roots, scan_references, scan_old, drain, finish_gc,
}
use lgears.Machine.{Thread, on_stack}
use lgears.Tests.Data.{idle, small}

-- A pair in the fresh space, of a generation.
abbrev pair_block : ℕ → Block
pair_block generation = record {
  hdr = record {
    type_id = t_pair;
    forward = false;
    generation = generation;
    remembered = true;
    size = 24;
  };
  body = pair 8 5 true 1;
}

abbrev memory : ℕ → Memory
memory generation p = if p == 4104 then some (pair_block generation) else none

abbrev store : Store
store = record { heap = idle; memory = memory 0 }

future-IsSpace : IsSpace idle.future_survived (memory 0)
future-IsSpace = record {
  aligned = refl;
  pos_aligned = refl;
  size_aligned = refl;
  ordered = omega arith;
  balance = refl;
  small = omega arith;
  tiled = refl;
}

store-IsOutside : IsOutside store 4104
unfolding in_space
store-IsOutside = record {
  word = omega arith;
  aligned = refl;
  header = omega arith;
  low = omega arith;
  high = omega arith;
  not_survived = refl;
  not_old = refl;
}

store-IsYoung : IsYoung store 4104 (pair_block 0)
store-IsYoung = record {
  here = refl;
  unmoved = refl;
  young = omega arith;
  even = refl;
  room = omega arith;
}

heap_mark-young_example :
    (256 < 32) × (heap_mark 0 store (make_heap_ptr 4104) ≡ out_of_memory 32 256)
    ⊎ (32 ≤ 256)
      × (heap_mark 0 store (make_heap_ptr 4104)
          ≡ ok (make_heap_ptr 4616, copied store 4104 (pair_block 0)))
      × Copied 0 store 4104 (pair_block 0) store-IsOutside store-IsYoung future-IsSpace
      × (heap_mark 0 (copied store 4104 (pair_block 0)) (make_heap_ptr 4104)
          ≡ ok (make_heap_ptr 4616, copied store 4104 (pair_block 0)))
heap_mark-young_example =
    heap_mark-young 0 store 4104 (pair_block 0) store-IsOutside store-IsYoung future-IsSpace

-- The same pair in its third generation, remembered, beside an old region.
abbrev region : Space
region = record small { mem = 8192; pos = 8192 }

abbrev third : Store
third = record { heap = record idle { old = region }; memory = memory 3 }

region-IsSpace : IsSpace region (memory 3)
region-IsSpace = record {
  aligned = refl;
  pos_aligned = refl;
  size_aligned = refl;
  ordered = omega arith;
  balance = refl;
  small = omega arith;
  tiled = refl;
}

third-IsOutside : IsOutside third 4104
unfolding in_space
third-IsOutside = record {
  word = omega arith;
  aligned = refl;
  header = omega arith;
  low = omega arith;
  high = omega arith;
  not_survived = refl;
  not_old = refl;
}

third-IsThird : IsThird third 4104 (pair_block 3)
third-IsThird = record {
  here = refl;
  unmoved = refl;
  third = refl;
  payload = omega arith;
  partial = refl;
  region = omega arith;
  fits = omega arith;
}

-- The next full collection begins where the copy has been put.
abbrev later : Store
later = record (promoted third 4104 (pair_block 3)) {
  heap = record (promoted third 4104 (pair_block 3)).heap {
    full_gc = true;
    remembered_set = [];
    old_map = none;
  };
}

later-IsFull : IsFull later 8200 (pair_block 3)
unfolding in_space heap_remember
later-IsFull = record { here = refl; full = refl; inside = refl; apart = refl; unmapped = refl }

heap_mark-promoted_example :
    (heap_mark 0 third (make_heap_ptr 4104)
      ≡ ok (make_heap_ptr 8200, promoted third 4104 (pair_block 3)))
    × ((promoted third 4104 (pair_block 3)).memory 8200 ≡ some (copy_of (pair_block 3)))
    × (in_space (promoted third 4104 (pair_block 3)).heap.old 8200 ≡ true)
    × (heap_mark 0 later (make_heap_ptr 8200) ≡ ok (make_heap_ptr 8200, later))
heap_mark-promoted_example =
    heap_mark-promoted 0 third 4104 (pair_block 3) third-IsOutside third-IsThird region-IsSpace
      later later-IsFull (omega arith)

-- A thread whose stack leads to a list of two pairs, behind which stands a pair that nothing leads
-- to.
abbrev cell : ℕ → ℕ → Block
cell car cdr = record (pair_block 0) { body = pair car cdr true 1 }

abbrev three_pairs : Memory
three_pairs p =
    if p == 4104
    then some (cell 8 5)
    else if p == 4136
    then some (cell 16 5)
    else if p == 4168
    then some (cell 24 4105)
    else none

abbrev thread : Thread
thread = record {
  heap = record idle { fresh = record small { pos = 4192; free_mem = 160; blocks = 3 } };
  memory = three_pairs;
  opstack = 4169 ∷ 4105 ∷ 0 ∷ 0 ∷ [];
  op_stack_idx = 2;
  objects = on_stack 0;
  env = 0;
  bindmap = none;
  func = 0;
  closure = 0;
  heap_env = false;
  lib_cache = 5;
  exception_handlers = 5;
  local_roots = [];
  tramp = record { func = 0; argc = 0 };
}

collections : Unit {0}
unfolding heap_gc make_tagged_ptr heap_gc_main thread_get_roots scan_references scan_old drain
    finish_gc mark_env mark_words heap_mark mark_fresh mark_young visit_hdr visit pair_visit
    in_space space_put space_reset0 heap_swap_survived get_tag ptr
collections = tt

-- The stack, the blocks at two places, and the numbers of blocks in two spaces.
abbrev seen : Thread → List ℕ × Option Block × Option Block × ℕ × ℕ
seen t = (t.opstack, t.memory 4616, t.memory 4648, t.heap.survived.blocks, t.heap.fresh.blocks)

-- The two pairs that are reached are the survivors; their words lead to the new places.
collected :
    (heap_gc 0 4 thread >>= λ t. ok (seen t))
    ≡ ok (4617 ∷ 4649 ∷ 0 ∷ 0 ∷ [], some (copy_of (cell 24 4649)), some (copy_of (cell 8 5)), 2, 0)
unfolding collections
collected = refl
