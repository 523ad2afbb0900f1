-- ===== src/Tests/GcTests.antt =====
-- A collection and an allocation on a small heap with an old region.
use lgears.Prelude.{
  ◌<◌, ℕ, ◌%◌, ◌≤◌, ◌≡◌, ◌⊎◌, inl, inr, refl, arith, true, false, some, none, [], ◌∷◌, ◌==◌,
  if◌then◌else◌,
}
use lgears.Prelude.Run.{ok, out_of_memory, Safe}
use lgears.Object.{make_heap_ptr, make_tagged_ptr, get_tag, is_heap_ptr}
use lgears.Memory.{Memory, Block, pair}
use lgears.Types.{t_pair}
use lgears.Space.{in_space}
use lgears.Space.Layout.{IsSpace}
use lgears.Heap.{Heap}
use lgears.Machine.{Thread, on_stack}
use lgears.Collector.{heap_gc, heap_alloc, store_of}
use lgears.Collector.Valid.{
  frame, IsGiven, Target, Word, Live, IsIntact, IsFilled, Contents, IsValid,
}
use lgears.Collector.Words.{Aim}
use lgears.Collector.Roots.{IsRooted}
use lgears.Collector.Arranged.{IsArranged}
use lgears.Collector.Whole.{IsSettled, IsCleared, unscheduled, heap_gc-IsCleared}
use lgears.Collector.Progress.{IsServed, heap_alloc-IsServed}
use lgears.Tests.Data.{idle, small}

-- A thread whose stack leads to a list of two pairs, behind which stands a pair that nothing leads
-- to.
abbrev cell : ℕ → ℕ → Block
cell car cdr = record {
  hdr = record { type_id = t_pair; forward = false; generation = 0; remembered = false; size = 24 };
  body = pair car cdr true 1;
}

abbrev three_pairs : Memory
three_pairs p =
    if p == 4104
    then some (cell 8 5)
    else if p == 4136
    then some (cell 16 5)
    else if p == 4168
    then some (cell 24 4105)
    else none

abbrev thread : Thread
thread = record {
  heap = record idle {
    fresh = record small { pos = 4192; free_mem = 160; blocks = 3 };
    old = record small { mem = 8192; pos = 8192 };
  };
  memory = three_pairs;
  opstack = 4169 ∷ 4105 ∷ 0 ∷ 0 ∷ [];
  op_stack_idx = 2;
  objects = on_stack 0;
  env = 0;
  bindmap = none;
  func = 0;
  closure = 0;
  heap_env = false;
  lib_cache = 5;
  exception_handlers = 5;
  local_roots = [];
  tramp = record { func = 0; argc = 0 };
}

abbrev fixed : Heap
fixed = frame (unscheduled (store_of thread)).heap

cells :
    (p : ℕ) (b : Block)
    → three_pairs p ≡ some b
    → (p ≡ 4104) × (b ≡ cell 8 5) ⊎ (p ≡ 4136) × (b ≡ cell 16 5) ⊎ (p ≡ 4168) × (b ≡ cell 24 4105)
cells p b e = ground arith

-- A place in the fresh space, of one of the pairs.
given : (p : ℕ) → 4104 ≤ p → p ≤ 4168 → IsGiven fixed p
unfolding in_space
given p low high = record {
  low = omega arith;
  high = omega arith;
  not_survived = ground arith;
  not_old = ground arith;
  given = inl (ground arith);
}

first : Target fixed three_pairs 4104
first = (
  record { word = omega arith; aligned = refl },
  inl (given 4104 (omega arith) (omega arith)),
  (cell 8 5, refl),
)

last : Target fixed three_pairs 4168
last = (
  record { word = omega arith; aligned = refl },
  inl (given 4168 (omega arith) (omega arith)),
  (cell 24 4105, refl),
)

pointer : 4105 ≡ make_heap_ptr 4104
unfolding make_tagged_ptr
pointer = refl

pointer_to_last : 4169 ≡ make_heap_ptr 4168
unfolding make_tagged_ptr
pointer_to_last = refl

bare :
    (is_heap_ptr 5 ≡ false)
    × (is_heap_ptr 8 ≡ false)
    × (is_heap_ptr 16 ≡ false)
    × (is_heap_ptr 24 ≡ false)
unfolding get_tag
bare = (refl, refl, refl, refl)

intact :
    (car cdr : ℕ)
    → Word (Target fixed three_pairs) car
    → Word (Target fixed three_pairs) cdr
    → IsIntact fixed three_pairs (cell car cdr)
intact car cdr a d = record {
  unmoved = refl;
  even = refl;
  room = omega arith;
  generation = omega arith;
  live = Live.a_pair refl a d;
}

pairs-Contents : Contents fixed three_pairs
unfolding in_space
pairs-Contents = record {
  given = λ p b e g. elim (cells p b e) [
    | inl (at, eq) ↦ inl (rw eq (intact 8 5 (inl bare.1) (inl bare.0)))
    | inr (inl (at, eq)) ↦ inl (rw eq (intact 16 5 (inl bare.2) (inl bare.0)))
    | inr (inr (at, eq)) ↦ inl (rw eq (intact 24 4105 (inl bare.3) (inr (4104, pointer, first))))
  ];
  kept = λ p b e k. absurd (ground (arith, cells p b e));
}

empty-IsFilled :
    (mem : ℕ)
    → 4352 ≤ mem
    → mem % 8 ≡ 0
    → IsFilled (record small { mem = mem; pos = mem }) three_pairs
unfolding in_space
empty-IsFilled mem low even = record {
  space = record {
    aligned = even;
    pos_aligned = even;
    size_aligned = refl;
    ordered = omega arith;
    balance = refl;
    small = omega arith;
    tiled = refl;
  };
  headers = [];
  chained = refl;
  counted = refl;
  only = λ q b e inside. absurd (ground (arith, cells q b e));
  clear = λ q from to. ground arith;
}

thread-IsValid : IsValid (unscheduled (store_of thread))
unfolding in_space
thread-IsValid = record {
  partial = record {
    partial = refl;
    unmapped = refl;
    set_up = omega arith;
    header = omega arith;
    apart = λ q inside. ground arith;
    low = omega arith;
    high = omega arith;
    word = omega arith;
    old_word = omega arith;
  };
  survived = empty-IsFilled 4608 (omega arith) refl;
  old = empty-IsFilled 8192 (omega arith) refl;
  contents = pairs-Contents;
  remembered = tt;
}

thread-IsArranged : IsArranged fixed
unfolding in_space
thread-IsArranged = record {
  fresh_at = record { aligned = refl; size_aligned = refl; small = omega arith };
  survived_at = record { aligned = refl; size_aligned = refl; small = omega arith };
  low = omega arith;
  high = omega arith;
  fresh_survived = λ q inside. ground arith;
  fresh_future = λ q inside. ground arith;
  survived_future = λ q inside. ground arith;
  fresh_old = λ q inside. ground arith;
  survived_old = λ q inside. ground arith;
}

thread-IsRooted : IsRooted (Aim (unscheduled (store_of thread))) thread
thread-IsRooted = record {
  env = inl refl;
  stack = (omega arith, (inr (4168, pointer_to_last, last), (inr (4104, pointer, first), tt)));
  closure = inl refl;
  lib_cache = inl bare.0;
  handlers = inl bare.0;
  locals = tt;
}

thread-IsSettled : IsSettled thread
thread-IsSettled = record {
  valid = thread-IsValid;
  arranged = thread-IsArranged;
  rooted = thread-IsRooted;
  nothing = refl;
}

heap_gc-IsCleared_example : Safe (IsCleared thread) (heap_gc 0 33 thread)
heap_gc-IsCleared_example =
    heap_gc-IsCleared 0 33 thread thread-IsSettled refl (omega arith) (omega arith)

fresh-IsSpace : IsSpace thread.heap.fresh three_pairs
fresh-IsSpace = record {
  aligned = refl;
  pos_aligned = refl;
  size_aligned = refl;
  ordered = omega arith;
  balance = refl;
  small = omega arith;
  tiled = (cell 8 5, refl, refl, (cell 16 5, refl, refl, (cell 24 4105, refl, refl, refl)));
}

-- The pairs have left too little for a block of 200 bytes.
heap_alloc-IsServed_example :
    ((need : ℕ) × (free : ℕ) × (free < need)
      × (heap_gc 0 33 thread ≡ out_of_memory need free)
      × (heap_alloc 0 33 thread 200 t_pair ≡ out_of_memory need free))
    ⊎ (p : ℕ) × (t1 : Thread) × (t' : Thread) × (heap_alloc 0 33 thread 200 t_pair ≡ ok (p, t'))
      × ((t1 ≡ thread) ⊎ IsCleared thread t1)
      × IsServed 200 t_pair t1 p t'
heap_alloc-IsServed_example =
    heap_alloc-IsServed 0 33 200 t_pair (omega arith) thread thread-IsSettled fresh-IsSpace refl
      (omega arith) (omega arith) (omega arith)
