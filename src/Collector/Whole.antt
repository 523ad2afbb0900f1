-- ===== src/Collector/Whole.antt =====
-- A whole collection, `heap_gc` of vm/heap.c, outside of a full one.
use lgears.Prelude.{
  ℕ, ◌/◌, ◌≤◌, ◌<◌, ◌≡◌, refl, sym, subst, ap, ◌∙◌, Bool, true, false, ◌&&◌, not, [], ltb, ◌==◌,
  if◌then◌else◌,
}
use lgears.Prelude.Run.{Safe, returns, Safe-bind}
use lgears.Space.{in_space, space_reset, space_reset0, survived_size}
use lgears.Heap.{Heap, Store, heap_swap_survived}
use lgears.Machine.{Thread, in_env}
use lgears.Collector.{heap_gc, finish_gc, store_of, with_store, thread_after_gc}
use lgears.Collector.Valid.{frame, IsValid}
use lgears.Collector.Words.{Aim, Home}
use lgears.Collector.Roots.{IsRooted, IsRooted-map}
use lgears.Collector.Main.{Collected, same_roots, heap_gc_main-Collected}
use lgears.Collector.Arranged.{IsArranged, exchanged}
use lgears.Collector.Settled.{now-IsValid, now-IsArranged, Home-Aim}

-- The store but for the flag that schedules a full collection.
abbrev pub unscheduled : Store → Store
unscheduled s = record s { heap = record s.heap { full_gc = false } }

-- The heap of a thread is valid, its spaces are in their places, and every root leads to a block.
pub record IsSettled (t : Thread) : Type 0 where
  pub valid : IsValid (unscheduled (store_of t))
  pub arranged : IsArranged (frame t.heap)
  pub rooted : IsRooted (Aim (unscheduled (store_of t))) t
  pub nothing : t.heap.remembered_set ≡ []

unscheduled-same : (s : Store) → s.heap.full_gc ≡ false → unscheduled s ≡ s
unscheduled-same s e = λ i. record s { heap = record s.heap { full_gc = sym e i } }

-- The thread after the flag has been set, or not.
abbrev scheduled : Bool → Thread → Thread
scheduled c t = if c then record t { heap = record t.heap { full_gc = true } } else t

scheduled-store :
    (c : Bool) (t : Thread) → unscheduled (store_of (scheduled c t)) ≡ unscheduled (store_of t)
scheduled-store true t = refl
scheduled-store false t = refl

-- Only the store of the thread and the pointer to its locals are new.
abbrev swapped : Thread → Store
swapped t =
    let (fresh, m) = space_reset0 t.heap.fresh t.memory in
    heap_swap_survived (record { heap = record t.heap { fresh = fresh }; memory = m })

-- The thread after the pointer to its locals has been set, or not.
abbrev pointed : Bool → Thread → Thread
pointed c t = if c then record t { objects = in_env t.env } else t

pointed-store : (c : Bool) (t : Thread) → store_of (pointed c t) ≡ store_of t
pointed-store true t = refl
pointed-store false t = refl

after-store : (t : Thread) → store_of (thread_after_gc t) ≡ store_of t
after-store t = pointed-store t.heap_env t

finish_gc-exchanged : (t : Thread) → unscheduled (store_of (finish_gc t)) ≡ exchanged (store_of t)
unfolding finish_gc space_reset0 heap_swap_survived space_reset in_space
finish_gc-exchanged t =
    let t' = thread_after_gc (with_store t (swapped t)) in
    scheduled-store (not (t'.heap.old.mem == 0) && ltb t'.heap.old.free_mem survived_size) t'
    ∙ ap unscheduled (after-store (with_store t (swapped t)))

module _ {T : ℕ → Type 0} where
  scheduled-IsRooted : (c : Bool) (t : Thread) → IsRooted T t → IsRooted T (scheduled c t)
  scheduled-IsRooted true t r =
      same_roots t (record { heap = record t.heap { full_gc = true }; memory = t.memory }) r
  scheduled-IsRooted false t r = r

  pointed-IsRooted : (c : Bool) (t : Thread) → IsRooted T t → IsRooted T (pointed c t)
  pointed-IsRooted true t r = record {
    env = r.env;
    stack = r.stack;
    closure = r.closure;
    lib_cache = r.lib_cache;
    handlers = r.handlers;
    locals = r.locals;
  }
  pointed-IsRooted false t r = r

  finish_gc-IsRooted : (t : Thread) → IsRooted T t → IsRooted T (finish_gc t)
  unfolding finish_gc
  finish_gc-IsRooted t r =
      let t' = thread_after_gc (with_store t (swapped t)) in
      scheduled-IsRooted (not (t'.heap.old.mem == 0) && ltb t'.heap.old.free_mem survived_size) t'
        (pointed-IsRooted t.heap_env (with_store t (swapped t)) (same_roots t (swapped t) r))

IsArranged-frame : (h : Heap) → IsArranged (frame h) → IsArranged h
unfolding in_space
IsArranged-frame h a = record {
  fresh_at = a.fresh_at;
  survived_at = a.survived_at;
  low = a.low;
  high = a.high;
  fresh_survived = a.fresh_survived;
  fresh_future = a.fresh_future;
  survived_future = a.survived_future;
  fresh_old = a.fresh_old;
  survived_old = a.survived_old;
}

-- The other way round, without the flag.
frame-IsArranged :
    (h : Heap) (c : Bool) → IsArranged h → IsArranged (frame (record h { full_gc = c }))
unfolding in_space
frame-IsArranged h c a = record {
  fresh_at = a.fresh_at;
  survived_at = a.survived_at;
  low = a.low;
  high = a.high;
  fresh_survived = a.fresh_survived;
  fresh_future = a.fresh_future;
  survived_future = a.survived_future;
  fresh_old = a.fresh_old;
  survived_old = a.survived_old;
}

-- A thread is settled after a collection, and its fresh space is empty.
pub record IsCleared (t t' : Thread) : Type 0 where
  pub settled : IsSettled t'
  pub fresh : t'.heap.fresh ≡ space_reset t.heap.fresh

finish_gc-IsCleared :
    (t t1 : Thread) → IsArranged (frame t.heap) → Collected t t1 → IsCleared t (finish_gc t1)
finish_gc-IsCleared t t1 a c =
    let s1 = store_of t1 in
    let d = c.drained in
    let a1 = IsArranged-frame t1.heap (subst IsArranged (sym d.same) a) in
    let now = exchanged s1 in
    let e = finish_gc-exchanged t1 in
    let v : IsValid now = now-IsValid s1 d.valid a1 d.survived d.old_done d.nothing in
    let r : IsRooted (Aim now) (finish_gc t1) =
      IsRooted-map (Home s1) (Aim now) (finish_gc t1) (Home-Aim s1 d.valid a1 d.survived d.old_done)
        (finish_gc-IsRooted t1 c.rooted) in
    record {
      settled = record {
        valid = subst IsValid (sym e) v;
        arranged =
            let b : IsArranged (unscheduled (store_of (finish_gc t1))).heap =
              subst (λ s. IsArranged s.heap) (sym e)
                (now-IsArranged s1 d.valid a1 d.survived d.old_done) in
            frame-IsArranged (unscheduled (store_of (finish_gc t1))).heap
              (finish_gc t1).heap.full_gc b;
        rooted = subst (λ s. IsRooted (Aim s) (finish_gc t1)) (sym e) r;
        nothing = ap (λ s. s.heap.remembered_set) e ∙ d.nothing;
      };
      fresh = ap (λ s. s.heap.fresh) e ∙ ap (λ f. space_reset f.fresh) d.same;
    }

module _ (old_mem fuel : ℕ) (t : Thread) where
  -- A collection of a thread whose heap is valid, while no full one is scheduled and the old region
  -- is set up, either finds that a copy needs more bytes than are free in its space, and the program
  -- ends with the FATAL that says so, but never with another one; or it comes to an end, with no
  -- access that is undefined, and leaves a valid heap in which every root and every word of every
  -- block leads to a block that exists, an empty fresh space and nothing to remember. A round of a
  -- loop for each eight bytes of the space of the survivors, and one more than that for the old
  -- region, are enough.
  pub heap_gc-IsCleared :
      IsSettled t
      → t.heap.full_gc ≡ false
      → t.heap.future_survived.size / 8 ≤ fuel
      → t.heap.old.size / 8 < fuel
      → Safe (IsCleared t) (heap_gc old_mem fuel t)
  unfolding heap_gc
  heap_gc-IsCleared s partial enough enough_old =
      let same = unscheduled-same (store_of t) partial in
      let v : IsValid (store_of t) = subst IsValid same s.valid in
      let r : IsRooted (Aim (store_of t)) t = subst (λ u. IsRooted (Aim u) t) same s.rooted in
      Safe-bind _ (heap_gc_main-Collected old_mem fuel t v r s.nothing enough enough_old) (λ t1 c.
        let none_full : t1.heap.full_gc ≡ false = c.drained.valid.partial.partial in
        simp none_full (returns (finish_gc t1) (finish_gc-IsCleared t t1 s.arranged c)))
