-- ===== src/Collector/Progress.antt =====
-- Allocation, `heap_alloc` of vm/heap.c: in the fresh space, or after a collection.
use lgears.Prelude.{
  ℕ, ◌+◌, ◌/◌, ◌%◌, ◌^◌, ◌≤◌, ◌<◌, ◌≡◌, ◌⊎◌, inl, inr, refl, sym, subst, ap, none, some, false,
  arith,
}
use lgears.Prelude.Run.{ok, out_of_memory, Safe-cases}
use lgears.Memory.{Memory, bhdr_size}
use lgears.Space.{Space, space_alloc, space_reset}
use lgears.Space.Layout.{IsSpace}
use lgears.Space.Alloc.{Grown, padded, fresh_block, space_alloc_lem}
use lgears.Machine.{Thread}
use lgears.Collector.{heap_gc, heap_alloc, served}
use lgears.Collector.Arranged.{IsRegion}
use lgears.Collector.Whole.{IsSettled, IsCleared, heap_gc-IsCleared}

-- The fresh space of `t` took a block of the size and the type at `p`, and this is `t'`; no other
-- block has changed.
pub record IsServed (size type_id : ℕ) (t : Thread) (p : ℕ) (t' : Thread) : Type 0 where
  pub grown :
      Grown t.heap.fresh t.memory
        (padded size)
        p
        (fresh_block type_id (padded size))
        t'.heap.fresh
        t'.memory
  pub aligned : p % 8 ≡ 0

reset-IsSpace : (sp : Space) (m : Memory) → IsRegion sp → IsSpace (space_reset sp) m
unfolding space_reset
reset-IsSpace sp m r = record {
  aligned = r.aligned;
  pos_aligned = r.aligned;
  size_aligned = r.size_aligned;
  ordered = omega arith;
  balance = refl;
  small = r.small;
  tiled = refl;
}

reset-IsRegion : (sp : Space) → IsRegion (space_reset sp) → IsRegion sp
unfolding space_reset
reset-IsRegion sp r = record { aligned = r.aligned; size_aligned = r.size_aligned; small = r.small }

reset-free : (sp : Space) → (space_reset sp).free_mem ≡ sp.size
unfolding space_reset
reset-free sp = refl

module _ (old_mem fuel : ℕ) (size type_id : ℕ) (word : size + 7 < 2 ^ 64) where
  -- An allocation that the fresh space serves.
  direct :
      (t : Thread)
      → IsSpace t.heap.fresh t.memory
      → (space_alloc t.heap.fresh size type_id t.memory ≡ none)
          × (t.heap.fresh.free_mem < padded size + bhdr_size)
        ⊎ (p : ℕ) × (s : Space) × (m : Memory) × (space_alloc t.heap.fresh size type_id t.memory
            ≡ some (p, s, m))
          × IsServed size type_id t p (record t { heap = record t.heap { fresh = s }; memory = m })
  direct t v = elim (space_alloc_lem t.heap.fresh t.memory size type_id v word) [
    | inl (full, e) ↦ inl (e, full)
    | inr (fits, p, s, m, e, g, a) ↦ inr (p, s, m, e, record { grown = g; aligned = a })
  ]

  again :
      (t : Thread) (p : ℕ) (s : Space) (m : Memory)
      → space_alloc t.heap.fresh size type_id t.memory ≡ some (p, s, m)
      → (elim (space_alloc t.heap.fresh size type_id t.memory) [
        | none ↦ out_of_memory size t.heap.fresh.free_mem
        | some r ↦ served old_mem fuel t r
      ])
        ≡ ok (p, record t { heap = record t.heap { fresh = s }; memory = m })
  again t p s m e = rw e

  -- On a thread whose heap is valid, while no full collection is scheduled and the old region is set
  -- up, an allocation that an empty fresh space can serve gives a block of its size and type, in the
  -- thread as it is or as a collection has left it, with a valid heap and an empty fresh space;
  -- unless that collection ends the program, because a copy needs more bytes than are free.
  pub heap_alloc-IsServed :
      (t : Thread)
      → IsSettled t
      → IsSpace t.heap.fresh t.memory
      → t.heap.full_gc ≡ false
      → t.heap.future_survived.size / 8 ≤ fuel
      → t.heap.old.size / 8 < fuel
      → padded size + bhdr_size ≤ t.heap.fresh.size
      → ((need : ℕ) × (free : ℕ) × (free < need)
          × (heap_gc old_mem fuel t ≡ out_of_memory need free)
          × (heap_alloc old_mem fuel t size type_id ≡ out_of_memory need free))
        ⊎ (p : ℕ) × (t1 : Thread) × (t' : Thread) × (heap_alloc old_mem fuel t size type_id
            ≡ ok (p, t'))
          × ((t1 ≡ t) ⊎ IsCleared t t1)
          × IsServed size type_id t1 p t'
  unfolding heap_alloc
  heap_alloc-IsServed t s v partial enough enough_old fits = elim (direct t v) [
    | inr (p, sp, m, e, s1) ↦ inr (p, t, _, rw (e, heap_alloc), inl refl, s1)
    | inl (full, e) ↦
        elim (Safe-cases (heap_gc-IsCleared old_mem fuel t s partial enough enough_old)) [
          | inl (need, free, less, dead) ↦
              inl (need, free, less, dead, rw (full, heap_alloc) (rw dead refl))
          | inr (t1, done, c) ↦
              let r = c.settled.arranged.fresh_at in
              let v1 : IsSpace t1.heap.fresh t1.memory =
                subst (λ (f : Space). IsSpace f t1.memory) (sym c.fresh)
                  (reset-IsSpace t.heap.fresh t1.memory
                    (reset-IsRegion t.heap.fresh (subst IsRegion c.fresh r))) in
              elim (direct t1 v1) [
                | inl (none_left, few) ↦
                    let free = ap (λ (f : Space). f.free_mem) c.fresh in
                    absurd (omega (arith, reset-free t.heap.fresh))
                | inr (p, sp, m, e', s1) ↦
                    inr (p, t1, _, rw (full, heap_alloc) (rw done (again t1 p sp m e')), inr c, s1)
              ]
        ]
  ]
