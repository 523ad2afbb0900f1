-- ===== src/Collector/Arranged.antt =====
-- The places of the spaces of a heap, vm/heap.c, and the exchange of the survivors' space with the
-- one that is given up.
use lgears.Prelude.{
  ℕ, ◌+◌, ◌%◌, ◌^◌, ◌≤◌, ◌<◌, ◌≡◌, inl, inr, none, true, false, Bool-cases, if◌then◌else◌,
}
use lgears.Space.{Space, in_space, space_reset}
use lgears.Heap.{Heap, Store}

abbrev pub Apart : Space → Space → Type 0
Apart a b = (q : ℕ) → in_space a q ≡ true → in_space b q ≡ false

pub record IsRegion (sp : Space) : Type 0 where
  pub aligned : sp.mem % 8 ≡ 0
  pub size_aligned : sp.size % 8 ≡ 0
  pub small : sp.size < 2 ^ 32

-- The spaces of a heap are apart from one another, and those of its first memory within it.
pub record IsArranged (h : Heap) : Type 0 where
  pub fresh_at : IsRegion h.fresh
  pub survived_at : IsRegion h.survived
  pub low : h.mem ≤ h.survived.mem
  pub high : h.survived.mem + h.survived.size ≤ h.mem + h.mem_size
  pub fresh_survived : Apart h.fresh h.survived
  pub fresh_future : Apart h.fresh h.future_survived
  pub survived_future : Apart h.survived h.future_survived
  pub fresh_old : Apart h.fresh h.old
  pub survived_old : Apart h.survived h.old

pub Apart-sym : (a b : Space) → Apart a b → Apart b a
Apart-sym a b apart q inside = elim (Bool-cases (in_space a q)) [
  | inl e ↦ let o = apart q e in absurd (cc)
  | inr e ↦ e
]

-- The store after the exchange of the spaces, with no full collection scheduled.
abbrev pub exchanged : Store → Store
exchanged s = record {
  heap = record s.heap {
    fresh = space_reset s.heap.fresh;
    survived = s.heap.future_survived;
    future_survived = space_reset s.heap.survived;
    full_gc = false;
  };
  memory = λ p.
      if in_space s.heap.survived p
      then none
      else if in_space s.heap.fresh p
      then none
      else s.memory p;
}
