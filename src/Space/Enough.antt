-- ===== src/Space/Enough.antt =====
-- The tests that `heap_require` and `heap_require_blocks` of vm/heap.c make before a caller
-- allocates: where they pass, the allocations that follow need no collection.
use lgears.Prelude.{
  ℕ, zero, suc, ◌+◌, ◌*◌, ◌^◌, ◌≤◌, ◌<◌, ◌≡◌, refl, inl, inr, true, Option, none, some, List, [],
  ◌∷◌, arith, length, ltb, if◌then◌else◌, Bool, false,
}
use lgears.Prelude.Run.{Run, ok, undefined, ◌>>=◌}
use lgears.Memory.{Memory, bhdr_size}
use lgears.Space.{Space, align_up, space_alloc, space_enough, blocks_size}
use lgears.Space.Layout.{IsSpace}
use lgears.Space.Alloc.{padded, align_up-padded, space_alloc_lem}

-- `count` allocations of one size, as the callers make them: their addresses, or NULL at one.
unfoldable pub alloc_many : ℕ → Space → ℕ → ℕ → Memory → Option (List ℕ × Space × Memory)
alloc_many zero s size type_id m = some ([], s, m)
alloc_many (suc count) s size type_id m = elim (space_alloc s size type_id m) [
  | none ↦ none
  | some (p, s', m') ↦ elim (alloc_many count s' size type_id m') [
    | none ↦ none
    | some (ps, s'', m'') ↦ some (p ∷ ps, s'', m'')
  ]
]

-- The test of `heap_require`.
unfoldable pub require_fits : Space → ℕ → Bool
unfolding space_enough
require_fits s size = space_enough s size

-- The test of `heap_require_blocks`.
unfoldable pub require_blocks_fits : Space → ℕ → ℕ → Run Bool
unfolding space_enough
require_blocks_fits s size count = blocks_size size count >>= λ n. ok (space_enough s n)

-- A test of a number that passes is made.
test-passes :
    (c : Bool) (n : ℕ) (test : ℕ → Bool)
    → (if c then ok n else undefined) >>= (λ n. ok (test n)) ≡ ok true
    → test n ≡ true
test-passes true n test h = cc h
test-passes false n test h = absurd (cc h)

module _ (size type_id : ℕ) (word : size + 7 < 2 ^ 64) where
  alloc_many-some :
      (count : ℕ) (s : Space) (m : Memory)
      → IsSpace s m
      → (padded size + bhdr_size) * count ≤ s.free_mem
      → (ps : List ℕ) × (s' : Space) × (m' : Memory) × (alloc_many count s size type_id m
          ≡ some (ps, s', m'))
        × (length ps ≡ count)
        × IsSpace s' m'
  unfolding alloc_many
  alloc_many-some zero s m v room = ([], s, m, refl, refl, v)
  alloc_many-some (suc count) s m v room =
      let step = space_alloc_lem s m size type_id v word in
      elim step [
        | inl (full, e) ↦ absurd (omega arith)
        | inr (fits, p, s', m', e, grown, even) ↦
            let (ps, s'', m'', e', n, v'') =
              alloc_many-some count s' m' grown.after (omega (arith, grown.free)) in
            (p ∷ ps, s'', m'', rw (e, alloc_many, e'), omega arith, v'')
      ]

  -- Where the test of `heap_require` passes, an allocation of that size is served.
  pub require_fits-alloc :
      (s : Space) (m : Memory)
      → IsSpace s m
      → require_fits s size ≡ true
      → (p : ℕ) × (s' : Space) × (m' : Memory) × (space_alloc s size type_id m ≡ some (p, s', m'))
        × IsSpace s' m'
  unfolding require_fits
  require_fits-alloc s m v h =
      let needed : ¬ (s.free_mem < padded size + bhdr_size) =
        ground (arith, v.balance, v.aligned, v.pos_aligned, v.size_aligned) in
      let step = space_alloc_lem s m size type_id v word in
      elim step [
        | inl (full, e) ↦ absurd (needed full)
        | inr (fits, p, s', m', e, grown, even) ↦ (p, s', m', e, grown.after)
      ]

  -- Where the test of `heap_require_blocks` passes, which it does not where the product of the size
  -- and the count is no `int`, that many allocations of that size are served one after the other.
  pub require_blocks_fits-alloc_many :
      (count : ℕ) (s : Space) (m : Memory)
      → IsSpace s m
      → require_blocks_fits s size count ≡ ok true
      → (ps : List ℕ) × (s' : Space) × (m' : Memory) × (alloc_many count s size type_id m
          ≡ some (ps, s', m'))
        × (length ps ≡ count)
        × IsSpace s' m'
  unfolding require_blocks_fits space_enough
  require_blocks_fits-alloc_many count s m v h =
      let n = (align_up size 8 + bhdr_size) * count in
      let fits = test-passes (ltb n (2 ^ 31)) n (space_enough s) h in
      let enough : (padded size + bhdr_size) * count ≤ s.free_mem =
        ground (arith, align_up-padded size) in
      alloc_many-some count s m v enough
