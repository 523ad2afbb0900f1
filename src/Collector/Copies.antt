-- ===== src/Collector/Copies.antt =====
-- The copy of an object that `heap_mark` of vm/heap.c makes, as a change of the memory: the object
-- leads to the copy, which is intact.
use lgears.Prelude.{
  ℕ, ◌≡◌, ◌≢◌, ◌⊎◌, inl, inr, refl, subst, ap, none, some, true, false, arith, ◌==◌, Bool-cases,
}
use lgears.Memory.{Block, Memory, write, forwarded}
use lgears.Space.{Space, in_space}
use lgears.Heap.{Heap}
use lgears.Heap.Mark.Young.{copy_of}
use lgears.Collector.Valid.{
  Kept, IsGiven, IsAddress, Target, Moved, Live-map, IsIntact, Contents, Stays, Target-stays,
  IsIntact-stays, IsCopied-stays,
}

-- A block that is given up is not kept.
pub IsGiven-Kept : (f : Heap) (p : ℕ) → IsGiven f p → Kept f p → ⊥
IsGiven-Kept f p g (inl k) = cc (g.not_survived)
IsGiven-Kept f p g (inr k) = cc (g.not_old)

-- Two places, of which one only is in a space.
pub apart-ne : (sp : Space) (p q : ℕ) → in_space sp p ≡ false → in_space sp q ≡ true → p ≢ q
apart-ne sp p q out ins e = let e' = ap (in_space sp) e in cc

-- The memory with `left` at the object's place, and the copy at `q`.
abbrev pub after : Memory → ℕ → ℕ → Block → Block → Memory
after m p q b left = write (write m p (some left)) q (some (copy_of b))

module _ (f : Heap) (m : Memory) (p q : ℕ) (b left : Block) (here : m p ≡ some b)
    (given : IsGiven f p) (address : IsAddress q) (kept : Kept f q) (free : m q ≡ none)
    (intact : IsIntact f m b) (forward : left.hdr.forward ≡ true)
    (leads : left.body ≡ forwarded q) where
  abbrev there_after : Memory
  there_after = after m p q b left

  pub after-Stays : Stays m there_after
  after-Stays r (c, there) = elim (Bool-cases (q == r)) [
    | inl new ↦ (copy_of b, rw new)
    | inr e ↦ elim (Bool-cases (p == r)) [
      | inl old ↦ (left, rw (e, old))
      | inr e' ↦ (c, rw (e, e') there)
    ]
  ]

  pub after-Moved : Moved f there_after q
  after-Moved = (address, kept, (copy_of b, let same : (q == q) ≡ true = ground arith in rw same))

  found :
      (r : ℕ) (d : Block)
      → there_after r ≡ some d
      → (q ≡ r) × (copy_of b ≡ d) ⊎ (p ≡ r) × (left ≡ d) ⊎ (m r ≡ some d)
  found r d there = elim (Bool-cases (q == r)) [
    | inl new ↦ inl (ground arith, ground arith)
    | inr e ↦ elim (Bool-cases (p == r)) [
      | inl old ↦ inr (inl (ground arith, ground arith))
      | inr e' ↦ inr (inr (rw (e, e') at there))
    ]
  ]

  copy-IsIntact : IsIntact f there_after (copy_of b)
  copy-IsIntact = record {
    unmoved = refl;
    even = intact.even;
    room = intact.room;
    generation = omega arith;
    live =
        Live-map (Target f m) (Target f there_after) (Target-stays f m there_after after-Stays)
          b.hdr.type_id intact.live;
  }

  pub after-Contents : Contents f m → Contents f there_after
  after-Contents c = record {
    given = λ r d there g. elim (found r d there) [
      | inl (e, e') ↦ absurd (IsGiven-Kept f r g (rw e at kept))
      | inr (inl (e, e')) ↦ inr (rw (← e') (forward, q, leads, after-Moved))
      | inr (inr old) ↦ elim (c.given r d old g) [
        | inl i ↦ inl (IsIntact-stays f m there_after after-Stays d i)
        | inr i ↦ inr (IsCopied-stays f m there_after after-Stays d i)
      ]
    ];
    kept = λ r d there k. elim (found r d there) [
      | inl (e, e') ↦ rw (← e') copy-IsIntact
      | inr (inl (e, e')) ↦ absurd (IsGiven-Kept f p given (rw (← e) at k))
      | inr (inr old) ↦ IsIntact-stays f m there_after after-Stays d (c.kept r d old k)
    ];
  }

  -- A block that was kept before is as it was.
  pub after-Kept : (r : ℕ) (d : Block) → m r ≡ some d → Kept f r → there_after r ≡ some d
  after-Kept r d there k = elim (Bool-cases (q == r)) [
    | inl new ↦ let e : q ≡ r = ground arith in let e' = ap m e in absurd (cc)
    | inr e ↦ elim (Bool-cases (p == r)) [
      | inl old ↦
          let e' : p ≡ r = ground arith in absurd (IsGiven-Kept f r (subst (IsGiven f) e' given) k)
      | inr e' ↦ rw (e, e') there
    ]
  ]
