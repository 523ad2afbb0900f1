-- ===== src/Collector/Written.antt =====
-- The end of a visitor of vm/heap.c's collection: the payload of a block that is kept is written
-- again, with words that lead to blocks that are kept.
use lgears.Prelude.{
  ℕ, ◌≡◌, ◌⊎◌, inl, inr, refl, sym, subst, ap, some, true, [], arith, ◌==◌, Bool-cases,
}
use mathlib.Core.List.{append-nil}
use lgears.Prelude.Run.{Safe, returns}
use lgears.Memory.{Block, Memory, Payload, write}
use lgears.Heap.{Store}
use lgears.Heap.Visit.{put_body}
use lgears.Collector.Valid.{
  frame, Kept, Target, Moved, Moved-Target, Live, Live-map, Done, IsIntact, Stays, Contents,
  IsIntact-stays, IsCopied-stays, Done-stays, Known-stays, IsValid, Moved-stays,
}
use lgears.Collector.Filled.{IsFilled-body}
use lgears.Collector.Later.{Later}
use lgears.Collector.Copies.{IsGiven-Kept}
use lgears.Collector.Words.{Home, Went}

-- The block has been scanned.
abbrev pub Scanned : Store → ℕ → Type 0
Scanned s p = (b : Block) × (s.memory p ≡ some b) × Done (frame s.heap) s.memory b

-- The payload of a block that is kept is replaced by one whose words lead to blocks that are kept.
module _ (s : Store) (v : IsValid s) (p : ℕ) (b : Block) (here : s.memory p ≡ some b)
    (kept : Kept (frame s.heap) p) (body : Payload) (live : Live (Home s) b.hdr.type_id body) where
  abbrev pub block : Block
  block = record b { body = body }

  abbrev memory : Memory
  memory = write s.memory p (some block)

  abbrev store : Store
  store = record s { memory = memory }

  stays : Stays s.memory memory
  stays r (c, there) = elim (Bool-cases (p == r)) [
    | inl e ↦ (block, rw e)
    | inr e ↦ (c, rw e there)
  ]

  found : (r : ℕ) (d : Block) → memory r ≡ some d → (p ≡ r) × (block ≡ d) ⊎ (s.memory r ≡ some d)
  found r d there = elim (Bool-cases (p == r)) [
    | inl e ↦ inl (ground arith, ground arith)
    | inr e ↦ inr (rw e at there)
  ]

  done : Done (frame s.heap) memory block
  done =
      Live-map (Home s) (Moved (frame s.heap) memory)
        (Moved-stays (frame s.heap) s.memory memory stays) b.hdr.type_id live

  block-IsIntact : IsIntact (frame s.heap) memory block
  block-IsIntact =
      let i = v.contents.kept p b here kept in
      record {
        unmoved = i.unmoved;
        even = i.even;
        room = i.room;
        generation = i.generation;
        live =
            Live-map (Moved (frame s.heap) memory) (Target (frame s.heap) memory)
              (Moved-Target (frame s.heap) memory) b.hdr.type_id done;
      }

  store-Contents : Contents (frame s.heap) memory
  store-Contents =
      let f = frame s.heap in
      record {
        given = λ r d there g. elim (found r d there) [
          | inl (e, e') ↦ absurd (IsGiven-Kept f r g (subst (Kept f) e kept))
          | inr old ↦ elim (v.contents.given r d old g) [
            | inl i ↦ inl (IsIntact-stays f s.memory memory stays d i)
            | inr c ↦ inr (IsCopied-stays f s.memory memory stays d c)
          ]
        ];
        kept = λ r d there k. elim (found r d there) [
          | inl (e, e') ↦ rw (← e') block-IsIntact
          | inr old ↦ IsIntact-stays f s.memory memory stays d (v.contents.kept r d old k)
        ];
      }

  store-IsValid : IsValid store
  store-IsValid = record {
    partial = v.partial;
    survived = IsFilled-body s.heap.future_survived s.memory p b block here refl v.survived;
    old = IsFilled-body s.heap.old s.memory p b block here refl v.old;
    contents = store-Contents;
    remembered =
        Known-stays (frame s.heap) s.memory memory stays s.heap.remembered_set v.remembered;
  }

  store-Later : Later s store
  store-Later = record {
    same = refl;
    stays = stays;
    steady = λ r d there k. elim (Bool-cases (p == r)) [
      | inl e ↦
          let at : p ≡ r = ground arith in
          let one = ap s.memory at in
          let same : block.hdr ≡ d.hdr = cc in
          (block, rw e, record { hdr = same; done = λ _. done })
      | inr e ↦ (
        d,
        rw e there,
        record { hdr = refl; done = λ h. Done-stays (frame s.heap) s.memory memory stays d h },
      )
    ];
    survivors = [];
    more = refl;
    more_blocks = omega arith;
    grown = [];
    old_more = refl;
    old_blocks = omega arith;
    remembered = sym (append-nil s.heap.remembered_set);
  }

  pub put_body-Went : Safe (λ s'. Went s s' (Scanned s' p)) (put_body s p body)
  put_body-Went = rw here (
      returns store (record {
        valid = store-IsValid;
        later = store-Later;
        result = (block, (let e : (p == p) ≡ true = ground arith in rw e), done);
      }))
