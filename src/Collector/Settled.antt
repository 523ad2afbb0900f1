-- ===== src/Collector/Settled.antt =====
-- The end of `heap_gc` of vm/heap.c: the spaces that are given up are cleared, the survivors take
-- the place of one of them, and no word of the heap leads to what is gone.
use lgears.Prelude.{ℕ, ◌+◌, ◌≡◌, inl, inr, refl, subst, some, true, false, [], arith, Bool-cases}
use lgears.Memory.{Block, bhdr_size}
use lgears.Space.{in_space, space_reset}
use lgears.Heap.{Store}
use lgears.Collector.Chain.{Chain, Any, In, Chain-unique, Chain-at, Chain-map, Chain-Tiled}
use lgears.Collector.Valid.{
  frame, Kept, IsGiven, Live-map, Done, IsIntact, IsFilled, Contents, IsValid,
}
use lgears.Collector.Later.{in-between}
use lgears.Collector.Words.{Aim, Home}
use lgears.Collector.Scans.{Side, survivors, old, AllDone, DoneIn, space_of, IsFilled-of}
use lgears.Collector.Arranged.{Apart-sym, IsArranged, exchanged}

module _ (s : Store) (v : IsValid s) (a : IsArranged s.heap) (fut : AllDone survivors s)
    (old_done : AllDone old s) where
  abbrev now : Store
  now = exchanged s

  -- A block that is left after the exchange stood there before, in neither space.
  left :
      (p : ℕ) (b : Block)
      → now.memory p ≡ some b
      → (s.memory p ≡ some b)
        × (in_space s.heap.fresh p ≡ false)
        × (in_space s.heap.survived p ≡ false)
  left p b here = elim (Bool-cases (in_space s.heap.survived p)) [
    | inl e ↦ absurd (let h = rw e at here in cc)
    | inr e ↦ elim (Bool-cases (in_space s.heap.fresh p)) [
      | inl e' ↦ absurd (let h = rw (e, e') at here in cc)
      | inr e' ↦ (rw (e, e') at here, e', e)
    ]
  ]

  Kept-out :
      (p : ℕ)
      → Kept (frame s.heap) p
      → (in_space s.heap.fresh p ≡ false) × (in_space s.heap.survived p ≡ false)
  unfolding in_space
  Kept-out p (inl k) = (
    Apart-sym s.heap.fresh s.heap.future_survived a.fresh_future p k,
    Apart-sym s.heap.survived s.heap.future_survived a.survived_future p k,
  )
  Kept-out p (inr k) = (
    Apart-sym s.heap.fresh s.heap.old a.fresh_old p k,
    Apart-sym s.heap.survived s.heap.old a.survived_old p k,
  )

  -- The survivors are where the next collection will look for them.
  future-IsGiven : (p : ℕ) → in_space s.heap.future_survived p ≡ true → IsGiven (frame now.heap) p
  unfolding in_space space_reset
  future-IsGiven p inside =
      let low = v.partial.low in
      let high = v.partial.high in
      let out = Kept-out p (inl inside) in
      record {
        low = ground arith;
        high = ground arith;
        not_survived = out.1;
        not_old = v.partial.apart p inside;
        given = inr inside;
      }

  old-Kept : (p : ℕ) → in_space s.heap.old p ≡ true → Kept (frame now.heap) p
  unfolding in_space
  old-Kept p inside = inr inside

  -- What was kept is there.
  pub Home-Aim : (p : ℕ) → Home s p → Aim now p
  unfolding in_space
  Home-Aim p (address, k, (b, here)) =
      let out = Kept-out p k in
      let there : now.memory p ≡ some b = rw (out.0, out.1) here in
      elim k [
        | inl inside ↦ (address, inl (future-IsGiven p inside), (b, there))
        | inr inside ↦ (address, inr (old-Kept p inside), (b, there))
      ]

  Done-of :
      (side : Side) (p : ℕ) (b : Block)
      → AllDone side s
      → in_space (space_of side s.heap) p ≡ true
      → s.memory p ≡ some b
      → Done (frame s.heap) s.memory b
  Done-of side p b all inside here =
      let f = IsFilled-of side s v in
      let sp = space_of side s.heap in
      let (x, at, i) = f.only p b here inside in
      let same =
        Chain-unique Any (DoneIn s) s.memory sp.mem f.headers all.headers sp.pos f.chained
          all.chain in
      Chain-at (DoneIn s) s.memory sp.mem all.headers sp.pos all.chain x b (subst (In x) same i)
        (rw (← at) here)

  -- The blocks that are left are intact, and their words lead to blocks that are left.
  block-IsIntact :
      (side : Side) (p : ℕ) (b : Block)
      → AllDone side s
      → in_space (space_of side s.heap) p ≡ true
      → Kept (frame s.heap) p
      → s.memory p ≡ some b
      → IsIntact (frame now.heap) now.memory b
  block-IsIntact side p b all inside kept here =
      let i = v.contents.kept p b here kept in
      record {
        unmoved = i.unmoved;
        even = i.even;
        room = i.room;
        generation = i.generation;
        live =
            Live-map (Home s) (Aim now) Home-Aim b.hdr.type_id (Done-of side p b all inside here);
      }

  now-Contents : Contents (frame now.heap) now.memory
  unfolding in_space space_reset
  now-Contents = record {
    given = λ p b here g.
        let (before, not_fresh, not_survived) = left p b here in
        elim g.given [
          | inl e ↦ absurd (cc)
          | inr e ↦ inl (block-IsIntact survivors p b fut e (inl e) before)
        ];
    kept = λ p b here k.
        let (before, not_fresh, not_survived) = left p b here in
        elim k [ inl e ↦ absurd (cc) | inr e ↦ block-IsIntact old p b old_done e (inr e) before ];
  }

  future-IsFilled : IsFilled now.heap.future_survived now.memory
  unfolding space_reset in_space
  future-IsFilled = record {
    space = record {
      aligned = a.survived_at.aligned;
      pos_aligned = a.survived_at.aligned;
      size_aligned = a.survived_at.size_aligned;
      ordered = omega arith;
      balance = refl;
      small = a.survived_at.small;
      tiled = refl;
    };
    headers = [];
    chained = refl;
    counted = refl;
    only = λ q b here inside. let (before, not_fresh, not_survived) = left q b here in absurd (cc);
    clear =
        λ q low high. let inside : in_space s.heap.survived q ≡ true = ground arith in rw inside;
  }

  old-IsFilled : IsFilled now.heap.old now.memory
  unfolding in_space
  old-IsFilled =
      let o = v.old in
      let sp = s.heap.old in
      let chain : Chain Any now.memory sp.mem o.headers sp.pos =
        Chain-map Any Any s.memory now.memory sp.mem o.headers sp.pos o.chained
          (λ x b low high i here u.
            let inside = in-between sp x sp.pos low high (omega (arith, o.space.balance)) in
            let out = Kept-out (x + bhdr_size) (inr inside) in
            (b, rw (out.0, out.1) here, refl, tt)) in
      let tiles = Chain-Tiled Any now.memory sp.mem o.headers sp.pos chain in
      record {
        space = record {
          aligned = o.space.aligned;
          pos_aligned = o.space.pos_aligned;
          size_aligned = o.space.size_aligned;
          ordered = o.space.ordered;
          balance = o.space.balance;
          small = o.space.small;
          tiled = rw o.counted tiles;
        };
        headers = o.headers;
        chained = chain;
        counted = o.counted;
        only = λ q b here inside.
            let (before, not_fresh, not_survived) = left q b here in o.only q b before inside;
        clear = λ q low high.
            let empty = o.clear q low high in
            elim (Bool-cases (in_space s.heap.survived q)) [
              | inl e ↦ rw e
              | inr e ↦ elim (Bool-cases (in_space s.heap.fresh q)) [
                | inl e' ↦ rw (e, e')
                | inr e' ↦ rw (e, e') empty
              ]
            ];
      }

  -- After the exchange the heap is valid again, for the next collection.
  pub now-IsValid : s.heap.remembered_set ≡ [] → IsValid now
  unfolding in_space space_reset
  now-IsValid nothing = record {
    partial = record {
      partial = refl;
      unmapped = v.partial.unmapped;
      set_up = v.partial.set_up;
      header = v.partial.header;
      apart = a.survived_old;
      low = a.low;
      high = a.high;
      word = v.partial.word;
      old_word = v.partial.old_word;
    };
    survived = future-IsFilled;
    old = old-IsFilled;
    contents = now-Contents;
    remembered = rw nothing tt;
  }

  pub now-IsArranged : IsArranged now.heap
  unfolding in_space space_reset
  now-IsArranged = record {
    fresh_at = record {
      aligned = a.fresh_at.aligned;
      size_aligned = a.fresh_at.size_aligned;
      small = a.fresh_at.small;
    };
    survived_at = record {
      aligned = v.survived.space.aligned;
      size_aligned = v.survived.space.size_aligned;
      small = v.survived.space.small;
    };
    low = v.partial.low;
    high = v.partial.high;
    fresh_survived = a.fresh_future;
    fresh_future = a.fresh_survived;
    survived_future = Apart-sym s.heap.survived s.heap.future_survived a.survived_future;
    fresh_old = a.fresh_old;
    survived_old = v.partial.apart;
  }
