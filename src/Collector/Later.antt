-- ===== src/Collector/Later.antt =====
-- What a step of a collection may change: it adds blocks to the space of the survivors and to the
-- old region, those of the old region with their headers in the remembered set, and leaves every
-- block where it is.
use lgears.Prelude.{
  ℕ, ◌+◌, ◌≤◌, ◌<◌, ◌≡◌, inl, inr, refl, sym, subst, ap, ◌∙◌, some, true, List, [], ◌++◌, arith,
  length, length-append,
}
use mathlib.Core.List.{append_assoc, append-nil}
use lgears.Memory.{Block, bhdr_size}
use lgears.Space.{Space, in_space}
use lgears.Heap.{Store}
use lgears.Collector.Chain.{Chain, Any, Chain-map, Chain-append}
use lgears.Collector.Valid.{frame, region, Kept, Done, Stays, IsFilled, IsValid}

-- A block that is kept has the same header later, and has been scanned if it had been.
pub record IsSteady (s s' : Store) (b b' : Block) : Type 0 where
  pub hdr : b'.hdr ≡ b.hdr
  pub done : Done (frame s.heap) s.memory b → Done (frame s.heap) s'.memory b'

pub record Later (s s' : Store) : Type 0 where
  pub same : frame s'.heap ≡ frame s.heap
  pub stays : Stays s.memory s'.memory
  pub steady :
      (p : ℕ) (b : Block)
      → s.memory p ≡ some b
      → Kept (frame s.heap) p
      → (b' : Block) × (s'.memory p ≡ some b') × IsSteady s s' b b'
  pub survivors : List ℕ
  pub more : Chain Any s'.memory s.heap.future_survived.pos survivors s'.heap.future_survived.pos
  pub more_blocks :
      s'.heap.future_survived.blocks ≡ s.heap.future_survived.blocks + length survivors
  pub grown : List ℕ
  pub old_more : Chain Any s'.memory s.heap.old.pos grown s'.heap.old.pos
  pub old_blocks : s'.heap.old.blocks ≡ s.heap.old.blocks + length grown
  pub remembered : s'.heap.remembered_set ≡ s.heap.remembered_set ++ grown

pub Later-refl : (s : Store) → Later s s
Later-refl s = record {
  same = refl;
  stays = λ p h. h;
  steady = λ p b here kept. (b, here, record { hdr = refl; done = λ d. d });
  survivors = [];
  more = refl;
  more_blocks = omega arith;
  grown = [];
  old_more = refl;
  old_blocks = omega arith;
  remembered = sym (append-nil _);
}

pub in-region : (sp : Space) (p : ℕ) → in_space (region sp) p ≡ in_space sp p
unfolding in_space
in-region sp p = refl

-- A place behind the header of a block of a space.
pub in-between :
    (sp : Space) (x e : ℕ)
    → sp.mem ≤ x
    → x + bhdr_size < e
    → e ≤ sp.mem + sp.size
    → in_space (region sp) (x + bhdr_size) ≡ true
unfolding in_space
in-between sp x e low mid high = ground arith

module _ (s s' : Store) (l : Later s s') where
  -- A chain of blocks that are kept goes on later.
  pub Chain-later :
      (P Q : ℕ → Block → Type 0)
      → ((x : ℕ) (b b' : Block) → IsSteady s s' b b' → P x b → Q x b')
      → (h : ℕ) (xs : List ℕ) (e : ℕ)
      → ((x : ℕ) → h ≤ x → x + bhdr_size < e → Kept (frame s.heap) (x + bhdr_size))
      → Chain P s.memory h xs e
      → Chain Q s'.memory h xs e
  Chain-later P Q f h xs e kept c =
      Chain-map P Q s.memory s'.memory h xs e c (λ x b low high i here p.
        let (b', there, steady) = l.steady (x + bhdr_size) b here (kept x low high) in
        (b', there, steady.hdr, f x b b' steady p))

-- Blocks in front of the position of a filled space are kept.
pub survivors-Kept :
    (s : Store)
    → IsFilled s.heap.future_survived s.memory
    → (x : ℕ) → s.heap.future_survived.mem ≤ x
    → x + bhdr_size < s.heap.future_survived.pos
    → Kept (frame s.heap) (x + bhdr_size)
survivors-Kept s v x low high = inl (
    in-between s.heap.future_survived x s.heap.future_survived.pos low high
      (omega (arith, v.space.balance)))

pub old-Kept :
    (s : Store)
    → IsFilled s.heap.old s.memory
    → (x : ℕ) → s.heap.old.mem ≤ x
    → x + bhdr_size < s.heap.old.pos
    → Kept (frame s.heap) (x + bhdr_size)
old-Kept s v x low high =
    inr (in-between s.heap.old x s.heap.old.pos low high (omega (arith, v.space.balance)))

module _ (a b c : Store) (l : Later a b) (k : Later b c) where
  IsSteady-trans :
      (p : ℕ) (x : Block)
      → a.memory p ≡ some x
      → Kept (frame a.heap) p
      → (z : Block) × (c.memory p ≡ some z) × IsSteady a c x z
  IsSteady-trans p x here kept =
      let (y, there, st) = l.steady p x here kept in
      let kept' : Kept (frame b.heap) p = subst (λ f. Kept f p) (sym l.same) kept in
      let (z, last, st') = k.steady p y there kept' in
      (
        z,
        last,
        record {
          hdr = st'.hdr ∙ st.hdr;
          done = λ d.
              let d1 : Done (frame b.heap) b.memory y =
                subst (λ f. Done f b.memory y) (sym l.same) (st.done d) in
              subst (λ f. Done f c.memory z) l.same (st'.done d1);
        },
      )

  -- The steps of a collection follow one another.
  pub Later-trans : IsValid a → IsValid b → Later a c
  Later-trans va vb = record {
    same = k.same ∙ l.same;
    stays = λ p h. k.stays p (l.stays p h);
    steady = IsSteady-trans;
    survivors = l.survivors ++ k.survivors;
    more =
        let at : b.heap.future_survived.mem ≡ a.heap.future_survived.mem =
          ap (λ f. f.future_survived.mem) l.same in
        Chain-append Any c.memory a.heap.future_survived.pos l.survivors b.heap.future_survived.pos
          k.survivors c.heap.future_survived.pos
          (Chain-later b c k Any Any (λ x y z st u. u) a.heap.future_survived.pos l.survivors
            b.heap.future_survived.pos
            (λ x low high.
              survivors-Kept b vb.survived x (omega (arith, at, va.survived.space.ordered)) high)
            l.more)
          k.more;
    more_blocks =
        omega (arith, l.more_blocks, k.more_blocks, length-append l.survivors k.survivors);
    grown = l.grown ++ k.grown;
    old_more =
        let at : b.heap.old.mem ≡ a.heap.old.mem = ap (λ f. f.old.mem) l.same in
        Chain-append Any c.memory a.heap.old.pos l.grown b.heap.old.pos k.grown c.heap.old.pos
          (Chain-later b c k Any Any (λ x y z st u. u) a.heap.old.pos l.grown b.heap.old.pos
            (λ x low high. old-Kept b vb.old x (omega (arith, at, va.old.space.ordered)) high)
            l.old_more)
          k.old_more;
    old_blocks = omega (arith, l.old_blocks, k.old_blocks, length-append l.grown k.grown);
    remembered =
        k.remembered
        ∙ ap (λ r. r ++ k.grown) l.remembered
        ∙ append_assoc a.heap.remembered_set l.grown k.grown;
  }
