-- ===== src/Collector/Filled.antt =====
-- A space that is filled up to its position, vm/heap.c: it stays so when a block is added behind the
-- others, when memory outside of it is written, and when the payload of a block is.
use lgears.Prelude.{
  ℕ, ◌+◌, ◌%◌, ◌≤◌, ◌<◌, ◌≡◌, refl, ap, ◌∙◌, some, false, [], ◌∷◌, ◌++◌, arith, ◌==◌, length-append,
  Bool-cases, inl, inr,
}
use lgears.Memory.{Block, Memory, bhdr_size, write}
use lgears.Space.{Space, in_space, next_hdr}
use lgears.Space.Alloc.{advance, advance-Grown}
use lgears.Collector.Chain.{
  Chain, Any, Chain-one, Chain-append, Chain-map, Chain-Tiled, In-append_left, In-append_right,
}
use lgears.Collector.Valid.{IsFilled}

-- A filled space takes one more block.
pub record IsLonger (sp : Space) (m' : Memory) (n : ℕ) : Type 0 where
  pub filled : IsFilled (advance sp n) m'
  pub more : Chain Any m' sp.pos (sp.pos ∷ []) (advance sp n).pos

region-advance : (sp : Space) (n q : ℕ) → in_space (advance sp n) q ≡ in_space sp q
unfolding in_space
region-advance sp n q = refl

pub advance-IsLonger :
    (sp : Space) (m : Memory) (n : ℕ) (b : Block)
    → IsFilled sp m
    → n + bhdr_size ≤ sp.free_mem
    → n % 8 ≡ 0
    → 0 < n
    → b.hdr.size ≡ n
    → IsLonger sp (write m (sp.pos + bhdr_size) (some b)) n
advance-IsLonger sp m n b v fits even room sized =
    let m' = write m (sp.pos + bhdr_size) (some b) in
    let g = advance-Grown sp m n b v.space fits even sized in
    let ends : next_hdr sp.pos b.hdr ≡ sp.pos + bhdr_size + n = omega (arith, sized) in
    let one : Chain Any m' sp.pos (sp.pos ∷ []) (sp.pos + bhdr_size + n) =
      rw (← ends)
        (Chain-one Any m' sp.pos b g.holds (omega (arith, sized)) (omega (arith, sized)) tt) in
    let old : Chain Any m' sp.mem v.headers sp.pos =
      Chain-map Any Any m m' sp.mem v.headers sp.pos v.chained
        (λ x c low high i here u. (c, g.same (x + bhdr_size) (omega arith) ∙ here, refl, tt)) in
    record {
      filled = record {
        space = g.after;
        headers = v.headers ++ sp.pos ∷ [];
        chained = Chain-append Any m' sp.mem v.headers sp.pos (sp.pos ∷ []) _ old one;
        counted = omega (arith, v.counted, length-append v.headers (sp.pos ∷ []));
        only = λ q d there inside. elim (Bool-cases (sp.pos + bhdr_size == q)) [
          | inl e ↦
              (sp.pos, ground arith, In-append_right sp.pos v.headers (sp.pos ∷ []) (inl refl))
          | inr e ↦
              let before : m q ≡ some d = rw e at there in
              let (x, at, i) = v.only q d before (rw (← region-advance sp n q) inside) in
              (x, at, In-append_left x v.headers (sp.pos ∷ []) i)
        ];
        clear = λ q low high.
            let away : (sp.pos + bhdr_size == q) ≡ false = ground arith in
            rw away (v.clear q (omega arith) high);
      };
      more = one;
    }

-- A write outside of a space leaves it filled.
pub IsFilled-write :
    (sp : Space) (m : Memory) (p : ℕ) (b : Block)
    → in_space sp p ≡ false
    → IsFilled sp m
    → IsFilled sp (write m p (some b))
unfolding in_space
IsFilled-write sp m p b out v =
    let chain : Chain Any (write m p (some b)) sp.mem v.headers sp.pos =
      Chain-map Any Any m (write m p (some b)) sp.mem v.headers sp.pos v.chained
        (λ x c low high i here u.
          let o = v.space.ordered in
          let e = v.space.balance in
          (c, let away : (p == x + bhdr_size) ≡ false = ground arith in rw away here, refl, tt)) in
    let tiles = Chain-Tiled Any (write m p (some b)) sp.mem v.headers sp.pos chain in
    record {
      space = record {
        aligned = v.space.aligned;
        pos_aligned = v.space.pos_aligned;
        size_aligned = v.space.size_aligned;
        ordered = v.space.ordered;
        balance = v.space.balance;
        small = v.space.small;
        tiled = rw v.counted tiles;
      };
      headers = v.headers;
      chained = chain;
      counted = v.counted;
      only = λ q d there inside.
          let away : (p == q) ≡ false = ground arith in v.only q d (rw away at there) inside;
      clear = λ q low high. let c = v.clear q low high in let o = v.space.ordered in ground arith;
    }

-- The payload of a block is replaced, below the header that it has.
pub IsFilled-body :
    (sp : Space) (m : Memory) (p : ℕ) (b b' : Block)
    → m p ≡ some b
    → b'.hdr ≡ b.hdr
    → IsFilled sp m
    → IsFilled sp (write m p (some b'))
IsFilled-body sp m p b b' here same v =
    let m' = write m p (some b') in
    let chain : Chain Any m' sp.mem v.headers sp.pos =
      Chain-map Any Any m m' sp.mem v.headers sp.pos v.chained (λ x c low high i there u.
        elim (Bool-cases (p == x + bhdr_size)) [
          | inl e ↦
              let at : p ≡ x + bhdr_size = ground arith in
              let one = ap m at in (b', rw e, (let h : b.hdr ≡ c.hdr = cc in same ∙ h), tt)
          | inr e ↦ (c, rw e there, refl, tt)
        ]) in
    let tiles = Chain-Tiled Any m' sp.mem v.headers sp.pos chain in
    record {
      space = record {
        aligned = v.space.aligned;
        pos_aligned = v.space.pos_aligned;
        size_aligned = v.space.size_aligned;
        ordered = v.space.ordered;
        balance = v.space.balance;
        small = v.space.small;
        tiled = rw v.counted tiles;
      };
      headers = v.headers;
      chained = chain;
      counted = v.counted;
      only = λ q d there inside. elim (Bool-cases (p == q)) [
        | inl e ↦ let at : p ≡ q = ground arith in v.only q b (rw (← at) here) inside
        | inr e ↦ v.only q d (rw e at there) inside
      ];
      clear = λ q low high. elim (Bool-cases (p == q)) [
        | inl e ↦
            let at : p ≡ q = ground arith in
            let c = v.clear q low high in let one = ap m at in absurd (cc)
        | inr e ↦ rw e (v.clear q low high)
      ];
    }
