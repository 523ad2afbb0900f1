-- ===== src/Collector/Placed.antt =====
-- The copy of an object to a place in a space that is kept, as `heap_mark` of vm/heap.c makes it in
-- the space of the survivors or in the old region: the heap stays valid.
use lgears.Prelude.{
  ℕ, ◌+◌, ◌≤◌, ◌≡◌, inl, inr, refl, sym, subst, none, some, true, false, List, [], ◌∷◌, ◌++◌, arith,
  ◌==◌, length, All, All-append, Bool-cases,
}
use mathlib.Core.List.{append-nil}
use lgears.Object.{make_heap_ptr}
use lgears.Memory.{Block, bhdr_size, write, forwarded}
use lgears.Space.{in_space}
use lgears.Heap.{Heap, Store, heap_remember}
use lgears.Heap.Mark.Young.{copied, copy_of, forwarding, place}
use lgears.Heap.Mark.Promoted.{promoted, old_place}
use lgears.Collector.Chain.{Chain, Any}
use lgears.Collector.Valid.{
  frame, Kept, IsGiven, IsAddress, Moved, IsIntact, IsFilled, IsValid, IsPartial, Contents, Known,
  Known-stays, Done-stays,
}
use lgears.Collector.Later.{Later}
use lgears.Collector.Filled.{advance-IsLonger, IsFilled-write}
use lgears.Collector.Copies.{after, after-Stays, after-Moved, after-Contents, after-Kept}

pub record Marked (s : Store) (w : ℕ) (s' : Store) : Type 0 where
  pub valid : IsValid s'
  pub later : Later s s'
  pub leads : (q : ℕ) × (w ≡ make_heap_ptr q) × Moved (frame s.heap) s'.memory q

module _ (s : Store) (v : IsValid s) (p : ℕ) (b : Block) (g : IsGiven (frame s.heap) p)
    (here : s.memory p ≡ some b) (i : IsIntact (frame s.heap) s.memory b) where
  -- A copy to a place in a space that is kept, with what it does to the heap.
  copy-Marked :
      (q : ℕ) (left : Block) (heap : Heap) (survivors grown : List ℕ)
      → IsAddress q
      → Kept (frame s.heap) q
      → s.memory q ≡ none
      → left.hdr.forward ≡ true
      → left.body ≡ forwarded q
      → frame heap ≡ frame s.heap
      → IsFilled heap.future_survived (after s.memory p q b left)
      → IsFilled heap.old (after s.memory p q b left)
      → Chain Any
          (after s.memory p q b left)
          s.heap.future_survived.pos
          survivors
          heap.future_survived.pos
      → heap.future_survived.blocks ≡ s.heap.future_survived.blocks + length survivors
      → Chain Any (after s.memory p q b left) s.heap.old.pos grown heap.old.pos
      → heap.old.blocks ≡ s.heap.old.blocks + length grown
      → heap.remembered_set ≡ s.heap.remembered_set ++ grown
      → All (Known (frame s.heap) (after s.memory p q b left)) grown
      → Marked s (make_heap_ptr q) (record { heap = heap; memory = after s.memory p q b left })
  copy-Marked q left heap survivors grown aq kq free fwd leads same fut old more more_blocks
        old_more old_blocks remembered known =
      let f = frame s.heap in
      let m' = after s.memory p q b left in
      let stays = after-Stays f s.memory p q b left here g aq kq free i fwd leads in
      let set : All (Known f m') heap.remembered_set = rw remembered (
        All-append (Known f m') s.heap.remembered_set grown
          (Known-stays f s.memory m' stays s.heap.remembered_set v.remembered) known) in
      record {
        valid = record {
          partial = subst IsPartial (sym same) v.partial;
          survived = fut;
          old = old;
          contents =
              subst (λ h. Contents h m') (sym same)
                (after-Contents f s.memory p q b left here g aq kq free i fwd leads v.contents);
          remembered = subst (λ h. All (Known h m') heap.remembered_set) (sym same) set;
        };
        later = record {
          same = same;
          stays = stays;
          steady = λ r d there k. (
            d,
            after-Kept f s.memory p q b left here g aq kq free i fwd leads r d there k,
            record { hdr = refl; done = λ done. Done-stays f s.memory m' stays d done },
          );
          survivors = survivors;
          more = more;
          more_blocks = more_blocks;
          grown = grown;
          old_more = old_more;
          old_blocks = old_blocks;
          remembered = remembered;
        };
        leads = (q, refl, after-Moved f s.memory p q b left here g aq kq free i fwd leads);
      }

  pub young-copied :
      b.hdr.size + bhdr_size ≤ s.heap.future_survived.free_mem
      → Marked s (make_heap_ptr (place s)) (copied s p b)
  unfolding in_space
  young-copied fits =
      let q = place s in
      let left = forwarding b q in
      let m1 = write s.memory p (some left) in
      let room = i.room in
      let bal = v.survived.space.balance in
      let ord = v.survived.space.ordered in
      let aq : IsAddress q = record {
        word = omega (arith, v.partial.word, v.partial.high);
        aligned = omega (arith, v.survived.space.pos_aligned);
      } in
      let in_fut : in_space s.heap.future_survived q ≡ true = ground arith in
      let free : s.memory q ≡ none = v.survived.clear q (omega arith) (omega arith) in
      let longer =
        advance-IsLonger s.heap.future_survived m1 b.hdr.size (copy_of b)
          (IsFilled-write s.heap.future_survived s.memory p left g.not_survived v.survived) fits
          i.even room refl in
      let old : IsFilled s.heap.old (after s.memory p q b left) =
        IsFilled-write s.heap.old m1 q (copy_of b) (v.partial.apart q in_fut)
          (IsFilled-write s.heap.old s.memory p left g.not_old v.old) in
      copy-Marked q left (copied s p b).heap (s.heap.future_survived.pos ∷ []) [] aq (inl in_fut)
        free refl refl refl longer.filled old longer.more (omega arith) refl (omega arith)
        (sym (append-nil s.heap.remembered_set)) tt

  pub third-promoted :
      b.hdr.size + bhdr_size ≤ s.heap.old.free_mem
      → Marked s (make_heap_ptr (old_place s)) (promoted s p b)
  unfolding in_space heap_remember
  third-promoted fits =
      let q = old_place s in
      let left : Block = record {
        hdr = record b.hdr { forward = true; remembered = false };
        body = forwarded q;
      } in
      let m1 = write s.memory p (some left) in
      let room = i.room in
      let bal = v.old.space.balance in
      let ord = v.old.space.ordered in
      let aq : IsAddress q = record {
        word = omega (arith, v.partial.old_word);
        aligned = omega (arith, v.old.space.pos_aligned);
      } in
      let in_old : in_space s.heap.old q ≡ true = ground arith in
      let free : s.memory q ≡ none = v.old.clear q (omega arith) (omega arith) in
      let longer =
        advance-IsLonger s.heap.old m1 b.hdr.size (copy_of b)
          (IsFilled-write s.heap.old s.memory p left g.not_old v.old) fits i.even room refl in
      let out : in_space s.heap.future_survived q ≡ false =
        elim (Bool-cases (in_space s.heap.future_survived q)) [
          | inl e ↦ let o = v.partial.apart q e in absurd (cc)
          | inr e ↦ e
        ] in
      let fut : IsFilled s.heap.future_survived (after s.memory p q b left) =
        IsFilled-write s.heap.future_survived m1 q (copy_of b) out
          (IsFilled-write s.heap.future_survived s.memory p left g.not_survived v.survived) in
      copy-Marked q left (promoted s p b).heap [] (s.heap.old.pos ∷ []) aq (inr in_old) free refl
        refl refl fut longer.filled refl (omega arith) longer.more (omega arith) refl
        ((inr in_old, (copy_of b, let e : (q == q) ≡ true = ground arith in rw e)), tt)
