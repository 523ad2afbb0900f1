-- ===== src/Collector/Marks.antt =====
-- `heap_mark` of vm/heap.c on any word of a valid heap, outside of a full collection.
use lgears.Prelude.{
  ℕ, ◌+◌, ◌≤◌, ◌<◌, ◌≡◌, inl, inr, refl, ◌∙◌, some, true, false, Bool, not, ◌&&◌, arith, ltb, ◌==◌,
  Bool-cases,
}
use lgears.Prelude.Run.{ok, out_of_memory, Safe, returns, ends}
use lgears.Object.{is_heap_ptr, make_heap_ptr}
use lgears.Object.Tag
use lgears.Object.Pointer.{ptr-make_tagged_ptr}
use lgears.Memory.{Block, bhdr_size}
use lgears.Space.{Space, in_space, space_put}
use lgears.Heap.{Store}
use lgears.Heap.Mark.{heap_mark, mark_fresh, mark_third, mark_old, mark_moved}
use lgears.Heap.Mark.Young.{IsOutside, IsYoung, copied, place, heap_mark-fresh, heap_mark-young}
use lgears.Heap.Mark.Promoted.{IsThird, promoted, old_place, heap_mark-third}
use lgears.Collector.Valid.{
  frame, region, Kept, IsGiven, IsAddress, Target, Moved, IsIntact, IsCopied, IsValid, IsPartial,
}
use lgears.Collector.Later.{Later-refl, in-region}
use lgears.Collector.Placed.{Marked, young-copied, third-promoted}

given-IsOutside :
    (s : Store) (p : ℕ)
    → IsPartial (frame s.heap)
    → IsAddress p
    → IsGiven (frame s.heap) p
    → IsOutside s p
unfolding in_space
given-IsOutside s p h a g = record {
  word = a.word;
  aligned = a.aligned;
  header = omega (arith, g.low, h.header);
  low = g.low;
  high = g.high;
  not_survived = g.not_survived;
  not_old = g.not_old;
}

nowhere : (a : Bool) → (a && not true) ≡ false
nowhere false = refl
nowhere true = refl

in_space-bounds :
    (sp : Space) (p : ℕ) → in_space sp p ≡ true → (sp.mem ≤ p) × (p < sp.mem + sp.size)
unfolding in_space
in_space-bounds sp p e = ground arith

module _ (old_mem : ℕ) (s : Store) (v : IsValid s) where
  -- A word that stays as it is.
  stay : (q : ℕ) → Moved (frame s.heap) s.memory q → Marked s (make_heap_ptr q) s
  stay q t = record { valid = v; later = Later-refl s; leads = (q, refl, t) }

  mark-old : (p : ℕ) → mark_old s (make_heap_ptr p) p ≡ ok (make_heap_ptr p, s)
  unfolding mark_old mark_moved
  mark-old p = let e = v.partial.partial in let e' = v.partial.unmapped in ground arith

  Kept-same :
      (p : ℕ)
      → IsAddress p
      → Kept (frame s.heap) p
      → heap_mark old_mem s (make_heap_ptr p) ≡ ok (make_heap_ptr p, s)
  unfolding heap_mark
  Kept-same p a k =
      let back = ptr-make_tagged_ptr p Tag.ptr a.word a.aligned (omega arith) in
      let tagged : is_heap_ptr (make_heap_ptr p) ≡ true = rw back.1 in
      elim k [
        | inl fut ↦
            let here : in_space s.heap.future_survived p ≡ true = rw (← in-region) fut in
            let bounds = in_space-bounds s.heap.future_survived p here in
            let low : ltb p s.heap.mem ≡ false = let l = v.partial.low in ground arith in
            let high : ltb (s.heap.mem + s.heap.mem_size) p ≡ false =
              let h = v.partial.high in ground arith in
            simp (tagged, back.0, low, high, here)
        | inr old ↦
            let here : in_space s.heap.old p ≡ true = rw (← in-region) old in
            let other : in_space s.heap.future_survived p ≡ false =
              elim (Bool-cases (in_space (region s.heap.future_survived) p)) [
                | inl e ↦ let o = v.partial.apart p e in absurd (cc)
                | inr e ↦ rw (← in-region) e
              ] in
            rw (tagged, back.0, here, other, nowhere) (mark-old p)
      ]

  -- A word that leads to a block that is kept.
  mark-kept :
      (p : ℕ)
      → Moved (frame s.heap) s.memory p
      → Safe (λ (r : ℕ × Store). Marked s r.0 r.1) (heap_mark old_mem s (make_heap_ptr p))
  mark-kept p (a, k, h) = rw (Kept-same p a k) (returns (make_heap_ptr p, s) (stay p (a, k, h)))

  module _ (p : ℕ) (b : Block) (a : IsAddress p) (g : IsGiven (frame s.heap) p)
      (here : s.memory p ≡ some b) where
    mark-copied :
        IsCopied (frame s.heap) s.memory b
        → Safe (λ (r : ℕ × Store). Marked s r.0 r.1) (heap_mark old_mem s (make_heap_ptr p))
    unfolding mark_fresh
    mark-copied (forward, q, leads, t) =
        rw
          (
            heap_mark-fresh old_mem s p (given-IsOutside s p v.partial a g),
            here,
            mark_fresh,
            forward,
            leads,
          )
          (returns (make_heap_ptr q, s) (stay q t))

    module _ (i : IsIntact (frame s.heap) s.memory b) where
      third-full :
          b.hdr.generation ≡ 3
          → s.heap.old.free_mem < b.hdr.size + bhdr_size
          → heap_mark old_mem s (make_heap_ptr p)
            ≡ out_of_memory (b.hdr.size + bhdr_size) s.heap.old.free_mem
      unfolding mark_fresh mark_third space_put
      third-full third full =
          let set_up : (s.heap.old.mem == 0) ≡ false = let e = v.partial.set_up in ground arith in
          let none_left : ltb s.heap.old.free_mem (b.hdr.size + bhdr_size) ≡ true = ground arith in
          let gen : (b.hdr.generation == 3) ≡ true = ground arith in
          heap_mark-fresh old_mem s p (given-IsOutside s p v.partial a g)
          ∙ rw (here, mark_fresh, i.unmoved, gen, v.partial.partial, set_up, none_left)

      third-marked :
          b.hdr.generation ≡ 3
          → b.hdr.size + bhdr_size ≤ s.heap.old.free_mem
          → heap_mark old_mem s (make_heap_ptr p) ≡ ok (make_heap_ptr (old_place s), promoted s p b)
      unfolding in_space
      third-marked third fits =
          let y : IsThird s p b = record {
            here = here;
            unmoved = i.unmoved;
            third = third;
            payload = i.room;
            partial = v.partial.partial;
            region = v.partial.set_up;
            fits = fits;
          } in
          heap_mark-third old_mem s p b (given-IsOutside s p v.partial a g) y v.old.space

      mark-intact :
          Safe (λ (r : ℕ × Store). Marked s r.0 r.1) (heap_mark old_mem s (make_heap_ptr p))
      mark-intact = elim (Bool-cases (ltb b.hdr.generation 3)) [
        | inl young ↦
            let y : IsYoung s p b = record {
              here = here;
              unmoved = i.unmoved;
              young = ground arith;
              even = i.even;
              room = i.room;
            } in
            elim (heap_mark-young old_mem s p b (given-IsOutside s p v.partial a g) y
              v.survived.space) [
                | inl (full, e) ↦ rw e (ends _ _ full)
                | inr (fits, e, c, e') ↦ rw e (
                    returns (make_heap_ptr (place s), copied s p b)
                      (young-copied s v p b g here i fits))
              ]
        | inr old ↦
            let third : b.hdr.generation ≡ 3 = let l = i.generation in ground arith in
            elim (Bool-cases (ltb s.heap.old.free_mem (b.hdr.size + bhdr_size))) [
              | inl full ↦ rw (third-full third (ground arith)) (ends _ _ (ground arith))
              | inr room ↦
                  let fits : b.hdr.size + bhdr_size ≤ s.heap.old.free_mem = ground arith in
                  rw (third-marked third fits) (
                    returns (make_heap_ptr (old_place s), promoted s p b)
                      (third-promoted s v p b g here i fits))
            ]
      ]

  -- Any pointer of a valid heap can be marked: the heap stays valid, and the pointer then leads to
  -- a block that is kept; or the copy does not fit, and the program ends.
  pub mark-Marked :
      (p : ℕ)
      → Target (frame s.heap) s.memory p
      → Safe (λ (r : ℕ × Store). Marked s r.0 r.1) (heap_mark old_mem s (make_heap_ptr p))
  mark-Marked p (a, inr k, h) = mark-kept p (a, k, h)
  mark-Marked p (a, inl g, (b, here)) = elim (v.contents.given p b here g) [
    | inl i ↦ mark-intact p b a g here i
    | inr c ↦ mark-copied p b a g here c
  ]
