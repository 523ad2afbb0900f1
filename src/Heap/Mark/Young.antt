-- ===== src/Heap/Mark/Young.antt =====
-- Marking an object of the first generations: it is copied once, and every word that pointed to it
-- is made to point to the one copy.
use lgears.Prelude.{
  ℕ, ◌+◌, ◌-◌, ◌%◌, ◌^◌, ◌≤◌, ◌<◌, ◌≡◌, ◌≢◌, ◌⊎◌, inl, inr, refl, ◌∙◌, fun_ext, arith, true, false,
  some, ltb, ◌==◌, Bool-cases,
}
use lgears.Prelude.Run.{ok, out_of_memory}
use lgears.Object.{is_heap_ptr, make_heap_ptr}
use lgears.Object.Tag
use lgears.Object.Pointer.{ptr-make_tagged_ptr}
use lgears.Memory.{Block, BlockHdr, bhdr_size, forwarded, write}
use lgears.Space.{Space, space_put, in_space}
use lgears.Space.Layout.{IsSpace, Tiled-frame}
use lgears.Space.Alloc.{advance, advance-Grown}
use lgears.Heap.{Store}
use lgears.Heap.Mark.{heap_mark, mark_fresh, mark_young, moved}

-- The header of a copy.
abbrev pub older : BlockHdr → BlockHdr
older hdr = record hdr { forward = false; generation = (hdr.generation + 1) % 4 }

abbrev pub copy_of : Block → Block
copy_of b = record b { hdr = older b.hdr }

-- What is left where the object was.
abbrev pub forwarding : Block → ℕ → Block
forwarding b q = record { hdr = record b.hdr { forward = true }; body = forwarded q }

-- A block outside of the space of the survivors and of the old region.
pub record IsOutside (s : Store) (p : ℕ) : Type 0 where
  pub word : p < 2 ^ 64
  pub aligned : p % 8 ≡ 0
  pub header : bhdr_size ≤ p
  pub low : s.heap.mem ≤ p
  pub high : p ≤ s.heap.mem + s.heap.mem_size
  pub not_survived : in_space s.heap.future_survived p ≡ false
  pub not_old : in_space s.heap.old p ≡ false

-- An object of the first generations that has not been copied. It has room for a pointer.
pub record IsYoung (s : Store) (p : ℕ) (b : Block) : Type 0 where
  pub here : s.memory p ≡ some b
  pub unmoved : b.hdr.forward ≡ false
  pub young : b.hdr.generation < 3
  pub even : b.hdr.size % 8 ≡ 0
  pub room : 0 < b.hdr.size

-- The address of the copy, and the store with it.
abbrev pub place : Store → ℕ
place s = s.heap.future_survived.pos + bhdr_size

abbrev pub copied : Store → ℕ → Block → Store
copied s p b = record {
  heap = record s.heap { future_survived = advance s.heap.future_survived b.hdr.size };
  memory = write (write s.memory p (some (forwarding b (place s)))) (place s) (some (copy_of b));
}

pub outside-region :
    (sp : Space) (p : ℕ)
    → in_space sp p ≡ false
    → (q : ℕ) → sp.mem ≤ q
    → q < sp.mem + sp.size
    → (p == q) ≡ false
unfolding in_space
outside-region sp p out q low high = ground arith

pub heap_mark-fresh :
    (old_mem : ℕ) (s : Store) (p : ℕ)
    → IsOutside s p
    → heap_mark old_mem s (make_heap_ptr p) ≡ mark_fresh old_mem s (make_heap_ptr p) p
unfolding heap_mark
heap_mark-fresh old_mem s p o =
    let back = ptr-make_tagged_ptr p Tag.ptr o.word o.aligned (omega arith) in
    let tagged : is_heap_ptr (make_heap_ptr p) ≡ true = rw back.1 in
    let low : ltb p s.heap.mem ≡ false = let l = o.low in ground arith in
    let high : ltb (s.heap.mem + s.heap.mem_size) p ≡ false = let h = o.high in ground arith in
    rw (tagged, back.0, low, high, o.not_survived, o.not_old)

same_memory :
    (s : Store) (p : ℕ) (b : Block)
    → s.memory p ≡ some b
    → bhdr_size ≤ p
    → moved
        (write s.memory (place s) (s.memory (p - bhdr_size + bhdr_size)))
        p
        b
        b.hdr
        s.heap.future_survived.pos
      ≡ (copied s p b).memory
same_memory s p b here h = fun_ext (λ r. ground arith)

module _ (old_mem : ℕ) (s : Store) (p : ℕ) (b : Block) (o : IsOutside s p) (y : IsYoung s p b)
    (v : IsSpace s.heap.future_survived s.memory) where
  mark_young-copied :
      b.hdr.size + bhdr_size ≤ s.heap.future_survived.free_mem
      → mark_young s p b ≡ ok (make_heap_ptr (place s), copied s p b)
  unfolding mark_young space_put
  mark_young-copied fits =
      let room : ltb s.heap.future_survived.free_mem (b.hdr.size + bhdr_size) ≡ false =
        ground arith in
      let far : s.heap.future_survived.pos + (b.hdr.size + bhdr_size) ≡ place s + b.hdr.size =
        omega arith in
      rw (room, far, same_memory s p b y.here o.header)

  -- The store after the copy: the space of the survivors is well formed and one block longer, the
  -- copy has the payload, the type and the size of the object, the object leads to its copy, and
  -- no other block has changed.
  pub record Copied : Type 0 where
    pub space : IsSpace (copied s p b).heap.future_survived (copied s p b).memory
    pub holds : (copied s p b).memory (place s) ≡ some (copy_of b)
    pub leads : (copied s p b).memory p ≡ some (forwarding b (place s))
    pub others : (r : ℕ) → r ≢ p → r ≢ place s → (copied s p b).memory r ≡ s.memory r

  copied-Copied : b.hdr.size + bhdr_size ≤ s.heap.future_survived.free_mem → Copied
  copied-Copied fits =
      let fs = s.heap.future_survived in
      let m1 = write s.memory p (some (forwarding b (place s))) in
      let before : IsSpace fs m1 = record {
        aligned = v.aligned;
        pos_aligned = v.pos_aligned;
        size_aligned = v.size_aligned;
        ordered = v.ordered;
        balance = v.balance;
        small = v.small;
        tiled = Tiled-frame s.memory m1 fs.blocks fs.mem fs.pos v.tiled (λ q low high.
            let away = outside-region fs p o.not_survived q in
            rw (away (omega arith) (omega (arith, v.balance))));
      } in
      let grown = advance-Grown fs m1 b.hdr.size (copy_of b) before (omega arith) y.even refl in
      record {
        space = grown.after;
        holds = grown.holds;
        leads =
            let away =
              outside-region fs p o.not_survived (place s) (omega (arith, v.ordered))
                (omega (arith, v.balance, y.room)) in
            let back : (place s == p) ≡ false = ground arith in
            let same : (p == p) ≡ true = ground arith in rw (back, same);
        others = λ r a c. ground arith;
      }

  mark_young-full :
      s.heap.future_survived.free_mem < b.hdr.size + bhdr_size
      → mark_young s p b ≡ out_of_memory (b.hdr.size + bhdr_size) s.heap.future_survived.free_mem
  unfolding mark_young space_put
  mark_young-full full =
      let none_left : ltb s.heap.future_survived.free_mem (b.hdr.size + bhdr_size) ≡ true =
        ground arith in
      rw none_left

  first_mark : heap_mark old_mem s (make_heap_ptr p) ≡ mark_young s p b
  unfolding mark_fresh
  first_mark =
      let third : (b.hdr.generation == 3) ≡ false = let g = y.young in ground arith in
      heap_mark-fresh old_mem s p o ∙ rw (y.here, mark_fresh, y.unmoved, third)

  second_mark :
      Copied
      → heap_mark old_mem (copied s p b) (make_heap_ptr p)
        ≡ ok (make_heap_ptr (place s), copied s p b)
  unfolding mark_fresh in_space
  second_mark c =
      let o' : IsOutside (copied s p b) p = record {
        word = o.word;
        aligned = o.aligned;
        header = o.header;
        low = o.low;
        high = o.high;
        not_survived = o.not_survived;
        not_old = o.not_old;
      } in
      heap_mark-fresh old_mem (copied s p b) p o' ∙ rw c.leads

  -- A word that points to an object of the first generations is marked: the program ends exactly
  -- where the object does not fit with the survivors. Otherwise the word points to a copy with the
  -- payload, the type and the size of the object, one generation older, that is the next block of
  -- the survivors; nothing else has changed but that the object leads to the copy. Marked again,
  -- the word is made to point to the same copy, and nothing changes.
  pub heap_mark-young :
      (s.heap.future_survived.free_mem < b.hdr.size + bhdr_size)
        × (heap_mark old_mem s (make_heap_ptr p)
            ≡ out_of_memory (b.hdr.size + bhdr_size) s.heap.future_survived.free_mem)
      ⊎ (b.hdr.size + bhdr_size ≤ s.heap.future_survived.free_mem)
        × (heap_mark old_mem s (make_heap_ptr p) ≡ ok (make_heap_ptr (place s), copied s p b))
        × Copied
        × (heap_mark old_mem (copied s p b) (make_heap_ptr p)
            ≡ ok (make_heap_ptr (place s), copied s p b))
  heap_mark-young =
      elim (Bool-cases (ltb s.heap.future_survived.free_mem (b.hdr.size + bhdr_size))) [
        | inl full ↦
            let less : s.heap.future_survived.free_mem < b.hdr.size + bhdr_size = ground arith in
            inl (less, first_mark ∙ mark_young-full less)
        | inr room ↦
            let fits : b.hdr.size + bhdr_size ≤ s.heap.future_survived.free_mem = ground arith in
            let c = copied-Copied fits in
            inr (fits, first_mark ∙ mark_young-copied fits, c, second_mark c)
      ]
