-- ===== src/Heap/Mark/Promoted.antt =====
-- Marking an object of the third generation, which moves to the old region and keeps in its header
-- whether it was remembered.
use lgears.Prelude.{
  ℕ, ◌+◌, ◌-◌, Option, subst, sym, ◌^◌, ◌≤◌, ◌<◌, ◌≡◌, ◌≢◌, refl, ◌∙◌, fun_ext, arith, true, false,
  none, some, ltb, ◌==◌, Bool, Bool-cases, inl, inr, ◌&&◌, not, if◌then◌else◌,
}
use lgears.Prelude.Run.{Run, ok}
use lgears.Object.{is_heap_ptr, make_heap_ptr}
use lgears.Object.Tag
use lgears.Object.Pointer.{ptr-make_tagged_ptr}
use lgears.Memory.{Block, bhdr_size, forwarded, write}
use lgears.Space.{space_put, in_space}
use lgears.Space.Layout.{IsSpace}
use lgears.Space.Alloc.{advance}
use lgears.Hash.{HashTable, hash_table_lookup}
use lgears.Heap.{Store, heap_remember}
use lgears.Heap.Mark.{heap_mark, mark_fresh, mark_third, mark_old, mark_moved, moved, remembered_at}
use lgears.Heap.Mark.Young.{IsOutside, copy_of, heap_mark-fresh}

-- An object of the third generation that has not been copied, outside of a full collection, and the
-- old region, which is set up and has room for it.
pub record IsThird (s : Store) (p : ℕ) (b : Block) : Type 0 where
  pub here : s.memory p ≡ some b
  pub unmoved : b.hdr.forward ≡ false
  pub third : b.hdr.generation ≡ 3
  pub payload : 0 < b.hdr.size
  pub partial : s.heap.full_gc ≡ false
  pub region : s.heap.old.mem ≢ 0
  pub fits : b.hdr.size + bhdr_size ≤ s.heap.old.free_mem

-- The place in the old region, and the store with the copy there.
abbrev pub old_place : Store → ℕ
old_place s = s.heap.old.pos + bhdr_size

abbrev pub promoted : Store → ℕ → Block → Store
promoted s p b = record {
  heap = heap_remember (record s.heap { old = advance s.heap.old b.hdr.size }) s.heap.old.pos;
  memory =
      write
        (write s.memory p (
          some (record {
            hdr = record b.hdr { forward = true; remembered = false };
            body = forwarded (old_place s);
          })))
        (old_place s) (some (copy_of b));
}

-- A store in which the first pass of a full collection finds the copy of the block where it has been
-- put in the old region. A full collection clears the map of moved objects at its end, so that there
-- is none.
pub record IsFull (s : Store) (place : ℕ) (b : Block) : Type 0 where
  pub here : s.memory place ≡ some (copy_of b)
  pub full : s.heap.full_gc ≡ true
  pub inside : in_space s.heap.old place ≡ true
  pub apart : in_space s.heap.future_survived place ≡ false
  pub unmapped : s.heap.old_map ≡ none

nowhere : (a : Bool) → (a && not true) ≡ false
nowhere false = refl
nowhere true = refl

taken : {A : Type 0} (c : Bool) (x y : A) → c ≡ true → (if c then x else y) ≡ x
taken c x y e = rw e

no_map : (s : Store) (obj p : ℕ) → s.heap.old_map ≡ none → mark_moved s obj p ≡ ok (obj, s)
unfolding mark_moved
no_map s obj p e =
    subst
      (λ (map : Option HashTable).
        (elim map as (λ k. Run (ℕ × Store)) [
          | none ↦ ok (obj, s)
          | some tbl ↦
              let res = hash_table_lookup tbl (p - bhdr_size) in
              ok (if res == 0 then obj else make_heap_ptr (res + bhdr_size), s)
        ])
        ≡ ok (obj, s))
      (sym e) refl

module _ (old_mem : ℕ) (s : Store) (p : ℕ) (b : Block) (o : IsOutside s p) (y : IsThird s p b)
    (v : IsSpace s.heap.old s.memory) where
  mark_third-promoted :
      mark_third old_mem s (make_heap_ptr p) p b ≡ ok (make_heap_ptr (old_place s), promoted s p b)
  unfolding mark_third space_put
  mark_third-promoted =
      let room : ltb s.heap.old.free_mem (b.hdr.size + bhdr_size) ≡ false =
        let f = y.fits in ground arith in
      let there : (s.heap.old.mem == 0) ≡ false = let r = y.region in ground arith in
      let far : s.heap.old.pos + (b.hdr.size + bhdr_size) ≡ old_place s + b.hdr.size =
        omega arith in
      let same : moved (write s.memory (old_place s) (s.memory (p - bhdr_size + bhdr_size))) p b
            (record b.hdr { remembered = false }) s.heap.old.pos
          ≡ (promoted s p b).memory =
        let h = o.header in fun_ext (λ r. ground arith) in
      rw (y.partial, there, room, far, same)

  pub heap_mark-third :
      heap_mark old_mem s (make_heap_ptr p) ≡ ok (make_heap_ptr (old_place s), promoted s p b)
  unfolding mark_fresh
  heap_mark-third =
      let third : (b.hdr.generation == 3) ≡ true = let g = y.third in ground arith in
      let step : mark_fresh old_mem s (make_heap_ptr p) p
          ≡ mark_third old_mem s (make_heap_ptr p) p b =
        rw (y.here, y.unmoved, third) in
      heap_mark-fresh old_mem s p o ∙ step ∙ mark_third-promoted

  known : (promoted s p b).memory (old_place s) ≡ some (copy_of b)
  known = ground arith

  within : in_space (promoted s p b).heap.old (old_place s) ≡ true
  unfolding in_space heap_remember
  within =
      let f = y.fits in let l = v.ordered in let e = v.balance in let z = y.payload in ground arith

  module _ (later : Store) (f : IsFull later (old_place s) b) (word : old_place s < 2 ^ 64) where
    again :
        heap_mark old_mem later (make_heap_ptr (old_place s))
        ≡ mark_old later (make_heap_ptr (old_place s)) (old_place s)
    unfolding heap_mark
    again =
        let back =
          ptr-make_tagged_ptr (old_place s) Tag.ptr word (omega (arith, v.pos_aligned))
            (omega arith) in
        let tagged : is_heap_ptr (make_heap_ptr (old_place s)) ≡ true = rw back.1 in
        rw (tagged, back.0, f.inside, f.apart, nowhere)

    looked_up :
        mark_old later (make_heap_ptr (old_place s)) (old_place s)
        ≡ ok (
          make_heap_ptr (old_place s),
          if b.hdr.remembered then later else remembered_at later (old_place s) (copy_of b),
        )
    unfolding mark_old
    looked_up =
        taken later.heap.full_gc _ (mark_moved later (make_heap_ptr (old_place s)) (old_place s))
          f.full
        ∙ elim (Bool-cases b.hdr.remembered) [
          | inl set ↦
              rw (f.here, set) (no_map later (make_heap_ptr (old_place s)) (old_place s) f.unmapped)
          | inr unset ↦ rw (f.here, unset)
        ]

    -- In a pass of a collection that does not postpone the move, an object of the third generation
    -- moves to the old region, where this is set up and has room, and its copy there keeps the
    -- header's `remembered`. When the first pass of a later full collection, which begins with no map
    -- of moved objects, reaches that copy, the object joins the remembered set, and so is scanned,
    -- only where `remembered` was not set; where it was set, nothing changes.
    pub heap_mark-promoted :
        (heap_mark old_mem s (make_heap_ptr p) ≡ ok (make_heap_ptr (old_place s), promoted s p b))
        × ((promoted s p b).memory (old_place s) ≡ some (copy_of b))
        × (in_space (promoted s p b).heap.old (old_place s) ≡ true)
        × (heap_mark old_mem later (make_heap_ptr (old_place s))
            ≡ ok (
              make_heap_ptr (old_place s),
              if b.hdr.remembered then later else remembered_at later (old_place s) (copy_of b),
            ))
    heap_mark-promoted = (heap_mark-third, known, within, again ∙ looked_up)
