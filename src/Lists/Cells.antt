-- ===== src/Lists/Cells.antt =====
-- A pair from `_cons` of vm/primitives.c in front of a list, where the fresh space has room for it.
use lgears.Prelude.{
  ℕ, ◌+◌, ◌/◌, ◌*◌, ◌%◌, ◌^◌, ◌≤◌, ◌<◌, ◌≡◌, ◌≢◌, ◌⊎◌, inl, inr, refl, ◌∙◌, fun_ext, ltb, arith,
  true, false, some, ◌==◌,
}
use lgears.Prelude.Int.{pos}
use lgears.Prelude.Run.{ok}
use lgears.Object.{ptr, cnull, is_null, make_heap_ptr}
use lgears.Object.Tag
use lgears.Object.Kinds.{constants}
use lgears.Object.Pointer.{make_tagged_ptr-sum, ptr-make_tagged_ptr}
use lgears.Memory.{Memory, Block, bhdr_size, pair, write, is_type}
use lgears.Types.{t_pair}
use lgears.Space.{space_alloc}
use lgears.Space.Layout.{IsSpace}
use lgears.Space.Alloc.{Grown, fresh_block, advance, advance-Grown, align_up-padded}
use lgears.Machine.{Thread}
use lgears.Collector.{heap_alloc}
use lgears.Allocator.{Pointer, heap_allocator}
use lgears.Heap.{Heap}
use lgears.Native.{is_pair, list_length, return_fixnum}
use lgears.Lists.{list_fields, cons}

-- The object is a pair that says that it begins a list of so many elements.
pub record IsCell (t : Thread) (o car cdr n : ℕ) : Type 0 where
  pub no_null : is_null o ≡ false
  pub tested : is_pair t o ≡ true
  pub block : Block
  pub here : t.memory (ptr o) ≡ some block
  pub fields : block.body ≡ pair car cdr true n

-- The empty list, or such a pair that does not stand at an address.
abbrev pub IsListApart : Thread → ℕ → ℕ → ℕ → Type 0
IsListApart t o n p =
    (o ≡ cnull) × (n ≡ 0) ⊎ ((car : ℕ) × (cdr : ℕ) × IsCell t o car cdr n × (ptr o ≢ p))

pub is_type-same :
    (m m' : Memory) (o k : ℕ) → m' (ptr o) ≡ m (ptr o) → is_type m' o k ≡ is_type m o k
unfolding is_type
is_type-same m m' o k e = rw e

abbrev pub cell : ℕ → ℕ → ℕ → Block
cell a d n = record (fresh_block t_pair 24) { body = pair a d true n }

-- The thread with such a pair at the end of its fresh space.
abbrev pub with_cell : Thread → ℕ → ℕ → ℕ → Thread
with_cell t a d n = record t {
  heap = record t.heap { fresh = advance t.heap.fresh 24 };
  memory = write t.memory (t.heap.fresh.pos + bhdr_size) (some (cell a d n));
}

list_fields-list :
    (t : Thread) (m : Memory) (d n p : ℕ)
    → IsListApart t d n p
    → ((q : ℕ) → q ≢ p → m q ≡ t.memory q)
    → n + 1 < 2 ^ 31
    → list_fields m d (false, 0) ≡ ok (true, n + 1)
unfolding list_fields
list_fields-list t m d n p (inl (null, zero_long)) same small =
    let here : (cnull == cnull) ≡ true = ground arith in rw (null, zero_long, here)
list_fields-list t m d n p (inr (car, cdr, c, apart)) same small =
    let kept = same (ptr d) apart in
    let tested = is_type-same t.memory m d t_pair kept ∙ c.tested in
    let whole : (n + 1) % 2 ^ 31 ≡ n + 1 = omega arith in
    rw (c.no_null, tested, kept, c.here, c.fields, whole)

-- A pointer that leads to a word, whatever a change of the heap.
abbrev pub IsRead : Pointer Thread → Thread → ℕ → Type 0
IsRead x t w = (h : Heap) (m : Memory) → x (record t { heap = h; memory = m }) ≡ ok w

module _ (old_mem fuel : ℕ) (t : Thread) (a d n : ℕ) (v : IsSpace t.heap.fresh t.memory)
    (fits : 24 + bhdr_size ≤ t.heap.fresh.free_mem) (word : t.heap.fresh.pos + bhdr_size < 2 ^ 64)
    (l : IsListApart t d n (t.heap.fresh.pos + bhdr_size)) (small : n + 1 < 2 ^ 31)
    (car cdr : Pointer Thread) (reads_car : IsRead car t a) (reads_cdr : IsRead cdr t d) where
  abbrev p : ℕ
  p = t.heap.fresh.pos + bhdr_size

  given :
      space_alloc t.heap.fresh 24 t_pair t.memory
      ≡ some (p, advance t.heap.fresh 24, write t.memory p (some (fresh_block t_pair 24)))
  unfolding space_alloc
  given =
      let room : ltb t.heap.fresh.free_mem (24 + bhdr_size) ≡ false = ground arith in
      rw (align_up-padded 24 (omega arith), room)

  alloc :
      heap_alloc old_mem fuel t 24 t_pair
      ≡ ok (
        p,
        record t {
          heap = record t.heap { fresh = advance t.heap.fresh 24 };
          memory = write t.memory p (some (fresh_block t_pair 24));
        },
      )
  unfolding heap_alloc
  alloc = rw (heap_alloc, given)

  runs :
      cons (heap_allocator old_mem fuel) car cdr t ≡ ok (make_heap_ptr p, with_cell t a d (n + 1))
  unfolding cons
  runs =
      let m' = write t.memory p (some (fresh_block t_pair 24)) in
      let h' = record t.heap { fresh = advance t.heap.fresh 24 } in
      let flags = list_fields-list t m' d n p l (λ q away. ground arith) small in
      let there : (p == p) ≡ true = ground arith in
      let once : write m' p (some (cell a d (n + 1))) ≡ write t.memory p (some (cell a d (n + 1))) =
        fun_ext (λ q. ground arith) in
      rw (alloc, reads_car h' m', reads_cdr h' m', flags, there, once)

  made :
      Grown t.heap.fresh t.memory 24 p
        (cell a d (n + 1))
        (advance t.heap.fresh 24)
        (with_cell t a d (n + 1)).memory
  made = advance-Grown t.heap.fresh t.memory 24 (cell a d (n + 1)) v fits refl refl

  made-IsCell : IsCell (with_cell t a d (n + 1)) (make_heap_ptr p) a d (n + 1)
  unfolding is_type
  made-IsCell =
      let (back, tag) =
        ptr-make_tagged_ptr p Tag.ptr word (omega (arith, v.pos_aligned)) (omega arith) in
      let sum = make_tagged_ptr-sum p Tag.ptr word (omega arith) in
      record {
        no_null =
            let apart : (p / 8 * 8 + 1 == 5) ≡ false =
              let far : p / 8 * 8 + 1 ≢ 5 = omega arith in ground arith in
            rw (sum, constants.0, apart);
        tested = rw (tag, back, made.holds);
        block = cell a d (n + 1);
        here = rw back made.holds;
        fields = refl;
      }

  -- Where the fresh space has room, `_cons` of an object in front of a list makes, without a
  -- collection, a pair of the two that says that it begins a list of one element more, which `length` answers; the
  -- fresh space stays well formed, and nothing else in the memory changes.
  pub list_length-cons :
      (cons (heap_allocator old_mem fuel) car cdr t ≡ ok (make_heap_ptr p, with_cell t a d (n + 1)))
      × IsCell (with_cell t a d (n + 1)) (make_heap_ptr p) a d (n + 1)
      × (list_length (with_cell t a d (n + 1)) (make_heap_ptr p)
          ≡ return_fixnum (with_cell t a d (n + 1)) (pos (n + 1)))
      × IsSpace (with_cell t a d (n + 1)).heap.fresh (with_cell t a d (n + 1)).memory
      × ((q : ℕ) → q ≢ p → (with_cell t a d (n + 1)).memory q ≡ t.memory q)
  unfolding list_length
  list_length-cons =
      let c = made-IsCell in
      (runs, c, rw (c.no_null, c.tested, c.here, c.fields), made.after, made.same)
