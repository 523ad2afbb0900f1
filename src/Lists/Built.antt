-- ===== src/Lists/Built.antt =====
-- `_list` of vm/primitives.c, where the fresh space has room for the pairs.
use lgears.Prelude.{
  ℕ, zero, suc, ◌+◌, ◌*◌, ◌^◌, ◌≤◌, ◌<◌, ◌≡◌, inl, inr, refl, ◌∙◌, arith, some, List, [], ◌∷◌,
  length, get_elem?, drop,
}
use lgears.Prelude.Run.{ok}
use lgears.Object.{ptr, cnull, make_heap_ptr}
use lgears.Object.Tag
use lgears.Object.Pointer.{ptr-make_tagged_ptr}
use lgears.Memory.{Memory, bhdr_size}
use lgears.Types.{t_pair}
use lgears.Space.Layout.{IsSpace}
use lgears.Heap.{Heap}
use lgears.Machine.{Thread}
use lgears.Allocator.{Pointer, root}
use lgears.Lists.{prepend, list_loop, list_of}
use lgears.Lists.Cells.{is_type-same, IsCell, IsListApart, IsRead, with_cell, list_length-cons}

-- The object is a list of the elements, whose pairs stand below an address, and each of which says
-- how long the list from it on is.
abbrev pub Spells : Thread → ℕ → ℕ → List ℕ → Type 0
Spells t bound o [] = o ≡ cnull
Spells t bound o (x ∷ xs) =
    (ptr o < bound) × ((cdr : ℕ) × IsCell t o x cdr (length xs + 1) × Spells t bound cdr xs)

-- A change above the bound leaves a list as it is.
pub Spells-frame :
    (t t' : Thread) (bound bound' o : ℕ) (xs : List ℕ)
    → ((q : ℕ) → q < bound → t'.memory q ≡ t.memory q)
    → bound ≤ bound'
    → Spells t bound o xs
    → Spells t' bound' o xs
Spells-frame t t' bound bound' o [] same more s = s
Spells-frame t t' bound bound' o (x ∷ xs) same more (below, (cdr, c, s)) = (
  omega arith,
  (
    cdr,
    record {
      no_null = c.no_null;
      tested = is_type-same t.memory t'.memory o t_pair (same (ptr o) below) ∙ c.tested;
      block = c.block;
      here = same (ptr o) below ∙ c.here;
      fields = c.fields;
    },
    Spells-frame t t' bound bound' cdr xs same more s,
  ),
)

Spells-IsListApart :
    (t : Thread) (bound o : ℕ) (xs : List ℕ)
    → Spells t bound o xs
    → IsListApart t o (length xs) bound
Spells-IsListApart t bound o [] s = inl (s, refl)
Spells-IsListApart t bound o (x ∷ xs) (below, (cdr, c, s)) =
    let one_more : length xs + 1 ≡ length (x ∷ xs) = omega arith in
    inr (x, cdr, rw (← one_more) c, omega arith)

-- The pointers lead to the words, whatever a change of the heap and of the protected variables.
abbrev pub AreRead : (ℕ → Pointer Thread) → Thread → List ℕ → Type 0
AreRead argv t args =
    (k x : ℕ) (h : Heap) (m : Memory) (r : List ℕ)
    → get_elem? args k ≡ some x
    → argv k (record t { heap = h; memory = m; local_roots = r }) ≡ ok x

drop-get :
    (xs : List ℕ) (i : ℕ)
    → i < length xs
    → (x : ℕ) × (get_elem? xs i ≡ some x) × (drop i xs ≡ x ∷ drop (suc i) xs)
drop-get [] i h = absurd (omega arith)
drop-get (x ∷ xs) zero h = (x, refl, refl)
drop-get (x ∷ xs) (suc i) h = drop-get xs i (omega arith)

drop-length : (xs : List ℕ) → drop (length xs) xs ≡ []
drop-length [] = refl
drop-length (x ∷ xs) = drop-length xs

length-drop : (xs : List ℕ) (i : ℕ) → i ≤ length xs → length (drop i xs) + i ≡ length xs
length-drop xs zero h = omega arith
length-drop [] (suc i) h = absurd (omega arith)
length-drop (x ∷ xs) (suc i) h = omega (arith, length-drop xs i (omega arith))

-- The fresh space of a thread, where the next payload goes, and room for so many pairs.
abbrev pub next_payload : Thread → ℕ
next_payload t = t.heap.fresh.pos + bhdr_size

pub record HasPairs (t : Thread) (n : ℕ) : Type 0 where
  pub valid : IsSpace t.heap.fresh t.memory
  pub room : n * 32 ≤ t.heap.fresh.free_mem
  pub word : t.heap.fresh.pos + n * 32 < 2 ^ 64

-- A list in the protected variable.
pub record IsBuilt (t : Thread) (o : ℕ) (xs : List ℕ) : Type 0 where
  pub kept : t.local_roots ≡ o ∷ []
  pub spells : Spells t (next_payload t) o xs

-- The thread with another heap, and with the list.
abbrev pub with_list : Thread → Heap → Memory → ℕ → Thread
with_list t h m o = record t { heap = h; memory = m; local_roots = o ∷ [] }

module _ (old_mem fuel : ℕ) where
  prepend-IsBuilt :
      (car : Pointer Thread) (t : Thread) (n o x : ℕ) (xs : List ℕ)
      → HasPairs t (suc n)
      → IsBuilt t o xs
      → IsRead car t x
      → length xs + 1 < 2 ^ 31
      → (m : Memory) × (h' : Heap) × (o' : ℕ) × (prepend old_mem fuel car t
          ≡ ok (with_list t h' m o'))
        × HasPairs (with_list t h' m o') n
        × IsBuilt (with_list t h' m o') o' (x ∷ xs)
  unfolding prepend
  prepend-IsBuilt car t n o x xs h b reads small =
      let built =
        list_length-cons old_mem fuel t x o (length xs) h.valid (let r = h.room in omega arith)
          (let w = h.word in omega arith) (Spells-IsListApart t (next_payload t) o xs b.spells)
          small car (root 0) reads (λ h m. rw b.kept) in
      let (runs, c, len, valid, same) = built in
      let p = next_payload t in
      let t' = record (with_cell t x o (length xs + 1)) { local_roots = make_heap_ptr p ∷ [] } in
      let back =
        ptr-make_tagged_ptr p Tag.ptr (let w = h.word in omega arith)
          (let v = h.valid.pos_aligned in omega arith) (omega arith) in
      let cell : IsCell t' (make_heap_ptr p) x o (length xs + 1) = record {
        no_null = c.no_null;
        tested = c.tested;
        block = c.block;
        here = c.here;
        fields = c.fields;
      } in
      let rest : Spells t' (next_payload t') o xs =
        Spells-frame t t' (next_payload t) (next_payload t') o xs (λ q below. same q (omega arith))
          (omega arith) b.spells in
      (
        (with_cell t x o (length xs + 1)).memory,
        (with_cell t x o (length xs + 1)).heap,
        make_heap_ptr p,
        rw runs,
        record {
          valid = valid;
          room = (let r = h.room in omega arith);
          word = (let w = h.word in omega arith);
        },
        record { kept = refl; spells = (rw back.0 (omega arith), (o, cell, rest)) },
      )

  -- The loop of `_list` over the first `i` of the words, behind which the list has the others.
  list_loop-IsBuilt :
      (argv : ℕ → Pointer Thread) (args : List ℕ) (i : ℕ) (t : Thread) (o : ℕ)
      → AreRead argv t args
      → i ≤ length args
      → length args < 2 ^ 31
      → HasPairs t i
      → IsBuilt t o (drop i args)
      → (m : Memory) × (h' : Heap) × (o' : ℕ) × (list_loop old_mem fuel argv i t
          ≡ ok (with_list t h' m o'))
        × IsBuilt (with_list t h' m o') o' args
        × IsSpace h'.fresh m
  unfolding list_loop
  list_loop-IsBuilt argv args zero t o reads h small room b = (
    t.memory,
    t.heap,
    o,
    rw (← b.kept),
    record {
      kept = refl;
      spells =
          Spells-frame t (with_list t t.heap t.memory o) (next_payload t) (next_payload t) o args
            (λ q below. refl) (omega arith) b.spells;
    },
    room.valid,
  )
  list_loop-IsBuilt argv args (suc i) t o reads h small room b =
      let (x, e, cut) = drop-get args i (omega arith) in
      let short = length-drop args (suc i) h in
      let (m, h', o', runs, room', b') =
        prepend-IsBuilt (argv i) t i o x (drop (suc i) args) room b
          (λ h m. reads i x h m t.local_roots e) (omega arith) in
      let (m2, h2, o2, runs2, b2, valid) =
        list_loop-IsBuilt argv args i (with_list t h' m o') o' (λ k x h m r e. reads k x h m r e)
          (omega arith) small room' (rw cut b') in
      (m2, h2, o2, rw (runs, runs2), b2, valid)

  -- Where the fresh space has room for as many pairs as there are arguments, `_list` makes, without a
  -- collection, a list that spells the arguments in their order, each pair with the length of the
  -- list from it on; nothing else of the thread changes but its heap.
  pub list_of-Spells :
      (argv : ℕ → Pointer Thread) (args : List ℕ) (t : Thread)
      → AreRead argv t args
      → length args < 2 ^ 31
      → HasPairs t (length args)
      → (m : Memory) × (h' : Heap) × (o : ℕ) × (list_of old_mem fuel argv (length args) t
          ≡ ok (o, record t { heap = h'; memory = m; local_roots = [] }))
        × Spells (with_list t h' m o) (next_payload (with_list t h' m o)) o args
        × IsSpace h'.fresh m
  unfolding list_of
  list_of-Spells argv args t reads small room =
      let t0 = record t { local_roots = cnull ∷ [] } in
      let room0 : HasPairs t0 (length args) = record {
        valid = room.valid;
        room = room.room;
        word = room.word;
      } in
      let none_left : IsBuilt t0 cnull (drop (length args) args) = record {
        kept = refl;
        spells = rw (drop-length args) refl;
      } in
      let (m, h', o, runs, b, valid) =
        list_loop-IsBuilt argv args (length args) t0 cnull (λ k x h m r e. reads k x h m r e)
          (omega arith) small room0 none_left in
      (m, h', o, rw runs, b.spells, valid)
