-- ===== src/Collector/Scans.antt =====
-- Where a loop of vm/heap.c over the blocks of a space that is kept has come to: the blocks in front
-- have been scanned, and those that the visits add stand behind.
use lgears.Prelude.{
  ℕ, ◌+◌, ◌/◌, ◌≤◌, ◌<◌, ◌≡◌, sym, subst, ap, some, List, [], ◌∷◌, ◌++◌, arith, length,
  length-append,
}
use lgears.Memory.{Block, bhdr_size}
use lgears.Space.{Space, next_hdr}
use lgears.Heap.{Heap, Store}
use lgears.Collector.Chain.{Chain, Any, Chain-append, Chain-le, Chain-one}
use lgears.Collector.Valid.{frame, Kept, Done, Known, IsFilled, IsValid}
use lgears.Collector.Later.{Later, IsSteady, Chain-later, survivors-Kept, old-Kept}
use lgears.Collector.Written.{Scanned}

-- The two spaces that are kept.
pub data Side : Type 0 where
  survivors : Side
  old : Side

abbrev pub space_of : Side → Heap → Space
space_of survivors h = h.future_survived
space_of old h = h.old

pub IsFilled-of : (side : Side) (s : Store) → IsValid s → IsFilled (space_of side s.heap) s.memory
IsFilled-of survivors s v = v.survived
IsFilled-of old s v = v.old

Kept-of :
    (side : Side) (s : Store)
    → IsValid s
    → (x : ℕ) → (space_of side s.heap).mem ≤ x
    → x + bhdr_size < (space_of side s.heap).pos
    → Kept (frame s.heap) (x + bhdr_size)
Kept-of survivors s v = survivors-Kept s v.survived
Kept-of old s v = old-Kept s v.old

-- What a step adds to a space.
record Addition (side : Side) (s s' : Store) : Type 0 where
  added : List ℕ
  more : Chain Any s'.memory (space_of side s.heap).pos added (space_of side s'.heap).pos
  counted : (space_of side s'.heap).blocks ≡ (space_of side s.heap).blocks + length added
  region :
      ((space_of side s'.heap).mem ≡ (space_of side s.heap).mem)
      × ((space_of side s'.heap).size ≡ (space_of side s.heap).size)

Addition-of : (side : Side) (s s' : Store) → Later s s' → Addition side s s'
Addition-of survivors s s' l = record {
  added = l.survivors;
  more = l.more;
  counted = l.more_blocks;
  region = (ap (λ f. f.future_survived.mem) l.same, ap (λ f. f.future_survived.size) l.same);
}
Addition-of old s s' l = record {
  added = l.grown;
  more = l.old_more;
  counted = l.old_blocks;
  region = (ap (λ f. f.old.mem) l.same, ap (λ f. f.old.size) l.same);
}

abbrev pub DoneIn : Store → ℕ → Block → Type 0
DoneIn s x b = Done (frame s.heap) s.memory b

pub DoneIn-steady :
    (s s' : Store)
    → Later s s'
    → (x : ℕ) (b b' : Block) → IsSteady s s' b b'
    → DoneIn s x b
    → DoneIn s' x b'
DoneIn-steady s s' l x b b' st d = subst (λ f. Done f s'.memory b') (sym l.same) (st.done d)

-- `i` blocks of the space have been scanned, and the next header is at `hdr`.
pub record Scan (side : Side) (s : Store) (i hdr : ℕ) : Type 0 where
  pub seen : List ℕ
  pub rest : List ℕ
  pub front : Chain (DoneIn s) s.memory (space_of side s.heap).mem seen hdr
  pub back : Chain Any s.memory hdr rest (space_of side s.heap).pos
  pub index : i ≡ length seen
  pub counted : (space_of side s.heap).blocks ≡ length seen + length rest

pub Scan-later :
    (side : Side) (s s' : Store) (i hdr : ℕ)
    → IsValid s
    → Later s s'
    → Scan side s i hdr
    → Scan side s' i hdr
Scan-later side s s' i hdr v l c =
    let a = Addition-of side s s' l in
    let sp = space_of side s.heap in
    let low = Chain-le (DoneIn s) s.memory sp.mem c.seen hdr c.front in
    let high = Chain-le Any s.memory hdr c.rest sp.pos c.back in
    let front : Chain (DoneIn s') s'.memory sp.mem c.seen hdr =
      Chain-later s s' l (DoneIn s) (DoneIn s') (DoneIn-steady s s' l) sp.mem c.seen hdr
        (λ x from to. Kept-of side s v x from (omega arith)) c.front in
    let back : Chain Any s'.memory hdr c.rest sp.pos =
      Chain-later s s' l Any Any (λ x b b' st u. u) hdr c.rest sp.pos
        (λ x from to. Kept-of side s v x (omega arith) to) c.back in
    record {
      seen = c.seen;
      rest = c.rest ++ a.added;
      front = rw a.region.0 front;
      back = Chain-append Any s'.memory hdr c.rest sp.pos a.added _ back a.more;
      index = c.index;
      counted = omega (arith, c.counted, a.counted, length-append c.rest a.added);
    }

-- The number of blocks is bounded by the size of the space.
pub blocks_bound :
    (side : Side) (s : Store)
    → IsValid s
    → (space_of side s.heap).blocks ≤ (space_of side s.heap).size / 8
blocks_bound side s v =
    let f = IsFilled-of side s v in
    let sp = space_of side s.heap in
    let inside = Chain-le Any s.memory sp.mem f.headers sp.pos f.chained in
    omega (arith, f.counted, f.space.balance)

-- One more block has been scanned.
pub scan_one :
    (side : Side) (s : Store) (i hdr : ℕ)
    → Scan side s i hdr
    → i < (space_of side s.heap).blocks
    → Scanned s (hdr + bhdr_size)
    → (c : Block) × (s.memory (hdr + bhdr_size) ≡ some c) × Scan side s (i + 1) (next_hdr hdr c.hdr)
scan_one side s i hdr c less (d, there, done) = go c.rest c.back c.counted
  where
    sp : Space
    sp = space_of side s.heap

    go :
        (rest : List ℕ)
        → Chain Any s.memory hdr rest sp.pos
        → sp.blocks ≡ length c.seen + length rest
        → (b : Block) × (s.memory (hdr + bhdr_size) ≡ some b)
          × Scan side s (i + 1) (next_hdr hdr b.hdr)
    go [] back counted = absurd (omega (arith, c.index))
    go (x ∷ rest) (at, b, here, even, room, u, back) counted =
        let here' : s.memory (hdr + bhdr_size) ≡ some b = rw (← at) here in
        let same : d ≡ b = cc in
        let one : Chain (DoneIn s) s.memory hdr (hdr ∷ []) (next_hdr hdr b.hdr) =
          Chain-one (DoneIn s) s.memory hdr b here' even room (subst (DoneIn s hdr) same done) in
        (
          b,
          here',
          record {
            seen = c.seen ++ hdr ∷ [];
            rest = rest;
            front = Chain-append (DoneIn s) s.memory sp.mem c.seen hdr (hdr ∷ []) _ c.front one;
            back = rw (← at) back;
            index = omega (arith, c.index, length-append c.seen (hdr ∷ []));
            counted = omega (arith, counted, length-append c.seen (hdr ∷ []));
          },
        )

-- The header that a loop has come to is that of a block.
pub Known-at :
    (side : Side) (s : Store) (i hdr : ℕ)
    → IsValid s
    → Scan side s i hdr
    → i < (space_of side s.heap).blocks
    → Known (frame s.heap) s.memory hdr
Known-at side s i hdr v c less = go c.rest c.back c.counted
  where
    sp : Space
    sp = space_of side s.heap

    go :
        (rest : List ℕ)
        → Chain Any s.memory hdr rest sp.pos
        → sp.blocks ≡ length c.seen + length rest
        → Known (frame s.heap) s.memory hdr
    go [] back counted = absurd (omega (arith, c.index))
    go (x ∷ rest) (at, b, here, even, room, u, back) counted =
        let low = Chain-le (DoneIn s) s.memory sp.mem c.seen hdr c.front in
        let high = Chain-le Any s.memory (next_hdr x b.hdr) rest sp.pos back in
        (Kept-of side s v hdr (omega arith) (omega (arith, at, room)), (b, rw (← at) here))

-- All blocks of the space have been scanned.
pub record AllDone (side : Side) (s : Store) : Type 0 where
  pub headers : List ℕ
  pub chain :
      Chain (DoneIn s) s.memory (space_of side s.heap).mem headers (space_of side s.heap).pos

pub Scan-AllDone :
    (side : Side) (s : Store) (i hdr : ℕ)
    → Scan side s i hdr
    → (space_of side s.heap).blocks ≤ i
    → AllDone side s
Scan-AllDone side s i hdr c all = go c.rest c.back c.counted
  where
    sp : Space
    sp = space_of side s.heap

    go :
        (rest : List ℕ)
        → Chain Any s.memory hdr rest sp.pos
        → sp.blocks ≡ length c.seen + length rest
        → AllDone side s
    go [] back counted = record { headers = c.seen; chain = rw (← back) c.front }
    go (x ∷ rest) back counted = absurd (omega (arith, c.index))
