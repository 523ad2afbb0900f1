-- ===== src/Collector/Remembered.antt =====
-- The remembered set while it is scanned, `heap_scan_remebered` of vm/heap.c: each block of the old
-- region has been scanned, or its header is in the part of the set that is left.
use lgears.Prelude.{
  ℕ, zero, suc, ◌+◌, ◌/◌, ◌≤◌, ◌≡◌, ◌⊎◌, inl, inr, refl, sym, subst, ap, ◌∙◌, some, none, List, [],
  ◌∷◌, ◌++◌, arith, get_elem?, length, length-append, All,
}
use mathlib.Core.List.{append_assoc}
use lgears.Prelude.Run.{ok, Safe, returns, Safe-bind, Safe-mono}
use lgears.Memory.{Block, Memory, bhdr_size}
use lgears.Heap.{Store}
use lgears.Collector.{scan_remembered}
use lgears.Collector.Chain.{
  Chain, Any, Chain-append, Chain-map, In, In-append_left, In-append_right,
}
use lgears.Collector.Valid.{frame, Known, IsValid}
use lgears.Collector.Later.{Later, Later-refl, Later-trans, Chain-later, old-Kept}
use lgears.Collector.Words.{Went}
use lgears.Collector.Written.{Scanned}
use lgears.Collector.Visits.{visit_hdr-Went}
use lgears.Collector.Scans.{old, DoneIn, DoneIn-steady, AllDone, blocks_bound}

-- A block has been scanned, or its header is in the list.
abbrev pub Pending : Store → List ℕ → ℕ → Block → Type 0
Pending s left x b = DoneIn s x b ⊎ In x left

-- The first `k` of the remembered set have been visited.
pub record OldScan (s : Store) (k : ℕ) : Type 0 where
  pub visited : List ℕ
  pub left : List ℕ
  pub split : s.heap.remembered_set ≡ visited ++ left
  pub index : k ≡ length visited
  pub headers : List ℕ
  pub chain : Chain (Pending s left) s.memory s.heap.old.mem headers s.heap.old.pos

-- A block of a chain has its header in the list of the chain.
Chain-In :
    (m : Memory) (h : ℕ) (xs : List ℕ) (e : ℕ)
    → Chain Any m h xs e
    → Chain (λ x b. In x xs) m h xs e
Chain-In m h xs e c =
    Chain-map Any (λ x b. In x xs) m m h xs e c (λ x b low high i here u. (b, here, refl, i))

pub OldScan-later : (s s' : Store) (k : ℕ) → IsValid s → Later s s' → OldScan s k → OldScan s' k
OldScan-later s s' k v l c =
    let old_mem : s'.heap.old.mem ≡ s.heap.old.mem = ap (λ f. f.old.mem) l.same in
    let left' = c.left ++ l.grown in
    let front : Chain (Pending s' left') s'.memory s.heap.old.mem c.headers s.heap.old.pos =
      Chain-later s s' l (Pending s c.left) (Pending s' left')
        (λ x b b' st p. elim p [
          | inl d ↦ inl (DoneIn-steady s s' l x b b' st d)
          | inr i ↦ inr (In-append_left x c.left l.grown i)
        ])
        s.heap.old.mem c.headers s.heap.old.pos (λ x from to. old-Kept s v.old x from to) c.chain in
    let back : Chain (Pending s' left') s'.memory s.heap.old.pos l.grown s'.heap.old.pos =
      Chain-map (λ x b. In x l.grown) (Pending s' left') s'.memory s'.memory s.heap.old.pos l.grown
        s'.heap.old.pos (Chain-In s'.memory s.heap.old.pos l.grown s'.heap.old.pos l.old_more)
        (λ x b low high i here p. (b, here, refl, inr (In-append_right x c.left l.grown p))) in
    record {
      visited = c.visited;
      left = left';
      split = l.remembered ∙ ap (λ r. r ++ l.grown) c.split ∙ append_assoc c.visited c.left l.grown;
      index = c.index;
      headers = c.headers ++ l.grown;
      chain =
          subst (λ h. Chain (Pending s' left') s'.memory h (c.headers ++ l.grown) s'.heap.old.pos)
            (sym old_mem)
            (Chain-append (Pending s' left') s'.memory s.heap.old.mem c.headers s.heap.old.pos
              l.grown s'.heap.old.pos front back);
    }

-- Where all blocks have been scanned, so that none is pending.
pub AllDone-OldScan : (s : Store) → AllDone old s → OldScan s 0
AllDone-OldScan s a = record {
  visited = [];
  left = s.heap.remembered_set;
  split = refl;
  index = refl;
  headers = a.headers;
  chain =
      Chain-map (DoneIn s) (Pending s s.heap.remembered_set) s.memory s.memory s.heap.old.mem
        a.headers s.heap.old.pos a.chain (λ x b low high i here d. (b, here, refl, inl d));
}

get_elem?-length : (xs ys : List ℕ) → get_elem? (xs ++ ys) (length xs) ≡ get_elem? ys 0
get_elem?-length [] ys = refl
get_elem?-length (x ∷ xs) ys = get_elem?-length xs ys

All-middle : (P : ℕ → Type 0) (xs : List ℕ) (y : ℕ) (ys : List ℕ) → All P (xs ++ y ∷ ys) → P y
All-middle P [] y ys a = a.0
All-middle P (x ∷ xs) y ys a = All-middle P xs y ys a.1

-- One more of the set has been visited.
visited_one :
    (s : Store) (k x : ℕ) (xs : List ℕ) (c : OldScan s k)
    → c.left ≡ x ∷ xs
    → Scanned s (x + bhdr_size)
    → OldScan s (k + 1)
visited_one s k x xs c first (d, there, done) = record {
  visited = c.visited ++ x ∷ [];
  left = xs;
  split = c.split ∙ ap (λ l. c.visited ++ l) first ∙ sym (append_assoc c.visited (x ∷ []) xs);
  index = omega (arith, c.index, length-append c.visited (x ∷ []));
  headers = c.headers;
  chain =
      Chain-map (Pending s c.left) (Pending s xs) s.memory s.memory s.heap.old.mem c.headers
        s.heap.old.pos c.chain
        (λ y b low high i here p. (
          b,
          here,
          refl,
          elim p [
            | inl e ↦ inl e
            | inr j ↦ elim (subst (In y) first j) [
              | inl at ↦
                  let same : s.memory (y + bhdr_size) ≡ some d = rw at there in
                  let eq : d ≡ b = cc in inl (subst (DoneIn s y) eq done)
              | inr later ↦ inr later
            ]
          ],
        ));
}

-- Nothing is left.
pub OldScan-AllDone : (s : Store) (k : ℕ) (c : OldScan s k) → c.left ≡ [] → AllDone old s
OldScan-AllDone s k c nothing = record {
  headers = c.headers;
  chain =
      Chain-map (Pending s c.left) (DoneIn s) s.memory s.memory s.heap.old.mem c.headers
        s.heap.old.pos c.chain
        (λ y b low high i here p. (
          b,
          here,
          refl,
          elim p [ inl e ↦ e | inr j ↦ let n : In y [] = subst (In y) nothing j in absurd n ],
        ));
}

-- `c` headers have been remembered and forgotten, each of a block of its own.
abbrev pub Bounded : ℕ → Store → Type 0
Bounded c s = c + length s.heap.remembered_set ≤ s.heap.old.blocks

pub Bounded-Later : (c : ℕ) (s s' : Store) → Later s s' → Bounded c s → Bounded c s'
Bounded-Later c s s' l b =
    let e = ap (λ r. length r) l.remembered in
    omega (arith, e, l.old_blocks, length-append s.heap.remembered_set l.grown)

pub List-cases : (xs : List ℕ) → (xs ≡ []) ⊎ (y : ℕ) × (ys : List ℕ) × (xs ≡ y ∷ ys)
List-cases [] = inl refl
List-cases (y ∷ ys) = inr (y, ys, refl)

next_of :
    (s : Store) (k : ℕ) (o : OldScan s k) → get_elem? s.heap.remembered_set k ≡ get_elem? o.left 0
next_of s k o = rw (o.split, o.index) (get_elem?-length o.visited o.left)

next_none :
    (s : Store) (k : ℕ) (o : OldScan s k) → o.left ≡ [] → get_elem? s.heap.remembered_set k ≡ none
next_none s k o e = next_of s k o ∙ ap (λ l. get_elem? l 0) e

next_some :
    (s : Store) (k x : ℕ) (xs : List ℕ) (o : OldScan s k)
    → o.left ≡ x ∷ xs
    → get_elem? s.heap.remembered_set k ≡ some x
next_some s k x xs o e = next_of s k o ∙ ap (λ l. get_elem? l 0) e

stop :
    (s : Store) (k : ℕ) (v : IsValid s) (o : OldScan s k)
    → o.left ≡ []
    → Safe (λ s'. Went s s' (AllDone old s')) (ok s)
stop s k v o e =
    returns s (record { valid = v; later = Later-refl s; result = OldScan-AllDone s k o e })

module _ (old_mem fuel : ℕ) where
  pub scan_remembered-Went :
      (rounds : ℕ) (s : Store) (k c : ℕ)
      → IsValid s
      → OldScan s k
      → Bounded c s
      → s.heap.old.size / 8 ≤ rounds + k
      → Safe (λ s'. Went s s' (AllDone old s')) (scan_remembered old_mem fuel rounds s k)
  unfolding scan_remembered OldScan-later
  scan_remembered-Went zero s k c v o b enough = elim (List-cases o.left) [
    | inl e ↦ rw (next_none s k o e, scan_remembered) (stop s k v o e)
    | inr (x, xs, e) ↦
        let bound = blocks_bound old s v in
        let lengths = ap (λ r. length r) (o.split ∙ ap (λ l. o.visited ++ l) e) in
        absurd (omega (arith, length-append o.visited (x ∷ xs), o.index))
  ]
  scan_remembered-Went (suc rounds) s k c v o b enough = elim (List-cases o.left) [
    | inl e ↦ rw (next_none s k o e, scan_remembered) (stop s k v o e)
    | inr (x, xs, e) ↦
        let known : Known (frame s.heap) s.memory x =
          All-middle (Known (frame s.heap) s.memory) o.visited x xs (
            subst (All (Known (frame s.heap) s.memory)) (o.split ∙ ap (λ l. o.visited ++ l) e)
              v.remembered) in
        rw (next_some s k x xs o e, scan_remembered)
          (Safe-bind _ (visit_hdr-Went old_mem s x v known) (λ s1 one.
            let o1 = OldScan-later s s1 k v one.later o in
            let first : o1.left ≡ x ∷ xs ++ one.later.grown = ap (λ l. l ++ one.later.grown) e in
            let size : s1.heap.old.size ≡ s.heap.old.size = ap (λ f. f.old.size) one.later.same in
            Safe-mono (λ s'. Went s s' (AllDone old s'))
              (scan_remembered-Went rounds s1 (k + 1) c one.valid
                (visited_one s1 k x (xs ++ one.later.grown) o1 first one.result)
                (Bounded-Later c s s1 one.later b) (omega (arith, size)))
              (λ r w. record {
                valid = w.valid;
                later = Later-trans s s1 r one.later w.later v one.valid;
                result = w.result;
              })))
  ]
