-- ===== src/Collector/Drains.antt =====
-- The `while` loop of `heap_gc_main` of vm/heap.c: it ends, and then every block that is kept has
-- been scanned.
use lgears.Prelude.{
  ℕ, zero, suc, ◌+◌, ◌/◌, ◌≤◌, ◌<◌, ◌≡◌, inl, inr, refl, sym, subst, ap, ◌∙◌, List, [], ◌∷◌, ◌++◌,
  arith, ltb, length, length-append, Bool-cases, if◌then◌else◌,
}
use lgears.Prelude.Run.{Run, ok, Safe, returns, Safe-bind, Safe-mono}
use lgears.Heap.{Store, forget}
use lgears.Collector.{scan_references, drain}
use lgears.Collector.Valid.{frame, IsValid, Stays}
use lgears.Collector.Later.{Later-refl}
use lgears.Collector.Scans.{survivors, old, Scan, Scan-later, Scan-AllDone, AllDone, blocks_bound}
use lgears.Collector.Loops.{scan_references-Went, ReferencesWent}
use lgears.Collector.Remembered.{
  OldScan, OldScan-later, OldScan-AllDone, AllDone-OldScan, Bounded, Bounded-Later, List-cases,
  scan_remembered-Went,
}

-- Every block that is kept has been scanned, and every block has stayed where it was.
pub record Drained (s s' : Store) : Type 0 where
  pub valid : IsValid s'
  pub same : frame s'.heap ≡ frame s.heap
  pub stays : Stays s.memory s'.memory
  pub survived : AllDone survivors s'
  pub old_done : AllDone old s'
  pub nothing : s'.heap.remembered_set ≡ []

-- The store with an empty remembered set.
abbrev forgotten : Store → Store
forgotten s = record s { heap = record s.heap { remembered_set = [] } }

forgotten-IsValid : (s : Store) → IsValid s → IsValid (forgotten s)
forgotten-IsValid s v = record {
  partial = v.partial;
  survived = v.survived;
  old = v.old;
  contents = v.contents;
  remembered = tt;
}

forgotten-Scan :
    (s : Store) (i hdr : ℕ) → Scan survivors s i hdr → Scan survivors (forgotten s) i hdr
forgotten-Scan s i hdr c = record {
  seen = c.seen;
  rest = c.rest;
  front = c.front;
  back = c.back;
  index = c.index;
  counted = c.counted;
}

forgotten-OldScan : (s : Store) → AllDone old s → OldScan (forgotten s) 0
forgotten-OldScan s a =
    AllDone-OldScan (forgotten s) (record { headers = a.headers; chain = a.chain })

OldScan-empty : (s : Store) (o : OldScan s 0) → s.heap.remembered_set ≡ [] → o.left ≡ []
OldScan-empty s o e = elim (List-cases o.left) [
  | inl nothing ↦ nothing
  | inr (x, xs, some_left) ↦
      let lengths = ap (λ r. length r) (sym e ∙ o.split ∙ ap (λ l. o.visited ++ l) some_left) in
      absurd (omega (arith, length-append o.visited (x ∷ xs)))
]

-- A test whether a list is empty.
by_list : (l : List ℕ) (stop more : Run Store) → Run Store
by_list l stop more = elim l [ [] ↦ stop | _ ∷ _ ↦ more ]

by_list-empty : (l : List ℕ) (stop more : Run Store) → l ≡ [] → by_list l stop more ≡ stop
unfolding by_list
by_list-empty l stop more e = rw e

by_list-more :
    (l : List ℕ) (x : ℕ) (xs : List ℕ) (stop more : Run Store)
    → l ≡ x ∷ xs
    → by_list l stop more ≡ more
unfolding by_list
by_list-more l x xs stop more e = rw e

-- The end of the loop.
stopped :
    (s : Store) (i hdr : ℕ)
    → IsValid s
    → Scan survivors s i hdr
    → s.heap.future_survived.blocks ≤ i
    → OldScan s 0
    → s.heap.remembered_set ≡ []
    → Safe (Drained s) (ok s)
stopped s i hdr v f all o e = returns s (record {
  valid = v;
  same = refl;
  stays = λ p h. h;
  survived = Scan-AllDone survivors s i hdr f all;
  old_done = OldScan-AllDone s 0 o (OldScan-empty s o e);
  nothing = e;
})

module _ (old_mem fuel : ℕ) where
  -- The rest of a round, once the remembered set has been scanned and forgotten.
  again :
      (s : Store) (i hdr : ℕ)
      → IsValid s
      → Scan survivors s i hdr
      → s.heap.future_survived.size / 8 ≤ fuel
      → Safe (ReferencesWent old_mem fuel s) (
          if ltb i s.heap.future_survived.blocks
          then scan_references old_mem fuel fuel s i hdr
          else ok (i, hdr, s))
  again s i hdr v c enough = elim (Bool-cases (ltb i s.heap.future_survived.blocks)) [
    | inl more ↦ rw more (scan_references-Went old_mem fuel fuel s i hdr v c (omega arith))
    | inr stop ↦ rw stop (
        returns (i, hdr, s)
          (record { valid = v; later = Later-refl s; result = (c, ground arith) }))
  ]

  pub drain-Drained :
      (rounds : ℕ) (s : Store) (i hdr c : ℕ)
      → IsValid s
      → Scan survivors s i hdr
      → s.heap.future_survived.blocks ≤ i
      → OldScan s 0
      → Bounded c s
      → s.heap.future_survived.size / 8 ≤ fuel
      → s.heap.old.size / 8 ≤ fuel
      → s.heap.old.size / 8 < rounds + c
      → Safe (Drained s) (drain old_mem fuel rounds s i hdr)
  unfolding drain forget by_list
  drain-Drained zero s i hdr c v f all o b enough enough_old more =
      elim (List-cases s.heap.remembered_set) [
        | inl e ↦
            subst (Safe (Drained s)) (sym (by_list-empty _ _ _ e)) (stopped s i hdr v f all o e)
        | inr (x, xs, e) ↦
            let lengths = ap (λ r. length r) e in
            let bound = blocks_bound old s v in absurd (omega arith)
      ]
  drain-Drained (suc rounds) s i hdr c v f all o b enough enough_old more =
      elim (List-cases s.heap.remembered_set) [
        | inl e ↦
            subst (Safe (Drained s)) (sym (by_list-empty _ _ _ e)) (stopped s i hdr v f all o e)
        | inr (x, xs, e) ↦
            let lengths = ap (λ r. length r) e in
            subst (Safe (Drained s)) (sym (by_list-more _ x xs _ _ e)) (
              Safe-bind _ (scan_remembered-Went old_mem fuel fuel s 0 c v o b (omega arith))
                (λ s1 one.
                  let s2 = forgotten s1 in
                  let v2 = forgotten-IsValid s1 one.valid in
                  let f2 =
                    forgotten-Scan s1 i hdr (Scan-later survivors s s1 i hdr v one.later f) in
                  let size : s1.heap.future_survived.size ≡ s.heap.future_survived.size =
                    ap (λ f. f.future_survived.size) one.later.same in
                  Safe-bind _ (again s2 i hdr v2 f2 (omega (arith, size))) (λ r two.
                    let o3 =
                      OldScan-later s2 r.2 0 v2 two.later (forgotten-OldScan s1 one.result) in
                    let grown = one.later.old_blocks in
                    let b3 : Bounded (c + 1) r.2 =
                      Bounded-Later (c + 1) s2 r.2 two.later (omega arith) in
                    let size3 : r.2.heap.future_survived.size ≡ s1.heap.future_survived.size =
                      ap (λ f. f.future_survived.size) two.later.same in
                    let old1 : s1.heap.old.size ≡ s.heap.old.size =
                      ap (λ f. f.old.size) one.later.same in
                    let old3 : r.2.heap.old.size ≡ s1.heap.old.size =
                      ap (λ f. f.old.size) two.later.same in
                    Safe-mono (Drained s)
                      (drain-Drained rounds r.2 r.0 r.1 (c + 1) two.valid two.result.0 two.result.1
                        o3 b3 (omega (arith, size, size3)) (omega (arith, old1, old3))
                        (omega (arith, old1, old3)))
                      (λ s4 d. record {
                        valid = d.valid;
                        same = d.same ∙ two.later.same ∙ one.later.same;
                        stays = λ p h. d.stays p (two.later.stays p (one.later.stays p h));
                        survived = d.survived;
                        old_done = d.old_done;
                        nothing = d.nothing;
                      }))))
      ]
