-- ===== src/Collector/Main.antt =====
-- `heap_gc_main` of vm/heap.c outside of a full collection: the roots, and all that they lead to.
use lgears.Prelude.{
  ℕ, ◌/◌, ◌≤◌, ◌<◌, ◌≡◌, refl, sym, subst, ap, ◌∙◌, [], arith, length, if◌then◌else◌,
}
use lgears.Prelude.Run.{Run, ok, Safe, returns, Safe-bind}
use lgears.Heap.{Store}
use lgears.Machine.{Thread}
use lgears.Collector.{heap_gc_main, store_of, with_store}
use lgears.Collector.Valid.{frame, IsValid, Stays, Moved, Moved-stays}
use lgears.Collector.Later.{Later-trans}
use lgears.Collector.Words.{Aim, Home, Home-Later}
use lgears.Collector.Roots.{IsRooted, IsRooted-map, thread_get_roots-Went}
use lgears.Collector.Scans.{Side, survivors, old, Scan, space_of, IsFilled-of}
use lgears.Collector.Loops.{scan_old-Went, scan_references-Went}
use lgears.Collector.Remembered.{OldScan-later, AllDone-OldScan, Bounded, Bounded-Later}
use lgears.Collector.Drains.{Drained, drain-Drained}

-- No block of a space has been scanned.
start : (side : Side) (s : Store) → IsValid s → Scan side s 0 (space_of side s.heap).mem
start side s v =
    let f = IsFilled-of side s v in
    record {
      seen = [];
      rest = f.headers;
      front = refl;
      back = f.chained;
      index = refl;
      counted = omega (arith, f.counted);
    }

-- What the collection of a thread has done: the blocks that are kept have all been scanned, and the
-- roots lead to such blocks.
pub record Collected (t t' : Thread) : Type 0 where
  pub drained : Drained (store_of t) (store_of t')
  pub rooted : IsRooted (Home (store_of t')) t'

Home-kept :
    (s s' : Store)
    → frame s'.heap ≡ frame s.heap
    → Stays s.memory s'.memory
    → (p : ℕ) → Home s p
    → Home s' p
Home-kept s s' same stays p h =
    subst (λ f. Moved f s'.memory p) (sym same)
      (Moved-stays (frame s.heap) s.memory s'.memory stays p h)

-- The roots of a thread do not depend on its heap.
pub same_roots :
    {T : ℕ → Type 0} (t : Thread) (s : Store) → IsRooted T t → IsRooted T (with_store t s)
same_roots t s r = record {
  env = r.env;
  stack = r.stack;
  closure = r.closure;
  lib_cache = r.lib_cache;
  handlers = r.handlers;
  locals = r.locals;
}

-- The old region is scanned where no full collection is on the way.
partial-scan :
    {P : Store → Type 0} (s : Store) {scan : Run Store}
    → IsValid s
    → Safe P scan
    → Safe P (if s.heap.full_gc then ok s else scan)
partial-scan s v safe = let e = v.partial.partial in rw e safe

module _ (old_mem fuel : ℕ) (t : Thread) where
  pub heap_gc_main-Collected :
      IsValid (store_of t)
      → IsRooted (Aim (store_of t)) t
      → t.heap.remembered_set ≡ []
      → t.heap.future_survived.size / 8 ≤ fuel
      → t.heap.old.size / 8 < fuel
      → Safe (Collected t) (heap_gc_main old_mem fuel t)
  unfolding heap_gc_main
  heap_gc_main-Collected v r nothing enough enough_old =
      let s = store_of t in
      Safe-bind _ (thread_get_roots-Went old_mem fuel t v r) (λ t1 w1.
        let s1 = store_of t1 in
        let l1 = w1.later in
        let none_before = ap (λ l. length l) nothing in
        let b0 : Bounded 0 s = omega (arith, none_before) in
        let b1 = Bounded-Later 0 s s1 l1 b0 in
        let fut1 : s1.heap.future_survived.size ≡ s.heap.future_survived.size =
          ap (λ f. f.future_survived.size) l1.same in
        let old1 : s1.heap.old.size ≡ s.heap.old.size = ap (λ f. f.old.size) l1.same in
        let scanned =
          scan_old-Went old_mem fuel fuel s1 0 s1.heap.old.mem w1.valid (start old s1 w1.valid)
            (omega (arith, old1)) in
        Safe-bind _ (partial-scan s1 w1.valid scanned) (λ s2 w2.
          let fut2 : s2.heap.future_survived.size ≡ s1.heap.future_survived.size =
            ap (λ f. f.future_survived.size) w2.later.same in
          let old2 : s2.heap.old.size ≡ s1.heap.old.size = ap (λ f. f.old.size) w2.later.same in
          let o2 = AllDone-OldScan s2 w2.result in
          let b2 = Bounded-Later 0 s1 s2 w2.later b1 in
          Safe-bind _
            (scan_references-Went old_mem fuel fuel s2 0 s2.heap.future_survived.mem w2.valid
              (start survivors s2 w2.valid) (omega (arith, fut1, fut2)))
            (λ r3 w3.
              let s3 = r3.2 in
              let fut3 : s3.heap.future_survived.size ≡ s2.heap.future_survived.size =
                ap (λ f. f.future_survived.size) w3.later.same in
              let old3 : s3.heap.old.size ≡ s2.heap.old.size = ap (λ f. f.old.size) w3.later.same in
              Safe-bind _
                (drain-Drained old_mem fuel fuel s3 r3.0 r3.1 0 w3.valid w3.result.0 w3.result.1
                  (OldScan-later s2 s3 0 w2.valid w3.later o2) (Bounded-Later 0 s2 s3 w3.later b2)
                  (omega (arith, fut1, fut2, fut3)) (omega (arith, old1, old2, old3))
                  (omega (arith, old1, old2, old3)))
                (λ s4 d.
                  let l3 = Later-trans s1 s2 s3 w2.later w3.later w1.valid w2.valid in
                  let home : (p : ℕ) → Home s1 p → Home s4 p =
                    λ p h. Home-kept s3 s4 d.same d.stays p (Home-Later s1 s3 l3 p h) in
                  returns (with_store t1 s4) (record {
                    drained = record {
                      valid = d.valid;
                      same = d.same ∙ l3.same ∙ l1.same;
                      stays = λ p h. d.stays p (l3.stays p (l1.stays p h));
                      survived = d.survived;
                      old_done = d.old_done;
                      nothing = d.nothing;
                    };
                    rooted = same_roots t1 s4 (IsRooted-map (Home s1) (Home s4) t1 home w1.rooted);
                  })))))
