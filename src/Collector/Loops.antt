-- ===== src/Collector/Loops.antt =====
-- The loops of vm/heap.c over the blocks of a space that is kept, `heap_scan_references` and
-- `heap_scan_old`: they end, and then the blocks have been scanned.
use lgears.Prelude.{
  ℕ, zero, suc, ◌+◌, ◌/◌, ◌≤◌, ◌<◌, ◌≡◌, inl, inr, ap, false, arith, ltb, Bool-cases,
}
use lgears.Prelude.Run.{Safe, returns, Safe-bind, Safe-mono}
use lgears.Space.{next_hdr}
use lgears.Heap.{Store}
use lgears.Collector.{scan_references, scan_old}
use lgears.Collector.Valid.{IsValid}
use lgears.Collector.Later.{Later-refl, Later-trans}
use lgears.Collector.Words.{Went}
use lgears.Collector.Visits.{visit_hdr-Went}
use lgears.Collector.Scans.{
  survivors, old, Scan, Scan-later, Scan-AllDone, AllDone, scan_one, Known-at, blocks_bound,
}

module _ (old_mem fuel : ℕ) where
  abbrev pub ReferencesWent : Store → ℕ × ℕ × Store → Type 0
  ReferencesWent s r =
      Went s r.2 (Scan survivors r.2 r.0 r.1 × (r.2.heap.future_survived.blocks ≤ r.0))

  pub scan_references-Went :
      (rounds : ℕ) (s : Store) (i hdr : ℕ)
      → IsValid s
      → Scan survivors s i hdr
      → s.heap.future_survived.size / 8 ≤ rounds + i
      → Safe (ReferencesWent s) (scan_references old_mem fuel rounds s i hdr)
  unfolding scan_references
  scan_references-Went zero s i hdr v c enough =
      let all : s.heap.future_survived.blocks ≤ i =
        let bound = blocks_bound survivors s v in omega arith in
      let stop : ltb i s.heap.future_survived.blocks ≡ false = ground arith in
      rw stop (returns (i, hdr, s) (record { valid = v; later = Later-refl s; result = (c, all) }))
  scan_references-Went (suc rounds) s i hdr v c enough =
      elim (Bool-cases (ltb i s.heap.future_survived.blocks)) [
        | inr stop ↦ rw stop (
            returns (i, hdr, s)
              (record { valid = v; later = Later-refl s; result = (c, ground arith) }))
        | inl more ↦
            let less : i < s.heap.future_survived.blocks = ground arith in
            rw more (
              Safe-bind _ (visit_hdr-Went old_mem s hdr v (Known-at survivors s i hdr v c less))
                (λ s1 one.
                  let a = one.later.more_blocks in
                  let size : s1.heap.future_survived.size ≡ s.heap.future_survived.size =
                    ap (λ f. f.future_survived.size) one.later.same in
                  let (b, there, c1) =
                    scan_one survivors s1 i hdr (Scan-later survivors s s1 i hdr v one.later c)
                      (omega arith) one.result in
                  rw there (
                    Safe-mono (ReferencesWent s)
                      (scan_references-Went rounds s1 (i + 1) (next_hdr hdr b.hdr) one.valid c1
                        (omega (arith, size)))
                      (λ r w. record {
                        valid = w.valid;
                        later = Later-trans s s1 r.2 one.later w.later v one.valid;
                        result = w.result;
                      }))))
      ]

  -- The blocks of the old region have all been scanned, those that the loop adds included.
  pub scan_old-Went :
      (rounds : ℕ) (s : Store) (i hdr : ℕ)
      → IsValid s
      → Scan old s i hdr
      → s.heap.old.size / 8 ≤ rounds + i
      → Safe (λ s'. Went s s' (AllDone old s')) (scan_old old_mem fuel rounds s i hdr)
  unfolding scan_old
  scan_old-Went zero s i hdr v c enough =
      let all : s.heap.old.blocks ≤ i = let bound = blocks_bound old s v in omega arith in
      let stop : ltb i s.heap.old.blocks ≡ false = ground arith in
      rw stop (
        returns s
          (record { valid = v; later = Later-refl s; result = Scan-AllDone old s i hdr c all }))
  scan_old-Went (suc rounds) s i hdr v c enough = elim (Bool-cases (ltb i s.heap.old.blocks)) [
    | inr stop ↦ rw stop (
        returns s (record {
          valid = v;
          later = Later-refl s;
          result = Scan-AllDone old s i hdr c (ground arith);
        }))
    | inl more ↦
        let less : i < s.heap.old.blocks = ground arith in
        rw more (
          Safe-bind _ (visit_hdr-Went old_mem s hdr v (Known-at old s i hdr v c less)) (λ s1 one.
            let a = one.later.old_blocks in
            let size : s1.heap.old.size ≡ s.heap.old.size = ap (λ f. f.old.size) one.later.same in
            let (b, there, c1) =
              scan_one old s1 i hdr (Scan-later old s s1 i hdr v one.later c) (omega arith)
                one.result in
            rw there (
              Safe-mono (λ s'. Went s s' (AllDone old s'))
                (scan_old-Went rounds s1 (i + 1) (next_hdr hdr b.hdr) one.valid c1
                  (omega (arith, size)))
                (λ r w. record {
                  valid = w.valid;
                  later = Later-trans s s1 r one.later w.later v one.valid;
                  result = w.result;
                }))))
  ]
