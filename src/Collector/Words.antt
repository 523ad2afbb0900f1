-- ===== src/Collector/Words.antt =====
-- The words of a root or of an object, marked one after another: `heap_mark` of vm/heap.c on a
-- word, `mark_env` of vm/vm.c, and the loops of the visitors over an array.
use lgears.Prelude.{
  ℕ, zero, suc, ◌≤◌, ◌≡◌, inl, inr, refl, sym, subst, ap, List, [], ◌∷◌, arith, take, length, All,
  ◌==◌, Bool-cases,
}
use lgears.Prelude.Run.{ok, Safe, returns, Safe-bind, Safe-mono, ◌>>=◌}
use lgears.Object.{ptr}
use lgears.Object.Tag
use lgears.Object.Pointer.{ptr-make_tagged_ptr}
use lgears.Heap.{Store}
use lgears.Heap.Mark.{heap_mark}
use lgears.Heap.Visit.{mark_words, mark_env}
use lgears.Collector.Valid.{
  frame, Target, Moved, Word, EnvPtr, Words-map, Word-map, Target-stays, Moved-stays, IsValid,
}
use lgears.Collector.Later.{Later, Later-refl, Later-trans}
use lgears.Collector.Marks.{mark-Marked}

-- Where the words of a store lead to.
abbrev pub Aim : Store → ℕ → Type 0
Aim s = Target (frame s.heap) s.memory

abbrev pub Home : Store → ℕ → Type 0
Home s = Moved (frame s.heap) s.memory

pub Aim-Later : (s s' : Store) → Later s s' → (p : ℕ) → Aim s p → Aim s' p
Aim-Later s s' l p t =
    subst (λ f. Target f s'.memory p) (sym l.same)
      (Target-stays (frame s.heap) s.memory s'.memory l.stays p t)

pub Home-Later : (s s' : Store) → Later s s' → (p : ℕ) → Home s p → Home s' p
Home-Later s s' l p t =
    subst (λ f. Moved f s'.memory p) (sym l.same)
      (Moved-stays (frame s.heap) s.memory s'.memory l.stays p t)

-- After a step of a collection the store is valid, and `Q` holds.
pub record Went (s s' : Store) (Q : Type 0) : Type 0 where
  pub valid : IsValid s'
  pub later : Later s s'
  pub result : Q

-- The first `n` words of an array.
abbrev pub FirstWords : (ℕ → Type 0) → ℕ → List ℕ → Type 0
FirstWords T n ws = (n ≤ length ws) × All (Word T) (take n ws)

abbrev pub WordWent : Store → ℕ × Store → Type 0
WordWent s r = Went s r.1 (Word (Home r.1) r.0)

abbrev pub EnvWent : Store → ℕ × Store → Type 0
EnvWent s r = Went s r.1 (EnvPtr (Home r.1) r.0)

abbrev pub WordsWent : Store → ℕ → List ℕ → List ℕ × Store → Type 0
WordsWent s n ws r = Went s r.1 (FirstWords (Home r.1) n r.0 × (length r.0 ≡ length ws))

module _ (old_mem : ℕ) where
  pub heap_mark-Went :
      (s : Store) (w : ℕ) → IsValid s → Word (Aim s) w → Safe (WordWent s) (heap_mark old_mem s w)
  unfolding heap_mark
  heap_mark-Went s w v (inl bare) =
      rw bare (returns (w, s) (record { valid = v; later = Later-refl s; result = inl bare }))
  heap_mark-Went s w v (inr (p, e, t)) = rw e (
      Safe-mono (WordWent s) (mark-Marked old_mem s v p t) (λ r m. record {
        valid = m.valid;
        later = m.later;
        result =
            let (q, at, home) = m.leads in
            inr (q, at, subst (λ f. Moved f r.1.memory q) (sym m.later.same) home);
      }))

  pub mark_env-Went :
      (s : Store) (e : ℕ) → IsValid s → EnvPtr (Aim s) e → Safe (EnvWent s) (mark_env old_mem s e)
  unfolding mark_env
  mark_env-Went s e v t = elim (Bool-cases (e == 0)) [
    | inl null ↦
        rw null (returns (0, s) (record { valid = v; later = Later-refl s; result = inl refl }))
    | inr set ↦
        let t' : Aim s e = elim t [ inl null ↦ absurd (ground arith) | inr aim ↦ aim ] in
        rw set (
          Safe-bind (λ r. ok (ptr r.0, r.1)) (mark-Marked old_mem s v e t')
            (λ r m.
              let (q, at, home) = m.leads in
              let back = ptr-make_tagged_ptr q Tag.ptr home.0.word home.0.aligned (omega arith) in
              returns (ptr r.0, r.1)
                (record {
                  valid = m.valid;
                  later = m.later;
                  result =
                      rw (at, back.0)
                        (inr (subst (λ f. Moved f r.1.memory q) (sym m.later.same) home));
                })))
  ]

  pub mark_words-Went :
      (n : ℕ) (s : Store) (ws : List ℕ)
      → IsValid s
      → FirstWords (Aim s) n ws
      → Safe (WordsWent s n ws) (mark_words old_mem n s ws)
  unfolding mark_words
  mark_words-Went zero s ws v (long, words) =
      returns (ws, s)
        (record { valid = v; later = Later-refl s; result = ((omega arith, tt), refl) })
  mark_words-Went (suc n) s [] v (long, words) = absurd (omega arith)
  mark_words-Went (suc n) s (w ∷ ws) v (long, (word, words)) =
      Safe-bind (λ r. mark_words old_mem n r.1 ws >>= λ q. ok (r.0 ∷ q.0, q.1))
        (heap_mark-Went s w v word)
        (λ r one.
          let aims = Words-map (Aim s) (Aim r.1) (Aim-Later s r.1 one.later) (take n ws) words in
          Safe-bind (λ q. ok (r.0 ∷ q.0, q.1))
            (mark_words-Went n r.1 ws one.valid (omega arith, aims))
            (λ q rest.
              returns (r.0 ∷ q.0, q.1)
                (record {
                  valid = rest.valid;
                  later = Later-trans s r.1 q.1 one.later rest.later v one.valid;
                  result = (
                    (
                      omega (arith, rest.result.0.0),
                      (
                        Word-map (Home r.1) (Home q.1) (Home-Later r.1 q.1 rest.later) r.0
                            one.result,
                        rest.result.0.1,
                      ),
                    ),
                    ap suc rest.result.1,
                  );
                })))
