-- ===== src/Collector/Roots.antt =====
-- The roots of a thread, `thread_get_roots` of vm/vm.c.
use lgears.Prelude.{ℕ, ◌≡◌, refl, sym, subst, ap, List, [], ◌∷◌, arith, take, length, All}
use lgears.Prelude.Run.{Safe, returns, Safe-bind}
use lgears.Machine.{Thread}
use lgears.Collector.{thread_get_roots, store_of}
use lgears.Collector.Valid.{Word, EnvPtr, IsValid, Word-map, EnvPtr-map, Words-map}
use lgears.Collector.Later.{Later, Later-trans}
use lgears.Collector.Words.{
  Aim, Home, Aim-Later, Home-Later, FirstWords, heap_mark-Went, mark_env-Went, mark_words-Went,
}

-- The words of a thread that the collector starts from.
pub record IsRooted (T : ℕ → Type 0) (t : Thread) : Type 0 where
  pub env : EnvPtr T t.env
  pub stack : FirstWords T t.op_stack_idx t.opstack
  pub closure : EnvPtr T t.closure
  pub lib_cache : Word T t.lib_cache
  pub handlers : Word T t.exception_handlers
  pub locals : All (Word T) t.local_roots

pub IsRooted-map :
    (T T' : ℕ → Type 0) (t : Thread) → ((p : ℕ) → T p → T' p) → IsRooted T t → IsRooted T' t
IsRooted-map T T' t f r = record {
  env = EnvPtr-map T T' f t.env r.env;
  stack = (r.stack.0, Words-map T T' f (take t.op_stack_idx t.opstack) r.stack.1);
  closure = EnvPtr-map T T' f t.closure r.closure;
  lib_cache = Word-map T T' f t.lib_cache r.lib_cache;
  handlers = Word-map T T' f t.exception_handlers r.handlers;
  locals = Words-map T T' f t.local_roots r.locals;
}

take-length : (xs : List ℕ) → take (length xs) xs ≡ xs
take-length [] = refl
take-length (x ∷ xs) = ap (λ l. x ∷ l) (take-length xs)

whole :
    (T : ℕ → Type 0) (n : ℕ) (ws : List ℕ)
    → length ws ≡ n
    → All (Word T) (take n ws)
    → All (Word T) ws
whole T n ws e all =
    let all' : All (Word T) (take (length ws) ws) =
      subst (λ k. All (Word T) (take k ws)) (sym e) all in
    subst (All (Word T)) (take-length ws) all'

-- The roots lead to blocks that are kept.
pub record RootsWent (t t' : Thread) : Type 0 where
  pub valid : IsValid (store_of t')
  pub later : Later (store_of t) (store_of t')
  pub rooted : IsRooted (Home (store_of t')) t'

pub thread_get_roots-Went :
    (old_mem fuel : ℕ) (t : Thread)
    → IsValid (store_of t)
    → IsRooted (Aim (store_of t)) t
    → Safe (RootsWent t) (thread_get_roots old_mem fuel t)
unfolding thread_get_roots
thread_get_roots-Went old_mem fuel t v r =
    let s = store_of t in
    Safe-bind _ (mark_env-Went old_mem s t.env v r.env) (λ r1 w1.
      let s1 = r1.1 in
      let l1 = w1.later in
      let stack : FirstWords (Aim s1) t.op_stack_idx t.opstack =
        (r.stack.0, Words-map (Aim s) (Aim s1) (Aim-Later s s1 l1) _ r.stack.1) in
      Safe-bind _ (mark_words-Went old_mem t.op_stack_idx s1 t.opstack w1.valid stack) (λ r2 w2.
        let s2 = r2.1 in
        let l2 = Later-trans s s1 s2 l1 w2.later v w1.valid in
        let closure = EnvPtr-map (Aim s) (Aim s2) (Aim-Later s s2 l2) t.closure r.closure in
        Safe-bind _ (mark_env-Went old_mem s2 t.closure w2.valid closure) (λ r3 w3.
          let s3 = r3.1 in
          let l3 = Later-trans s s2 s3 l2 w3.later v w2.valid in
          let cache = Word-map (Aim s) (Aim s3) (Aim-Later s s3 l3) t.lib_cache r.lib_cache in
          Safe-bind _ (heap_mark-Went old_mem s3 t.lib_cache w3.valid cache) (λ r4 w4.
            let s4 = r4.1 in
            let l4 = Later-trans s s3 s4 l3 w4.later v w3.valid in
            let hs =
              Word-map (Aim s) (Aim s4) (Aim-Later s s4 l4) t.exception_handlers r.handlers in
            Safe-bind _ (heap_mark-Went old_mem s4 t.exception_handlers w4.valid hs) (λ r5 w5.
              let s5 = r5.1 in
              let l5 = Later-trans s s4 s5 l4 w5.later v w4.valid in
              let all = Words-map (Aim s) (Aim s5) (Aim-Later s s5 l5) t.local_roots r.locals in
              let locals : FirstWords (Aim s5) (length t.local_roots) t.local_roots =
                (omega arith, rw (take-length t.local_roots) all) in
              Safe-bind _
                (mark_words-Went old_mem (length t.local_roots) s5 t.local_roots w5.valid locals)
                (λ r6 w6.
                  let s6 = r6.1 in
                  let k5 = w6.later in
                  let k4 = Later-trans s4 s5 s6 w5.later k5 w4.valid w5.valid in
                  let k3 = Later-trans s3 s4 s6 w4.later k4 w3.valid w4.valid in
                  let k2 = Later-trans s2 s3 s6 w3.later k3 w2.valid w3.valid in
                  let k1 = Later-trans s1 s2 s6 w2.later k2 w1.valid w2.valid in
                  returns _ (record {
                    valid = w6.valid;
                    later = Later-trans s s5 s6 l5 k5 v w5.valid;
                    rooted = record {
                      env = EnvPtr-map (Home s1) (Home s6) (Home-Later s1 s6 k1) r1.0 w1.result;
                      stack = (
                        w2.result.0.0,
                        Words-map (Home s2) (Home s6) (Home-Later s2 s6 k2)
                            (take t.op_stack_idx r2.0) w2.result.0.1,
                      );
                      closure = EnvPtr-map (Home s3) (Home s6) (Home-Later s3 s6 k3) r3.0 w3.result;
                      lib_cache = Word-map (Home s4) (Home s6) (Home-Later s4 s6 k4) r4.0 w4.result;
                      handlers = Word-map (Home s5) (Home s6) (Home-Later s5 s6 k5) r5.0 w5.result;
                      locals =
                          whole (Home s6) (length t.local_roots) r6.0 w6.result.1 w6.result.0.1;
                    };
                  })))))))
