-- ===== src/Collector/Visits.antt =====
-- `visit_hdr` of vm/heap.c on a block that is kept: the visitor of its type marks its words, and
-- then they lead to blocks that are kept.
use lgears.Prelude.{
  ℕ, ◌+◌, ◌≤◌, ◌<◌, ◌≡◌, inl, inr, refl, sym, subst, some, false, Bool, List, arith, take, ◌==◌,
  if◌then◌else◌,
}
use lgears.Prelude.Run.{ok, Safe, returns, Safe-bind, Safe-mono}
use lgears.Memory.{Block, Payload, bhdr_size, env, closure, cont, pair, string, struct, bytevector}
use lgears.Heap.{Store}
use lgears.Heap.Visit.{
  put_body, visit_hdr, visit, env_visit, closure_visit, pair_visit, continuation_visit,
  struct_visit, string_visit, bv_visit, sizeof_env, sizeof_struct, sizeof_string, sizeof_bytevector,
}
use lgears.Types.{t_env, t_closure, t_pair, t_cont, t_string, t_struct, t_bytevector}
use lgears.Collector.Valid.{
  frame, Kept, Word, EnvPtr, Live, IsValid, Words-map, EnvPtr-map, Word-map, Known,
}
use lgears.Collector.Later.{Later, Later-refl, Later-trans}
use lgears.Collector.Words.{
  Aim, Home, Aim-Later, Home-Later, Went, heap_mark-Went, mark_env-Went, mark_words-Went,
  FirstWords,
}
use lgears.Collector.Written.{Scanned, put_body-Went}

module _ (old_mem : ℕ) (s : Store) (v : IsValid s) (p : ℕ) (b : Block) (here : s.memory p ≡ some b)
    (kept : Kept (frame s.heap) p) where
  -- The end of a visitor, which has marked the words.
  put-Later :
      (s1 : Store) (body : Payload)
      → IsValid s1
      → Later s s1
      → Live (Home s1) b.hdr.type_id body
      → Safe (λ s'. Went s s' (Scanned s' p)) (put_body s1 p body)
  put-Later s1 body v1 l live =
      let (c, there, st) = l.steady p b here kept in
      let live' : Live (Home s1) c.hdr.type_id body = rw st.hdr live in
      Safe-mono (λ s'. Went s s' (Scanned s' p))
        (put_body-Went s1 v1 p c there (subst (λ f. Kept f p) (sym l.same) kept) body live')
        (λ s' w. record {
          valid = w.valid;
          later = Later-trans s s1 s' l w.later v v1;
          result = w.result;
        })

  abbrev pub Visited : Store → Type 0
  Visited s' = Went s s' (Scanned s' p)

  env_visit-Went :
      (prev size depth array : ℕ) (objects : List ℕ)
      → b.hdr.type_id ≡ t_env
      → FirstWords (Aim s) size objects
      → EnvPtr (Aim s) prev
      → Safe Visited (env_visit old_mem s p (env prev size depth array objects))
  unfolding env_visit
  env_visit-Went prev size depth array objects tid words e =
      Safe-bind _ (mark_words-Went old_mem size s objects v words) (λ r one.
        let e1 = EnvPtr-map (Aim s) (Aim r.1) (Aim-Later s r.1 one.later) prev e in
        Safe-bind _ (mark_env-Went old_mem r.1 prev one.valid e1) (λ q two.
          let ws =
            Words-map (Home r.1) (Home q.1) (Home-Later r.1 q.1 two.later) (take size r.0)
              one.result.0.1 in
          put-Later q.1 (env q.0 size depth (p + sizeof_env) r.0) two.valid
            (Later-trans s r.1 q.1 one.later two.later v one.valid)
            (Live.an_env tid one.result.0.0 ws two.result)))

  closure_visit-Went :
      (e func : ℕ)
      → b.hdr.type_id ≡ t_closure
      → EnvPtr (Aim s) e
      → Safe Visited (closure_visit old_mem s p (closure e func))
  unfolding closure_visit
  closure_visit-Went e func tid t = Safe-bind _ (mark_env-Went old_mem s e v t) (λ r one.
      put-Later r.1 (closure r.0 func) one.valid one.later (Live.a_closure tid one.result))

  pair_visit-Went :
      (car cdr count : ℕ) (is_list : Bool)
      → b.hdr.type_id ≡ t_pair
      → Word (Aim s) car
      → Word (Aim s) cdr
      → Safe Visited (pair_visit old_mem s p (pair car cdr is_list count))
  unfolding pair_visit
  pair_visit-Went car cdr count is_list tid first second =
      Safe-bind _ (heap_mark-Went old_mem s car v first) (λ r one.
        let second' = Word-map (Aim s) (Aim r.1) (Aim-Later s r.1 one.later) cdr second in
        Safe-bind _ (heap_mark-Went old_mem r.1 cdr one.valid second') (λ q two.
          put-Later q.1 (pair r.0 q.0 is_list count) two.valid
            (Later-trans s r.1 q.1 one.later two.later v one.valid)
            (Live.a_pair tid
              (Word-map (Home r.1) (Home q.1) (Home-Later r.1 q.1 two.later) r.0 one.result)
              two.result)))

  continuation_visit-Went :
      (func : ℕ)
      → b.hdr.type_id ≡ t_cont
      → Word (Aim s) func
      → Safe Visited (continuation_visit old_mem s p (cont func))
  unfolding continuation_visit
  continuation_visit-Went func tid t =
      Safe-bind _ (heap_mark-Went old_mem s func v t)
        (λ r one. put-Later r.1 (cont r.0) one.valid one.later (Live.a_cont tid one.result))

  struct_visit-Went :
      (type_name size array : ℕ) (fields : List ℕ)
      → b.hdr.type_id ≡ t_struct
      → FirstWords (Aim s) size fields
      → Safe Visited (struct_visit old_mem s p (struct type_name size array fields))
  unfolding struct_visit
  struct_visit-Went type_name size array fields tid words =
      Safe-bind _ (mark_words-Went old_mem size s fields v words) (λ r one.
        put-Later r.1 (struct type_name size (p + sizeof_struct) r.0) one.valid one.later
          (Live.a_struct tid one.result.0.0 one.result.0.1))

  string_visit-Went :
      (str size : ℕ) (allocated : Bool) (bytes : List ℕ)
      → b.hdr.type_id ≡ t_string
      → Safe Visited (string_visit old_mem s p (string str size allocated bytes))
  unfolding string_visit
  string_visit-Went str size allocated bytes tid =
      put-Later s (string (if allocated then p + sizeof_string else str) size allocated bytes) v
        (Later-refl s) (Live.a_string tid)

  bv_visit-Went :
      (array size : ℕ) (bytes : List ℕ)
      → b.hdr.type_id ≡ t_bytevector
      → Safe Visited (bv_visit old_mem s p (bytevector array size bytes))
  unfolding bv_visit
  bv_visit-Went array size bytes tid =
      put-Later s (bytevector (p + sizeof_bytevector) size bytes) v (Later-refl s)
        (Live.a_bytevector tid)

  -- A block that has no visitor, or whose visitor marks nothing.
  unchanged : Live (Home s) b.hdr.type_id b.body → Safe Visited (ok s)
  unchanged live = returns s (record { valid = v; later = Later-refl s; result = (b, here, live) })

  no-visitor :
      (k : ℕ) → k ≤ t_bytevector → t_bytevector < b.hdr.type_id → (b.hdr.type_id == k) ≡ false
  no-visitor k h beyond = ground arith

  visit-Went :
      (body : Payload)
      → b.body ≡ body
      → Live (Aim s) b.hdr.type_id body
      → Safe Visited (visit old_mem b.hdr.type_id s p body)
  unfolding visit
  visit-Went _ e
        (Live.an_env {prev = prev} {size = size} {depth = depth} {array = array} {objects = objects}
          tid long words t) =
      rw tid (env_visit-Went prev size depth array objects tid (long, words) t)
  visit-Went _ e (Live.a_closure {e = ptr} {func = func} tid t) =
      rw tid (closure_visit-Went ptr func tid t)
  visit-Went _ e
        (Live.a_pair {car = car} {cdr = cdr} {count = count} {is_list = is_list} tid first second) =
      rw tid (pair_visit-Went car cdr count is_list tid first second)
  visit-Went _ e (Live.a_cont {func = func} tid t) = rw tid (continuation_visit-Went func tid t)
  visit-Went _ e
        (Live.a_string {str = str} {size = size} {allocated = allocated} {bytes = bytes} tid) =
      rw tid (string_visit-Went str size allocated bytes tid)
  visit-Went _ e
        (Live.a_struct {type_name = type_name} {size = size} {array = array} {fields = fields} tid
          long words) =
      rw tid (struct_visit-Went type_name size array fields tid (long, words))
  visit-Went _ e (Live.a_bytevector {array = array} {size = size} {bytes = bytes} tid) =
      rw tid (bv_visit-Went array size bytes tid)
  visit-Went body e (Live.plain (inl tid)) = rw tid (unchanged (Live.plain (inl tid)))
  visit-Went body e (Live.plain (inr beyond)) =
      let other = λ (k : ℕ) (h : k ≤ t_bytevector). no-visitor k h beyond in
      rw
        (
          other t_env (omega arith),
          other t_closure (omega arith),
          other t_pair (omega arith),
          other t_cont (omega arith),
          other t_string (omega arith),
          other t_struct (omega arith),
          other t_bytevector (omega arith),
        )
        (unchanged (Live.plain (inr beyond)))

-- A block that is kept can be visited: the heap stays valid, and the block has been scanned; or a
-- copy does not fit, and the program ends.
pub visit_hdr-Went :
    (old_mem : ℕ) (s : Store) (h : ℕ)
    → IsValid s
    → Known (frame s.heap) s.memory h
    → Safe (λ s'. Went s s' (Scanned s' (h + bhdr_size))) (visit_hdr old_mem s h)
unfolding visit_hdr
visit_hdr-Went old_mem s h v (kept, (b, here)) =
    let i = v.contents.kept (h + bhdr_size) b here kept in
    rw here (visit-Went old_mem s v (h + bhdr_size) b here kept b.body refl i.live)
