-- ===== src/Lists.antt =====
-- Pairs and lists, `_cons` and `_list` of vm/primitives.c, and the procedures of that file that
-- allocate or call other procedures. `argv` is the index of the first argument on the operand
-- stack.
pub mod Ends
pub mod Cells
pub mod Built
use lgears.Prelude.{
  ℕ, zero, suc, ◌+◌, ◌-◌, ◌%◌, ◌^◌, Bool, true, false, ◌&&◌, ◌||◌, [], ◌∷◌, if◌then◌else◌,
}
use lgears.Prelude.Int.{ℤ, pos, negsuc}
use lgears.Prelude.Run.{Run, ok, undefined, ◌>>=◌, defined}
use lgears.Object.{
  ptr, cnull, is_null, is_fixnum, test_tag, is_heap_ptr, make_tagged_ptr, make_heap_ptr,
}
use lgears.Object.Tag
use lgears.Memory.{Memory, pair, cont, is_type}
use lgears.Types.{t_pair, t_cont, t_closure}
use lgears.Machine.{Thread, stack_push, op_stack_size}
use lgears.Allocator.{Allocator, Pointer, fill_in, argument, root, heap_allocator}
use lgears.Native.{Rc, rc_ok, return_obj, safe_assert, int_of, pair_of, is_pair}

abbrev pub sizeof_pair : ℕ
sizeof_pair = 24

-- The fields `list` and `length` of a new pair.
unfoldable pub list_fields : Memory → ℕ → Bool × ℕ → Run (Bool × ℕ)
list_fields m cdr unset =
    if is_null cdr
    then ok (true, 1)
    else if is_type m cdr t_pair
    then (do
      b ← defined (m (ptr cdr))
      (car', cdr', is_list, count) ← pair_of b.body
      ok (if is_list then (true, (count + 1) % 2 ^ 31) else unset))
    else ok (false, unset.1)

unfoldable pub cons : {S : Type 0} → Allocator S → Pointer S → Pointer S → S → Run (ℕ × S)
cons al car cdr s = do
  (p, s) ← al.alloc s sizeof_pair t_pair
  a ← car s
  d ← cdr s
  (is_list, count) ← list_fields (al.memory s) d (al.unset p)
  s ← fill_in al s p (pair a d is_list count)
  ok (make_tagged_ptr p al.id, s)

-- IS_FUNC
abbrev pub is_func : Thread → ℕ → Bool
is_func t o =
    test_tag o Tag.func
    || is_heap_ptr o && (is_type t.memory o t_closure || is_type t.memory o t_cont)

module _ (old_mem fuel : ℕ) where
  abbrev heap : Allocator Thread
  heap = heap_allocator old_mem fuel

  -- A round of the loops of `_list` and `make_list`: `res` is the protected variable.
  unfoldable pub prepend : Pointer Thread → Thread → Run Thread
  prepend car t = do (res, t) ← cons heap car (root 0) t; ok (record t { local_roots = res ∷ [] })

  -- The loop of `_list` over the words `argv` points to, the last one first.
  unfoldable pub list_loop : (ℕ → Pointer Thread) → ℕ → Thread → Run Thread
  list_loop argv zero t = ok t
  list_loop argv (suc i) t = do t ← prepend (argv i) t; list_loop argv i t

  -- `_list`
  unfoldable pub list_of : (ℕ → Pointer Thread) → ℕ → Thread → Run (ℕ × Thread)
  list_of argv argc t = do
    t ← list_loop argv argc (record t { local_roots = cnull ∷ [] })
    res ← root 0 t
    ok (res, record t { local_roots = [] })

  unfoldable pub list : ℕ → ℕ → Thread → Run (Rc × Thread)
  list argv argc t = do
    (res, t) ← list_of (λ i. argument argv (i + 1)) (argc - 1) t
    return_obj t res

  unfoldable pub make_list_loop : Pointer Thread → ℕ → Thread → Run Thread
  make_list_loop fill zero t = ok t
  make_list_loop fill (suc n) t = do t ← prepend fill t; make_list_loop fill n t

  -- The rounds of `for (i = 0; i < size; i++)`.
  abbrev pub rounds : ℤ → ℕ
  rounds (pos n) = n
  rounds (negsuc n) = 0

  unfoldable pub make_list : Pointer Thread → Pointer Thread → Thread → Run (Rc × Thread)
  make_list count fill t = do
    c ← count t
    safe_assert (is_fixnum c) t (do
      t ← make_list_loop fill (rounds (int_of c)) (record t { local_roots = cnull ∷ [] })
      res ← root 0 t
      return_obj (record t { local_roots = [] }) res)

  abbrev pub sizeof_continuation : ℕ
  sizeof_continuation = 8

  unfoldable pub continuation_new : Pointer Thread → Thread → Run (ℕ × Thread)
  continuation_new func t = do
    (p, t) ← heap.alloc t sizeof_continuation t_cont
    f ← func t
    t ← fill_in heap t p (cont f)
    ok (make_heap_ptr p, t)

  unfoldable pub call_cc : ℕ → Thread → Run (Rc × Thread)
  call_cc argv t = do
    f ← argument argv 1 t
    safe_assert (is_func t f) t (do
      k ← argument argv 0 t
      t ← stack_push t k
      (c, t) ← continuation_new (argument argv 0) t
      t ← stack_push t c
      f ← argument argv 1 t
      ok (rc_ok, record t { tramp = record { func = f; argc = 2 } }))

-- The loop of `apply`; each round pushes a word, so that it ends at the latest where the stack is
-- full: the size of the stack is fuel enough.
unfoldable pub push_list : ℕ → Thread → ℕ → ℕ → Run (ℕ × Thread)
push_list zero t p cargc = undefined
push_list (suc fuel) t p cargc = do
  b ← defined (t.memory p)
  (car, cdr, is_list, count) ← pair_of b.body
  t ← stack_push t car
  if is_type t.memory cdr t_pair then push_list fuel t (ptr cdr) (cargc + 1) else ok (cargc + 1, t)

unfoldable pub apply : ℕ → Thread → Run (Rc × Thread)
apply argv t = do
  f ← argument argv 1 t
  l ← argument argv 2 t
  safe_assert (is_func t f) t (
      safe_assert (is_pair t l) t (do
        k ← argument argv 0 t
        t ← stack_push t k
        (cargc, t) ← push_list (op_stack_size t) t (ptr l) 1
        ok (rc_ok, record t { tramp = record { func = f; argc = cargc } })))
