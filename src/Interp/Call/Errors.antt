-- ===== src/Interp/Call/Errors.antt =====
-- Calls with a number of arguments that the header of the function does not accept, and the error
-- that is raised then.
use lgears.Prelude.{
  ℕ, suc, ◌≡◌, ◌⊎◌, inl, inr, ◌∙◌, arith, true, false, none, some, not, ltb, ◌==◌, Bool, Bool-cases,
  if◌then◌else◌,
}
use lgears.Prelude.Int.{pos}
use lgears.Prelude.Run.{Run, ok, bind_assoc, ◌>>=◌}
use lgears.Object.{ptr, make_func}
use lgears.Memory.{Block}
use lgears.Machine.{Thread, stack_pop}
use lgears.Machine.Stack.{pushed, HasRoom}
use lgears.Allocator.{heap_allocator}
use lgears.Strings.{string_new}
use lgears.Lists.{is_func}
use lgears.Native.{is_pair, pair_of}
use lgears.Loader.Parse.{Func}
use lgears.Interp.{interpreted, Message, too_few_args, wrong_args, Program}
use lgears.Interp.Enter.{enter_interp}
use lgears.Interp.Call.{
  Outcome, running, ended, function, target, arity_error, push_exception_handler, dispatch, raise,
  call_function, dispatch_func, call_loop, func_call,
}

-- The numbers of arguments that a function takes.
abbrev pub accepts : Func → ℕ → Bool
accepts f n = if f.swallow == 0 then n == f.argc else not (ltb n f.argc)

abbrev pub arity_message : Func → ℕ → Message
arity_message f n =
    if f.swallow == 0 then wrong_args (pos n) f.argc else too_few_args (pos n) f.argc

arity_error_lem :
    (f : Func) (n : ℕ)
    → arity_error f.argc (not (f.swallow == 0)) (pos n)
      ≡ (if accepts f n then none else some (arity_message f n))
unfolding arity_error
arity_error_lem f n = ground arith

-- A function, or a closure, on the top of the stack of `t`, which leaves `u` and is called on `v`.
pub record IsCall (prog : Program) (t u v : Thread) (fp addr : ℕ) (f : Func) (m : ℕ) : Type 0 where
  pub top : stack_pop t ≡ ok (fp, u)
  pub leads : target u fp ≡ ok (function addr v)
  pub callee : prog.callable addr ≡ some (interpreted f m)

module _ (old_mem fuel : ℕ) (prog : Program) where
  raise-unhandled :
      (rounds : ℕ) (msg : Message) (t : Thread)
      → is_pair t t.exception_handlers ≡ false
      → call_loop old_mem fuel prog (suc rounds) (raise msg t) ≡ ok (ended t)
  unfolding call_loop push_exception_handler
  raise-unhandled rounds msg t none_left = rw none_left

  called :
      (rounds : ℕ) (t u v : Thread) (fp addr n : ℕ) (f : Func) (m : ℕ)
      → IsCall prog t u v fp addr f m
      → call_loop old_mem fuel prog (suc rounds) (dispatch fp (pos n) u) ≡ (
          call_function old_mem fuel prog addr (interpreted f m) (pos n) v
          >>= call_loop old_mem fuel prog rounds)
  unfolding call_loop dispatch_func
  called rounds t u v fp addr n f m c = rw (c.leads, c.callee)

  -- The function is entered.
  abbrev pub entered : Thread → ℕ → ℕ → Func → ℕ → Run Outcome
  entered v addr n f m = do
    t ← enter_interp old_mem fuel addr f n v
    ok (running (record { thread = t; func = f; module_id = m; opcode = 0 }))

  accepted :
      (rounds : ℕ) (v : Thread) (addr n : ℕ) (f : Func) (m : ℕ)
      → accepts f n ≡ true
      → (call_function old_mem fuel prog addr (interpreted f m) (pos n) v
          >>= call_loop old_mem fuel prog (suc rounds))
        ≡ entered v addr n f m
  unfolding call_function call_loop
  accepted rounds v addr n f m takes =
      rw (call_function, arity_error_lem f n, takes)
        (bind_assoc (enter_interp old_mem fuel addr f n v) _
          (call_loop old_mem fuel prog (suc rounds)))

  rejected :
      (v : Thread) (addr n : ℕ) (f : Func) (m : ℕ)
      → accepts f n ≡ false
      → call_function old_mem fuel prog addr (interpreted f m) (pos n) v
        ≡ ok (raise (arity_message f n) v)
  unfolding call_function
  rejected v addr n f m not_taken = rw (call_function, arity_error_lem f n, not_taken)

module _ (old_mem rounds : ℕ) (prog : Program) (t u v : Thread) (fp addr n : ℕ) (f : Func) (m : ℕ)
    (c : IsCall prog t u v fp addr f m) where
  -- A call of an interpreted function, or of a closure of one, on a thread that has no handler of
  -- exceptions, with rounds for the call and an error: the function is entered exactly where it
  -- takes that number of arguments, and otherwise the thread ends.
  pub func_call-interpreted :
      is_pair v v.exception_handlers ≡ false
      → (accepts f n ≡ true)
          × (func_call old_mem (suc (suc rounds)) prog (pos n) t
              ≡ entered old_mem (suc (suc rounds)) prog v addr n f m)
        ⊎ (accepts f n ≡ false)
          × (func_call old_mem (suc (suc rounds)) prog (pos n) t ≡ ok (ended v))
  unfolding func_call
  func_call-interpreted unhandled =
      let fuel = suc (suc rounds) in
      let call = called old_mem fuel prog (suc rounds) t u v fp addr n f m c in
      elim (Bool-cases (accepts f n)) [
        | inl takes ↦
            inl (takes, rw c.top (call ∙ accepted old_mem fuel prog rounds v addr n f m takes))
        | inr not_taken ↦
            let raised = rejected old_mem fuel prog v addr n f m not_taken in
            let over = raise-unhandled old_mem fuel prog rounds (arity_message f n) v unhandled in
            inr (not_taken, rw c.top (call ∙ rw raised over))
      ]

-- The first handler of a thread `v`, and what is known of `w`, the thread with the message: what it
-- has where the pair of the handler stood is read again, as a pair.
pub record IsHandled (old_mem fuel : ℕ) (prog : Program) (msg : Message) (v w : Thread)
    (obj car cdr : ℕ) : Type 0 where
  pub present : is_pair v v.exception_handlers ≡ true
  pub first : Block
  pub here : v.memory (ptr v.exception_handlers) ≡ some first
  pub handler : ℕ
  pub others : ℕ
  pub flag : Bool
  pub count : ℕ
  pub fields : pair_of first.body ≡ ok (handler, others, flag, count)
  pub callable : is_func v handler ≡ true
  pub text : string_new (heap_allocator old_mem fuel) 0 (prog.text msg) true v ≡ ok (obj, w)
  pub second : Block
  pub there : w.memory (ptr v.exception_handlers) ≡ some second
  pub second_flag : Bool
  pub second_count : ℕ
  pub read : pair_of second.body ≡ ok (car, cdr, second_flag, second_count)
  pub room : HasRoom 3 w

-- The thread on which a handler is called with a continuation that ends the thread, and the
-- message.
abbrev pub handling : Program → Thread → ℕ → ℕ → ℕ → Thread
handling prog w obj car cdr = record (pushed (pushed w (make_func prog.vm_exit_nt)) obj) {
  opstack = (pushed (pushed (pushed w (make_func prog.vm_exit_nt)) obj) car).opstack;
  exception_handlers = cdr;
}
