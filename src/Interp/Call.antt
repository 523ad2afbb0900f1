-- ===== src/Interp/Call.antt =====
-- FUNC_CALL of `eval_thread` with RAISE, and `push_exception_handler`, of vm/vm.c.
pub mod Errors
use lgears.Prelude.{
  ℕ, zero, suc, Bool, true, ◌&&◌, not, Option, none, some, ◌==◌, if◌then◌else◌, get_elem?,
}
use lgears.Prelude.Int.{ℤ, pos, ltb_ℤ, ◌-ℤ◌}
use lgears.Prelude.Run.{Run, ok, fatal, undefined, ◌>>=◌, defined}
use lgears.Object.{ptr, get_tag, make_func}
use lgears.Object.Tag
use lgears.Memory.{Payload, closure, cont, is_type}
use lgears.Types.{t_closure, t_cont}
use lgears.Machine.{Thread, stack_push, stack_pop}
use lgears.Allocator.{heap_allocator}
use lgears.Native.{rc_ok, rc_error, rc_exit, pair_of, is_pair}
use lgears.Lists.{is_func}
use lgears.Vectors.{natural}
use lgears.Strings.{string_new}
use lgears.Loader.Parse.{Func}
use lgears.Interp.{
  NativeFunc, Callable, interpreted, native, Message, not_callable, too_few_args, wrong_args,
  native_failed, Program,
}
use lgears.Interp.Enter.{args_base, enter_interp}

-- The interpreter between two instructions: the function that runs, its module and the index of
-- the next word of its code; or the end of the thread.
pub record Frame : Type 0 where
  pub thread : Thread
  pub func : Func
  pub module_id : ℕ
  pub opcode : ℕ

pub data Outcome : Type 0 where
  running : Frame → Outcome
  ended : Thread → Outcome

-- `closure_t` and `continuation_t` at an address.
abbrev pub closure_of : Payload → Run (ℕ × ℕ)
closure_of (closure e func) = ok (e, func)
closure_of other = undefined

abbrev pub cont_of : Payload → Run ℕ
cont_of (cont func) = ok func
cont_of other = undefined

-- What FUNC_CALL finds under the object that is called.
pub data Target : Type 0 where
  function : ℕ → Thread → Target
  again : ℕ → Target
  no_function : Target

unfoldable pub target : Thread → ℕ → Run Target
target t fp =
    if get_tag fp == Tag.ptr
    then (if is_type t.memory fp t_closure
        then (do
          b ← defined (t.memory (ptr fp))
          (e, func) ← closure_of b.body
          ok (function func (record t { env = e; bindmap = none; closure = ptr fp })))
        else if is_type t.memory fp t_cont
        then (do b ← defined (t.memory (ptr fp)); func ← cont_of b.body; ok (again func))
        else fatal)
    else if get_tag fp == Tag.func
    then ok (function (ptr fp) (record t { bindmap = none; closure = 0 }))
    else ok no_function

-- The check of the number of arguments against the header of a function.
unfoldable pub arity_error : ℕ → Bool → ℤ → Option Message
arity_error argc swallow op_arg =
    if swallow
    then (if ltb_ℤ op_arg (pos argc) then some (too_few_args op_arg argc) else none)
    else if not (ltb_ℤ op_arg (pos argc)) && not (ltb_ℤ (pos argc) op_arg)
    then none
    else some (wrong_args op_arg argc)

module _ (old_mem fuel : ℕ) (prog : Program) where
  -- `none` is a message that no handler takes: the thread ends. The pair of the handlers is read
  -- again where it stood before the message was allocated.
  unfoldable pub push_exception_handler : Message → Thread → Run (Option Thread)
  push_exception_handler msg t = if not (is_pair t t.exception_handlers) then ok none else (do
    let pair = ptr t.exception_handlers
    b ← defined (t.memory pair)
    (car, cdr, is_list, count) ← pair_of b.body
    if not (is_func t car) then ok none else (do
      (obj, t) ← string_new (heap_allocator old_mem fuel) 0 (prog.text msg) true t
      t ← stack_push t (make_func prog.vm_exit_nt)
      t ← stack_push t obj
      b ← defined (t.memory pair)
      (car, cdr, is_list, count) ← pair_of b.body
      t ← stack_push t car
      ok (some (record t { exception_handlers = cdr }))))

  -- The call of a function with its header checked: the answer is what runs next, or the object to
  -- dispatch to with a number of arguments, or an error to raise.
  pub data Next : Type 0 where
    done : Outcome → Next
    dispatch : ℕ → ℤ → Thread → Next
    raise : Message → Thread → Next

  unfoldable pub call_native : NativeFunc → ℕ → Thread → Run Next
  call_native f op_arg t = do
    argv ← args_base t op_arg
    (rc, t) ← f.call (record t { tramp = record { func = 0; argc = 1 } }) argv op_arg
    elim rc [
      | rc_exit ↦ ok (done (ended t))
      | rc_error ↦ ok (raise native_failed t)
      | rc_ok ↦ do
        first ← defined (get_elem? t.opstack argv)
        ok (dispatch (if t.tramp.func == 0 then first else t.tramp.func) (pos t.tramp.argc) t)
    ]

  unfoldable pub call_function : ℕ → Callable → ℤ → Thread → Run Next
  call_function addr (interpreted f module_id) op_arg t =
      elim (arity_error f.argc (not (f.swallow == 0)) op_arg) [
        | some msg ↦ ok (raise msg t)
        | none ↦ do
          n ← natural op_arg
          t ← enter_interp old_mem fuel addr f n t
          ok (done (running (record { thread = t; func = f; module_id = module_id; opcode = 0 })))
      ]
  call_function addr (native f) op_arg t = elim (arity_error f.argc f.swallow op_arg) [
    | some msg ↦ ok (raise msg t)
    | none ↦ natural op_arg >>= λ n. call_native f n t
  ]

  unfoldable pub dispatch_func : ℕ → ℤ → Thread → Run Next
  dispatch_func fp op_arg t = do
    to ← target t fp
    elim to [
      | again func ↦ ok (dispatch func (op_arg -ℤ pos 1) t)
      | no_function ↦ ok (raise (not_callable (get_tag fp)) t)
      | function addr t ↦ do f ← defined (prog.callable addr); call_function addr f op_arg t
    ]

  -- The loop between `dispatch_func` and `funcall`, of so many rounds at most.
  unfoldable pub call_loop : ℕ → Next → Run Outcome
  call_loop zero next = elim next [ done o ↦ ok o | other ↦ undefined ]
  call_loop (suc rounds) next = elim next [
    | done o ↦ ok o
    | dispatch fp op_arg t ↦ dispatch_func fp op_arg t >>= call_loop rounds
    | raise msg t ↦ do
      handler ← push_exception_handler msg t
      elim handler [
        | none ↦ ok (ended t)
        | some t ↦ do (fp, t) ← stack_pop t; call_loop rounds (dispatch fp (pos 2) t)
      ]
  ]

  -- RAISE, and FUNC_CALL.
  unfoldable pub raise_error : Message → Thread → Run Outcome
  raise_error msg t = call_loop fuel (raise msg t)

  unfoldable pub func_call : ℤ → Thread → Run Outcome
  func_call op_arg t = do (fp, t) ← stack_pop t; call_loop fuel (dispatch fp op_arg t)
