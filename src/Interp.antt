-- ===== src/Interp.antt =====
-- The interpreter, `eval_thread` of vm/vm.c. `Interp/Enter.antt` enters a function, `Interp/Call.antt`
-- is FUNC_CALL with the exceptions, and `Interp/Step.antt` one round of the loop over the
-- instructions.
pub mod Enter
pub mod Call
pub mod Step
use lgears.Prelude.{ℕ, Option, Bool, List}
use lgears.Prelude.Run.{Run}
use lgears.Prelude.Int.{ℤ}
use lgears.Loader.Parse.{Func}
use lgears.Machine.{Thread}
use lgears.Native.{Rc}

-- `native_func_t`; `call` is the arity wrapper with the function that it calls, and takes the index
-- of the first argument on the operand stack and the number of arguments.
pub record NativeFunc : Type 0 where
  pub argc : ℕ
  pub swallow : Bool
  pub call : Thread → ℕ → ℕ → Run (Rc × Thread)

-- What a function pointer leads to: an interpreted function with the module it is in, or a native.
pub data Callable : Type 0 where
  interpreted : Func → ℕ → Callable
  native : NativeFunc → Callable

-- The errors that the interpreter raises.
pub data Message : Type 0 where
  not_callable : ℕ → Message
  too_few_args : ℤ → ℕ → Message
  wrong_args : ℤ → ℕ → Message
  native_failed : Message
  car_expects_pair : Message
  cdr_expects_pair : Message

-- What does not change while a program runs: its functions, by address; the constants and the
-- addresses of the functions of each module; the native that ends the thread; and the text that
-- `vsnprintf` makes of a message.
pub record Program : Type 0 where
  pub callable : ℕ → Option Callable
  pub constant : ℕ → ℕ → Option ℕ
  pub module_func : ℕ → ℕ → ℕ
  pub vm_exit_nt : ℕ
  pub text : Message → List ℕ
