-- ===== src/Machine.antt =====
-- The state of a thread, `vm_thread_t` of vm/vm.h, and its operand stack.
pub mod Stack
pub mod Arith
pub mod Env
use lgears.Prelude.{
  ℕ, suc, ◌+◌, ◌-◌, Bool, true, false, Option, none, some, List, ◌==◌, if◌then◌else◌, get_elem?,
  set, length,
}
use lgears.Prelude.Run.{Run, ok, fatal, undefined, ◌>>=◌, defined}
use lgears.Memory.{Memory}
use lgears.Heap.{Heap}

-- `objects` points to the locals: into the operand stack, or to the array behind an environment.
pub data Locals : Type 0 where
  on_stack : ℕ → Locals
  in_env : ℕ → Locals

-- `trampoline_t`
pub record Trampoline : Type 0 where
  pub func : ℕ
  pub argc : ℕ

-- The operand stack is an array of `op_stack_size` words; `bindmap` is an index into it, and
-- `none` is NULL. The memory that the heap has stands beside it, and the
-- objects that `local_roots` points to are a list, empty for NULL.
pub record Thread : Type 0 where
  pub heap : Heap
  pub memory : Memory
  pub opstack : List ℕ
  pub op_stack_idx : ℕ
  pub objects : Locals
  pub env : ℕ
  pub bindmap : Option ℕ
  pub func : ℕ
  pub closure : ℕ
  pub heap_env : Bool
  pub lib_cache : ℕ
  pub exception_handlers : ℕ
  pub local_roots : List ℕ
  pub tramp : Trampoline

abbrev pub op_stack_size : Thread → ℕ
op_stack_size t = length t.opstack

-- A write to the array, which is undefined outside of it.
abbrev pub store : List ℕ → ℕ → ℕ → Run (List ℕ)
store xs i v = elim (get_elem? xs i) [ none ↦ undefined | some old ↦ ok (set xs i v) ]

-- `__stack_push` and `__stack_pop`, with the checks of CHECK_OPSTACK.
unfoldable pub stack_push : Thread → ℕ → Run Thread
stack_push t obj =
    if t.op_stack_idx + 1 == op_stack_size t
    then fatal
    else (store t.opstack t.op_stack_idx obj >>= λ stack.
        ok (record t { opstack = stack; op_stack_idx = t.op_stack_idx + 1 }))

unfoldable pub stack_pop : Thread → Run (ℕ × Thread)
stack_pop t =
    if t.op_stack_idx == 0
    then fatal
    else (defined (get_elem? t.opstack (t.op_stack_idx - 1)) >>= λ obj.
        ok (obj, record t { op_stack_idx = t.op_stack_idx - 1 }))

-- `FETCH_AB`
unfoldable pub fetch_ab : Thread → Run (ℕ × ℕ × Thread)
fetch_ab t = do (b, t) ← stack_pop t; (a, t) ← stack_pop t; ok (a, b, t)
