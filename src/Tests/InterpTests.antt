-- ===== src/Tests/InterpTests.antt =====
-- Runs of the interpreter: calls, errors and a small program.
use lgears.Prelude.{
  ℕ, ◌≡◌, ◌⊎◌, refl, arith, true, false, some, none, [], ◌∷◌, ◌==◌, if◌then◌else◌, Bool-cases, inl,
  inr,
}
use lgears.Prelude.Int.{pos}
use lgears.Prelude.Run.{Run, ok, fatal}
use lgears.Object.{make_tagged_ptr, get_tag, ptr}
use lgears.Memory.{Memory, Block, pair, is_type}
use lgears.Types.{t_pair}
use lgears.Space.{space_alloc, align_up}
use lgears.Machine.{Thread, on_stack, stack_pop, stack_push}
use lgears.Collector.{heap_alloc}
use lgears.Allocator.{heap_allocator}
use lgears.Strings.{string_new}
use lgears.Loader.Parse.{Func}
use lgears.Lists.{push_list}
use lgears.Lists.Ends.{ArePairs, IsPushed, push_list-ends}
use lgears.Interp.{interpreted, Program}
use lgears.Interp.Call.{ended, target, func_call}
use lgears.Interp.Call.Errors.{IsCall, accepts, entered, func_call-interpreted}
use lgears.Interp.Step.{tt_pair, test_type}
use lgears.Interp.Step.Disjoint.{test_type-disjoint}
use lgears.Tests.Data.{idle}

-- A function of two arguments, at 64, and one of a continuation and a message, at 128.
abbrev two_args : Func
two_args = record {
  env_size = pos 0;
  argc = 2;
  swallow = 0;
  op_count = 0;
  heap_env = pos 0;
  depth = 0;
  bcount = 0;
  bmcount = 0;
  opcode = [];
  bindings = none;
  bindmap = none;
}

abbrev program : Program
program = record {
  callable = λ p.
      if p == 64
      then some (interpreted two_args 0)
      else if p == 128
      then some (interpreted two_args 0)
      else none;
  constant = λ m n. none;
  module_func = λ m n. 64;
  vm_exit_nt = 256;
  text = λ msg. 97 ∷ 98 ∷ [];
}

-- The handlers are a list of one function.
abbrev handlers : Block
handlers = record {
  hdr = record { type_id = t_pair; forward = false; generation = 0; remembered = false; size = 24 };
  body = pair 132 5 true 1;
}

abbrev memory : Memory
memory p = if p == 512 then some handlers else none

abbrev thread : ℕ → Thread
thread handlers = record {
  heap = idle;
  memory = memory;
  opstack = 8 ∷ 16 ∷ 24 ∷ 68 ∷ 0 ∷ 0 ∷ 0 ∷ 0 ∷ [];
  op_stack_idx = 4;
  objects = on_stack 0;
  env = 0;
  bindmap = none;
  func = 0;
  closure = 0;
  heap_env = false;
  lib_cache = 5;
  exception_handlers = handlers;
  local_roots = [];
  tramp = record { func = 0; argc = 0 };
}

abbrev popped : ℕ → Thread
popped handlers = record (thread handlers) { op_stack_idx = 3 }

calls : Unit {0}
unfolding stack_pop target get_tag ptr make_tagged_ptr is_type string_new heap_alloc space_alloc
    align_up
calls = tt

top_of_stack-IsCall : (h : ℕ) → IsCall program (thread h) (popped h) (popped h) 68 64 two_args 0
unfolding calls
top_of_stack-IsCall h = record { top = refl; leads = refl; callee = refl }

func_call-interpreted_example :
    (accepts two_args 3 ≡ true)
      × (func_call 0 2 program (pos 3) (thread 5) ≡ entered 0 2 program (popped 5) 64 3 two_args 0)
    ⊎ (accepts two_args 3 ≡ false)
      × (func_call 0 2 program (pos 3) (thread 5) ≡ ok (ended (popped 5)))
unfolding calls
func_call-interpreted_example =
    func_call-interpreted 0 0 program (thread 5) (popped 5) (popped 5) 68 64 3 two_args 0
      (top_of_stack-IsCall 5) refl

-- The thread that `string_new` leaves, and its answer.
abbrev answer : Run (ℕ × Thread) → ℕ × Thread
answer (ok r) = r
answer other = (0, thread 0)

abbrev message : ℕ × Thread
message = answer (string_new (heap_allocator 0 2) 0 (97 ∷ 98 ∷ []) true (popped 513))

-- The list of handlers is a pair.
test_type-disjoint_example : tt_pair ≡ tt_pair
unfolding test_type is_type get_tag ptr
test_type-disjoint_example =
    test_type-disjoint tt_pair tt_pair (thread 5) 513 (λ e. cc e) (λ e. cc e) refl refl

-- A list that leads back to itself.
abbrev ring : Thread
ring = record (thread 5) {
  memory = λ p. if p == 512 then some (record handlers { body = pair 8 513 true 1 }) else none;
}

ring-ArePairs : ArePairs ring.memory
unfolding is_type
ring-ArePairs o tested = elim (Bool-cases (ptr o == 512)) [
  | inl there ↦ (
    8,
    513,
    record {
      block = record handlers { body = pair 8 513 true 1 };
      here = rw there;
      flag = true;
      count = 1;
      fields = refl;
    },
  )
  | inr nothing ↦ ground arith
]

ring_tested : is_type ring.memory 513 t_pair ≡ true
unfolding is_type get_tag ptr
ring_tested = refl

push_list-ends_example : IsPushed ring.memory ring 512 1 (push_list 4 ring 512 1)
unfolding ptr
push_list-ends_example =
    push_list-ends 4 ring 513 1 ring-ArePairs ring_tested (omega arith) (omega arith)

-- The stack is full before the list ends.
ring-fatal : push_list 4 ring 512 1 ≡ fatal
unfolding push_list stack_push is_type get_tag ptr
ring-fatal = refl
