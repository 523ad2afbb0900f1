-- ===== src/Tests/MachineTests.antt =====
-- The operand stack and the instructions that work on it alone.
use lgears.Prelude.{◌+◌, ◌⊎◌, ◌%◌, ◌≡◌, ◌↔◌, refl, arith, none, [], ◌∷◌, Bool, true, false, set}
use lgears.Prelude.Int.{ℤ, pos, negsuc, to_word}
use lgears.Prelude.Run.{Run, fatal, ok, undefined, ◌>>=◌}
use lgears.Object.{make_fixnum, get_tag, cif}
use lgears.Object.Tag
use lgears.Tests.Data.{idle}
use lgears.Machine.{op_stack_size, Thread, on_stack, stack_push, stack_pop}
use lgears.Machine.Stack.{IsStack, pushed, stack_push_lem, stack_pop-push}
use lgears.Machine.Arith.{
  op_div, op_mod, op_lt, apply_long, arithmetic_target, compare_target, op_bit_not, complement,
}
use lgears.Machine.Arith.Meaning.{IsValue, Holds}
use lgears.Machine.Arith.Laws.{
  HasTop, replaced, arithmetic_target_lem, compare_target_lem, op_bit_not-untagged,
}

-- Seven and minus two on a stack of eight words.
abbrev thread : Thread
thread = record {
  heap = idle;
  memory = λ p. none;
  opstack = 0 ∷ make_fixnum (pos 7) ∷ make_fixnum (negsuc 1) ∷ 0 ∷ 0 ∷ 0 ∷ 0 ∷ 0 ∷ [];
  op_stack_idx = 3;
  objects = on_stack 0;
  env = 0;
  bindmap = none;
  func = 0;
  closure = 0;
  heap_env = false;
  lib_cache = 0;
  exception_handlers = 0;
  local_roots = [];
  tramp = record { func = 0; argc = 0 };
}

stack_pop-push_example :
    stack_push thread 40 >>= stack_pop
    ≡ ok (40, record thread { opstack = set thread.opstack 3 40 })
stack_pop-push_example = stack_pop-push thread 40 (omega arith)

top : HasTop thread 1 (make_fixnum (pos 7)) (make_fixnum (negsuc 1))
top = record { stack = omega arith; index = refl; lower = refl; upper = refl }

arithmetic_target_lem_example :
    (r : Run ℤ) × IsValue op_div (pos 7) (negsuc 1) r
    × (arithmetic_target op_div thread ≡ r >>= λ c. ok (replaced thread 1 (make_fixnum c)))
arithmetic_target_lem_example =
    arithmetic_target_lem thread 1 (pos 7) (negsuc 1) (omega arith) (omega arith) top op_div

compare_target_lem_example :
    (c : Bool) × ((c ≡ true) ↔ Holds op_lt (pos 7) (negsuc 1))
    × (compare_target op_lt thread ≡ ok (replaced thread 1 (cif c)))
compare_target_lem_example =
    compare_target_lem thread 1 (pos 7) (negsuc 1) (omega arith) (omega arith) top op_lt

op_bit_not-untagged_example :
    (op_bit_not thread ≡ ok (replaced thread 2 (to_word (complement (negsuc 1)))))
    × ((get_tag (to_word (complement (negsuc 1))) ≡ Tag.fixnum) ↔ (to_word (negsuc 1) % 8 ≡ 7))
op_bit_not-untagged_example =
    op_bit_not-untagged thread 2 (negsuc 1) (omega arith) (omega arith) refl refl

-- C divides towards zero.
quotients :
    (apply_long op_div (pos 7) (negsuc 1) ≡ ok (negsuc 2))
    × (apply_long op_mod (negsuc 6) (pos 2) ≡ ok (negsuc 0))
    × (apply_long op_div (pos 7) (pos 0) ≡ undefined)
unfolding apply_long
quotients = (refl, refl, refl)

stack_push_lem_example :
    (thread.op_stack_idx + 1 ≡ op_stack_size thread) × (stack_push thread 40 ≡ fatal)
    ⊎ (stack_push thread 40 ≡ ok (pushed thread 40)) × IsStack (pushed thread 40)
stack_push_lem_example = stack_push_lem thread 40 (omega arith)
