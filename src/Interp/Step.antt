-- ===== src/Interp/Step.antt =====
-- One instruction of `eval_thread` of vm/vm.c. An instruction is two words of 16 bits, its code and
-- its argument; a read outside of the code of a function, and a code that is none of the 30, are
-- undefined.
pub mod Disjoint
use lgears.Prelude.{
  ℕ, zero, suc, ◌+◌, ◌*◌, Bool, true, ◌||◌, none, some, List, [], ◌∷◌, leb, if◌then◌else◌,
  get_elem?, length, drop,
}
use lgears.Prelude.Int.{ℤ, pos, negsuc, signed16, ◌+ℤ◌, ◌*ℤ◌}
use lgears.Prelude.Run.{Run, ok, fatal, undefined, ◌>>=◌, defined}
use lgears.Object.{ptr, cif, is_fixnum, is_null, is_bool, is_char, is_eof, is_false, make_func}
use lgears.Memory.{is_type}
use lgears.Types.{t_symbol, t_struct, t_string, t_bytevector}
use lgears.Machine.{Thread, in_env, stack_push, stack_pop}
use lgears.Machine.Arith.{
  abs, arithmetic_target, compare_target, op_not, op_bit_not, op_eq_ptr, push_bool, push_null,
  op_mod, op_div, op_mul, op_add, op_sub, op_bit_and, op_bit_ior, op_bit_xor, op_eq, op_gt, op_lt,
}
use lgears.Machine.Env.{load_local, set_local, load_bind, set_bind, set_env_object}
use lgears.Allocator.{root, heap_allocator}
use lgears.Lists.{cons, is_func}
use lgears.Vectors.{natural}
use lgears.Native.{pair_of, is_pair}
use lgears.Loader.Code.{split, little_endian}
use lgears.Loader.Parse.{Func}
use lgears.Interp.{interpreted, native, Message, car_expects_pair, cdr_expects_pair, Program}
use lgears.Interp.Enter.{closure_new, env_new}
use lgears.Interp.Call.{Frame, Outcome, running, ended, func_call, raise_error}

-- The instructions, in the order of their codes in vm/opcodes.h.
pub data Opcode : Type 0 where
  load_func load_closure load_local_op load_bind_op load_const push_bool_op push_null_op : Opcode
  jump_if_false jump_forward func_call_op set_local_op set_bind_op : Opcode
  cons_op car_op cdr_op sub_op add_op mul_op div_op mod_op : Opcode
  bit_and_op bit_ior_op bit_xor_op bit_not_op lt_op gt_op eq_op eq_ptr_op not_op type_test_op :
      Opcode

abbrev pub opcodes : List Opcode
opcodes =
    load_func ∷ load_closure ∷ load_local_op ∷ load_bind_op ∷ load_const ∷ push_bool_op
    ∷ push_null_op ∷ jump_if_false ∷ jump_forward ∷ func_call_op ∷ set_local_op ∷ set_bind_op
    ∷ cons_op ∷ car_op ∷ cdr_op ∷ sub_op ∷ add_op ∷ mul_op ∷ div_op ∷ mod_op ∷ bit_and_op
    ∷ bit_ior_op ∷ bit_xor_op ∷ bit_not_op ∷ lt_op ∷ gt_op ∷ eq_op ∷ eq_ptr_op ∷ not_op
    ∷ type_test_op ∷ []

-- The words at the index of the code, and the index behind them.
unfoldable pub fetch : Func → ℕ → Run (Opcode × ℤ × ℕ)
fetch func pc =
    if leb (2 * pc + 4) (length func.opcode)
    then (do
      (code, rest) ← split 2 (drop (2 * pc) func.opcode)
      (arg, rest) ← split 2 rest
      op ← defined (get_elem? opcodes (little_endian code))
      ok (op, signed16 (little_endian arg), pc + 2))
    else undefined

-- `opcode += op_arg*2`
abbrev pub jump : ℕ → ℤ → Run ℕ
jump pc op_arg = natural (pos pc +ℤ op_arg *ℤ pos 2)

-- IS_LIST
unfoldable pub is_list : Thread → ℕ → Run Bool
is_list t o =
    if is_pair t o
    then (do
      b ← defined (t.memory (ptr o))
      (car, cdr, flag, count) ← pair_of b.body
      ok (flag || is_null o))
    else ok (is_null o)

-- The tests of OP_TYPE_TEST, in the order of their numbers.
pub data TypeTest : Type 0 where
  tt_fixnum tt_null tt_list tt_pair tt_procedure tt_boolean tt_char : TypeTest
  tt_symbol tt_struct tt_string tt_bytevector tt_eof : TypeTest

abbrev pub type_tests : List TypeTest
type_tests =
    tt_fixnum ∷ tt_null ∷ tt_list ∷ tt_pair ∷ tt_procedure ∷ tt_boolean ∷ tt_char ∷ tt_symbol
    ∷ tt_struct ∷ tt_string ∷ tt_bytevector ∷ tt_eof ∷ []

unfoldable pub test_type : TypeTest → Thread → ℕ → Run Bool
unfolding is_list
test_type tt_fixnum t a = ok (is_fixnum a)
test_type tt_null t a = ok (is_null a)
test_type tt_list t a = is_list t a
test_type tt_pair t a = ok (is_pair t a)
test_type tt_procedure t a = ok (is_func t a)
test_type tt_boolean t a = ok (is_bool a)
test_type tt_char t a = ok (is_char a)
test_type tt_symbol t a = ok (is_type t.memory a t_symbol)
test_type tt_struct t a = ok (is_type t.memory a t_struct)
test_type tt_string t a = ok (is_type t.memory a t_string)
test_type tt_bytevector t a = ok (is_type t.memory a t_bytevector)
test_type tt_eof t a = ok (is_eof a)

-- OP_TYPE_TEST, which ends the program on a number that is no test.
unfoldable pub op_type_test : ℤ → Thread → Run Thread
op_type_test op_arg t = do
  (a, t) ← stack_pop t
  n ← (elim op_arg [ pos n ↦ ok n | negsuc n ↦ fatal ])
  test ← (elim (get_elem? type_tests n) [ some test ↦ ok test | none ↦ fatal ])
  b ← test_type test t a
  stack_push t (cif b)

-- OP_CONS, with its two protected variables.
unfoldable pub op_cons : ℕ → ℕ → Thread → Run Thread
op_cons old_mem fuel t = do
  (b, t) ← stack_pop t
  (a, t) ← stack_pop t
  (p, t) ←
      cons (heap_allocator old_mem fuel) (root 0) (root 1) (record t { local_roots = a ∷ b ∷ [] })
  t ← stack_push t p
  ok (record t { local_roots = [] })

-- The binding of an instruction.
abbrev pub binding : Func → ℕ → Run (ℕ × ℕ)
binding func n = do
  bindings ← defined func.bindings
  bind ← defined (get_elem? bindings n)
  up ← natural bind.up
  idx ← natural bind.idx
  ok (up, idx)

module _ (old_mem fuel : ℕ) (prog : Program) where
  -- An instruction that goes on behind itself.
  abbrev next : Frame → ℕ → Run Thread → Run Outcome
  next f pc r = r >>= λ t. ok (running (record f { thread = t; opcode = pc }))

  -- OP_CAR and OP_CDR: the choice of the field, and the message.
  unfoldable pub op_field : (ℕ × ℕ → ℕ) → Message → Frame → ℕ → Run Outcome
  op_field choose msg f pc = do
    (a, t) ← stack_pop f.thread
    if is_pair t a
        then (do
          b ← defined (t.memory (ptr a))
          (car, cdr, flag, count) ← pair_of b.body
          next f pc (stack_push t (choose (car, cdr))))
        else raise_error old_mem fuel prog msg t

  unfoldable pub op_load_closure : ℕ → Frame → ℕ → Run Outcome
  op_load_closure n f pc = do
    let addr = prog.module_func f.module_id n
    target ← defined (prog.callable addr)
    elim target [
      | native g ↦ undefined
      | interpreted g m ↦ do
        (c, t) ← closure_new old_mem fuel g.bmcount addr f.thread
        next f pc (stack_push t c)
    ]

  unfoldable pub execute : Opcode → ℤ → ℕ → Frame → Run Outcome
  execute load_local_op arg pc f = natural arg >>= λ n. next f pc (load_local n f.thread)
  execute load_const arg pc f = do
    n ← natural arg
    c ← defined (prog.constant f.module_id n)
    next f pc (stack_push f.thread c)
  execute jump_if_false arg pc f = do
    (a, t) ← stack_pop f.thread
    to ← (if is_false a then jump pc arg else ok pc)
    ok (running (record f { thread = t; opcode = to }))
  execute jump_forward arg pc f = do to ← jump pc arg; ok (running (record f { opcode = to }))
  execute load_func arg pc f = natural arg >>= λ n.
      next f pc (stack_push f.thread (make_func (prog.module_func f.module_id n)))
  execute func_call_op arg pc f = func_call old_mem fuel prog arg f.thread
  execute set_local_op arg pc f = natural arg >>= λ n. next f pc (set_local n f.thread)
  execute set_bind_op arg pc f = do
    n ← natural arg
    (up, idx) ← binding f.func n
    next f pc (set_bind up idx f.thread)
  execute load_bind_op arg pc f = do
    n ← natural arg
    (up, idx) ← binding f.func n
    next f pc (load_bind up idx f.thread)
  execute load_closure arg pc f = natural arg >>= λ n. op_load_closure n f pc
  execute push_bool_op arg pc f = next f pc (push_bool (abs arg) f.thread)
  execute push_null_op arg pc f = next f pc (push_null f.thread)
  execute not_op arg pc f = next f pc (op_not f.thread)
  execute bit_not_op arg pc f = next f pc (op_bit_not f.thread)
  execute eq_ptr_op arg pc f = next f pc (op_eq_ptr f.thread)
  execute eq_op arg pc f = next f pc (compare_target op_eq f.thread)
  execute gt_op arg pc f = next f pc (compare_target op_gt f.thread)
  execute lt_op arg pc f = next f pc (compare_target op_lt f.thread)
  execute mod_op arg pc f = next f pc (arithmetic_target op_mod f.thread)
  execute div_op arg pc f = next f pc (arithmetic_target op_div f.thread)
  execute mul_op arg pc f = next f pc (arithmetic_target op_mul f.thread)
  execute add_op arg pc f = next f pc (arithmetic_target op_add f.thread)
  execute sub_op arg pc f = next f pc (arithmetic_target op_sub f.thread)
  execute bit_and_op arg pc f = next f pc (arithmetic_target op_bit_and f.thread)
  execute bit_ior_op arg pc f = next f pc (arithmetic_target op_bit_ior f.thread)
  execute bit_xor_op arg pc f = next f pc (arithmetic_target op_bit_xor f.thread)
  execute cons_op arg pc f = next f pc (op_cons old_mem fuel f.thread)
  execute car_op arg pc f = op_field (λ r. r.0) car_expects_pair f pc
  execute cdr_op arg pc f = op_field (λ r. r.1) cdr_expects_pair f pc
  execute type_test_op arg pc f = next f pc (op_type_test arg f.thread)

  -- One round of the loop of `eval_thread`.
  unfoldable pub step : Frame → Run Outcome
  step f = do (op, arg, pc) ← fetch f.func f.opcode; execute op arg pc f

  -- The loop, of so many instructions at most.
  unfoldable pub eval_loop : ℕ → Frame → Run Outcome
  eval_loop zero f = ok (running f)
  eval_loop (suc n) f = do
    out ← step f
    elim out [ ended t ↦ ok (ended t) | running g ↦ eval_loop n g ]

  -- The first function of a module starts in an environment of its own, whose first object is the
  -- function that ends the thread.
  unfoldable pub start : ℕ → Func → ℕ → ℕ → Thread → Run Frame
  start addr func module_id exit t = do
    size ← natural func.env_size
    (e, t) ← env_new old_mem fuel size func.depth (record t { func = addr })
    t ← set_env_object t e 0 exit
    ok (record {
      thread = record t { env = e; objects = in_env e; heap_env = true };
      func = func;
      module_id = module_id;
      opcode = 0;
    })
