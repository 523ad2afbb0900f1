-- ===== src/Machine/Arith.antt =====
-- The instructions of `eval_thread` in vm/vm.c that compute with the words on the stack alone:
-- comparison and arithmetic on fixnums, and the tests of constants. A `long` result that overflows
-- and a division by zero are undefined in C.
pub mod Laws
pub mod Meaning
use Prim.Native.Nat.{bit_xor}
use lgears.Prelude.{
  ℕ, suc, ◌/◌, ◌%◌, ◌+◌, ◌-◌, ◌^◌, Bool, true, false, not, ◌&&◌, bit_and, bit_or, ◌==◌, ltb, leb,
  if◌then◌else◌,
}
use lgears.Prelude.Int.{
  ℤ, pos, negsuc, pos_part, neg_part, sub_ℕ, ltb_ℤ, ◌+ℤ◌, ◌-ℤ◌, ◌*ℤ◌, to_word, signed64,
}
use lgears.Prelude.Run.{Run, ok, fatal, undefined, ◌>>=◌}
use lgears.Object.{make_fixnum, fixnum, cif, is_false, cnull}
use lgears.Machine.{Thread, stack_push, stack_pop, fetch_ab}

-- A `long` expression: its value, if that is a `long`.
abbrev pub long : ℤ → Run ℤ
long v = if leb (suc (pos_part v)) (2 ^ 63) && leb (neg_part v) (2 ^ 63) then ok v else undefined

abbrev pub abs : ℤ → ℕ
abs v = pos_part v + neg_part v

abbrev pub is_negative : ℤ → Bool
is_negative (pos n) = false
is_negative (negsuc n) = true

abbrev pub signed : Bool → ℕ → ℤ
signed negative n = if negative then sub_ℕ 0 n else pos n

abbrev pub differ : Bool → Bool → Bool
differ true b = not b
differ false b = b

-- C divides towards zero, and a remainder has the sign of the dividend.
unfoldable pub long_div : ℤ → ℤ → Run ℤ
long_div a b =
    if abs b == 0
    then undefined
    else long (signed (differ (is_negative a) (is_negative b)) (abs a / abs b))

unfoldable pub long_mod : ℤ → ℤ → Run ℤ
long_mod a b = if abs b == 0 then undefined else long (signed (is_negative a) (abs a % abs b))

abbrev pub bitwise : (ℕ → ℕ → ℕ) → ℤ → ℤ → Run ℤ
bitwise op a b = ok (signed64 (op (to_word a) (to_word b)))

-- The binary operators that ARITHMETIC_TARGET is used with.
pub data ArithmeticOp : Type 0 where
  op_mod op_div op_mul op_add op_sub op_bit_and op_bit_ior op_bit_xor : ArithmeticOp

unfoldable pub apply_long : ArithmeticOp → ℤ → ℤ → Run ℤ
unfolding long_div long_mod
apply_long op_mod a b = long_mod a b
apply_long op_div a b = long_div a b
apply_long op_mul a b = long (a *ℤ b)
apply_long op_add a b = long (a +ℤ b)
apply_long op_sub a b = long (a -ℤ b)
apply_long op_bit_and a b = bitwise bit_and a b
apply_long op_bit_ior a b = bitwise bit_or a b
apply_long op_bit_xor a b = bitwise bit_xor a b

-- ARITHMETIC_TARGET
unfoldable pub arithmetic_target : ArithmeticOp → Thread → Run Thread
arithmetic_target op t = do
  (a, b, t) ← fetch_ab t
  c ← apply_long op (fixnum a) (fixnum b)
  stack_push t (make_fixnum c)

-- The operators that COMPARE_TARGET is used with.
pub data CompareOp : Type 0 where
  op_eq op_gt op_lt : CompareOp

unfoldable pub compare_long : CompareOp → ℤ → ℤ → Bool
compare_long op_eq a b = not (ltb_ℤ a b) && not (ltb_ℤ b a)
compare_long op_gt a b = ltb_ℤ b a
compare_long op_lt a b = ltb_ℤ a b

-- COMPARE_TARGET
unfoldable pub compare_target : CompareOp → Thread → Run Thread
compare_target op t = do
  (a, b, t) ← fetch_ab t
  stack_push t (cif (compare_long op (fixnum a) (fixnum b)))

unfoldable pub op_eq_ptr : Thread → Run Thread
op_eq_ptr t = do (a, b, t) ← fetch_ab t; stack_push t (cif (a == b))

unfoldable pub op_not : Thread → Run Thread
op_not t = do (a, t) ← stack_pop t; stack_push t (cif (is_false a))

-- `~` on a `long`
abbrev pub complement : ℤ → ℤ
complement (pos n) = negsuc n
complement (negsuc n) = pos n

-- The complement is pushed as it is, with no MAKE_FIXNUM round it.
unfoldable pub op_bit_not : Thread → Run Thread
op_bit_not t = do (a, t) ← stack_pop t; stack_push t (to_word (complement (fixnum a)))

unfoldable pub push_bool : ℕ → Thread → Run Thread
push_bool op_arg t = stack_push t (cif (not (op_arg == 0)))

unfoldable pub push_null : Thread → Run Thread
push_null t = stack_push t cnull
