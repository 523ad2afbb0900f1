-- ===== src/Machine/Arith/Laws.antt =====
-- What the instructions of Machine/Arith.antt do to a stack of fixnums.
use lgears.Prelude.{
  ◌↔◌, ◌%◌, ℕ, ◌+◌, ◌^◌, ◌<◌, ◌≡◌, inl, inr, refl, some, arith, get_elem?, set, Bool, true,
}
use lgears.Object.Tag
use lgears.Prelude.Int.{to_word, pos, negsuc, ℤ, InRange}
use lgears.Prelude.Run.{Run, ok, fatal, out_of_memory, undefined, ◌>>=◌}
use lgears.Object.Pointer.{get_tag-mod}
use lgears.Object.{get_tag, make_fixnum, fixnum, cif}
use lgears.Object.Fixnum.{fixnum-make_fixnum}
use lgears.Machine.{Thread, op_stack_size, stack_push}
use lgears.Machine.Stack.{stack_pop_lem, IsStack, stack_push_lem, fetch_ab_lem}
use lgears.Machine.Arith.Meaning.{IsValue, Holds, apply_long-IsValue, compare_long-Holds}
use lgears.Machine.Arith.{
  op_bit_not, complement, ArithmeticOp, apply_long, arithmetic_target, CompareOp, compare_long,
  compare_target,
}

-- The two topmost words of the stack are `a` and, above it, `b`.
pub record HasTop (t : Thread) (i a b : ℕ) : Type 0 where
  pub stack : IsStack t
  pub index : t.op_stack_idx ≡ i + 2
  pub lower : get_elem? t.opstack i ≡ some a
  pub upper : get_elem? t.opstack (i + 1) ≡ some b

-- The thread whose two topmost words are replaced by `c`.
abbrev pub replaced : Thread → ℕ → ℕ → Thread
replaced t i c = record t { opstack = set t.opstack i c; op_stack_idx = i + 1 }

module _ (t : Thread) (i : ℕ) where
  push_result :
      (c : ℕ)
      → i + 1 < op_stack_size t
      → stack_push (record t { op_stack_idx = i }) c ≡ ok (replaced t i c)
  push_result c h = elim (stack_push_lem (record t { op_stack_idx = i }) c (omega arith)) [
    | inl (full, e) ↦ absurd (omega arith)
    | inr (e, v) ↦ e
  ]

  fixnum_of : (x : ℤ) → InRange (2 ^ 60) x → fixnum (make_fixnum x) ≡ x
  fixnum_of x h = (fixnum-make_fixnum x (omega arith)).1 h

  push_run :
      (r : Run ℤ)
      → i + 1 < op_stack_size t
      → r >>= (λ c. stack_push (record t { op_stack_idx = i }) (make_fixnum c))
        ≡ r >>= (λ c. ok (replaced t i (make_fixnum c)))
  push_run (ok c) h = push_result (make_fixnum c) h
  push_run fatal h = refl
  push_run (out_of_memory need free) h = refl
  push_run undefined h = refl

  module _ (x y : ℤ) (fits_x : InRange (2 ^ 60) x) (fits_y : InRange (2 ^ 60) y)
      (top : HasTop t i (make_fixnum x) (make_fixnum y)) where
    room : i + 1 < op_stack_size t
    room = let s = top.stack in let e = top.index in omega arith

    -- An arithmetic instruction on two fixnums replaces them by the fixnum of their sum, difference
    -- or product; of the quotient, which is rounded towards zero, or of the remainder, which has the
    -- sign of the first; or of the integer whose pattern of 64 bits is the bitwise combination of
    -- theirs. It is undefined exactly where a product is no `long` and where the divisor is zero. No
    -- other word of the stack changes.
    pub arithmetic_target_lem :
        (op : ArithmeticOp)
        → (r : Run ℤ) × IsValue op x y r
          × (arithmetic_target op t ≡ r >>= λ c. ok (replaced t i (make_fixnum c)))
    unfolding arithmetic_target
    arithmetic_target_lem op = (
      apply_long op x y,
      apply_long-IsValue x y fits_x fits_y op,
      rw
          (
            fetch_ab_lem t (make_fixnum x) (make_fixnum y) i top.index top.lower top.upper,
            fixnum_of x fits_x,
            fixnum_of y fits_y,
          )
          (push_run (apply_long op x y) room),
    )

    -- A comparison of two fixnums replaces them by the boolean that is true exactly where the first
    -- is equal to the second, above it, or below it, in the order of the integers; no other word of
    -- the stack changes.
    pub compare_target_lem :
        (op : CompareOp)
        → (c : Bool) × ((c ≡ true) ↔ Holds op x y)
          × (compare_target op t ≡ ok (replaced t i (cif c)))
    unfolding compare_target
    compare_target_lem op = (
      compare_long op x y,
      compare_long-Holds op x y,
      rw
          (
            fetch_ab_lem t (make_fixnum x) (make_fixnum y) i top.index top.lower top.upper,
            fixnum_of x fits_x,
            fixnum_of y fits_y,
          )
          (push_result (cif (compare_long op x y)) room),
    )

complement-tag : (x : ℤ) → (to_word (complement x) % 8 ≡ 0) ↔ (to_word x % 8 ≡ 7)
complement-tag (pos n) = (λ e. omega arith, λ e. omega arith)
complement-tag (negsuc n) = (λ e. omega arith, λ e. omega arith)

-- OP_BIT_NOT on the fixnum of a `long` leaves the complement itself as a word: its tag is that of
-- a fixnum only where the operand is -1 modulo 8.
pub op_bit_not-untagged :
    (t : Thread) (i : ℕ) (x : ℤ)
    → InRange (2 ^ 60) x
    → IsStack t
    → t.op_stack_idx ≡ i + 1
    → get_elem? t.opstack i ≡ some (make_fixnum x)
    → (op_bit_not t ≡ ok (replaced t i (to_word (complement x))))
      × ((get_tag (to_word (complement x)) ≡ Tag.fixnum) ↔ (to_word x % 8 ≡ 7))
unfolding op_bit_not
op_bit_not-untagged t i x fits stack top e = (
  rw (stack_pop_lem t (make_fixnum x) i top e, fixnum_of t i x fits)
      (push_result t i (to_word (complement x)) (omega arith)),
  rw (get_tag-mod (to_word (complement x))) (complement-tag x),
)
