-- ===== src/Machine/Stack.antt =====
-- The operand stack keeps within its array, and a pop takes back what was pushed.
use lgears.Prelude.{
  none, ℕ, zero, suc, ◌+◌, ◌-◌, ◌<◌, ◌≡◌, ◌⊎◌, inl, inr, refl, some, List, [], ◌∷◌, arith, ◌==◌,
  if◌then◌else◌, false, get_elem?, set, length, length-set, Bool-cases,
}
use lgears.Prelude.Run.{ok, fatal, ◌>>=◌}
use lgears.Machine.{Thread, op_stack_size, store, stack_push, stack_pop, fetch_ab}

module _ {ℓ} {A : Type ℓ} where
  pub get_elem?-some : (xs : List A) (i : ℕ) → i < length xs → (a : A) × (get_elem? xs i ≡ some a)
  get_elem?-some [] i h = absurd (omega arith)
  get_elem?-some (x ∷ xs) zero h = (x, refl)
  get_elem?-some (x ∷ xs) (suc i) h = get_elem?-some xs i (omega arith)

  some-none : (a : A) → ¬ (none ≡ some a)
  some-none a e = cc e

  pub get_elem?-bound : (xs : List A) (i : ℕ) (a : A) → get_elem? xs i ≡ some a → i < length xs
  get_elem?-bound [] i a e = absurd (some-none a e)
  get_elem?-bound (x ∷ xs) zero a e = omega arith
  get_elem?-bound (x ∷ xs) (suc i) a e = omega (arith, get_elem?-bound xs i a e)

  pub get_elem?-set :
      (xs : List A) (i j : ℕ) (v : A)
      → i < length xs
      → get_elem? (set xs i v) j ≡ (if i == j then some v else get_elem? xs j)
  get_elem?-set [] i j v h = absurd (omega arith)
  get_elem?-set (x ∷ xs) zero zero v h = refl
  get_elem?-set (x ∷ xs) zero (suc j) v h = ground arith
  get_elem?-set (x ∷ xs) (suc i) zero v h = ground arith
  get_elem?-set (x ∷ xs) (suc i) (suc j) v h = ground (arith, get_elem?-set xs i j v)

-- The index stands below the last word of the array, which the stack never uses.
abbrev pub IsStack : Thread → Type 0
IsStack t = t.op_stack_idx < op_stack_size t

pub store-set : (xs : List ℕ) (i v : ℕ) → i < length xs → store xs i v ≡ ok (set xs i v)
store-set xs i v h = let (old, e) = get_elem?-some xs i h in rw (e, store)

-- The thread with `obj` on its stack, and the one with the top of its stack off.
abbrev pub pushed : Thread → ℕ → Thread
pushed t obj = record t {
  opstack = set t.opstack t.op_stack_idx obj;
  op_stack_idx = t.op_stack_idx + 1;
}

-- A push onto a stack that keeps within its array ends the program exactly where the array is full
-- but for its last word; otherwise it stores the object, and the stack still keeps within its array.
pub stack_push_lem :
    (t : Thread) (obj : ℕ)
    → IsStack t
    → (t.op_stack_idx + 1 ≡ op_stack_size t) × (stack_push t obj ≡ fatal)
      ⊎ (stack_push t obj ≡ ok (pushed t obj)) × IsStack (pushed t obj)
unfolding stack_push
stack_push_lem t obj h =
    let e = store-set t.opstack t.op_stack_idx obj h in
    elim (Bool-cases (t.op_stack_idx + 1 == op_stack_size t)) [
      | inl full ↦ inl (ground arith, rw full)
      | inr room ↦ inr (rw (room, e), ground (arith, length-set t.opstack t.op_stack_idx obj))
    ]

-- A pop takes the word below the index, and ends the program on an empty stack.
pub stack_pop_lem :
    (t : Thread) (obj i : ℕ)
    → t.op_stack_idx ≡ i + 1
    → get_elem? t.opstack i ≡ some obj
    → stack_pop t ≡ ok (obj, record t { op_stack_idx = i })
unfolding stack_pop
stack_pop_lem t obj i top e =
    let some_idx : (t.op_stack_idx == 0) ≡ false = ground arith in
    let below : t.op_stack_idx - 1 ≡ i = omega arith in rw (some_idx, below, e)

pub stack_pop-pushed :
    (t : Thread) (obj : ℕ)
    → IsStack t
    → stack_pop (pushed t obj) ≡ ok (obj, record t { opstack = set t.opstack t.op_stack_idx obj })
stack_pop-pushed t obj h =
    stack_pop_lem (pushed t obj) obj t.op_stack_idx refl
      (ground (arith, get_elem?-set t.opstack t.op_stack_idx t.op_stack_idx obj))

-- A push below the bound is undone by a pop: the pop answers the object, and the thread differs
-- from the one before in the word above its stack alone.
pub stack_pop-push :
    (t : Thread) (obj : ℕ)
    → t.op_stack_idx + 1 < op_stack_size t
    → stack_push t obj >>= stack_pop
      ≡ ok (obj, record t { opstack = set t.opstack t.op_stack_idx obj })
unfolding stack_pop
stack_pop-push t obj h = elim (stack_push_lem t obj (omega arith)) [
  | inl (full, e) ↦ absurd (omega arith)
  | inr (e, v) ↦ rw e (stack_pop-pushed t obj (omega arith))
]

-- Over a stack of two or more the operands of a binary instruction are its two topmost words, the
-- upper one the second operand.
pub fetch_ab_lem :
    (t : Thread) (a b i : ℕ)
    → t.op_stack_idx ≡ i + 2
    → get_elem? t.opstack i ≡ some a
    → get_elem? t.opstack (i + 1) ≡ some b
    → fetch_ab t ≡ ok (a, b, record t { op_stack_idx = i })
unfolding fetch_ab
fetch_ab_lem t a b i top ea eb = rw (
  stack_pop_lem t b (i + 1) (omega arith) eb,
  stack_pop_lem (record t { op_stack_idx = i + 1 }) a i refl ea,
)

-- Room for more words: a push takes one.
abbrev pub HasRoom : ℕ → Thread → Type 0
HasRoom n t = t.op_stack_idx + n < op_stack_size t

pub stack_push-HasRoom :
    (n : ℕ) (t : Thread) (obj : ℕ)
    → HasRoom (suc n) t
    → (stack_push t obj ≡ ok (pushed t obj)) × HasRoom n (pushed t obj)
stack_push-HasRoom n t obj h = elim (stack_push_lem t obj (omega arith)) [
  | inl (full, e) ↦ absurd (omega arith)
  | inr (e, v) ↦ (e, omega (arith, length-set t.opstack t.op_stack_idx obj))
]
