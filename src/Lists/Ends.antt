-- ===== src/Lists/Ends.antt =====
-- The loop of `apply` of vm/primitives.c over the list of the arguments.
use lgears.Prelude.{
  ℕ, zero, suc, ◌+◌, ◌≤◌, ◌<◌, ◌≡◌, ◌⊎◌, inl, inr, refl, ◌∙◌, arith, length-set, Bool, true, false,
  some, List, [], ◌∷◌, length, Bool-cases,
}
use lgears.Prelude.Run.{Run, ok, fatal}
use lgears.Object.{ptr}
use lgears.Memory.{Memory, Block, pair, is_type}
use lgears.Types.{t_pair}
use lgears.Machine.{Thread, op_stack_size}
use lgears.Machine.Stack.{IsStack, pushed, stack_push_lem}
use lgears.Lists.{push_list}

-- What is tagged as a pair has the fields of one.
pub record HasFields (m : Memory) (p car cdr : ℕ) : Type 0 where
  pub block : Block
  pub here : m p ≡ some block
  pub flag : Bool
  pub count : ℕ
  pub fields : block.body ≡ pair car cdr flag count

abbrev pub ArePairs : Memory → Type 0
ArePairs m =
    (o : ℕ) → is_type m o t_pair ≡ true → (car : ℕ) × (cdr : ℕ) × HasFields m (ptr o) car cdr

-- The first words of the pairs from `p` on, up to one that no pair follows.
abbrev pub Walks : Memory → ℕ → List ℕ → Type 0
Walks m p [] = ⊥
Walks m p (x ∷ xs) =
    (cdr : ℕ) × HasFields m p x cdr
    × ((is_type m cdr t_pair ≡ false) × (xs ≡ [])
        ⊎ (is_type m cdr t_pair ≡ true) × Walks m (ptr cdr) xs)

-- The first words of some of the pairs from `p` on.
abbrev pub Follows : Memory → ℕ → List ℕ → Type 0
Follows m p [] = Unit {0}
Follows m p (x ∷ xs) =
    (cdr : ℕ) × HasFields m p x cdr
    × ((xs ≡ []) ⊎ (is_type m cdr t_pair ≡ true) × Follows m (ptr cdr) xs)

abbrev pub pushed_all : Thread → List ℕ → Thread
pushed_all t [] = t
pushed_all t (x ∷ xs) = pushed_all (pushed t x) xs

-- All of a list is on the stack, or the stack is too small for it.
abbrev pub IsPushed : Memory → Thread → ℕ → ℕ → Run (ℕ × Thread) → Type 0
IsPushed m t p cargc r =
    ((xs : List ℕ) × Walks m p xs
      × (t.op_stack_idx + length xs < op_stack_size t)
      × (r ≡ ok (cargc + length xs, pushed_all t xs)))
    ⊎ ((xs : List ℕ) × Follows m p xs
        × (t.op_stack_idx + length xs ≡ op_stack_size t)
        × (r ≡ fatal))

module _ (m : Memory) (t : Thread) (car cdr p cargc : ℕ) (r : Run (ℕ × Thread))
    (h : HasFields m p car cdr) (v : IsStack t) where
  -- What is done behind a push is done before it with one element more.
  longer :
      is_type m cdr t_pair ≡ true
      → IsPushed m (pushed t car) (ptr cdr) (cargc + 1) r
      → IsPushed m t p cargc r
  longer goes_on (inl (xs, w, room, e)) =
      let sum : cargc + 1 + length xs ≡ cargc + length (car ∷ xs) = omega arith in
      inl (
        car ∷ xs,
        (cdr, h, inr (goes_on, w)),
        omega (arith, length-set t.opstack t.op_stack_idx car),
        e ∙ rw sum,
      )
  longer goes_on (inr (xs, w, full, e)) = inr (
    car ∷ xs,
    (cdr, h, inr (goes_on, w)),
    omega (arith, length-set t.opstack t.op_stack_idx car),
    e,
  )

-- The loop over the arguments of `apply`, with as many rounds as the stack has free words, comes to
-- an end in a memory in which a pair has the fields of one: either the list does, with fewer
-- elements than that, and all of them are on the stack in their order, and counted; or the list has
-- as many elements as the stack has free words, as one has that leads back to itself, and the
-- program ends.
pub push_list-ends :
    (fuel : ℕ) (t : Thread) (o cargc : ℕ)
    → ArePairs t.memory
    → is_type t.memory o t_pair ≡ true
    → IsStack t
    → op_stack_size t ≤ t.op_stack_idx + fuel
    → IsPushed t.memory t (ptr o) cargc (push_list fuel t (ptr o) cargc)
unfolding push_list
push_list-ends zero t o cargc pairs tested v enough = absurd (omega arith)
push_list-ends (suc fuel) t o cargc pairs tested v enough =
    let (car, cdr, h) = pairs o tested in
    elim (stack_push_lem t car v) [
      | inl (full, e) ↦ inr (car ∷ [], (cdr, h, inl refl), omega arith, rw (h.here, h.fields, e))
      | inr (e, w) ↦ elim (Bool-cases (is_type t.memory cdr t_pair)) [
        | inr last ↦ inl (
          car ∷ [],
          (cdr, h, inl (last, refl)),
          omega (arith, length-set t.opstack t.op_stack_idx car, w),
          rw (h.here, h.fields, e, last),
        )
        | inl goes_on ↦
            let size = length-set t.opstack t.op_stack_idx car in
            let rest =
              push_list-ends fuel (pushed t car) cdr (cargc + 1) pairs goes_on w
                (omega (arith, size)) in
            rw (h.here, h.fields, e, goes_on)
              (longer t.memory t car cdr (ptr o) cargc _ h v goes_on rest)
      ]
    ]
