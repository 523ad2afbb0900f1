-- ===== src/Machine/Env/Variables.antt =====
-- A local variable that SET_LOCAL has written is what LOAD_LOCAL reads, on the stack and in an
-- environment.
use mathlib.Core.Path.{subst}
use lgears.Prelude.{
  ℕ, ◌+◌, ◌≡◌, refl, ap, ◌∙◌, arith, Bool, true, false, some, List, ◌==◌, if◌then◌else◌, get_elem?,
  set,
}
use lgears.Prelude.Run.{ok, ◌>>=◌}
use lgears.Memory.{Memory, write, env}
use lgears.Machine.{Thread, on_stack, in_env, store, stack_push}
use lgears.Machine.Stack.{store-set, get_elem?-bound, get_elem?-set, stack_pop_lem}
use lgears.Machine.Env.{Env, env_at, get_object, set_object, set_env_object, load_local, set_local}

-- The local variables are the elements of the list from the index on.
pub data HasLocals (t : Thread) (base : ℕ) (xs : List ℕ) : Type 0 where
  stacked : t.objects ≡ on_stack base → t.opstack ≡ xs → HasLocals t base xs
  enclosed :
      (e : ℕ) (at : Env)
      → t.objects ≡ in_env e
      → env_at t.memory e ≡ ok at
      → base ≡ 0
      → at.objects ≡ xs
      → HasLocals t base xs

some-if : (c : Bool) (x y : ℕ) → (if c then some x else some y) ≡ some (if c then x else y)
some-if true x y = refl
some-if false x y = refl

same_sum : (base i k : ℕ) → (base + i == base + k) ≡ (i == k)
same_sum base i k = ground arith

set_get :
    (xs : List ℕ) (base i k v old other : ℕ)
    → get_elem? xs (base + i) ≡ some old
    → get_elem? xs (base + k) ≡ some other
    → get_elem? (set xs (base + i) v) (base + k) ≡ some (if i == k then v else other)
set_get xs base i k v old other ei ek =
    rw
      (
        get_elem?-set xs (base + i) (base + k) v (get_elem?-bound xs (base + i) old ei),
        ek,
        same_sum base i k,
      )
      (some-if (i == k) v other)

get_object_lem :
    (t : Thread) (base : ℕ) (xs : List ℕ) (i v : ℕ)
    → HasLocals t base xs
    → get_elem? xs (base + i) ≡ some v
    → get_object t i ≡ ok v
get_object_lem t base xs i v (stacked o s) e = rw (o, s, e)
get_object_lem t base xs i v (enclosed p at o found zero s) e =
    let place : base + i ≡ i = omega arith in
    let here : get_elem? at.objects i ≡ some v =
      rw s (subst (λ j. get_elem? xs j ≡ some v) place e) in
    rw (o, found, here)

-- The environment with the objects.
abbrev with_objects : Env → List ℕ → Env
with_objects at objects = record at {
  hdr = record { hdr = at.hdr.hdr; body = env at.prev at.size at.depth at.array objects };
  objects = objects;
}

abbrev env_memory : Memory → ℕ → Env → List ℕ → Memory
env_memory m p at objects = write m p (some (with_objects at objects).hdr)

env_at-env_memory :
    (m : Memory) (p : ℕ) (at : Env) (objects : List ℕ)
    → env_at (env_memory m p at objects) p ≡ ok (with_objects at objects)
unfolding env_at
env_at-env_memory m p at objects = let same : (p == p) ≡ true = ground arith in rw same

store-some :
    (xs : List ℕ) (i v old : ℕ) → get_elem? xs i ≡ some old → store xs i v ≡ ok (set xs i v)
store-some xs i v old e = store-set xs i v (get_elem?-bound xs i old e)

set_env_object_lem :
    (t : Thread) (p : ℕ) (at : Env) (i v old : ℕ)
    → env_at t.memory p ≡ ok at
    → get_elem? at.objects i ≡ some old
    → set_env_object t p i v
      ≡ ok (record t { memory = env_memory t.memory p at (set at.objects i v) })
unfolding set_env_object
set_env_object_lem t p at i v old found e = rw (found, store-some at.objects i v old e)

set_object_lem :
    (t : Thread) (base : ℕ) (xs : List ℕ) (i v old : ℕ)
    → HasLocals t base xs
    → get_elem? xs (base + i) ≡ some old
    → (t' : Thread) × (set_object t i v ≡ ok t') × HasLocals t' base (set xs (base + i) v)
set_object_lem t base xs i v old (stacked o s) e = (
  record t { opstack = set xs (base + i) v },
  rw (o, s, store-some xs (base + i) v old e),
  stacked o refl,
)
set_object_lem t base xs i v old (enclosed p at o found zero s) e =
    let place : base + i ≡ i = omega arith in
    let here : get_elem? at.objects i ≡ some old =
      rw s (subst (λ j. get_elem? xs j ≡ some old) place e) in
    let objects = set at.objects i v in
    (
      record t { memory = env_memory t.memory p at objects },
      ap
            (λ l. elim l [
              | on_stack b ↦
                  store t.opstack (b + i) v >>= λ stack. ok (record t { opstack = stack })
              | in_env e' ↦ set_env_object t e' i v
            ])
            o
          ∙ set_env_object_lem t p at i v old found here,
      enclosed p (with_objects at objects) o (env_at-env_memory t.memory p at objects) zero
          (rw (s, place)),
    )

-- SET_LOCAL stores the top of the stack in the local variable, wherever the variables stand, and
-- LOAD_LOCAL reads it back there and the other variables as before.
pub load_local-set_local :
    (t : Thread) (base : ℕ) (xs : List ℕ) (n v i k old other : ℕ)
    → HasLocals (record t { op_stack_idx = n }) base xs
    → t.op_stack_idx ≡ n + 1
    → get_elem? t.opstack n ≡ some v
    → get_elem? xs (base + i) ≡ some old
    → get_elem? xs (base + k) ≡ some other
    → (t' : Thread) × (set_local i t ≡ ok t')
      × (load_local k t' ≡ stack_push t' (if i == k then v else other))
      × HasLocals t' base (set xs (base + i) v)
unfolding set_local load_local
load_local-set_local t base xs n v i k old other h top e ei ek =
    let (t', stored, h') = set_object_lem (record t { op_stack_idx = n }) base xs i v old h ei in
    let value = set_get xs base i k v old other ei ek in
    (
      t',
      rw (stack_pop_lem t v n top e, stored),
      rw (get_object_lem t' base (set xs (base + i) v) k (if i == k then v else other) h' value),
      h',
    )
