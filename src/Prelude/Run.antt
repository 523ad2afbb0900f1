-- ===== src/Prelude/Run.antt =====
-- Results of code that can end the program, by `FATAL` or a failed `ASSERT`, which call `abort`,
-- where `out_of_memory` is the FATAL that says that a block does not fit into a space of the heap, with
-- the bytes that it needs and those that are free,
-- or do what C leaves undefined, such as a division by zero or an access outside of its object.
use Prim.Native.Nat.{ℕ, ◌<◌}
use mathlib.Core.Option.{Option, none, some}
use mathlib.Core.Bool.{Bool, true, false}
use mathlib.Core.Logic.{◌⊎◌, inl, inr}
use mathlib.Core.Path.{◌≡◌, refl}

pub data Run {ℓ} (A : Type ℓ) : Type ℓ where
  ok : A → Run A
  fatal : Run A
  out_of_memory : ℕ → ℕ → Run A
  undefined : Run A

infixl 5 ◌>>=◌
abbrev pub ◌>>=◌ {ℓ κ} : {B : Type κ} {A : Type ℓ} → Run A → (A → Run B) → Run B
m >>= next = elim m [
  | undefined ↦ undefined
  | out_of_memory need free ↦ out_of_memory need free
  | fatal ↦ fatal
  | ok a ↦ next a
]

-- An access that is undefined where there is nothing to access.
abbrev pub defined {ℓ} : {A : Type ℓ} → Option A → Run A
defined none = undefined
defined (some a) = ok a

abbrev pub assert : Bool → Run (Unit {0})
assert true = ok tt
assert false = fatal

-- Two steps after one another.
pub bind_assoc {ℓ κ μ} :
    {A : Type ℓ} {B : Type κ} {C : Type μ} (m : Run A) (f : A → Run B) (g : B → Run C)
    → (m >>= f >>= g) ≡ (m >>= λ a. f a >>= g)
bind_assoc (ok a) f g = refl
bind_assoc fatal f g = refl
bind_assoc (out_of_memory need free) f g = refl
bind_assoc undefined f g = refl

-- Two sequences that begin with the same step agree where what follows it does.
pub bind_into {ℓ κ μ} :
    {A : Type ℓ} {B : Type κ} {C : Type μ} (m : Run A) (next : A → Run C) (f : A → Run B)
    (g : B → Run C)
    → ((a : A) → next a ≡ (f a >>= g))
    → (m >>= next) ≡ (m >>= f >>= g)
bind_into (ok a) next f g same = same a
bind_into fatal next f g same = refl
bind_into (out_of_memory need free) next f g same = refl
bind_into undefined next f g same = refl

pub bind_through {ℓ κ μ ν} :
    {A : Type ℓ} {B : Type κ} {C : Type μ} {D : Type ν} (m : Run A) (p : A → B) (next : B → Run D)
    (f : A → Run C) (g : C → Run D)
    → ((a : A) → next (p a) ≡ (f a >>= g))
    → (m >>= (λ a. ok (p a)) >>= next) ≡ (m >>= f >>= g)
bind_through (ok a) p next f g same = same a
bind_through fatal p next f g same = refl
bind_through (out_of_memory need free) p next f g same = refl
bind_through undefined p next f g same = refl

pub bind_cong {ℓ κ} :
    {A : Type ℓ} {B : Type κ} (m : Run A) (next next' : A → Run B)
    → ((a : A) → next a ≡ next' a)
    → (m >>= next) ≡ (m >>= next')
bind_cong (ok a) next next' same = same a
bind_cong fatal next next' same = refl
bind_cong (out_of_memory need free) next next' same = refl
bind_cong undefined next next' same = refl

-- The code gives a result of which `P` holds, or ends the program because more bytes are needed than are free; no other check
-- fails, and nothing that it does is undefined.
pub data Safe {A : Type 0} (P : A → Type 0) : Run A → Type 0 where
  returns : (a : A) → P a → Safe P (ok a)
  ends : (need free : ℕ) → free < need → Safe P (out_of_memory need free)

pub Safe-bind :
    {A B : Type 0} {P : A → Type 0} {Q : B → Type 0} {m : Run A} (next : A → Run B)
    → Safe P m
    → ((a : A) → P a → Safe Q (next a))
    → Safe Q (m >>= next)
Safe-bind next (returns a h) k = k a h
Safe-bind next (ends need free less) k = ends need free less

pub Safe-mono :
    {A : Type 0} {P : A → Type 0} (Q : A → Type 0) {m : Run A}
    → Safe P m
    → ((a : A) → P a → Q a)
    → Safe Q m
Safe-mono Q (returns a h) f = returns a (f a h)
Safe-mono Q (ends need free less) f = ends need free less

pub Safe-cases :
    {A : Type 0} {P : A → Type 0} {m : Run A}
    → Safe P m
    → ((need : ℕ) × (free : ℕ) × (free < need) × (m ≡ out_of_memory need free))
      ⊎ (a : A) × (m ≡ ok a) × P a
Safe-cases (returns a h) = inr (a, refl, h)
Safe-cases (ends need free less) = inl (need, free, less, refl)
