-- ===== src/Machine/Env/Display.antt =====
-- The search of `env_display` ends, and finds the environment of a depth where there is one.
use mathlib.Core.Path.{subst}
use lgears.Prelude.{
  ℕ, zero, suc, ◌<◌, ◌≢◌, ◌≡◌, ◌⊎◌, inl, inr, refl, sym, ap, ◌∙◌, arith, true, false, ◌==◌,
  Bool-cases, ==_iff,
}
use lgears.Prelude.Run.{Run, ok, fatal, out_of_memory, undefined}
use lgears.Memory.{Memory}
use lgears.Machine.Env.{Env, env_at, env_display}

-- Depths fall from an environment to the one around it, and the outermost has none around it.
pub data Nested (m : Memory) : ℕ → ℕ → Type 0 where
  outermost : (e d : ℕ) (at : Env) → env_at m e ≡ ok at → at.depth ≡ d → at.prev ≡ 0 → Nested m e d
  inside :
      (e d d' : ℕ) (at : Env)
      → env_at m e ≡ ok at
      → at.depth ≡ d
      → at.prev ≢ 0
      → d' < d
      → Nested m at.prev d'
      → Nested m e d

-- The second environment is the first, or one around it.
pub data Reaches (m : Memory) : ℕ → ℕ → Type 0 where
  here : (e e' : ℕ) → e ≡ e' → Reaches m e e'
  around :
      (e e' : ℕ) (at : Env)
      → env_at m e ≡ ok at
      → at.prev ≢ 0
      → Reaches m at.prev e'
      → Reaches m e e'

-- The environment at an address has the depth.
pub record HasDepth (m : Memory) (e d : ℕ) : Type 0 where
  pub at : Env
  pub found : env_at m e ≡ ok at
  pub depth : at.depth ≡ d

abbrev field_or_zero : (Env → ℕ) → Run Env → ℕ
field_or_zero f (ok at) = f at
field_or_zero f fatal = 0
field_or_zero f (out_of_memory need free) = 0
field_or_zero f undefined = 0

one_env :
    (f : Env → ℕ) (m : Memory) (e : ℕ) (a b : Env)
    → env_at m e ≡ ok a
    → env_at m e ≡ ok b
    → f a ≡ f b
one_env f m e a b ea eb = ap (field_or_zero f) (sym ea ∙ eb)

module _ (m : Memory) (e : ℕ) (at : Env) (found : env_at m e ≡ ok at) where
  alone : (e' : ℕ) → at.prev ≡ 0 → Reaches m e e' → e ≡ e'
  alone e' top (here _ _ p) = p
  alone e' top (around _ _ at' found' more r) =
      absurd (more (one_env (λ a. a.prev) m e at' at found' found ∙ top))

  here_or_around : (e' : ℕ) → Reaches m e e' → (e ≡ e') ⊎ Reaches m at.prev e'
  here_or_around e' (here _ _ p) = inl p
  here_or_around e' (around _ _ at' found' more r) =
      inr (subst (λ p. Reaches m p e') (one_env (λ a. a.prev) m e at' at found' found) r)

  not_here : (e' idx : ℕ) → (idx == at.depth) ≡ false → e ≡ e' → ¬ HasDepth m e' idx
  not_here e' idx other p has =
      let found' : env_at m e ≡ ok has.at = rw p has.found in
      let same : has.at.depth ≡ at.depth = one_env (λ a. a.depth) m e has.at at found' found in
      let depth = has.depth in ground arith

-- With as many steps as the depth of the first environment and one, the search either answers an
-- environment around the first of the depth that is asked for, or ends the program, and then none
-- has that depth: the loop always ends.
pub env_display_lem :
    (fuel : ℕ) (m : Memory) (e d idx : ℕ)
    → Nested m e d
    → d < fuel
    → ((e' : ℕ) × (env_display fuel m e idx ≡ ok e') × Reaches m e e' × HasDepth m e' idx)
      ⊎ (env_display fuel m e idx ≡ fatal) × ((e' : ℕ) → Reaches m e e' → ¬ HasDepth m e' idx)
unfolding env_display
env_display_lem zero m e d idx nested h = absurd (omega arith)
env_display_lem (suc fuel) m e d idx (outermost _ _ at found depth top) h =
    elim (Bool-cases (idx == at.depth)) [
      | inl this ↦ inl (
        e,
        rw (found, this),
        here e e refl,
        record { at = at; found = found; depth = sym ((==_iff idx at.depth).0 this) },
      )
      | inr other ↦
          let last : (at.prev == 0) ≡ true = ground arith in
          inr (
            rw (found, other, last),
            λ e' r. not_here m e at found e' idx other (alone m e at found e' top r),
          )
    ]
env_display_lem (suc fuel) m e d idx (inside _ _ d' at found depth more falls nested) h =
    elim (Bool-cases (idx == at.depth)) [
      | inl this ↦ inl (
        e,
        rw (found, this),
        here e e refl,
        record { at = at; found = found; depth = sym ((==_iff idx at.depth).0 this) },
      )
      | inr other ↦
          let go_on : (at.prev == 0) ≡ false = ground arith in
          elim (env_display_lem fuel m at.prev d' idx nested (omega arith)) [
            | inl (e', e'', reaches, has) ↦
                inl (e', rw (found, other, go_on, e''), around e e' at found more reaches, has)
            | inr (e'', none_around) ↦ inr (
              rw (found, other, go_on, e''),
              λ e' r has. elim (here_or_around m e at found e' r) [
                | inl p ↦ not_here m e at found e' idx other p has
                | inr r' ↦ none_around e' r' has
              ],
            )
          ]
    ]
