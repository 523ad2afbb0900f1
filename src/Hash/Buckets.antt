-- ===== src/Hash/Buckets.antt =====
-- Where nodes stand: the invariant of the array of chains, and what a table means under it.
use lgears.Prelude.{
  ℕ, zero, suc, ◌+◌, ◌%◌, ◌≤◌, ◌<◌, ◌≡◌, ◌≢◌, Bool, true, false, Option, some, List, [], ◌∷◌, arith,
  ◌==◌, if◌then◌else◌, length, get_or, set, flatten, length-append, length-set, get_or-set, All,
  Bool-cases, inl, inr, ◌∙◌,
}
use native.Mathlib.Nat.{mod-lt}
use lgears.Hash.{HashNode}
use lgears.Hash.Chain.{find, count, IsTagged}
use lgears.Hash.Keys.{Lawful}

abbrev pub chain : List (List HashNode) → ℕ → List HashNode
chain bs i = get_or bs i []

-- Replacing a chain trades its nodes for those of the new one.
pub length-flatten-set :
    (tables : List (List HashNode)) (home : ℕ) (new : List HashNode)
    → home < length tables
    → length (flatten (set tables home new)) + length (chain tables home)
      ≡ length new + length (flatten tables)
unfolding flatten get_or
length-flatten-set [] home new inside = absurd (omega arith)
length-flatten-set (old ∷ rest) zero new inside =
    omega (arith, length-append new (flatten rest), length-append old (flatten rest))
length-flatten-set (old ∷ rest) (suc home) new inside = omega (
  arith,
  length-append old (flatten (set rest home new)),
  length-append old (flatten rest),
  length-flatten-set rest home new (omega arith),
)

module _ (hash : ℕ → ℕ) (eq : ℕ → ℕ → Bool) where
  -- Of the nodes under a key there is at most one, and it stands in the chain of the key's hash.
  pub record ArePlaced (size : ℕ) (bs : List (List HashNode)) : Type 0 where
    pub width : length bs ≡ size
    pub tagged : (i : ℕ) → All (IsTagged hash) (chain bs i)
    pub once : (q i : ℕ) → count eq q (chain bs i) ≤ 1
    pub home : (q i : ℕ) → i ≢ hash q % size → count eq q (chain bs i) ≡ 0

  -- The value that an array of chains holds under a key.
  unfoldable pub view : ℕ → List (List HashNode) → ℕ → Option ℕ
  view size bs q = find eq q (chain bs (hash q % size))

  module _ (laws : Lawful hash eq) {size : ℕ} {bs : List (List HashNode)}
      (placed : ArePlaced size bs) (pos : 0 < size) (k : ℕ) where
    at_set :
        (c : List HashNode) (i : ℕ)
        → chain (set bs (hash k % size) c) i ≡ (if hash k % size == i then c else get_or bs i [])
    at_set c i =
        get_or-set bs (hash k % size) i c [] (omega (arith, placed.width, mod-lt (hash k) pos))

    -- A chain is replaced by one that differs in the nodes under one key alone.
    pub set-ArePlaced :
        (c : List HashNode)
        → All (IsTagged hash) c
        → ((q : ℕ) → eq k q ≡ true → count eq q c ≤ 1)
        → ((q : ℕ) → eq k q ≡ false → count eq q c ≡ count eq q (chain bs (hash k % size)))
        → ArePlaced size (set bs (hash k % size) c)
    set-ArePlaced c t at_key elsewhere = record {
      width = length-set bs _ c ∙ placed.width;
      tagged = λ i. rw (at_set c i) (tagged_at i);
      once = λ q i. rw (at_set c i) (ground (arith, at_key q, elsewhere q, placed.once q i));
      home = λ q i away.
          rw (at_set c i) (ground (arith, elsewhere q, placed.home q i, laws.eq-hash k q));
    }
      where
        tagged_at : (i : ℕ) → All (IsTagged hash) (if hash k % size == i then c else get_or bs i [])
        tagged_at i = elim (Bool-cases (hash k % size == i)) [
          | inl e ↦ rw e t
          | inr e ↦ rw e (placed.tagged i)
        ]

    pub view-set :
        (c : List HashNode) (v : ℕ)
        → ((q : ℕ)
            → find eq q c ≡ (if eq k q then some v else find eq q (chain bs (hash k % size))))
        → (q : ℕ)
        → view size (set bs (hash k % size) c) q ≡ (if eq k q then some v else view size bs q)
    unfolding view
    view-set c v reads q = rw (at_set c (hash q % size)) (ground (arith, reads q, laws.eq-hash k q))
