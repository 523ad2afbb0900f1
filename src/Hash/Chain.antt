-- ===== src/Hash/Chain.antt =====
-- One chain: what it holds under a key, how often, and the loop that looks for the key.
use lgears.Prelude.{
  ℕ, ◌+◌, ◌≡◌, refl, ap, inl, inr, Bool, true, Option, none, some, List, [], ◌∷◌, ◌++◌, arith,
  if◌then◌else◌, get_elem?, set, All, Bool-cases,
}
use lgears.Hash.{HashNode, is_match, walk}
use lgears.Hash.Keys.{same, Lawful, eq_congr, eq_congr_left}

-- The specification: the value and the number of the nodes under a key.
module _ (eq : ℕ → ℕ → Bool) where
  unfoldable pub find : ℕ → List HashNode → Option ℕ
  find q [] = none
  find q (node ∷ c) = if eq node.key q then some node.val else find q c

  unfoldable pub count : ℕ → List HashNode → ℕ
  count q [] = 0
  count q (node ∷ c) = (if eq node.key q then 1 else 0) + count q c

  pub find-eq-none : (q : ℕ) (c : List HashNode) → count q c ≡ 0 → find q c ≡ none
  unfolding find count
  find-eq-none q [] h = refl
  find-eq-none q (node ∷ c) h = ground (arith, find-eq-none q c)

  pub count-eq-zero : (q : ℕ) (c : List HashNode) → find q c ≡ none → count q c ≡ 0
  unfolding find count
  count-eq-zero q [] h = refl
  count-eq-zero q (node ∷ c) h = ground (arith, count-eq-zero q c)

  pub count-append : (q : ℕ) (a b : List HashNode) → count q (a ++ b) ≡ count q a + count q b
  unfolding count
  count-append q [] b = omega arith
  count-append q (node ∷ a) b = omega (arith, count-append q a b)

  pub find-append_absent :
      (q : ℕ) (a b : List HashNode) → count q a ≡ 0 → find q (a ++ b) ≡ find q b
  unfolding find count
  find-append_absent q [] b h = refl
  find-append_absent q (node ∷ a) b h = ground (arith, find-append_absent q a b)

  pub find-append_present :
      (q : ℕ) (a b : List HashNode) → count q b ≡ 0 → find q (a ++ b) ≡ find q a
  unfolding find count
  find-append_present q [] b h = find-eq-none q b h
  find-append_present q (node ∷ a) b h = rw (find-append_present q a b h)

-- The hash that a node caches is that of its key.
abbrev pub IsTagged : (ℕ → ℕ) → HashNode → Type 0
IsTagged hash node = node.key_hash ≡ hash node.key

same_match :
    {hash : ℕ → ℕ} (equal : Option (ℕ → ℕ → Bool))
    → Lawful hash (same equal)
    → (q : ℕ) (node : HashNode) → IsTagged hash node
    → is_match equal (hash q) q node ≡ same equal node.key q
unfolding is_match
same_match none laws q node t = refl
same_match (some equal) laws q node t = ground (arith, laws.eq-hash node.key q)

module _ {hash : ℕ → ℕ} (equal : Option (ℕ → ℕ → Bool)) (laws : Lawful hash (same equal)) where
  -- On such a node the code's test, which compares cached hashes first, is the comparison of keys.
  pub is_match-same :
      (q : ℕ) (node : HashNode)
      → IsTagged hash node
      → is_match equal (hash q) q node ≡ same equal node.key q
  is_match-same q node t = same_match equal laws q node t

  abbrev pub position : ℕ → List HashNode → ℕ
  position q c = walk (is_match equal (hash q) q) c

  -- Where the loop stops stands a node exactly if the chain holds the key, and it is that node.
  pub position-found :
      (q : ℕ) (c : List HashNode) (node : HashNode)
      → All (IsTagged hash) c
      → get_elem? c (position q c) ≡ some node
      → (find (same equal) q c ≡ some node.val)
        × (same equal node.key q ≡ true)
        × IsTagged hash node
  unfolding find walk
  position-found q [] node t e = cc
  position-found q (x ∷ c) node t e = elim (Bool-cases (same equal x.key q)) [
    | inl hit ↦
        let e' = rw (is_match-same q x t.0, hit) at e in
        let x-node : x ≡ node = cc in
        rw hit (ap some (ap (λ n. n.val) x-node), rw (← x-node) hit, rw (← x-node) t.0)
    | inr miss ↦ rw miss (position-found q c node t.1 (rw (is_match-same q x t.0, miss) at e))
  ]

  pub position-missing :
      (q : ℕ) (c : List HashNode)
      → All (IsTagged hash) c
      → get_elem? c (position q c) ≡ none
      → find (same equal) q c ≡ none
  unfolding find walk
  position-missing q [] t e = refl
  position-missing q (x ∷ c) t e = ground (arith, is_match-same q x, position-missing q c)

  pub find-set :
      (k q v : ℕ) (c : List HashNode) (node : HashNode)
      → All (IsTagged hash) c
      → get_elem? c (position k c) ≡ some node
      → find (same equal) q (set c (position k c) (record node { val = v }))
        ≡ (if same equal k q then some v else find (same equal) q c)
  unfolding find walk
  find-set k q v [] node t e = cc
  find-set k q v (x ∷ c) node t e = elim (Bool-cases (same equal x.key k)) [
    | inl hit ↦
        let e' = rw (is_match-same k x t.0, hit) at e in
        let x-node : x ≡ node = cc in
        rw (is_match-same k x t.0, hit, ← x-node, eq_congr_left laws x.key k q hit) (ground arith)
    | inr miss ↦
        rw (is_match-same k x t.0, miss)
          (rw (find-set k q v c node t.1 (rw (is_match-same k x t.0, miss) at e))
            (ground (arith, eq_congr laws k q x.key)))
  ]

  pub count-set :
      (k q v : ℕ) (c : List HashNode) (node : HashNode)
      → get_elem? c (position k c) ≡ some node
      → count (same equal) q (set c (position k c) (record node { val = v }))
        ≡ count (same equal) q c
  unfolding count walk
  count-set k q v [] node e = refl
  count-set k q v (x ∷ c) node e = ground (arith, count-set k q v c node)

  pub All-set :
      (k v : ℕ) (c : List HashNode) (node : HashNode)
      → All (IsTagged hash) c
      → get_elem? c (position k c) ≡ some node
      → All (IsTagged hash) (set c (position k c) (record node { val = v }))
  unfolding walk
  All-set k v [] node t e = t
  All-set k v (x ∷ c) node t e = elim (Bool-cases (is_match equal (hash k) k x)) [
    | inl hit ↦ let e' = rw hit at e in let x-node : x ≡ node = cc in rw (hit, ← x-node) t
    | inr miss ↦ rw miss (t.0, All-set k v c node t.1 (rw miss at e))
  ]
