-- ===== src/Hash/Destroy.antt =====
-- `hash_table_destroy` gives back every node once, and calls each destructor that is set once for
-- every node.
use lgears.Prelude.{
  ℕ, ◌≡◌, refl, ap, ◌∙◌, List, [], ◌∷◌, ◌++◌, arith, map, flatten, length, if◌then◌else◌,
}
use mathlib.Core.List.{append_assoc}
use lgears.Hash.{
  HashNode, HashTable, Event, key_destroyed, val_destroyed, node_freed, destroy_chain, destroy_all,
  hash_table_destroy,
}
use lgears.Hash.Valid.{IsValid}

-- The arguments of the calls of each kind, in order.
unfoldable pub freed : List Event → List HashNode
freed [] = []
freed (node_freed node ∷ es) = node ∷ freed es
freed (key_destroyed k ∷ es) = freed es
freed (val_destroyed v ∷ es) = freed es

unfoldable pub keys_destroyed : List Event → List ℕ
keys_destroyed [] = []
keys_destroyed (node_freed node ∷ es) = keys_destroyed es
keys_destroyed (key_destroyed k ∷ es) = k ∷ keys_destroyed es
keys_destroyed (val_destroyed v ∷ es) = keys_destroyed es

unfoldable pub vals_destroyed : List Event → List ℕ
vals_destroyed [] = []
vals_destroyed (node_freed node ∷ es) = vals_destroyed es
vals_destroyed (key_destroyed k ∷ es) = vals_destroyed es
vals_destroyed (val_destroyed v ∷ es) = v ∷ vals_destroyed es

-- The calls that the destruction of the nodes `ns` must make.
pub record Destroyed (t : HashTable) (ns : List HashNode) (es : List Event) : Type 0 where
  pub nodes : freed es ≡ ns
  pub keys : keys_destroyed es ≡ (if t.destroy_key then map (λ n. n.key) ns else [])
  pub vals : vals_destroyed es ≡ (if t.destroy_val then map (λ n. n.val) ns else [])

module _ (t : HashTable) where
  destroy_chain-append :
      (a b : List HashNode) → destroy_chain t (a ++ b) ≡ destroy_chain t a ++ destroy_chain t b
  unfolding destroy_chain
  destroy_chain-append [] b = refl
  destroy_chain-append (node ∷ a) b = simp (destroy_chain-append a b, append_assoc)

  destroy_all-flatten :
      (bs : List (List HashNode)) → destroy_all t bs ≡ destroy_chain t (flatten bs)
  unfolding destroy_all flatten
  destroy_all-flatten [] = refl
  destroy_all-flatten (c ∷ bs) = rw (destroy_chain-append c (flatten bs), destroy_all-flatten bs)

  destroy_chain-Destroyed : (ns : List HashNode) → Destroyed t ns (destroy_chain t ns)
  unfolding destroy_chain freed keys_destroyed vals_destroyed
  destroy_chain-Destroyed [] = record { nodes = refl; keys = ground arith; vals = ground arith }
  destroy_chain-Destroyed (node ∷ ns) =
      let rest = destroy_chain-Destroyed ns in
      record {
        nodes = ground (arith, rest.nodes);
        keys = ground (arith, rest.keys);
        vals = ground (arith, rest.vals);
      }

  -- The destruction of a valid table frees as many nodes as it counts, each of those that it holds
  -- once, and calls each destructor that is set on the key or the value of each of them.
  pub hash_table_destroy_lem :
      IsValid t
      → Destroyed t (flatten t.nodes) (hash_table_destroy t)
        × (length (freed (hash_table_destroy t)) ≡ t.nnodes)
  unfolding hash_table_destroy
  hash_table_destroy_lem valid =
      let d = destroy_chain-Destroyed (flatten t.nodes) in
      rw (destroy_all-flatten t.nodes) (d, ap length d.nodes ∙ valid.counted)
