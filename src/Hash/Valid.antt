-- ===== src/Hash/Valid.antt =====
-- The invariant of a table, the map from keys to values that it stands for, `hash_table_init` and
-- `hash_table_resize`.
use lgears.Prelude.{
  ℕ, ◌%◌, ◌≤◌, ◌≡◌, refl, ap, ◌∙◌, inl, inr, Bool, true, false, Option, none, some, List, [], ◌∷◌,
  arith, length, replicate, flatten, Bool-cases,
}
use lgears.Hash.{
  HashNode, HashTable, Event, val_destroyed, hash_table_min_size, hash_table_max_size, null,
  must_resize, hash_table_init, hash_table_resize, hash_table_maybe_resize, spaced_primes_closest,
  relink_all,
}
use lgears.Hash.Chain.{find}
use lgears.Hash.Buckets.{ArePlaced, view}
use lgears.Hash.Keys.{same, Lawful}
use lgears.Hash.Primes.{spaced_primes_closest_lem, clamp-closest, must_resize-closest}
use lgears.Hash.Rehash.{relink_all-view, replicate-ArePlaced, no_nodes, flatten-replicate}

-- The comparison of a table, and the value that it holds under a key.
abbrev pub eq : HashTable → ℕ → ℕ → Bool
eq t = same t.equal

abbrev pub value : HashTable → ℕ → Option ℕ
value t = view t.hash (eq t) t.size t.nodes

pub record IsValid (t : HashTable) : Type 0 where
  pub lower : hash_table_min_size ≤ t.size
  pub upper : t.size ≤ hash_table_max_size
  pub counted : length (flatten t.nodes) ≡ t.nnodes
  pub settled : must_resize t.size t.nnodes ≡ false
  pub placed : ArePlaced t.hash (eq t) t.size t.nodes

abbrev pub or_null : Option ℕ → ℕ
or_null none = null
or_null (some v) = v

-- A table with other chains, and the same functions.
abbrev pub reshape : HashTable → ℕ → ℕ → List (List HashNode) → HashTable
reshape t size nnodes nodes = record t { size = size; nnodes = nnodes; nodes = nodes }

-- `hash_table_init` makes a valid table that holds nothing.
pub init-IsValid :
    (hash : ℕ → ℕ) (equal : Option (ℕ → ℕ → Bool))
    → Lawful hash (same equal)
    → IsValid (hash_table_init hash equal) × ((k : ℕ) → value (hash_table_init hash equal) k ≡ none)
unfolding hash_table_init view find
init-IsValid hash equal laws = (
  record {
    lower = omega arith;
    upper = omega arith;
    counted = ap length (flatten-replicate 11);
    settled = refl;
    placed = replicate-ArePlaced laws 11;
  },
  λ k. rw (no_nodes laws 11 (hash k % 11)),
)

module _ (t : HashTable) (laws : Lawful t.hash (eq t)) where
  -- A table that is valid but for its load is made valid, and keeps what it holds.
  pub record Resized (t' : HashTable) : Type 0 where
    pub size : ℕ
    pub nodes : List (List HashNode)
    pub runs : t' ≡ reshape t size t.nnodes nodes
    pub valid : IsValid (reshape t size t.nnodes nodes)
    pub reads : (q : ℕ) → value (reshape t size t.nnodes nodes) q ≡ value t q

  resize-Resized :
      length (flatten t.nodes) ≡ t.nnodes
      → ArePlaced t.hash (eq t) t.size t.nodes
      → Resized (hash_table_resize t)
  unfolding hash_table_resize
  resize-Resized counted placed =
      let n = spaced_primes_closest t.nnodes in
      let closest = spaced_primes_closest_lem t.nnodes in
      let (placed', reads, total) = relink_all-view laws n (omega (arith, closest.lower)) placed in
      record {
        size = n;
        nodes = relink_all n t.nodes (replicate n []);
        runs = rw (clamp-closest t.nnodes);
        valid = record {
          lower = closest.lower;
          upper = closest.upper;
          counted = total ∙ counted;
          settled = must_resize-closest t.nnodes;
          placed = placed';
        };
        reads = reads;
      }

  pub maybe_resize-Resized :
      hash_table_min_size ≤ t.size
      → t.size ≤ hash_table_max_size
      → length (flatten t.nodes) ≡ t.nnodes
      → ArePlaced t.hash (eq t) t.size t.nodes
      → Resized (hash_table_maybe_resize t)
  unfolding hash_table_maybe_resize
  maybe_resize-Resized lower upper counted placed =
      elim (Bool-cases (must_resize t.size t.nnodes)) [
        | inl must ↦ rw must (resize-Resized counted placed)
        | inr settled ↦ rw settled (record {
          size = t.size;
          nodes = t.nodes;
          runs = refl;
          valid = record {
            lower = lower;
            upper = upper;
            counted = counted;
            settled = settled;
            placed = placed;
          };
          reads = λ q. refl;
        })
      ]

-- What a store must destroy, by the value that it replaces.
abbrev pub old_events : Bool → Option ℕ → List Event
old_events true (some old) = val_destroyed old ∷ []
old_events true none = []
old_events false o = []

abbrev pub is_some : Option ℕ → ℕ
is_some none = 0
is_some (some v) = 1
