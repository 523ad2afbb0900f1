-- ===== src/Hash.antt =====
-- The chained hash table of vm/hash.c and vm/hash.h. A `void *` is a number, with 0 for NULL; an
-- array of chains is a list of lists, and the `hash_node_t **` that `hash_table_lookup_node`
-- returns is a bucket and a position in its chain, where the position behind the last node is the
-- `next` field that holds NULL. Calls of the table's destructors and of `free` are listed as
-- events. Allocation is taken to succeed, which the source does not check.
-- `Hash/Functions.antt` has the hash functions, `Hash/Keys.antt` what the table expects of them,
-- and the other children the laws.
pub mod Functions
pub mod Keys
pub mod Primes
pub mod Chain
pub mod Buckets
pub mod Rehash
pub mod Insert
pub mod Valid
pub mod Destroy
use lgears.Prelude.{
  ℕ, suc, ◌+◌, ◌*◌, ◌%◌, Bool, true, false, ◌&&◌, ◌||◌, Option, none, some, List, [], ◌∷◌, ◌++◌,
  ◌==◌, ltb, leb, if◌then◌else◌, get_or, get_elem?, set, replicate,
}

abbrev pub null : ℕ
null = 0

abbrev pub hash_table_min_size : ℕ
hash_table_min_size = 11

abbrev pub hash_table_max_size : ℕ
hash_table_max_size = 13845163

-- `CLAMP`
abbrev pub clamp : ℕ → ℕ → ℕ → ℕ
clamp x low high = if ltb high x then high else if ltb x low then low else x

abbrev pub primes : List ℕ
primes =
    11 ∷ 19 ∷ 37 ∷ 73 ∷ 109 ∷ 163 ∷ 251 ∷ 367 ∷ 557 ∷ 823 ∷ 1237 ∷ 1861 ∷ 2777 ∷ 4177 ∷ 6247 ∷ 9371
    ∷ 14057 ∷ 21089 ∷ 31627 ∷ 47431 ∷ 71143 ∷ 106721 ∷ 160073 ∷ 240101 ∷ 360163 ∷ 540217 ∷ 810343
    ∷ 1215497 ∷ 1823231 ∷ 2734867 ∷ 4102283 ∷ 6153409 ∷ 9230113 ∷ 13845163 ∷ []

-- The loop over the table of primes; the last prime where none is above the number.
closest : List ℕ → ℕ → ℕ
closest [] num = 13845163
closest (p ∷ ps) num = if ltb num p then p else closest ps num

unfoldable pub spaced_primes_closest : ℕ → ℕ
unfolding closest
spaced_primes_closest num = closest primes num

pub record HashNode : Type 0 where
  pub key : ℕ
  pub val : ℕ
  pub key_hash : ℕ

-- The number of nodes, an `int` in C, is below a third of what an `int` has room for.
pub record HashTable : Type 0 where
  pub size : ℕ
  pub nnodes : ℕ
  pub nodes : List (List HashNode)
  pub hash : ℕ → ℕ
  pub equal : Option (ℕ → ℕ → Bool)
  pub destroy_key : Bool
  pub destroy_val : Bool

pub data Event : Type 0 where
  key_destroyed : ℕ → Event
  val_destroyed : ℕ → Event
  node_freed : HashNode → Event

unfoldable pub hash_table_init : (ℕ → ℕ) → Option (ℕ → ℕ → Bool) → HashTable
hash_table_init hash equal = record {
  size = hash_table_min_size;
  nnodes = 0;
  nodes = replicate hash_table_min_size [];
  hash = hash;
  equal = equal;
  destroy_key = false;
  destroy_val = false;
}

-- The body of both loops of `hash_table_resize`: the node becomes the head of its new chain.
unfoldable pub relink : ℕ → HashNode → List (List HashNode) → List (List HashNode)
relink new_size node new_nodes =
    let i = node.key_hash % new_size in set new_nodes i (node ∷ get_or new_nodes i [])

unfoldable pub relink_chain : ℕ → List HashNode → List (List HashNode) → List (List HashNode)
unfolding relink
relink_chain new_size [] new_nodes = new_nodes
relink_chain new_size (node ∷ next) new_nodes =
    relink_chain new_size next (relink new_size node new_nodes)

unfoldable pub relink_all : ℕ → List (List HashNode) → List (List HashNode) → List (List HashNode)
unfolding relink_chain
relink_all new_size [] new_nodes = new_nodes
relink_all new_size (chain ∷ chains) new_nodes =
    relink_all new_size chains (relink_chain new_size chain new_nodes)

unfoldable pub hash_table_resize : HashTable → HashTable
unfolding relink_all
hash_table_resize tbl =
    let new_size =
      clamp (spaced_primes_closest tbl.nnodes) hash_table_min_size hash_table_max_size in
    record tbl { nodes = relink_all new_size tbl.nodes (replicate new_size []); size = new_size }

abbrev pub must_resize : ℕ → ℕ → Bool
must_resize size nnodes =
    (leb (3 * nnodes) size && ltb hash_table_min_size size)
    || (leb (3 * size) nnodes && ltb size hash_table_max_size)

unfoldable pub hash_table_maybe_resize : HashTable → HashTable
unfolding hash_table_resize
hash_table_maybe_resize tbl = if must_resize tbl.size tbl.nnodes then hash_table_resize tbl else tbl

-- The test of both loops of `hash_table_lookup_node`: by hash and function, or by address.
unfoldable pub is_match : Option (ℕ → ℕ → Bool) → ℕ → ℕ → HashNode → Bool
is_match (some equal) key_hash key node = node.key_hash == key_hash && equal node.key key
is_match none key_hash key node = node.key == key

unfoldable pub walk : (HashNode → Bool) → List HashNode → ℕ
walk match [] = 0
walk match (node ∷ next) = if match node then 0 else suc (walk match next)

pub record NodePtr : Type 0 where
  pub bucket : ℕ
  pub position : ℕ
  pub key_hash : ℕ

unfoldable pub hash_table_lookup_node : HashTable → ℕ → NodePtr
unfolding is_match walk
hash_table_lookup_node tbl key =
    let key_hash = tbl.hash key in
    let bucket = key_hash % tbl.size in
    record {
      bucket = bucket;
      position = walk (is_match tbl.equal key_hash key) (get_or tbl.nodes bucket []);
      key_hash = key_hash;
    }

-- `*node_ptr`
abbrev pub read_node : HashTable → NodePtr → Option HashNode
read_node tbl p = get_elem? (get_or tbl.nodes p.bucket []) p.position

unfoldable pub hash_table_lookup : HashTable → ℕ → ℕ
unfolding hash_table_lookup_node
hash_table_lookup tbl key = elim (read_node tbl (hash_table_lookup_node tbl key)) [
  | some node ↦ node.val
  | none ↦ null
]

-- `node->val = val`, and `*node_ptr = node` with `node->next = NULL`.
unfoldable pub assign_val : HashTable → NodePtr → HashNode → ℕ → HashTable
assign_val tbl p node val =
    let chain = get_or tbl.nodes p.bucket [] in
    record tbl { nodes = set tbl.nodes p.bucket (set chain p.position (record node { val = val })) }

unfoldable pub append_node : HashTable → NodePtr → HashNode → HashTable
append_node tbl p node =
    let chain = get_or tbl.nodes p.bucket [] in
    record tbl { nodes = set tbl.nodes p.bucket (chain ++ node ∷ []); nnodes = tbl.nnodes + 1 }

unfoldable pub hash_table_insert : HashTable → ℕ → ℕ → HashTable × List Event
unfolding hash_table_lookup_node assign_val append_node hash_table_maybe_resize
hash_table_insert tbl key val =
    let p = hash_table_lookup_node tbl key in
    elim (read_node tbl p) [
      | some node ↦
          (assign_val tbl p node val, if tbl.destroy_val then val_destroyed node.val ∷ [] else [])
      | none ↦ (
        hash_table_maybe_resize
            (append_node tbl p (record { key = key; val = val; key_hash = p.key_hash })),
        [],
      )
    ]

-- The body of the loops of `hash_table_destroy`.
unfoldable pub destroy_node : HashTable → HashNode → List Event
destroy_node tbl node =
    (if tbl.destroy_key then key_destroyed node.key ∷ [] else [])
    ++ (if tbl.destroy_val then val_destroyed node.val ∷ [] else [])
    ++ (node_freed node ∷ [])

unfoldable pub destroy_chain : HashTable → List HashNode → List Event
unfolding destroy_node
destroy_chain tbl [] = []
destroy_chain tbl (node ∷ next) = destroy_node tbl node ++ destroy_chain tbl next

unfoldable pub destroy_all : HashTable → List (List HashNode) → List Event
unfolding destroy_chain
destroy_all tbl [] = []
destroy_all tbl (chain ∷ chains) = destroy_chain tbl chain ++ destroy_all tbl chains

-- What is freed and destroyed, in its order; the array of the chains, which is freed last, is not
-- among these.
unfoldable pub hash_table_destroy : HashTable → List Event
unfolding destroy_all
hash_table_destroy tbl = destroy_all tbl tbl.nodes
