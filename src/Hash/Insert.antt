-- ===== src/Hash/Insert.antt =====
-- Lookup and insertion against the map from keys to values that a table stands for.
use lgears.Prelude.{
  ℕ, ◌+◌, ◌%◌, ◌<◌, ◌≡◌, refl, sym, ap, ◌∙◌, inl, inr, none, some, List, [], ◌∷◌, ◌++◌, arith,
  if◌then◌else◌, length, get_elem?, set, flatten, length-append, length-set, Bool-cases,
  Option-cases, All, All-append,
}
use native.Mathlib.Nat.{mod-lt}
use lgears.Hash.{HashNode, HashTable, Event, hash_table_lookup, hash_table_insert}
use lgears.Hash.Chain.{
  find, count, IsTagged, position, position-found, position-missing, find-set, count-set, All-set,
  count-append, count-eq-zero, find-append_absent, find-append_present,
}
use lgears.Hash.Buckets.{chain, ArePlaced, view, set-ArePlaced, view-set, length-flatten-set}
use lgears.Hash.Keys.{Lawful}
use lgears.Hash.Rehash.{count_congr}
use lgears.Hash.Valid.{
  eq, value, IsValid, or_null, reshape, old_events, is_some, maybe_resize-Resized,
}

-- The outcome of storing `v` under `k`.
pub record Inserted (t : HashTable) (k v : ℕ) (r : HashTable × List Event) : Type 0 where
  pub size : ℕ
  pub nnodes : ℕ
  pub nodes : List (List HashNode)
  pub runs : r.0 ≡ reshape t size nnodes nodes
  pub valid : IsValid (reshape t size nnodes nodes)
  pub reads :
      (q : ℕ) → value (reshape t size nnodes nodes) q ≡ (if eq t k q then some v else value t q)
  pub total : nnodes + is_some (value t k) ≡ t.nnodes + 1
  pub events : r.1 ≡ old_events t.destroy_val (value t k)

module _ (t : HashTable) (laws : Lawful t.hash (eq t)) (valid : IsValid t) where
  -- `hash_table_lookup` returns the value under the key, and NULL where there is none.
  pub lookup-value : (k : ℕ) → hash_table_lookup t k ≡ or_null (value t k)
  unfolding hash_table_lookup view
  lookup-value k =
      let c = chain t.nodes (t.hash k % t.size) in
      let tags = valid.placed.tagged (t.hash k % t.size) in
      elim (Option-cases (get_elem? c (position t.equal laws k c))) [
        | inl e ↦
            rw (e, hash_table_lookup) (ap or_null (sym (position-missing t.equal laws k c tags e)))
        | inr (node, e) ↦
            rw (e, hash_table_lookup)
              (ap or_null (sym (position-found t.equal laws k c node tags e).0))
      ]

module _ (t : HashTable) (laws : Lawful t.hash (eq t)) (valid : IsValid t) where
  module _ (k v : ℕ) where
    abbrev i : ℕ
    i = t.hash k % t.size

    abbrev c : List HashNode
    c = chain t.nodes i

    some_size : 0 < t.size
    some_size = omega (arith, valid.lower)

    inside : i < length t.nodes
    inside = omega (arith, mod-lt (t.hash k) some_size, valid.placed.width)

    tags : All (IsTagged t.hash) c
    tags = valid.placed.tagged i

    replaced :
        (node : HashNode)
        → get_elem? c (position t.equal laws k c) ≡ some node
        → Inserted t k v (hash_table_insert t k v)
    unfolding hash_table_insert view
    replaced node e =
        let found = position-found t.equal laws k c node tags e in
        let present : value t k ≡ some node.val = found.0 in
        let c' = set c (position t.equal laws k c) (record node { val = v }) in
        rw (e, hash_table_insert)
          (record {
            size = t.size;
            nnodes = t.nnodes;
            nodes = set t.nodes i c';
            runs = refl;
            valid = record {
              lower = valid.lower;
              upper = valid.upper;
              counted = omega (
                arith,
                length-flatten-set t.nodes i c' inside,
                length-set c (position t.equal laws k c) (record node { val = v }),
                valid.counted,
              );
              settled = valid.settled;
              placed =
                  set-ArePlaced t.hash (eq t) laws valid.placed some_size k c'
                    (All-set t.equal laws k v c node tags e)
                    (λ q h. rw (count-set t.equal laws k q v c node e) (valid.placed.once q i))
                    (λ q h. count-set t.equal laws k q v c node e);
            };
            reads =
                view-set t.hash (eq t) laws valid.placed some_size k c' v
                  (λ q. find-set t.equal laws k q v c node tags e);
            total = rw present;
            events = rw present (ground arith);
          })

    abbrev new_node : HashNode
    new_node = record { key = k; val = v; key_hash = t.hash k }

    abbrev longer : List HashNode
    longer = c ++ new_node ∷ []

    count-longer : (q : ℕ) → count (eq t) q longer ≡ count (eq t) q c + (if eq t k q then 1 else 0)
    unfolding count
    count-longer q = count-append (eq t) q c (new_node ∷ []) ∙ omega arith

    find-longer :
        find (eq t) k c ≡ none
        → (q : ℕ) → find (eq t) q longer ≡ (if eq t k q then some v else find (eq t) q c)
    unfolding find count
    find-longer gone q = elim (Bool-cases (eq t k q)) [
      | inl hit ↦ rw hit (
          find-append_absent (eq t) q c (new_node ∷ [])
            (count_congr laws k q c hit ∙ count-eq-zero (eq t) k c gone)
          ∙ rw hit)
      | inr miss ↦ rw miss (find-append_present (eq t) q c (new_node ∷ []) (rw miss))
    ]

    abbrev wider : HashTable
    wider = reshape t t.size (t.nnodes + 1) (set t.nodes i longer)

    wider-ArePlaced : find (eq t) k c ≡ none → ArePlaced t.hash (eq t) t.size (set t.nodes i longer)
    wider-ArePlaced gone =
        set-ArePlaced t.hash (eq t) laws valid.placed some_size k longer
          (All-append (IsTagged t.hash) c (new_node ∷ []) tags (refl, tt))
          (λ q h. ground (arith, count-longer q, count_congr laws k q c, count-eq-zero (eq t) k c))
          (λ q h. ground (arith, count-longer q))

    added :
        get_elem? c (position t.equal laws k c) ≡ none → Inserted t k v (hash_table_insert t k v)
    unfolding hash_table_insert view
    added e =
        let gone = position-missing t.equal laws k c tags e in
        let absent : value t k ≡ none = gone in
        let total : length (flatten (set t.nodes i longer)) ≡ t.nnodes + 1 = omega (
          arith,
          length-flatten-set t.nodes i longer inside,
          length-append c (new_node ∷ []),
          valid.counted,
        ) in
        let r =
          maybe_resize-Resized wider laws valid.lower valid.upper total (wider-ArePlaced gone) in
        rw (e, hash_table_insert)
          (record {
            size = r.size;
            nnodes = t.nnodes + 1;
            nodes = r.nodes;
            runs = r.runs;
            valid = r.valid;
            reads = λ q.
                r.reads q
                ∙ view-set t.hash (eq t) laws valid.placed some_size k longer v (find-longer gone)
                    q;
            total = rw absent (omega arith);
            events = rw absent (ground arith);
          })

    -- A store keeps the table valid. It changes the value under the key and no other, counts a
    -- node for a new key, and destroys the value that it replaces, where the table has a destructor.
    pub insert-Inserted : Inserted t k v (hash_table_insert t k v)
    insert-Inserted = elim (Option-cases (get_elem? c (position t.equal laws k c))) [
      | inl e ↦ added e
      | inr (node, e) ↦ replaced node e
    ]

    -- After a store the table looks up the new value under every key equal to the stored one, and
    -- under every other key what it looked up before.
    pub lookup-insert :
        (q : ℕ)
        → hash_table_lookup (hash_table_insert t k v).0 q
          ≡ (if eq t k q then v else hash_table_lookup t q)
    lookup-insert q =
        let r = insert-Inserted in
        rw r.runs (
          lookup-value (reshape t r.size r.nnodes r.nodes) laws r.valid q
          ∙ ap or_null (r.reads q)
          ∙ ground (arith, lookup-value t laws valid q))
