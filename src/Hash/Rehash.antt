-- ===== src/Hash/Rehash.antt =====
-- `hash_table_resize` keeps what a table holds under every key, and every node.
use lgears.Prelude.{
  ℕ, zero, suc, ◌+◌, ◌%◌, ◌≤◌, ◌<◌, ◌≡◌, ◌≢◌, refl, ap, ◌∙◌, Bool, true, none, some, List, [], ◌∷◌,
  ◌++◌, arith, if◌then◌else◌, length, get_or, set, replicate, flatten, length-replicate,
  get_or-replicate, All, All-append,
}
use native.Mathlib.Nat.{mod-lt}
use lgears.Hash.{HashNode, relink, relink_chain, relink_all}
use lgears.Hash.Chain.{
  find, count, IsTagged, count-append, find-eq-none, count-eq-zero, find-append_absent,
  find-append_present,
}
use lgears.Hash.Buckets.{chain, ArePlaced, view, set-ArePlaced, view-set, length-flatten-set}
use lgears.Hash.Keys.{Lawful, eq_congr}

relink_chain-append :
    (n : ℕ) (a b : List HashNode) (fresh : List (List HashNode))
    → relink_chain n (a ++ b) fresh ≡ relink_chain n b (relink_chain n a fresh)
unfolding relink_chain
relink_chain-append n [] b fresh = refl
relink_chain-append n (node ∷ a) b fresh = relink_chain-append n a b (relink n node fresh)

-- The two nested loops are one loop over all the nodes.
relink_all-flatten :
    (n : ℕ) (bs fresh : List (List HashNode))
    → relink_all n bs fresh ≡ relink_chain n (flatten bs) fresh
unfolding relink_all flatten
relink_all-flatten n [] fresh = refl
relink_all-flatten n (c ∷ bs) fresh =
    rw (relink_chain-append n c (flatten bs) fresh)
      (relink_all-flatten n bs (relink_chain n c fresh))

pub flatten-replicate : (n : ℕ) → flatten {A = HashNode} (replicate n []) ≡ []
unfolding flatten replicate
flatten-replicate zero = refl
flatten-replicate (suc n) = flatten-replicate n

module _ {hash : ℕ → ℕ} {eq : ℕ → ℕ → Bool} (laws : Lawful hash eq) where
  count-flatten_nowhere :
      (q : ℕ) (bs : List (List HashNode))
      → ((i : ℕ) → count eq q (chain bs i) ≡ 0)
      → count eq q (flatten bs) ≡ 0
  unfolding flatten get_or count
  count-flatten_nowhere q [] h = refl
  count-flatten_nowhere q (c ∷ bs) h =
      omega
        (arith, count-append eq q c (flatten bs), h 0, count-flatten_nowhere q bs (λ i. h (suc i)))

  flatten-chain :
      (q : ℕ) (bs : List (List HashNode)) (j : ℕ)
      → ((i : ℕ) → i ≢ j → count eq q (chain bs i) ≡ 0)
      → (find eq q (flatten bs) ≡ find eq q (chain bs j))
        × (count eq q (flatten bs) ≡ count eq q (chain bs j))
  unfolding flatten get_or
  flatten-chain q [] j h = (refl, refl)
  flatten-chain q (c ∷ bs) zero h =
      let rest = count-flatten_nowhere q bs (λ i. h (suc i) (omega arith)) in
      (
        find-append_present eq q c (flatten bs) rest,
        omega (arith, count-append eq q c (flatten bs)),
      )
  flatten-chain q (c ∷ bs) (suc j) h =
      let here = h 0 (omega arith) in
      let (found, counted) = flatten-chain q bs j (λ i n. h (suc i) (omega arith)) in
      (
        find-append_absent eq q c (flatten bs) here ∙ found,
        omega (arith, count-append eq q c (flatten bs)),
      )

  All-flatten :
      (bs : List (List HashNode))
      → ((i : ℕ) → All (IsTagged hash) (chain bs i))
      → All (IsTagged hash) (flatten bs)
  unfolding flatten get_or
  All-flatten [] t = tt
  All-flatten (c ∷ bs) t =
      All-append (IsTagged hash) c (flatten bs) (t 0) (All-flatten bs (λ i. t (suc i)))

  pub count_congr : (k q : ℕ) (c : List HashNode) → eq k q ≡ true → count eq q c ≡ count eq k c
  unfolding count
  count_congr k q [] e = refl
  count_congr k q (node ∷ c) e = ground (arith, count_congr k q c, eq_congr laws k q node.key)

  pub no_nodes : (n i : ℕ) → chain (replicate n []) i ≡ []
  no_nodes n i = get_or-replicate n i []

  pub replicate-ArePlaced : (n : ℕ) → ArePlaced hash eq n (replicate n [])
  unfolding count
  replicate-ArePlaced n = record {
    width = length-replicate n [];
    tagged = λ i. rw (no_nodes n i) tt;
    once = λ q i. rw (no_nodes n i) (omega arith);
    home = λ q i away. rw (no_nodes n i);
  }

  module _ (n : ℕ) (pos : 0 < n) where
    abbrev Absent : List (List HashNode) → ℕ → Type 0
    Absent bs q = view hash eq n bs q ≡ none

    -- One node moves to the head of its chain.
    record Relinked (node : HashNode) (bs bs' : List (List HashNode)) : Type 0 where
      placed : ArePlaced hash eq n bs'
      reads :
          (q : ℕ)
          → view hash eq n bs' q ≡ (if eq node.key q then some node.val else view hash eq n bs q)
      total : length (flatten bs') ≡ suc (length (flatten bs))

    moved : HashNode → List (List HashNode) → List (List HashNode)
    moved node bs = let home = hash node.key % n in set bs home (node ∷ chain bs home)

    relink-moved :
        (node : HashNode) (bs : List (List HashNode))
        → IsTagged hash node
        → relink n node bs ≡ moved node bs
    unfolding relink moved
    relink-moved node bs t = ap (λ h. set bs (h % n) (node ∷ chain bs (h % n))) t

    moved-Relinked :
        (node : HashNode) (bs : List (List HashNode))
        → IsTagged hash node
        → ArePlaced hash eq n bs
        → Absent bs node.key
        → Relinked node bs (moved node bs)
    unfolding moved count find view
    moved-Relinked node bs t placed gone =
        let home = hash node.key % n in
        let inside : home < length bs = omega (arith, mod-lt (hash node.key) pos, placed.width) in
        record {
          placed =
              set-ArePlaced hash eq laws placed pos node.key (node ∷ chain bs home)
                (t, placed.tagged home)
                (λ q e. ground (
                  arith,
                  count_congr node.key q (chain bs home),
                  count-eq-zero eq node.key (chain bs home),
                ))
                (λ q e. ground arith);
          reads =
              view-set hash eq laws placed pos node.key (node ∷ chain bs home) node.val (λ q. refl);
          total = omega (arith, length-flatten-set bs home (node ∷ chain bs home) inside);
        }

    -- What the loop over `es` leaves: the keys of `es` are added, the others are as before.
    record Moved (es : List HashNode) (bs bs' : List (List HashNode)) : Type 0 where
      placed : ArePlaced hash eq n bs'
      kept : (q : ℕ) → count eq q es ≡ 0 → view hash eq n bs' q ≡ view hash eq n bs q
      added : (q : ℕ) → Absent bs q → view hash eq n bs' q ≡ find eq q es
      total : length (flatten bs') ≡ length es + length (flatten bs)

    relink_chain-Moved :
        (es : List HashNode) (bs : List (List HashNode))
        → All (IsTagged hash) es
        → ArePlaced hash eq n bs
        → ((q : ℕ) → count eq q es ≤ 1)
        → ((q : ℕ) → 0 < count eq q es → Absent bs q)
        → Moved es bs (relink_chain n es bs)
    unfolding relink_chain count find
    relink_chain-Moved [] bs t placed once apart = record {
      placed = placed;
      kept = λ q h. refl;
      added = λ q h. h;
      total = omega arith;
    }
    relink_chain-Moved (node ∷ es) bs t placed once apart = rw (relink-moved node bs t.0) (
        let step =
          moved-Relinked node bs t.0 placed
            (apart node.key (ground (arith, laws.eq_refl node.key))) in
        let rest =
          relink_chain-Moved es (moved node bs) t.1 step.placed (λ q. omega (arith, once q))
            (λ q h. ground (arith, step.reads q, once q, apart q)) in
        record {
          placed = rest.placed;
          kept = λ q h. ground (arith, rest.kept q, step.reads q);
          added = λ q h. ground (arith, rest.kept q, rest.added q, step.reads q, once q);
          total = omega (arith, rest.total, step.total);
        })

  -- Relinking all the nodes of an array of chains into an array of `n` empty ones.
  pub relink_all-view :
      {size : ℕ} {bs : List (List HashNode)} (n : ℕ)
      → 0 < n
      → ArePlaced hash eq size bs
      → ArePlaced hash eq n (relink_all n bs (replicate n []))
        × ((q : ℕ) → view hash eq n (relink_all n bs (replicate n [])) q ≡ view hash eq size bs q)
        × (length (flatten (relink_all n bs (replicate n []))) ≡ length (flatten bs))
  unfolding view find count
  relink_all-view {size} {bs} n pos placed =
      let all = λ (q : ℕ). flatten-chain q bs (hash q % size) (λ i away. placed.home q i away) in
      let empty = λ (q : ℕ).
        find-eq-none eq q (chain (replicate n []) (hash q % n)) (rw (no_nodes n (hash q % n))) in
      let moved =
        relink_chain-Moved n pos (flatten bs) (replicate n []) (All-flatten bs placed.tagged)
          (replicate-ArePlaced n) (λ q. omega (arith, (all q).1, placed.once q (hash q % size)))
          (λ q h. empty q) in
      rw (relink_all-flatten n bs (replicate n [])) (
        moved.placed,
        λ q. moved.added q (empty q) ∙ (all q).0,
        omega (arith, moved.total, ap length (flatten-replicate n)),
      )
