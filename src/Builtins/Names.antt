-- ===== src/Builtins/Names.antt =====
-- The built-in procedures are found under their names.
use lgears.Prelude.{
  ℕ, ◌≡◌, inl, inr, refl, sym, subst, ap, ◌∙◌, Bool, true, false, not, ◌&&◌, some, List, [], ◌∷◌,
  arith, if◌then◌else◌, Bool-cases, All,
}
use lgears.Object.{make_func}
use lgears.Hash.{HashTable, hash_table_init, hash_table_insert}
use lgears.Hash.Keys.{same, Lawful}
use lgears.Hash.Valid.{eq, IsValid, or_null, init-IsValid}
use lgears.Hash.Insert.{insert-Inserted, lookup-insert, lookup-value}
use lgears.Hash.Functions.{Strcmp, string_hash, string_equal, string_equal_iff, string_keys-Lawful}
use lgears.Strings.{same_bytes}
use lgears.Builtins.{Builtin, Install, builtin, lookup_global, install_all, vm_init}

-- A valid table whose keys are compared as strings.
record IsNames (equal : ℕ → ℕ → Bool) (t : HashTable) : Type 0 where
  laws : Lawful t.hash (eq t)
  valid : IsValid t
  strings : t.equal ≡ some equal

insert-IsNames :
    (equal : ℕ → ℕ → Bool) (t : HashTable) (k v : ℕ)
    → IsNames equal t
    → IsNames equal (hash_table_insert t k v).0
insert-IsNames equal t k v n =
    let r = insert-Inserted t n.laws n.valid k v in
    subst (IsNames equal) (sym r.runs)
      (record { laws = n.laws; valid = r.valid; strings = n.strings })

abbrev equal : Strcmp → (ℕ → List ℕ) → ℕ → ℕ → Bool
equal lib text p q = string_equal lib (text p) (text q)

module _ (lib : Strcmp) (text : ℕ → List ℕ) (literal : List ℕ → ℕ) (header : Builtin → ℕ) where
  -- The last of the installations under a name counts.
  latest : List Install → ℕ → ℕ → ℕ
  latest [] q d = d
  latest ((name, nt) ∷ es) q d =
      latest es q (if equal lib text (literal name) q then make_func (header nt) else d)

  installed :
      (es : List Install) (t : HashTable) (q : ℕ)
      → IsNames (equal lib text) t
      → lookup_global (install_all literal header es t) q ≡ latest es q (lookup_global t q)
  unfolding install_all latest lookup_global
  installed [] t q n = refl
  installed ((name, nt) ∷ es) t q n =
      let step = lookup-insert t n.laws n.valid (literal name) (make_func (header nt)) q in
      let e : eq t (literal name) q ≡ equal lib text (literal name) q =
        ap (λ o. same o (literal name) q) n.strings in
      installed es (hash_table_insert t (literal name) (make_func (header nt))).0 q
        (insert-IsNames (equal lib text) t (literal name) (make_func (header nt)) n)
      ∙ ap (latest es q) (rw (← e) step)

same_bytes-eq : (a b : List ℕ) → same_bytes a b ≡ true → a ≡ b
unfolding same_bytes
same_bytes-eq [] [] h = refl
same_bytes-eq [] (d ∷ ds) h = cc
same_bytes-eq (c ∷ cs) [] h = cc
same_bytes-eq (c ∷ cs) (d ∷ ds) h = ground (arith, same_bytes-eq cs ds)

same_bytes_refl : (a : List ℕ) → same_bytes a a ≡ true
unfolding same_bytes
same_bytes_refl [] = refl
same_bytes_refl (c ∷ cs) = ground (arith, same_bytes_refl cs)

string_equal-same_bytes : (lib : Strcmp) (a b : List ℕ) → string_equal lib a b ≡ same_bytes a b
string_equal-same_bytes lib a b = elim (Bool-cases (same_bytes a b)) [
  | inl e ↦ (string_equal_iff lib a b).1 (same_bytes-eq a b e) ∙ sym e
  | inr e ↦ elim (Bool-cases (string_equal lib a b)) [
    | inl e' ↦
        let one = (string_equal_iff lib a b).0 e' in
        let two : same_bytes a b ≡ true = rw one (same_bytes_refl b) in absurd (cc)
    | inr e' ↦ e' ∙ sym e
  ]
]

-- No installation of the list is under the name; each name of the list stands there once.
unfoldable pub is_new : List ℕ → List Install → Bool
is_new name [] = true
is_new name ((other, nt) ∷ es) = not (same_bytes other name) && is_new name es

unfoldable pub are_distinct : List Install → Bool
unfolding is_new
are_distinct [] = true
are_distinct ((name, nt) ∷ es) = is_new name es && are_distinct es

-- The header that a list of installations has for a name.
unfoldable pub named : (Builtin → ℕ) → List Install → List ℕ → ℕ → ℕ
named header [] s d = d
named header ((name, nt) ∷ es) s d =
    if same_bytes name s then make_func (header nt) else named header es s d

module _ (lib : Strcmp) (text : ℕ → List ℕ) (literal : List ℕ → ℕ) (header : Builtin → ℕ) where
  abbrev AreLiterals : List Install → Type 0
  AreLiterals es = All (λ (e : Install). text (literal e.0) ≡ e.0) es

  latest-new :
      (es : List Install) (q d : ℕ)
      → AreLiterals es
      → is_new (text q) es ≡ true
      → latest lib text literal header es q d ≡ d
  unfolding latest is_new
  latest-new [] q d l n = refl
  latest-new ((name, nt) ∷ es) q d l n =
      let e : equal lib text (literal name) q ≡ same_bytes name (text q) =
        string_equal-same_bytes lib (text (literal name)) (text q)
        ∙ ap (λ s. same_bytes s (text q)) l.0 in
      let miss : same_bytes name (text q) ≡ false = ground arith in
      rw (e, miss) (latest-new es q d l.1 (ground arith))

  latest-named :
      (es : List Install) (q d : ℕ)
      → AreLiterals es
      → are_distinct es ≡ true
      → latest lib text literal header es q d ≡ named header es (text q) d
  unfolding latest are_distinct named
  latest-named [] q d l n = refl
  latest-named ((name, nt) ∷ es) q d l n =
      let e : equal lib text (literal name) q ≡ same_bytes name (text q) =
        string_equal-same_bytes lib (text (literal name)) (text q)
        ∙ ap (λ s. same_bytes s (text q)) l.0 in
      let once : is_new name es ≡ true = ground arith in
      let rest : are_distinct es ≡ true = ground arith in
      elim (Bool-cases (same_bytes name (text q))) [
        | inl hit ↦
            let new : is_new (text q) es ≡ true =
              ap (λ s. is_new s es) (sym (same_bytes-eq name (text q) hit)) ∙ once in
            rw (e, hit) (latest-new es q (make_func (header nt)) l.1 new)
        | inr miss ↦ rw (e, miss) (latest-named es q d l.1 rest)
      ]

vm_init-distinct : are_distinct vm_init ≡ true
unfolding are_distinct same_bytes
vm_init-distinct = refl

module _ (lib : Strcmp) (text : ℕ → List ℕ) (literal : List ℕ → ℕ) (header : Builtin → ℕ) where
  builtin-IsNames : IsNames (equal lib text) (builtin lib text)
  unfolding builtin hash_table_init
  builtin-IsNames = record {
    laws = string_keys-Lawful lib text;
    valid =
        (init-IsValid (λ p. string_hash (text p)) (some (λ p q. string_equal lib (text p) (text q)))
          (string_keys-Lawful lib text)).0;
    strings = refl;
  }

  builtin-empty : (q : ℕ) → lookup_global (builtin lib text) q ≡ 0
  unfolding lookup_global builtin hash_table_init
  builtin-empty q =
      let n = builtin-IsNames in
      let laws = string_keys-Lawful lib text in
      let init =
        init-IsValid (λ p. string_hash (text p)) (some (λ p q. string_equal lib (text p) (text q)))
          laws in
      lookup-value (builtin lib text) laws n.valid q ∙ ap or_null (init.1 q)

  -- Where the literals of the program stand in memory, a name is looked up after `vm_init` as the
  -- procedure that is installed under it, whatever the address that it is given by, and a name
  -- that nothing is installed under as NULL; no name is installed twice.
  pub lookup_global-vm_init :
      All (λ (e : Install). text (literal e.0) ≡ e.0) vm_init
      → (q : ℕ)
      → (lookup_global (install_all literal header vm_init (builtin lib text)) q
          ≡ named header vm_init (text q) 0)
        × (are_distinct vm_init ≡ true)
  lookup_global-vm_init literals q = (
    installed lib text literal header vm_init (builtin lib text) q builtin-IsNames
        ∙ latest-named lib text literal header vm_init q (lookup_global (builtin lib text) q)
            literals vm_init-distinct
        ∙ ap (named header vm_init (text q)) (builtin-empty q),
    vm_init-distinct,
  )
