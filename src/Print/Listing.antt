-- ===== src/Print/Listing.antt =====
-- A list is printed in brackets, its elements with a blank between them.
use lgears.Prelude.{
  ℕ, zero, suc, ◌<◌, ◌≡◌, ◌⊎◌, inl, inr, refl, true, false, some, List, [], ◌∷◌, ◌++◌, arith,
  length, ◌==◌, Bool-cases,
}
use lgears.Prelude.Text.{codes}
use lgears.Prelude.Run.{Run, ok}
use lgears.Object.{ptr, cnull, get_tag}
use lgears.Object.Kinds.{kind, heap_object, const_object, constants}
use lgears.Memory.{Memory, Block, is_type}
use lgears.Types.{t_pair}
use lgears.Machine.{Thread}
use lgears.Lists.Built.{Spells}
use lgears.Print.{Printer, print_obj, print_ptr, pair_repr, disp_pair}

-- The elements are printed as the texts.
abbrev pub ArePrinted : (ℕ → Run (List ℕ)) → List ℕ → List (List ℕ) → Type 0
ArePrinted print [] texts = texts ≡ []
ArePrinted print (x ∷ xs) [] = ⊥
ArePrinted print (x ∷ xs) (text ∷ texts) = (print x ≡ ok text) × ArePrinted print xs texts

-- Texts with a blank in front of each.
abbrev pub spaced : List (List ℕ) → List ℕ
spaced [] = []
spaced (text ∷ texts) = codes " " ++ (text ++ spaced texts)

-- The two kinds of pointers are printed alike.
pointer-kind :
    (m : Memory) (o tid : ℕ)
    → is_type m o tid ≡ true
    → (kind o ≡ heap_object (ptr o)) ⊎ (kind o ≡ const_object (ptr o))
unfolding is_type kind
pointer-kind m o tid h = elim (Bool-cases (get_tag o == 2)) [
  | inl two ↦ inr (rw two)
  | inr other ↦ elim (Bool-cases (get_tag o == 1)) [
    | inl one ↦ inl (rw (other, one))
    | inr neither ↦ ground arith
  ]
]

typed :
    (m : Memory) (o tid : ℕ) (b : Block)
    → is_type m o tid ≡ true
    → m (ptr o) ≡ some b
    → (b.hdr.type_id == tid) ≡ true
unfolding is_type
typed m o tid b h here = ground arith

null_type : (m : Memory) (tid : ℕ) → is_type m cnull tid ≡ false
unfolding is_type get_tag
null_type m tid = rw constants.0 refl

module _ (t : Thread) (bound : ℕ) (print : ℕ → Run (List ℕ)) where
  -- The elements behind the first.
  disp_pair-spaced :
      (rounds o : ℕ) (xs : List ℕ) (texts : List (List ℕ))
      → Spells t bound o xs
      → ArePrinted print xs texts
      → length xs < rounds
      → (w : Printer) → disp_pair w print rounds t.memory o ≡ ok (spaced texts)
  unfolding disp_pair
  disp_pair-spaced zero o xs texts s a more w = let no : ⊥ = omega arith in elim no [ ]
  disp_pair-spaced (suc rounds) o [] texts s a more w =
      let same : (cnull == cnull) ≡ true = ground arith in
      rw (s, null_type t.memory t_pair, a, same)
  disp_pair-spaced (suc rounds) o (x ∷ xs) [] s a more w = elim a [ ]
  disp_pair-spaced (suc rounds) o (x ∷ xs) (text ∷ texts) (below, (cdr, c, s)) (a, as') more w =
      let rest = disp_pair-spaced rounds cdr xs texts s as' (omega arith) w in
      rw (c.tested, c.here, c.fields, a, rest)

-- A non-empty list whose elements are printed is printed, by a run with rounds enough, as their
-- texts in brackets, with a blank between two of them.
pub print_obj-list :
    (w : Printer) (t : Thread) (bound fuel o x : ℕ) (xs text : List ℕ) (texts : List (List ℕ))
    → Spells t bound o (x ∷ xs)
    → ArePrinted (print_obj w fuel t.memory) (x ∷ xs) (text ∷ texts)
    → length xs < fuel
    → print_obj w (suc fuel) t.memory o ≡ ok (codes "(" ++ (text ++ (spaced texts ++ codes ")")))
unfolding print_obj print_ptr pair_repr
print_obj-list w t bound fuel o x xs text texts (below, (cdr, c, s)) (a, as') more =
    let rest =
      disp_pair-spaced t bound (print_obj w fuel t.memory) fuel cdr xs texts s as' more w in
    let pointed : print_ptr w (print_obj w fuel t.memory) fuel t.memory o
        ≡ ok (codes "(" ++ (text ++ (spaced texts ++ codes ")"))) =
      rw (c.here, typed t.memory o t_pair c.block c.tested c.here, c.fields, a, rest) in
    elim (pointer-kind t.memory o t_pair c.tested) [
      | inl heap ↦ rw (print_obj, heap) pointed
      | inr constant ↦ rw (print_obj, constant) pointed
    ]
