-- ===== src/Collector/Chain.antt =====
-- The blocks that a loop over `NEXT_HDR` of vm/heap.c meets, as the list of their headers' places.
use lgears.Prelude.{
  ℕ, ◌+◌, ◌*◌, ◌%◌, ◌≤◌, ◌<◌, ◌≡◌, ◌⊎◌, inl, inr, refl, sym, subst, ap, ◌∙◌, some, List, [], ◌∷◌,
  ◌++◌, arith, length,
}
use lgears.Memory.{Block, Memory, bhdr_size}
use lgears.Space.{next_hdr}
use lgears.Space.Layout.{Tiled}

-- From `h` to `e` the blocks at `xs` follow one another, each of a positive size, and `P` holds of
-- each.
abbrev pub Chain : (ℕ → Block → Type 0) → Memory → ℕ → List ℕ → ℕ → Type 0
Chain P m h [] e = h ≡ e
Chain P m h (x ∷ xs) e =
    (x ≡ h)
    × (b : Block) × (m (x + bhdr_size) ≡ some b)
    × (b.hdr.size % 8 ≡ 0)
    × (0 < b.hdr.size)
    × P x b
    × Chain P m (next_hdr x b.hdr) xs e

abbrev pub Any : ℕ → Block → Type 0
Any x b = Unit {0}

-- The list has the number.
abbrev pub In : ℕ → List ℕ → Type 0
In x [] = ⊥
In x (y ∷ ys) = (x ≡ y) ⊎ In x ys

pub In-append_left : (x : ℕ) (xs ys : List ℕ) → In x xs → In x (xs ++ ys)
In-append_left x [] ys i = elim i [ ]
In-append_left x (y ∷ xs) ys (inl e) = inl e
In-append_left x (y ∷ xs) ys (inr i) = inr (In-append_left x xs ys i)

pub In-append_right : (x : ℕ) (xs ys : List ℕ) → In x ys → In x (xs ++ ys)
In-append_right x [] ys i = i
In-append_right x (y ∷ xs) ys i = inr (In-append_right x xs ys i)

pub Chain-le :
    (P : ℕ → Block → Type 0) (m : Memory) (h : ℕ) (xs : List ℕ) (e : ℕ)
    → Chain P m h xs e
    → h + 8 * length xs ≤ e
Chain-le P m h [] e c = omega arith
Chain-le P m h (x ∷ xs) e (at, b, here, even, room, p, c) =
    omega (arith, Chain-le P m (next_hdr x b.hdr) xs e c)

pub Chain-append :
    (P : ℕ → Block → Type 0) (m : Memory) (h : ℕ) (xs : List ℕ) (k : ℕ) (ys : List ℕ) (e : ℕ)
    → Chain P m h xs k
    → Chain P m k ys e
    → Chain P m h (xs ++ ys) e
Chain-append P m h [] k ys e c d = rw c d
Chain-append P m h (x ∷ xs) k ys e (at, b, here, even, room, p, c) d =
    (at, b, here, even, room, p, Chain-append P m (next_hdr x b.hdr) xs k ys e c d)

-- The blocks may change, but not their headers.
pub Chain-map :
    (P Q : ℕ → Block → Type 0) (m m' : Memory) (h : ℕ) (xs : List ℕ) (e : ℕ)
    → Chain P m h xs e
    → ((x : ℕ) (b : Block)
        → h ≤ x
        → x + bhdr_size < e
        → In x xs
        → m (x + bhdr_size) ≡ some b
        → P x b
        → (b' : Block) × (m' (x + bhdr_size) ≡ some b') × (b'.hdr ≡ b.hdr) × Q x b')
    → Chain Q m' h xs e
Chain-map P Q m m' h [] e c f = c
Chain-map P Q m m' h (x ∷ xs) e (at, b, here, even, room, p, c) f =
    let inside = Chain-le P m (next_hdr x b.hdr) xs e c in
    let (b', there, same, q) = f x b (omega arith) (omega arith) (inl refl) here p in
    (
      at,
      b',
      there,
      rw same even,
      rw same room,
      q,
      rw same (
          Chain-map P Q m m' (next_hdr x b.hdr) xs e c
            (λ y c low high i. f y c (omega arith) high (inr i))),
    )

-- A block at the end of the list.
pub Chain-one :
    (P : ℕ → Block → Type 0) (m : Memory) (x : ℕ) (b : Block)
    → m (x + bhdr_size) ≡ some b
    → b.hdr.size % 8 ≡ 0
    → 0 < b.hdr.size
    → P x b
    → Chain P m x (x ∷ []) (next_hdr x b.hdr)
Chain-one P m x b here even room p = (refl, b, here, even, room, p, refl)

-- A chain is a tiling.
pub Chain-Tiled :
    (P : ℕ → Block → Type 0) (m : Memory) (h : ℕ) (xs : List ℕ) (e : ℕ)
    → Chain P m h xs e
    → Tiled m h (length xs) e
Chain-Tiled P m h [] e c = c
Chain-Tiled P m h (x ∷ xs) e (at, b, here, even, room, p, c) =
    (b, rw (← at) here, even, rw (← at) (Chain-Tiled P m (next_hdr x b.hdr) xs e c))

-- Two chains with the same ends are the same list.
pub Chain-unique :
    (P Q : ℕ → Block → Type 0) (m : Memory) (h : ℕ) (xs ys : List ℕ) (e : ℕ)
    → Chain P m h xs e
    → Chain Q m h ys e
    → xs ≡ ys
Chain-unique P Q m h [] [] e c d = refl
Chain-unique P Q m h [] (y ∷ ys) e c d = absurd (omega (arith, Chain-le Q m h (y ∷ ys) e d))
Chain-unique P Q m h (x ∷ xs) [] e c d = absurd (omega (arith, Chain-le P m h (x ∷ xs) e c))
Chain-unique P Q m h (x ∷ xs) (y ∷ ys) e (at, b, here, even, room, p, c)
      (at', b', here', even', room', q, d) =
    let same : x ≡ y = at ∙ sym at' in
    let one = ap (λ k. m (k + bhdr_size)) same in
    let eq : b ≡ b' = cc in
    let next : next_hdr y b'.hdr ≡ next_hdr x b.hdr = cc in
    let d' : Chain Q m (next_hdr x b.hdr) ys e = subst (λ k. Chain Q m k ys e) next d in
    let rest = Chain-unique P Q m (next_hdr x b.hdr) xs ys e c d' in cc

-- What holds of all blocks of a chain holds of each.
pub Chain-at :
    (P : ℕ → Block → Type 0) (m : Memory) (h : ℕ) (xs : List ℕ) (e : ℕ)
    → Chain P m h xs e
    → (x : ℕ) (b : Block) → In x xs
    → m (x + bhdr_size) ≡ some b
    → P x b
Chain-at P m h [] e c x b i here = elim i [ ]
Chain-at P m h (y ∷ ys) e (at, d, there, even, room, p, c) x b (inl i) here =
    let one = ap (λ k. m (k + bhdr_size)) i in
    let eq : d ≡ b = cc in subst (λ k. P k b) (sym i) (subst (P y) eq p)
Chain-at P m h (y ∷ ys) e (at, d, there, even, room, p, c) x b (inr i) here =
    Chain-at P m (next_hdr y d.hdr) ys e c x b i here
