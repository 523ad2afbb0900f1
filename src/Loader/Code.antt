-- ===== src/Loader/Code.antt =====
-- `code_t` of vm/module.c and the functions that read from it. The pointer is the list of the bytes
-- from where it points to the end of the object that it points into; a read behind that end is
-- undefined. Words are little-endian.
use lgears.Prelude.{
  ℕ, zero, suc, ◌+◌, ◌-◌, ◌*◌, ◌%◌, ◌^◌, ◌≤◌, ◌<◌, ◌≡◌, refl, arith, ◌⊎◌, inl, inr, Bool-cases,
  List, [], ◌∷◌, ◌++◌, length, leb,
}
use lgears.Prelude.Int.{ℤ, signed64}
use lgears.Prelude.Run.{Run, ok, fatal, undefined, ◌>>=◌, assert}

pub record Code : Type 0 where
  pub code : List ℕ
  pub code_size : ℕ

-- The first bytes of an object and those behind them.
abbrev pub split : ℕ → List ℕ → Run (List ℕ × List ℕ)
split zero bytes = ok ([], bytes)
split (suc n) [] = undefined
split (suc n) (b ∷ bytes) = split n bytes >>= λ r. ok (b ∷ r.0, r.1)

-- The number that bytes stand for: of what the list has only the lowest eight bits are a byte.
abbrev pub little_endian : List ℕ → ℕ
little_endian [] = 0
little_endian (b ∷ bytes) = b % 2 ^ 8 + 2 ^ 8 * little_endian bytes

-- `code_read_bytes`
unfoldable pub code_read_bytes : Code → ℕ → Run (List ℕ × Code)
code_read_bytes c size = do
  tt ← assert (leb size c.code_size)
  (res, rest) ← split size c.code
  ok (res, record { code = rest; code_size = c.code_size - size })

unfoldable pub code_read8 : Code → Run (ℕ × Code)
unfolding code_read_bytes
code_read8 c = do (bytes, c) ← code_read_bytes c 1; ok (little_endian bytes, c)

unfoldable pub code_peek8 : Code → Run ℕ
code_peek8 c = do
  tt ← assert (leb 1 c.code_size)
  (bytes, rest) ← split 1 c.code
  ok (little_endian bytes)

unfoldable pub code_read16 : Code → Run (ℕ × Code)
unfolding code_read_bytes
code_read16 c = do (bytes, c) ← code_read_bytes c 2; ok (little_endian bytes, c)

unfoldable pub code_read64 : Code → Run (ℤ × Code)
unfolding code_read_bytes
code_read64 c = do (bytes, c) ← code_read_bytes c 8; ok (signed64 (little_endian bytes), c)

-- The number of bytes that are left to read are there.
abbrev pub IsCode : Code → Type 0
IsCode c = c.code_size ≤ length c.code

split-fits :
    (n : ℕ) (bytes : List ℕ)
    → n ≤ length bytes
    → (res : List ℕ) × (rest : List ℕ) × (split n bytes ≡ ok (res, rest))
      × (bytes ≡ res ++ rest)
      × (length res ≡ n)
      × (length rest + n ≡ length bytes)
split-fits zero bytes h = ([], bytes, refl, refl, refl, omega arith)
split-fits (suc n) [] h = absurd (omega arith)
split-fits (suc n) (b ∷ bytes) h =
    let (res, rest, e, sum, len, left) = split-fits n bytes (omega arith) in
    (b ∷ res, rest, rw e refl, rw sum refl, omega arith, omega arith)

pub split-append : (xs ys : List ℕ) → split (length xs) (xs ++ ys) ≡ ok (xs, ys)
split-append [] ys = refl
split-append (x ∷ xs) ys = rw (split-append xs ys)

-- What a read of `size` bytes that succeeds has done.
pub record Took (c : Code) (size : ℕ) (res : List ℕ) (c' : Code) : Type 0 where
  pub bytes : c.code ≡ res ++ c'.code
  pub count : length res ≡ size
  pub left : c'.code_size + size ≡ c.code_size
  pub valid : IsCode c'

-- A read ends the program where the bytes left are too few, and takes exactly the asked number
-- of bytes otherwise: it never reads behind the end of the mapped file.
pub code_read_bytes_lem :
    (c : Code) (size : ℕ)
    → IsCode c
    → (c.code_size < size) × (code_read_bytes c size ≡ fatal)
      ⊎ (size ≤ c.code_size)
        × (res : List ℕ) × (c' : Code) × (code_read_bytes c size ≡ ok (res, c'))
        × Took c size res c'
unfolding code_read_bytes
code_read_bytes_lem c size v = elim (Bool-cases (leb size c.code_size)) [
  | inr few ↦ inl (ground arith, rw few)
  | inl fits ↦
      let enough : size ≤ c.code_size = ground arith in
      let (res, rest, e, sum, len, left) = split-fits size c.code (omega arith) in
      inr (
        enough,
        res,
        record { code = rest; code_size = c.code_size - size },
        rw (fits, e),
        record { bytes = sum; count = len; left = omega arith; valid = omega arith },
      )
]
