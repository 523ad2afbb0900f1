-- ===== src/Loader/Layout.antt =====
-- The layout of a function in a module file, described apart from the code that reads it, and that
-- vm/module.c reads what is laid out.
use mathlib.Core.List.{append_assoc}
use lgears.Prelude.{
  sym, ap, ◌-◌, length-append, ℕ, ◌+◌, ◌*◌, ◌/◌, ◌%◌, ◌^◌, ◌<◌, ◌≡◌, inl, inr, refl, arith, none,
  some, List, [], ◌∷◌, ◌++◌, ◌==◌, if◌then◌else◌, length, map, All, true, Bool-cases, leb,
}
use lgears.Prelude.Int.{signed16}
use lgears.Prelude.Run.{ok}
use lgears.Loader.Code.{Code, little_endian, split, split-append, code_read_bytes}
use lgears.Loader.Parse.{
  FuncHdr, Func, Bind, func_hdr, bindmap_loop, bindings_loop, read_bindings, read_function,
  read_functions,
}

-- Words as two bytes, the lower one first.
abbrev pub put16 : ℕ → List ℕ → List ℕ
put16 w rest = w % 2 ^ 8 ∷ w / 2 ^ 8 ∷ rest

abbrev pub put_words : List ℕ → List ℕ
put_words [] = []
put_words (w ∷ ws) = put16 w (put_words ws)

abbrev pub put_binds : List (ℕ × ℕ) → List ℕ
put_binds [] = []
put_binds (b ∷ bs) = put16 b.0 (put16 b.1 (put_binds bs))

abbrev pub put_hdr : FuncHdr → List ℕ
put_hdr h = put_words (
    h.env_size ∷ h.argc ∷ h.swallow ∷ h.op_count ∷ h.heap_env ∷ h.depth ∷ h.bcount ∷ h.bmcount ∷ [])

-- A function as the compiler lays it out.
pub record Image : Type 0 where
  pub hdr : FuncHdr
  pub binds : List (ℕ × ℕ)
  pub depths : List ℕ
  pub opcode : List ℕ

abbrev pub IsWord : ℕ → Type 0
IsWord w = w < 2 ^ 16

abbrev pub AreWords : ℕ × ℕ → Type 0
AreWords b = IsWord b.0 × IsWord b.1

pub record IsHdr (h : FuncHdr) : Type 0 where
  pub env_size : IsWord h.env_size
  pub argc : IsWord h.argc
  pub swallow : IsWord h.swallow
  pub op_count : IsWord h.op_count
  pub heap_env : IsWord h.heap_env
  pub depth : IsWord h.depth
  pub bcount : IsWord h.bcount
  pub bmcount : IsWord h.bmcount

pub record IsImage (f : Image) : Type 0 where
  pub hdr : IsHdr f.hdr
  pub binds : All AreWords f.binds
  pub bcount : f.hdr.bcount ≡ length f.binds
  pub depths : All IsWord f.depths
  pub bmcount : f.hdr.bmcount ≡ length f.depths
  pub op_count : length f.opcode ≡ f.hdr.op_count * 4

-- The two tables stand in the file only where there is a binding, as the reader takes them: the
-- compiler adds both together, so that a function without a binding has no bindmap either.
abbrev pub put_tables : Image → List ℕ
put_tables f = if f.hdr.bcount == 0 then [] else put_binds f.binds ++ put_words f.depths

abbrev pub put_function : Image → List ℕ
put_function f = put_hdr f.hdr ++ (put_tables f ++ f.opcode)

abbrev pub put_functions : List Image → List ℕ
put_functions [] = []
put_functions (f ∷ fs) = put_function f ++ put_functions fs

-- The function that the machine holds for an image.
abbrev pub bind_of : ℕ × ℕ → Bind
bind_of b = record { up = signed16 b.0; idx = signed16 b.1 }

abbrev pub func_of : Image → Func
func_of f = record {
  argc = f.hdr.argc;
  swallow = f.hdr.swallow % 2;
  env_size = signed16 f.hdr.env_size;
  op_count = f.hdr.op_count;
  heap_env = signed16 f.hdr.heap_env;
  depth = f.hdr.depth;
  bcount = f.hdr.bcount;
  bmcount = f.hdr.bmcount;
  opcode = f.opcode;
  bindings = if f.hdr.bcount == 0 then none else some (map bind_of f.binds);
  bindmap = if f.hdr.bcount == 0 then none else some f.depths;
}

abbrev pub at : List ℕ → ℕ → Code
at bytes size = record { code = bytes; code_size = size }

pub code_read_bytes-append :
    (xs ys : List ℕ) (n k : ℕ)
    → length xs ≡ n
    → code_read_bytes (at (xs ++ ys) (n + k)) n ≡ ok (xs, at ys k)
unfolding code_read_bytes
code_read_bytes-append xs ys n k h =
    let enough : leb n (n + k) ≡ true = ground arith in
    let cut : split n (xs ++ ys) ≡ ok (xs, ys) = rw (sym h) (split-append xs ys) in
    let left : n + k - n ≡ k = omega arith in rw (enough, cut, left)

word-put16 : (w : ℕ) → IsWord w → little_endian (put16 w []) ≡ w
word-put16 w h = omega arith

func_hdr-put_hdr : (h : FuncHdr) → IsHdr h → func_hdr (put_hdr h) ≡ ok h
unfolding func_hdr
func_hdr-put_hdr h v = rw (
  word-put16 h.env_size v.env_size,
  word-put16 h.argc v.argc,
  word-put16 h.swallow v.swallow,
  word-put16 h.op_count v.op_count,
  word-put16 h.heap_env v.heap_env,
  word-put16 h.depth v.depth,
  word-put16 h.bcount v.bcount,
  word-put16 h.bmcount v.bmcount,
)

bindmap_loop-put_words :
    (ws : List ℕ) → All IsWord ws → bindmap_loop (length ws) (put_words ws) ≡ ok ws
unfolding bindmap_loop
bindmap_loop-put_words [] v = refl
bindmap_loop-put_words (w ∷ ws) v = rw (bindmap_loop-put_words ws v.1, word-put16 w v.0)

bindings_loop-put_binds :
    (bs : List (ℕ × ℕ))
    → All AreWords bs
    → bindings_loop (length bs) (put_binds bs) ≡ ok (map bind_of bs)
unfolding bindings_loop
bindings_loop-put_binds [] v = refl
bindings_loop-put_binds (b ∷ bs) v =
    rw (bindings_loop-put_binds bs v.1, word-put16 b.0 v.0.0, word-put16 b.1 v.0.1)

length-put_words : (ws : List ℕ) → length (put_words ws) ≡ length ws * 2
length-put_words [] = refl
length-put_words (w ∷ ws) = omega (arith, length-put_words ws)

length-put_binds : (bs : List (ℕ × ℕ)) → length (put_binds bs) ≡ length bs * 4
length-put_binds [] = refl
length-put_binds (b ∷ bs) = omega (arith, length-put_binds bs)

-- The branch of the reader on the tables, and what it takes of them.
read_bindings-put_tables :
    (f : Image)
    → IsImage f
    → (rest : List ℕ) (k : ℕ)
    → read_bindings f.hdr (at (put_tables f ++ rest) (length (put_tables f) + k))
      ≡ ok ((func_of f).bindings, (func_of f).bindmap, at rest k)
unfolding read_bindings
read_bindings-put_tables f v rest k = elim (Bool-cases (f.hdr.bcount == 0)) [
  | inl none_there ↦ let nothing : 0 + k ≡ k = omega arith in rw (none_there, nothing)
  | inr some_there ↦
      let binds = put_binds f.binds in
      let words = put_words f.depths in
      let sum : length (binds ++ words) + k ≡ f.hdr.bcount * 4 + (f.hdr.bmcount * 2 + k) =
        let b = v.bcount in
        let m = v.bmcount in
        omega
          (arith, length-append binds words, length-put_binds f.binds, length-put_words f.depths) in
      let first =
        code_read_bytes-append binds (words ++ rest) (f.hdr.bcount * 4) (f.hdr.bmcount * 2 + k)
          (omega (arith, length-put_binds f.binds, v.bcount)) in
      let second =
        code_read_bytes-append words rest (f.hdr.bmcount * 2) k
          (omega (arith, length-put_words f.depths, v.bmcount)) in
      let depths : bindmap_loop f.hdr.bmcount words ≡ ok f.depths =
        rw v.bmcount (bindmap_loop-put_words f.depths v.depths) in
      let pairs : bindings_loop f.hdr.bcount binds ≡ ok (map bind_of f.binds) =
        rw v.bcount (bindings_loop-put_binds f.binds v.binds) in
      rw (some_there, append_assoc binds words rest, sum, first, second, depths, pairs)
]

hdr_size : (h : FuncHdr) → length (put_hdr h) ≡ 16
hdr_size h = refl

read_function-put_function :
    (f : Image)
    → IsImage f
    → (rest : List ℕ) (k : ℕ)
    → read_function (at (put_function f ++ rest) (length (put_function f) + k))
      ≡ ok (func_of f, at rest k)
unfolding read_function
read_function-put_function f v rest k =
    let tables = put_tables f in
    let ops = f.hdr.op_count * 4 in
    let bytes : put_function f ++ rest ≡ put_hdr f.hdr ++ (tables ++ (f.opcode ++ rest)) =
      ap (λ r. put_hdr f.hdr ++ r) (append_assoc tables f.opcode rest) in
    let sum : length (put_function f) + k ≡ 16 + (length tables + (ops + k)) =
      let o = v.op_count in omega (arith, length-append tables f.opcode) in
    let header =
      code_read_bytes-append (put_hdr f.hdr) (tables ++ (f.opcode ++ rest)) 16
        (length tables + (ops + k)) refl in
    let opcodes = code_read_bytes-append f.opcode rest ops k v.op_count in
    rw (
      bytes,
      sum,
      header,
      func_hdr-put_hdr f.hdr v.hdr,
      read_bindings-put_tables f v (f.opcode ++ rest) (ops + k),
      opcodes,
    )

-- The loop over the functions reads back every function that is laid out in the file, with its
-- instructions and its tables, whatever the number of functions, and stops behind the last one.
pub read_functions-put_functions :
    (fs : List Image)
    → All IsImage fs
    → (rest : List ℕ) (k : ℕ)
    → read_functions
        (length fs)
        (record { code = put_functions fs ++ rest; code_size = length (put_functions fs) + k })
      ≡ ok (map func_of fs, record { code = rest; code_size = k })
unfolding read_functions
read_functions-put_functions [] v rest k = let nothing : 0 + k ≡ k = omega arith in rw nothing
read_functions-put_functions (f ∷ fs) v rest k =
    let more = put_functions fs in
    let sum : length (put_function f ++ more) + k ≡ length (put_function f) + (length more + k) =
      omega (arith, length-append (put_function f) more) in
    rw (
      append_assoc (put_function f) more rest,
      sum,
      read_function-put_function f v.0 (more ++ rest) (length more + k),
      read_functions-put_functions fs v.1 rest k,
    )
