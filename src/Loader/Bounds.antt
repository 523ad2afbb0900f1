-- ===== src/Loader/Bounds.antt =====
-- Reading the functions of a module file keeps within the file, whatever its bytes are.
use lgears.Prelude.{
  ℕ, zero, suc, ◌+◌, ◌*◌, ◌≤◌, ◌≡◌, ◌⊎◌, inl, inr, refl, arith, List, [], ◌∷◌, ◌==◌, length,
  Bool-cases,
}
use lgears.Prelude.Run.{Run, ok, fatal}
use lgears.Loader.Code.{Code, IsCode, code_read_bytes_lem}
use lgears.Loader.Parse.{
  ModuleHdr, module_hdr, read_header, FuncHdr, Func, Bind, word16, func_hdr, bindmap_loop,
  bindings_loop, read_bindings, read_function, read_functions,
}

word16-fits :
    (bytes : List ℕ)
    → 2 ≤ length bytes
    → (w : ℕ) × (rest : List ℕ) × (word16 bytes ≡ ok (w, rest)) × (length rest + 2 ≡ length bytes)
word16-fits [] h = absurd (omega arith)
word16-fits (a ∷ []) h = absurd (omega arith)
word16-fits (a ∷ b ∷ rest) h = (_, rest, refl, omega arith)

func_hdr-fits : (bytes : List ℕ) → length bytes ≡ 16 → (hdr : FuncHdr) × (func_hdr bytes ≡ ok hdr)
unfolding func_hdr
func_hdr-fits bytes h =
    let (w0, r0, e0, l0) = word16-fits bytes (omega arith) in
    let (w1, r1, e1, l1) = word16-fits r0 (omega arith) in
    let (w2, r2, e2, l2) = word16-fits r1 (omega arith) in
    let (w3, r3, e3, l3) = word16-fits r2 (omega arith) in
    let (w4, r4, e4, l4) = word16-fits r3 (omega arith) in
    let (w5, r5, e5, l5) = word16-fits r4 (omega arith) in
    let (w6, r6, e6, l6) = word16-fits r5 (omega arith) in
    let (w7, r7, e7, l7) = word16-fits r6 (omega arith) in
    rw (e0, e1, e2, e3, e4, e5, e6, e7) (_, refl)

bindmap_loop-fits :
    (n : ℕ) (cur : List ℕ) → n * 2 ≤ length cur → (ds : List ℕ) × (bindmap_loop n cur ≡ ok ds)
unfolding bindmap_loop
bindmap_loop-fits zero cur h = ([], refl)
bindmap_loop-fits (suc n) cur h =
    let (d, rest, e, left) = word16-fits cur (omega arith) in
    let (ds, e') = bindmap_loop-fits n rest (omega arith) in (d ∷ ds, rw (e, e') refl)

bindings_loop-fits :
    (n : ℕ) (cur : List ℕ) → n * 4 ≤ length cur → (bs : List Bind) × (bindings_loop n cur ≡ ok bs)
unfolding bindings_loop
bindings_loop-fits zero cur h = ([], refl)
bindings_loop-fits (suc n) cur h =
    let (up, rest, e, left) = word16-fits cur (omega arith) in
    let (idx, rest', e', left') = word16-fits rest (omega arith) in
    let (bs, e'') = bindings_loop-fits n rest' (omega arith) in rw (e, e', e'') (_, refl)

-- A run that ends the program, or answers with a code that is left valid.
abbrev Bounded {ℓ} : {A : Type ℓ} → (A → Code) → Run A → Type ℓ
Bounded {A = A} left r = (r ≡ fatal) ⊎ ((a : A) × (r ≡ ok a) × IsCode (left a))

read_bindings-Bounded :
    (hdr : FuncHdr) (c : Code) → IsCode c → Bounded (λ r. r.2) (read_bindings hdr c)
unfolding read_bindings
read_bindings-Bounded hdr c v = elim (Bool-cases (hdr.bcount == 0)) [
  | inl none_there ↦ inr (rw none_there (_, refl, v))
  | inr some_there ↦ elim (code_read_bytes_lem c (hdr.bcount * 4) v) [
    | inl (few, e) ↦ inl (rw (some_there, e))
    | inr (fits, binds, c', e, took) ↦ elim (code_read_bytes_lem c' (hdr.bmcount * 2) took.valid) [
      | inl (few, e') ↦ inl (rw (some_there, e, e'))
      | inr (fits', depths, c'', e', took') ↦
          let (ds, ed) = bindmap_loop-fits hdr.bmcount depths (omega (arith, took'.count)) in
          let (bs, eb) = bindings_loop-fits hdr.bcount binds (omega (arith, took.count)) in
          inr (rw (some_there, e, e', ed, eb) (_, refl, took'.valid))
    ]
  ]
]

read_function-Bounded : (c : Code) → IsCode c → Bounded (λ r. r.1) (read_function c)
unfolding read_function
read_function-Bounded c v = elim (code_read_bytes_lem c 16 v) [
  | inl (few, e) ↦ inl (rw e)
  | inr (fits, bytes, c', e, took) ↦
      let (hdr, eh) = func_hdr-fits bytes took.count in
      elim (read_bindings-Bounded hdr c' took.valid) [
        | inl eb ↦ inl (rw (e, eh, eb))
        | inr (b, eb, vb) ↦ elim (code_read_bytes_lem b.2 (hdr.op_count * 4) vb) [
          | inl (few, eo) ↦ inl (rw (e, eh, eb, eo))
          | inr (fits', ops, c'', eo, took') ↦ inr (rw (e, eh, eb, eo) (_, refl, took'.valid))
        ]
      ]
]

-- Whatever bytes a module file has behind its header, reading its functions either fails an
-- assertion, or gives as many functions as asked and stops within the file: no read is outside.
pub read_functions-bounds :
    (count : ℕ) (c : Code)
    → IsCode c
    → (read_functions count c ≡ fatal)
      ⊎ (fs : List Func) × (c' : Code) × (read_functions count c ≡ ok (fs, c'))
        × (length fs ≡ count)
        × IsCode c'
unfolding read_functions
read_functions-bounds zero c v = inr ([], c, refl, refl, v)
read_functions-bounds (suc count) c v = elim (read_function-Bounded c v) [
  | inl e ↦ inl (rw e)
  | inr (r, e, vr) ↦ elim (read_functions-bounds count r.1 vr) [
    | inl e' ↦ inl (rw (e, e'))
    | inr (fs, c', e', len, v') ↦ inr (r.0 ∷ fs, c', rw (e, e'), omega arith, v')
  ]
]

module_hdr-fits :
    (bytes : List ℕ) → length bytes ≡ 8 → (mhdr : ModuleHdr) × (module_hdr bytes ≡ ok mhdr)
unfolding module_hdr
module_hdr-fits [] h = absurd (omega arith)
module_hdr-fits (a ∷ []) h = absurd (omega arith)
module_hdr-fits (a ∷ b ∷ []) h = absurd (omega arith)
module_hdr-fits (a ∷ b ∷ c ∷ []) h = absurd (omega arith)
module_hdr-fits (a ∷ b ∷ c ∷ d ∷ bytes) h =
    let (count, r, e, l) = word16-fits bytes (omega arith) in
    let (entry, r', e', l') = word16-fits r (omega arith) in rw (e, e') (_, refl)

-- Reading the header of any file fails an assertion, or gives the constants and the functions as
-- two codes that both keep within the file.
pub read_header-bounds :
    (c : Code)
    → IsCode c
    → (read_header c ≡ fatal)
      ⊎ (mhdr : ModuleHdr) × (consts : Code) × (rest : Code) × (read_header c
          ≡ ok (mhdr, consts, rest))
        × (consts.code_size ≡ mhdr.consts_size)
        × IsCode consts
        × IsCode rest
unfolding read_header
read_header-bounds c v = elim (code_read_bytes_lem c 8 v) [
  | inl (few, e) ↦ inl (rw e)
  | inr (fits, bytes, c', e, took) ↦
      let (mhdr, eh) = module_hdr-fits bytes took.count in
      let inside = took.valid in
      elim (code_read_bytes_lem c' mhdr.consts_size took.valid) [
        | inl (few, e') ↦ inl (rw (e, eh, e'))
        | inr (fits', bytes', rest, e', took') ↦ inr (
          mhdr,
          record { code = c'.code; code_size = mhdr.consts_size },
          rest,
          rw (e, eh, e'),
          refl,
          omega arith,
          took'.valid,
        )
      ]
]
