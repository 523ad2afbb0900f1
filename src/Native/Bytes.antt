-- ===== src/Native/Bytes.antt =====
-- `bytevector-u8-set!` of vm/bytevector.c.
use lgears.Prelude.{
  arith, subst, ◌^◌, ℕ, ◌<◌, ◌≡◌, ◌⊎◌, inl, inr, refl, true, false, some, List, length, set,
  Bool-cases, ◌&&◌,
}
use lgears.Prelude.Int.{ℤ, pos, negsuc, pos_part, ltb_ℤ, InRange}
use lgears.Prelude.Run.{ok}
use lgears.Object.{make_fixnum, ptr, cvoid}
use lgears.Memory.{Block, bytevector}
use lgears.Machine.{Thread}
use lgears.Machine.Stack.{store-set}
use lgears.Native.{rc_error, return_obj, is_bytevector_ptr, assign, in_range, bytevector_8_set}
use lgears.Native.Struct.{in_range-bound, int_of-int, is_fixnum-make_fixnum}

-- The object is a byte vector of such bytes.
pub record HasBytes (t : Thread) (obj : ℕ) (b : Block) (array : ℕ) (bytes : List ℕ) : Type 0 where
  pub tested : is_bytevector_ptr t obj ≡ true
  pub block : t.memory (ptr obj) ≡ some b
  pub body : b.body ≡ bytevector array (length bytes) bytes

-- The position is one of the bytes, and the value is a byte other than zero.
pub record IsAccepted (z v : ℤ) (bytes : List ℕ) (k n : ℕ) : Type 0 where
  pub position : z ≡ pos k
  pub inside : k < length bytes
  pub value : v ≡ pos n
  pub some_bit : 0 < n
  pub byte : n < 256

rejected-position :
    (z v : ℤ) (bytes : List ℕ) (k n : ℕ)
    → in_range z (length bytes) ≡ false
    → ¬ IsAccepted z v bytes k n
rejected-position z v bytes k n outside a =
    let e : in_range (pos k) (length bytes) ≡ false =
      subst (λ y. in_range y (length bytes) ≡ false) a.position outside in
    let h = a.inside in ground arith

rejected-value :
    (z v : ℤ) (bytes : List ℕ) (k n : ℕ)
    → (ltb_ℤ (pos 0) v && ltb_ℤ v (pos 256)) ≡ false
    → ¬ IsAccepted z v bytes k n
rejected-value z v bytes k n no_byte a =
    let e : (ltb_ℤ (pos 0) (pos n) && ltb_ℤ (pos n) (pos 256)) ≡ false =
      subst (λ y. (ltb_ℤ (pos 0) y && ltb_ℤ y (pos 256)) ≡ false) a.value no_byte in
    let h = a.some_bit in let h' = a.byte in ground arith

accepted :
    (z v : ℤ) (bytes : List ℕ)
    → in_range z (length bytes) ≡ true
    → (ltb_ℤ (pos 0) v && ltb_ℤ v (pos 256)) ≡ true
    → IsAccepted z v bytes (pos_part z) (pos_part v)
accepted (pos k) (pos n) bytes inside byte = record {
  position = refl;
  inside = in_range-bound (pos k) (length bytes) inside;
  value = refl;
  some_bit = ground arith;
  byte = ground arith;
}
accepted (pos k) (negsuc n) bytes inside byte = ground arith
accepted (negsuc k) v bytes inside byte = ground arith

-- An assignment to a byte vector, where the position and the value are numbers that an `int` has
-- room for, either is refused with an error, and then the position is outside or the value is not
-- from 1 to 255; or the position is inside and the value is from 1 to 255, and the byte at the
-- position is replaced by the value.
pub bytevector_8_set_lem :
    (t : Thread) (obj : ℕ) (z v : ℤ) (b : Block) (array : ℕ) (bytes : List ℕ)
    → HasBytes t obj b array bytes
    → InRange (2 ^ 31) z
    → InRange (2 ^ 31) v
    → ((k n : ℕ) → ¬ IsAccepted z v bytes k n)
        × (bytevector_8_set t obj (make_fixnum z) (make_fixnum v) ≡ ok (rc_error, t))
      ⊎ (k : ℕ) × (n : ℕ) × IsAccepted z v bytes k n
        × (bytevector_8_set t obj (make_fixnum z) (make_fixnum v)
            ≡ return_obj (assign t obj b (bytevector array (length bytes) (set bytes k n))) cvoid)
unfolding bytevector_8_set
bytevector_8_set_lem t obj z v b array bytes h fits_z fits_v =
    let fix = is_fixnum-make_fixnum z in
    let at = int_of-int z fits_z in
    let val = int_of-int v fits_v in
    elim (Bool-cases (in_range z (length bytes))) [
      | inr outside ↦ inl (
        λ k n. rejected-position z v bytes k n outside,
        rw (h.tested, fix, h.block, h.body, at, outside),
      )
      | inl inside ↦ elim (Bool-cases (ltb_ℤ (pos 0) v && ltb_ℤ v (pos 256))) [
        | inr no_byte ↦ inl (
          λ k n. rejected-value z v bytes k n no_byte,
          rw (h.tested, fix, h.block, h.body, at, inside, val, no_byte),
        )
        | inl byte ↦
            let a = accepted z v bytes inside byte in
            let stored = store-set bytes (pos_part z) (pos_part v) a.inside in
            inr (
              pos_part z,
              pos_part v,
              a,
              rw (h.tested, fix, h.block, h.body, at, inside, val, byte, stored),
            )
      ]
    ]
