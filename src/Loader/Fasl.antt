-- ===== src/Loader/Fasl.antt =====
-- The reader of serialised constants, `fasl_read_datum` and `load_consts` of vm/module.c. It is
-- written over an allocator and an interface to the symbols and the built-in functions. A string is
-- given by the address and the bytes up to its NUL, which the reader does not keep to the bytes that
-- the constant has. `fuel` bounds the depth of the data and the length of a list; as much as
-- the bytes of the data is enough.
pub mod Datum
pub mod Reads
pub mod RoundTrip
use lgears.Prelude.{
  ℕ, zero, suc, ◌+◌, ◌-◌, false, not, Option, none, some, List, [], ◌∷◌, leb, ◌==◌, if◌then◌else◌,
}
use lgears.Prelude.Int.{pos}
use lgears.Prelude.Run.{Run, ok, fatal, undefined, ◌>>=◌, defined, assert}
use lgears.Object.{make_fixnum, make_char, make_const_ptr, cnull, cif}
use lgears.Memory.{struct}
use lgears.Loader.Code.{Code, code_read8, code_peek8, code_read16, code_read64, split}
use lgears.Allocator.{Allocator, local, fill_in}
use lgears.Lists.{cons}
use lgears.Vectors.{struct_new}
use lgears.Strings.{string_new, up_to_nul}
use lgears.Heap.Visit.{sizeof_struct}

-- `make_symbol` and `lookup_global`, by the bytes of a name; NULL is 0. `address` is that of the
-- bytes that a pointer into the mapped file leads to.
pub record Names (S : Type 0) : Type 0 where
  pub make_symbol : List ℕ → S → Run (ℕ × S)
  pub lookup_global : S → List ℕ → ℕ
  pub address : List ℕ → ℕ

-- `code_read_string`: the bytes from the string on, to the end of the file.
unfoldable pub code_read_string : Code → Run (List ℕ × Code)
code_read_string c = do
  (len, c) ← code_read8 c
  tt ← assert (leb len c.code_size)
  (bytes, rest) ← split len c.code
  ok (c.code, record { code = rest; code_size = c.code_size - len })

-- The tags of vm/opcodes.h, in the order of their numbers.
pub data ObjectType : Type 0 where
  ot_fixnum ot_character ot_string ot_symbol ot_static ot_pair_begin ot_pair_end : ObjectType
  ot_struct ot_boolean ot_null ot_unknown : ObjectType

unfoldable pub object_type : ℕ → ObjectType
object_type n =
    if n == 0
    then ot_fixnum
    else if n == 1
    then ot_character
    else if n == 2
    then ot_string
    else if n == 3
    then ot_symbol
    else if n == 4
    then ot_static
    else if n == 5
    then ot_pair_begin
    else if n == 6
    then ot_pair_end
    else if n == 7
    then ot_struct
    else if n == 8
    then ot_boolean
    else if n == 9
    then ot_null
    else ot_unknown

module _ {S : Type 0} (al : Allocator S) (names : Names S) where
  -- A read of one datum, as the loops below use it.
  abbrev pub Reader : Type 0
  Reader = Code → S → Run (ℕ × Code × S)

  unfoldable pub read_symbol : Code → S → Run (ℕ × Code × S)
  read_symbol c s = do
    (bytes, c) ← code_read_string c
    text ← up_to_nul bytes
    (o, s) ← names.make_symbol text s
    ok (o, c, s)

  unfoldable pub read_string : Code → S → Run (ℕ × Code × S)
  read_string c s = do
    (bytes, c) ← code_read_string c
    text ← up_to_nul bytes
    (o, s) ← string_new al (names.address bytes) text false s
    ok (o, c, s)

  unfoldable pub read_static : Code → S → Run (ℕ × Code × S)
  read_static c s = do
    (bytes, c) ← code_read_string c
    text ← up_to_nul bytes
    let res = names.lookup_global s text
    if res == 0 then fatal else ok (res, c, s)

  -- The loop of OT_PAIR_BEGIN. `res` is not set before the first datum; at the end of a list with
  -- none the answer is whatever the variable holds.
  unfoldable pub read_pairs : Reader → ℕ → Option ℕ → Code → S → Run (ℕ × Code × S)
  read_pairs read zero res c s = undefined
  read_pairs read (suc rounds) res c s = do
    type ← code_peek8 c
    if type == 6 then (do (end, c) ← code_read8 c; o ← defined res; ok (o, c, s)) else (do
      (new, c, s) ← read c s
      elim res [
        | none ↦ read_pairs read rounds (some new) c s
        | some o ↦ do (o, s) ← cons al (local new) (local o) s; read_pairs read rounds (some o) c s
      ])

  -- The fields of a structure.
  unfoldable pub read_fields : Reader → ℕ → Code → S → Run (List ℕ × Code × S)
  read_fields read zero c s = ok ([], c, s)
  read_fields read (suc n) c s = do
    (o, c, s) ← read c s
    (os, c, s) ← read_fields read n c s
    ok (o ∷ os, c, s)

  unfoldable pub read_struct : Reader → Code → S → Run (ℕ × Code × S)
  read_struct read c s = do
    (type_name, c, s) ← read_symbol c s
    (size, c) ← code_read8 c
    (p, s) ← struct_new al (local type_name) size [] s
    (fields, c, s) ← read_fields read size c s
    s ← fill_in al s p (struct type_name size (p + sizeof_struct) fields)
    ok (make_const_ptr p, c, s)

  -- The branches of `fasl_read_datum`, by the type that was read.
  unfoldable pub read_typed : Reader → ℕ → ObjectType → Code → S → Run (ℕ × Code × S)
  read_typed read rounds ot_fixnum c s = code_read64 c >>= λ r. ok (make_fixnum r.0, r.1, s)
  read_typed read rounds ot_character c s = code_read16 c >>= λ r. ok (make_char (pos r.0), r.1, s)
  read_typed read rounds ot_symbol c s = read_symbol c s
  read_typed read rounds ot_string c s = read_string c s
  read_typed read rounds ot_static c s = read_static c s
  read_typed read rounds ot_null c s = ok (cnull, c, s)
  read_typed read rounds ot_boolean c s = code_read8 c >>= λ r. ok (cif (not (r.0 == 0)), r.1, s)
  read_typed read rounds ot_pair_begin c s = read_pairs read rounds none c s
  read_typed read rounds ot_struct c s = read_struct read c s
  read_typed read rounds ot_pair_end c s = fatal
  read_typed read rounds ot_unknown c s = fatal

  unfoldable pub fasl_read_datum : ℕ → Code → S → Run (ℕ × Code × S)
  fasl_read_datum zero c s = undefined
  fasl_read_datum (suc fuel) c s = do
    (type, c) ← code_read8 c
    read_typed (fasl_read_datum fuel) fuel (object_type type) c s

  -- The loop of `load_consts`, and the count in front of it.
  unfoldable pub load_consts : ℕ → Code → S → Run (List ℕ × Code × S)
  load_consts fuel c s = do
    (ccount, c) ← code_read8 c
    read_fields (fasl_read_datum fuel) ccount c s
