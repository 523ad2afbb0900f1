-- ===== src/Loader/Fasl/Datum.antt =====
-- Serialised constants, described apart from vm/module.c: their layout in a file of the compiler,
-- and the objects that they stand for.
use lgears.Prelude.{
  All, ℕ, zero, suc, ◌+◌, ◌/◌, ◌%◌, ◌^◌, ◌<◌, Bool, false, List, [], ◌∷◌, ◌++◌, length, ◌==◌,
  if◌then◌else◌,
}
use lgears.Prelude.Int.{pos, signed64}
use lgears.Prelude.Run.{Run, ok, fatal, ◌>>=◌}
use lgears.Object.{make_fixnum, make_char, make_const_ptr, cnull, cif}
use lgears.Memory.{struct}
use lgears.Heap.Visit.{sizeof_struct}
use lgears.Allocator.{Allocator, local, fill_in}
use lgears.Lists.{cons}
use lgears.Vectors.{struct_new}
use lgears.Strings.{string_new}
use lgears.Loader.Debug.{IsString}
use lgears.Loader.Fasl.{Names}

mutual
  -- Numbers and characters are given by their words. A list is its last word, and then the words
  -- that are put in front of it one after the other.
  pub data Datum : Type 0 where
    datum_fixnum : ℕ → Datum
    datum_char : ℕ → Datum
    datum_symbol : List ℕ → Datum
    datum_string : List ℕ → Datum
    datum_static : List ℕ → Datum
    datum_boolean : Bool → Datum
    datum_null : Datum
    datum_pairs : Datum → Data → Datum
    datum_struct : List ℕ → Data → Datum

  pub data Data : Type 0 where
    no_data : Data
    more : Datum → Data → Data

abbrev pub count : Data → ℕ
count no_data = 0
count (more d ds) = suc (count ds)

-- What fits into the layout.
abbrev pub IsName : List ℕ → Type 0
IsName s = IsString s × All (λ c. c < 2 ^ 8) s × (length s + 1 < 2 ^ 8)

abbrev mutual
  pub IsDatum : Datum → Type 0
  IsDatum (datum_fixnum w) = w < 2 ^ 64
  IsDatum (datum_char w) = w < 2 ^ 16
  IsDatum (datum_symbol s) = IsName s
  IsDatum (datum_string s) = IsName s
  IsDatum (datum_static s) = IsName s
  IsDatum (datum_boolean b) = Unit {0}
  IsDatum datum_null = Unit {0}
  IsDatum (datum_pairs d ds) = IsDatum d × AreData ds
  IsDatum (datum_struct s ds) = IsName s × (count ds < 2 ^ 8) × AreData ds

  pub AreData : Data → Type 0
  AreData no_data = Unit {0}
  AreData (more d ds) = IsDatum d × AreData ds

-- A word as so many bytes, the lowest first, and a string with its length and its NUL, in front of
-- what follows.
abbrev pub put_word : ℕ → ℕ → List ℕ
put_word zero w = []
put_word (suc n) w = w % 2 ^ 8 ∷ put_word n (w / 2 ^ 8)

abbrev pub put_name : List ℕ → List ℕ → List ℕ
put_name s rest = (length s + 1) ∷ (s ++ 0 ∷ rest)

abbrev mutual
  pub put : Datum → List ℕ → List ℕ
  put (datum_fixnum w) rest = 0 ∷ (put_word 8 w ++ rest)
  put (datum_char w) rest = 1 ∷ (put_word 2 w ++ rest)
  put (datum_string s) rest = 2 ∷ put_name s rest
  put (datum_symbol s) rest = 3 ∷ put_name s rest
  put (datum_static s) rest = 4 ∷ put_name s rest
  put (datum_pairs d ds) rest = 5 ∷ put d (put_all ds (6 ∷ rest))
  put (datum_struct s ds) rest = 7 ∷ put_name s (count ds ∷ put_all ds rest)
  put (datum_boolean b) rest = 8 ∷ (if b then 1 else 0) ∷ rest
  put datum_null rest = 9 ∷ rest

  pub put_all : Data → List ℕ → List ℕ
  put_all no_data rest = rest
  put_all (more d ds) rest = put d (put_all ds rest)

-- The number of bytes.
abbrev mutual
  pub size : Datum → ℕ
  size (datum_fixnum w) = 9
  size (datum_char w) = 3
  size (datum_string s) = length s + 3
  size (datum_symbol s) = length s + 3
  size (datum_static s) = length s + 3
  size (datum_pairs d ds) = size d + size_all ds + 2
  size (datum_struct s ds) = length s + size_all ds + 4
  size (datum_boolean b) = 2
  size datum_null = 1

  pub size_all : Data → ℕ
  size_all no_data = 0
  size_all (more d ds) = size d + size_all ds

-- The object that a datum stands for, in the order of its parts. The bytes that follow matter to
-- a string, which points into the file.
module _ {S : Type 0} (al : Allocator S) (names : Names S) where
  unfoldable mutual
    pub build : Datum → List ℕ → S → Run (ℕ × S)
    build (datum_fixnum w) rest s = ok (make_fixnum (signed64 w), s)
    build (datum_char w) rest s = ok (make_char (pos w), s)
    build (datum_symbol t) rest s = names.make_symbol t s
    build (datum_string t) rest s = string_new al (names.address (t ++ 0 ∷ rest)) t false s
    build (datum_static t) rest s =
        if names.lookup_global s t == 0 then fatal else ok (names.lookup_global s t, s)
    build (datum_boolean b) rest s = ok (cif b, s)
    build datum_null rest s = ok (cnull, s)
    build (datum_pairs d ds) rest s = do
      (o, s) ← build d (put_all ds (6 ∷ rest)) s
      build_pairs ds (6 ∷ rest) o s
    build (datum_struct t ds) rest s = do
      (type_name, s) ← names.make_symbol t s
      (p, s) ← struct_new al (local type_name) (count ds) [] s
      (fields, s) ← build_all ds rest s
      s ← fill_in al s p (struct type_name (count ds) (p + sizeof_struct) fields)
      ok (make_const_ptr p, s)

    pub build_pairs : Data → List ℕ → ℕ → S → Run (ℕ × S)
    build_pairs no_data rest o s = ok (o, s)
    build_pairs (more d ds) rest o s = do
      (new, s) ← build d (put_all ds rest) s
      (o, s) ← cons al (local new) (local o) s
      build_pairs ds rest o s

    pub build_all : Data → List ℕ → S → Run (List ℕ × S)
    build_all no_data rest s = ok ([], s)
    build_all (more d ds) rest s = do
      (o, s) ← build d (put_all ds rest) s
      (os, s) ← build_all ds rest s
      ok (o ∷ os, s)
