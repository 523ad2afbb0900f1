-- ===== src/Loader/Fasl/RoundTrip.antt =====
-- The reader of vm/module.c makes of a serialised constant the object that it stands for.
use lgears.Prelude.{
  ℕ, zero, suc, ◌+◌, ◌-◌, ◌^◌, ◌≤◌, ◌<◌, ◌≡◌, refl, ◌∙◌, arith, Bool, true, false, not, some, List,
  [], ◌∷◌, ◌++◌, length, ◌==◌, if◌then◌else◌,
}
use lgears.Prelude.Run.{Run, ok, fatal, ◌>>=◌, bind_into, bind_through}
use lgears.Allocator.{Allocator, local, fill_in}
use lgears.Vectors.{struct_new}
use lgears.Heap.Visit.{sizeof_struct}
use lgears.Memory.{struct}
use lgears.Lists.{cons}
use lgears.Loader.Code.{Code, code_read16, code_read64}
use lgears.Loader.Layout.{at}
use lgears.Loader.Fasl.{
  Names, object_type, read_symbol, read_string, read_static, read_pairs, read_fields, read_struct,
  read_typed, fasl_read_datum, load_consts,
}
use lgears.Loader.Fasl.Datum.{
  Datum, datum_fixnum, datum_char, datum_symbol, datum_string, datum_static, datum_boolean,
  datum_null, datum_pairs, datum_struct, Data, no_data, more, count, IsDatum, AreData, put_word,
  put_name, put, put_all, size, size_all, build, build_pairs, build_all,
}
use lgears.Loader.Fasl.Reads.{
  take_bytes, take8, peek, word16, word64, take_name, text_name, size-positive, peek-put,
}

truth : (b : Bool) → not ((if b then 1 else 0) == 0) ≡ b
truth true = refl
truth false = refl

bit : (b : Bool) → (if b then 1 else 0) < 2 ^ 8
bit true = omega arith
bit false = omega arith

module _ {S : Type 0} (al : Allocator S) (names : Names S) where
  abbrev read : ℕ → Code → S → Run (ℕ × Code × S)
  read fuel = fasl_read_datum al names fuel

  -- The tag is read, and the branch of the tag is left.
  branch :
      (tag : ℕ) (rest : List ℕ) (fuel n k : ℕ) (s : S)
      → tag < 2 ^ 8
      → 0 < fuel
      → n ≡ 1 + k
      → read fuel (at (tag ∷ rest) n) s
        ≡ read_typed al names (read (fuel - 1)) (fuel - 1) (object_type tag) (at rest k) s
  unfolding fasl_read_datum
  branch tag rest zero n k s byte h e = absurd (omega arith)
  branch tag rest (suc fuel) n k s byte h e =
      let less : suc fuel - 1 ≡ fuel = omega arith in rw (take8 tag rest n k byte e, less)

  -- An object with the code behind it, as the reader answers.
  abbrev pub answer : Run (ℕ × S) → List ℕ → ℕ → Run (ℕ × Code × S)
  answer m rest k = m >>= λ r. ok (r.0, at rest k, r.1)

  looked_up :
      (b : Bool) (o : ℕ) (s : S) (rest : List ℕ) (k : ℕ)
      → (if b then fatal else ok (o, at rest k, s)) ≡ answer (if b then fatal else ok (o, s)) rest k
  looked_up true o s rest k = refl
  looked_up false o s rest k = refl

  mutual
    unfolding object_type read_typed build code_read64 code_read16 read_symbol read_string
        read_static read_struct read_pairs read_fields

    fasl-put :
        (d : Datum) (fuel : ℕ) (rest : List ℕ) (n k : ℕ) (s : S)
        → IsDatum d
        → size d ≤ fuel
        → n ≡ size d + k
        → read fuel (at (put d rest) n) s ≡ answer (build al names d rest s) rest k
    fasl-put (datum_fixnum w) fuel rest n k s v h e =
        branch 0 (put_word 8 w ++ rest) fuel n (8 + k) s (omega arith) (omega arith) (omega arith)
        ∙ rw (take_bytes (put_word 8 w) rest 8 (8 + k) k refl refl, word64 w v)
    fasl-put (datum_char w) fuel rest n k s v h e =
        branch 1 (put_word 2 w ++ rest) fuel n (2 + k) s (omega arith) (omega arith) (omega arith)
        ∙ rw (take_bytes (put_word 2 w) rest 2 (2 + k) k refl refl, word16 w v)
    fasl-put (datum_symbol t) fuel rest n k s v h e =
        branch 3 (put_name t rest) fuel n (length t + 2 + k) s (omega arith) (omega arith)
          (omega arith)
        ∙ rw (take_name t rest (length t + 2 + k) k v.2 refl, text_name t rest v.0)
    fasl-put (datum_string t) fuel rest n k s v h e =
        branch 2 (put_name t rest) fuel n (length t + 2 + k) s (omega arith) (omega arith)
          (omega arith)
        ∙ rw (take_name t rest (length t + 2 + k) k v.2 refl, text_name t rest v.0)
    fasl-put (datum_static t) fuel rest n k s v h e =
        branch 4 (put_name t rest) fuel n (length t + 2 + k) s (omega arith) (omega arith)
          (omega arith)
        ∙ rw (take_name t rest (length t + 2 + k) k v.2 refl, text_name t rest v.0)
            (looked_up (names.lookup_global s t == 0) (names.lookup_global s t) s rest k)
    fasl-put (datum_boolean b) fuel rest n k s v h e =
        branch 8 ((if b then 1 else 0) ∷ rest) fuel n (1 + k) s (omega arith) (omega arith)
          (omega arith)
        ∙ rw (take8 (if b then 1 else 0) rest (1 + k) k (bit b) refl, truth b)
    fasl-put datum_null fuel rest n k s v h e =
        branch 9 rest fuel n k s (omega arith) (omega arith) (omega arith)
    fasl-put (datum_pairs d ds) fuel rest n k s v h e =
        let less = suc (fuel - 2) in
        let two : fuel - 1 ≡ less = omega (arith, size-positive d) in
        let left = size_all ds + (1 + k) in
        let behind = put_all ds (6 ∷ rest) in
        let (tag, peeked, other) =
          peek-put d behind (size d + left) (size d + left - 1) (omega (arith, size-positive d)) in
        let first = fasl-put d less behind (size d + left) left s v.0 (omega arith) refl in
        branch 5 (put d (put_all ds (6 ∷ rest))) fuel n (size d + (size_all ds + (1 + k))) s
          (omega arith) (omega arith) (omega arith)
        ∙ rw (two, peeked, other, first)
            (bind_through (build al names d behind s) _ _ _ _ (λ a.
              pairs-put ds less (fuel - 2) rest left k a.0 a.1 v.1 (omega arith)
                (omega (arith, size-positive d)) refl))
    fasl-put (datum_struct t ds) fuel rest n k s v h e =
        branch 7 (put_name t (count ds ∷ put_all ds rest)) fuel n
          (length t + 2 + (1 + (size_all ds + k))) s (omega arith) (omega arith) (omega arith)
        ∙ rw
            (
              take_name t (count ds ∷ put_all ds rest) (length t + 2 + (1 + (size_all ds + k)))
                  (1 + (size_all ds + k)) v.0.2 refl,
              text_name t (count ds ∷ put_all ds rest) v.0.0,
            )
            (bind_through (names.make_symbol t s) _ _ _ _ (λ a.
              rw
                (take8 (count ds) (put_all ds rest) (1 + (size_all ds + k)) (size_all ds + k) v.1
                  refl)
                (bind_into (struct_new al (local a.0) (count ds) [] a.1) _ _ _ (λ p.
                  rw (fields-put ds (fuel - 1) rest (size_all ds + k) k p.1 v.2 (omega arith) refl)
                    (bind_through (build_all al names ds rest p.1) _ _ _ _ (λ os.
                      bind_into
                        (fill_in al os.1 p.0 (struct a.0 (count ds) (p.0 + sizeof_struct) os.0)) _ _
                        _ (λ s. refl)))))))

    pairs-put :
        (ds : Data) (fuel rounds : ℕ) (rest : List ℕ) (n k o : ℕ) (s : S)
        → AreData ds
        → size_all ds ≤ fuel
        → size_all ds < rounds
        → n ≡ size_all ds + (1 + k)
        → read_pairs al names (read fuel) rounds (some o) (at (put_all ds (6 ∷ rest)) n) s
          ≡ answer (build_pairs al names ds (6 ∷ rest) o s) rest k
    pairs-put no_data fuel zero rest n k o s v h r e = absurd (omega arith)
    pairs-put no_data fuel (suc rounds) rest n k o s v h r e =
        let one : n ≡ 1 + k = omega (arith, e) in
        rw (peek 6 rest n k (omega arith) one, take8 6 rest n k (omega arith) one)
    pairs-put (more d ds) fuel zero rest n k o s v h r e = absurd (omega arith)
    pairs-put (more d ds) fuel (suc rounds) rest n k o s v h r e =
        let (tag, peeked, other) =
          peek-put d (put_all ds (6 ∷ rest)) n (n - 1) (omega (arith, size-positive d)) in
        let first =
          fasl-put d fuel (put_all ds (6 ∷ rest)) n (size_all ds + (1 + k)) s v.0 (omega arith)
            (omega arith) in
        rw (peeked, other, first)
          (bind_through (build al names d (put_all ds (6 ∷ rest)) s) _ _ _ _ (λ a.
            bind_into (cons al (local a.0) (local o) a.1) _ _ _ (λ b.
              pairs-put ds fuel rounds rest (size_all ds + (1 + k)) k b.0 b.1 v.1 (omega arith)
                (omega (arith, size-positive d)) refl)))

    fields-put :
        (ds : Data) (fuel : ℕ) (rest : List ℕ) (n k : ℕ) (s : S)
        → AreData ds
        → size_all ds ≤ fuel
        → n ≡ size_all ds + k
        → read_fields al names (read fuel) (count ds) (at (put_all ds rest) n) s
          ≡ (build_all al names ds rest s >>= λ r. ok (r.0, at rest k, r.1))
    fields-put no_data fuel rest n k s v h e =
        let none_left : n ≡ k = omega (arith, e) in rw none_left
    fields-put (more d ds) fuel rest n k s v h e =
        let first =
          fasl-put d fuel (put_all ds rest) n (size_all ds + k) s v.0 (omega arith) (omega arith) in
        rw first (
          bind_through (build al names d (put_all ds rest) s) _ _ _ _ (λ a.
            rw (fields-put ds fuel rest (size_all ds + k) k a.1 v.1 (omega arith) refl)
              (bind_through (build_all al names ds rest a.1) _ _ _ _ (λ b. refl))))

  -- A table of fewer than 256 constants that is laid out in a file, with its count in front, is
  -- read back: the
  -- reader does what building its objects one after the other does, whatever the allocator and the
  -- symbols answer, and stops behind the last constant. Fuel as much as the table has bytes is
  -- enough.
  pub load_consts-put_all :
      (ds : Data) (fuel : ℕ) (rest : List ℕ) (k : ℕ) (s : S)
      → AreData ds
      → count ds < 2 ^ 8
      → size_all ds ≤ fuel
      → load_consts al names fuel
          (record { code = count ds ∷ put_all ds rest; code_size = 1 + (size_all ds + k) })
          s
        ≡ (build_all al names ds rest s >>= λ r.
            ok (r.0, record { code = rest; code_size = k }, r.1))
  unfolding load_consts
  load_consts-put_all ds fuel rest k s v few h =
      let first =
        take8 (count ds) (put_all ds rest) (1 + (size_all ds + k)) (size_all ds + k) few refl in
      rw first (fields-put ds fuel rest (size_all ds + k) k s v h refl)
