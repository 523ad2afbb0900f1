-- ===== src/Loader/Module/RoundTrip.antt =====
-- A whole module file is read back.
use mathlib.Core.List.{append-nil}
use lgears.Prelude.{
  ℕ, suc, ◌+◌, ◌%◌, ◌/◌, ◌^◌, ◌≤◌, ◌<◌, ◌≡◌, refl, sym, ◌∙◌, arith, List, [], ◌∷◌, ◌++◌, length,
  map, All, length-append,
}
use lgears.Prelude.Run.{ok, ◌>>=◌, bind_assoc, bind_cong}
use lgears.Allocator.{Allocator}
use lgears.Loader.Code.{code_read_bytes, little_endian}
use lgears.Loader.Layout.{
  at, Image, IsImage, put16, put_functions, func_of, code_read_bytes-append,
  read_functions-put_functions,
}
use lgears.Loader.Parse.{read_header, module_hdr, read_functions}
use lgears.Loader.Fasl.{Names, load_consts}
use lgears.Loader.Fasl.Datum.{Data, AreData, count, put_all, size_all, build_all}
use lgears.Loader.Fasl.RoundTrip.{load_consts-put_all}
use lgears.Loader.Module.{module_parse}
use lgears.Loader.Module.Fronts.{put_all-IsFront}

-- A file with so many functions: the header, the constants and the functions.
abbrev pub put_module_hdr : ℕ → ℕ → ℕ → List ℕ → List ℕ
put_module_hdr consts_size fun_count entry rest =
    put16 (consts_size % 2 ^ 16) (put16 (consts_size / 2 ^ 16) (put16 fun_count (put16 entry rest)))

abbrev pub put_module : Data → List Image → ℕ → List ℕ
put_module ds fs entry =
    put_module_hdr (suc (size_all ds)) (length fs) entry (count ds ∷ put_all ds (put_functions fs))

pub record IsModule (ds : Data) (fs : List Image) (entry : ℕ) : Type 0 where
  pub consts : AreData ds
  pub few : count ds < 2 ^ 8
  pub consts_size : suc (size_all ds) < 2 ^ 32
  pub functions : All IsImage fs
  pub fun_count : length fs < 2 ^ 16
  pub entry_point : entry < 2 ^ 16

module_hdr-put :
    (n f e : ℕ)
    → n < 2 ^ 32
    → f < 2 ^ 16
    → e < 2 ^ 16
    → module_hdr (put_module_hdr n f e [])
      ≡ ok (record { consts_size = n; fun_count = f; entry_point = e })
unfolding module_hdr
module_hdr-put n f e hn hf he =
    let size : little_endian (put16 (n % 2 ^ 16) (put16 (n / 2 ^ 16) [])) ≡ n = omega arith in
    let many : little_endian (put16 f []) ≡ f = omega arith in
    let entry : little_endian (put16 e []) ≡ e = omega arith in rw (size, many, entry)

read_header-put_module :
    (ds : Data) (fs : List Image) (entry : ℕ)
    → IsModule ds fs entry
    → let file = put_module ds fs entry in
      let tail = put_functions fs in
      read_header (at file (length file))
      ≡ ok (
        record { consts_size = suc (size_all ds); fun_count = length fs; entry_point = entry },
        at (count ds ∷ put_all ds tail) (suc (size_all ds)),
        at tail (length tail),
      )
unfolding read_header
read_header-put_module ds fs entry v =
    let tail = put_functions fs in
    let (front, e, l) = put_all-IsFront ds tail in
    let hdr = put_module_hdr (suc (size_all ds)) (length fs) entry [] in
    let body = count ds ∷ front in
    let whole : length (put_all ds tail) ≡ size_all ds + length tail =
      rw e (omega (arith, length-append front tail)) in
    let first : code_read_bytes
          (at (hdr ++ (count ds ∷ put_all ds tail)) (8 + suc (size_all ds + length tail))) 8
        ≡ ok (hdr, at (count ds ∷ put_all ds tail) (suc (size_all ds + length tail))) =
      code_read_bytes-append hdr (count ds ∷ put_all ds tail) 8 (suc (size_all ds + length tail))
        refl in
    let second : code_read_bytes (at (count ds ∷ put_all ds tail) (suc (size_all ds + length tail)))
          (suc (size_all ds))
        ≡ ok (body, at tail (length tail)) =
      let sum : suc (size_all ds + length tail) ≡ suc (size_all ds) + length tail = omega arith in
      rw (sum, e)
        (code_read_bytes-append body tail (suc (size_all ds)) (length tail) (omega arith)) in
    let size : length (put_module ds fs entry) ≡ 8 + suc (size_all ds + length tail) =
      omega arith in
    let hdr_read =
      module_hdr-put (suc (size_all ds)) (length fs) entry v.consts_size v.fun_count
        v.entry_point in
    rw (size, first, hdr_read, second)

-- The functions are the last of the file.
last_functions :
    (fs : List Image)
    → All IsImage fs
    → (bytes : List ℕ) (n : ℕ) → bytes ≡ put_functions fs ++ []
    → n ≡ length (put_functions fs) + 0
    → read_functions (length fs) (at bytes n) ≡ ok (map func_of fs, at [] 0)
last_functions fs v bytes n e h = rw (e, h) (read_functions-put_functions fs v [] 0)

module _ {S : Type 0} (al : Allocator S) (names : Names S) where
  -- A module file with fewer than 256 constants is read back as a whole, with fuel as much as its constants have bytes: its
  -- entry point, all of its functions, and as constants the objects that are built one after the
  -- other, whatever the allocator and the symbols answer.
  pub module_parse-put_module :
      (ds : Data) (fs : List Image) (entry fuel : ℕ) (s : S)
      → IsModule ds fs entry
      → size_all ds ≤ fuel
      → module_parse al names fuel (put_module ds fs entry) s ≡ (
          build_all al names ds (put_functions fs) s >>= λ r. ok (
            record {
              functions = map func_of fs;
              fun_count = length fs;
              entry_point = entry;
              consts = r.0;
            },
            r.1,
          ))
  unfolding module_parse
  module_parse-put_module ds fs entry fuel s v enough =
      let tail = put_functions fs in
      let header = read_header-put_module ds fs entry v in
      let objects = load_consts-put_all al names ds fuel tail 0 s v.consts v.few enough in
      let no_more : 1 + (size_all ds + 0) ≡ suc (size_all ds) = omega arith in
      let funcs =
        last_functions fs v.functions tail (length tail) (sym (append-nil tail)) (omega arith) in
      let constants : load_consts al names fuel
            (at (count ds ∷ put_all ds tail) (suc (size_all ds))) s
          ≡ (build_all al names ds tail s >>= λ r. ok (r.0, at tail 0, r.1)) =
        rw (sym no_more) objects in
      let built = build_all al names ds tail s in
      rw (header, constants) (bind_assoc built _ _ ∙ bind_cong built _ _ (λ r. rw funcs))
