-- ===== src/Tests/LibraryTests.antt =====
-- A library that is loaded, and entered again.
use lgears.Prelude.{
  ℕ, ◌+◌, ◌*◌, ◌≡◌, refl, arith, false, some, none, [], ◌∷◌, ◌==◌, if◌then◌else◌, get_or, replicate,
}
use lgears.Prelude.Run.{ok, fatal}
use lgears.Object.{ptr, get_tag}
use lgears.Memory.{Memory, Block, symbol, is_type}
use lgears.Types.{t_symbol}
use lgears.Hash.{hash_table_init, hash_table_lookup, hash_table_insert}
use lgears.Hash.Keys.{Lawful}
use lgears.Hash.Functions.{direct_keys-Lawful, direct_hash, direct_equal}
use lgears.Hash.Valid.{eq, IsValid, init-IsValid}
use lgears.Machine.{Thread}
use lgears.Machine.Stack.{pushed}
use lgears.Native.{rc_ok}
use lgears.Libraries.{Files, libraries, entering, load_library}
use lgears.Libraries.Again.{IsCall, load_library-again}
use lgears.Tests.ListTests.{thread}

-- The symbol `io`, in a memory of its own.
abbrev io : Block
io = record {
  hdr = record {
    type_id = t_symbol;
    forward = false;
    generation = 0;
    remembered = false;
    size = 24;
  };
  body = symbol (105 ∷ 111 ∷ 0 ∷ []);
}

abbrev names : Memory
names p = if p == 512 then some io else none

abbrev caller : Thread
caller = record thread { memory = names }

-- Every library's module is at 4096, and its functions behind.
abbrev files : Files
files = record {
  module_load = λ libname m. ok (4096, m);
  entry_point = λ module_at. 1;
  module_func = λ module_at n. module_at + 64 * n;
}

libraries-Lawful : Lawful libraries.hash (eq libraries)
unfolding hash_table_init
libraries-Lawful = direct_keys-Lawful

no_libraries-IsValid : IsValid libraries
no_libraries-IsValid =
    let v = (init-IsValid direct_hash (some direct_equal) direct_keys-Lawful).0 in
    record {
      lower = v.lower;
      upper = v.upper;
      counted = v.counted;
      settled = v.settled;
      placed = v.placed;
    }

io-IsCall : IsCall caller 513
unfolding is_type get_tag ptr
io-IsCall = record { symbol = refl; room = omega arith }

none_there : hash_table_lookup libraries (ptr 513) ≡ 0
unfolding hash_table_lookup ptr get_or hash_table_init replicate direct_hash
none_there = refl

-- When the library is entered again, its file is gone.
abbrev gone : Files
gone = record files { module_load = λ libname m. fatal }

load_library-again_example :
    let libs = (hash_table_insert libraries (ptr 513) 4096).0 in
    (load_library files caller libraries (16 ∷ 513 ∷ [])
      ≡ ok (rc_ok, entering files 4096 (pushed caller 16), libs))
    × (load_library gone caller libs (24 ∷ 513 ∷ [])
        ≡ ok (rc_ok, entering gone 4096 (pushed caller 24), libs))
    × ((q : ℕ)
        → hash_table_lookup libs q
          ≡ (if eq libraries (ptr 513) q then 4096 else hash_table_lookup libraries q))
load_library-again_example =
    load_library-again files gone caller caller libraries 16 24 513 4096 names libraries-Lawful
      no_libraries-IsValid io-IsCall io-IsCall none_there refl (omega arith)
