-- ===== src/Tests/FaslTests.antt =====
-- A table of constants.
use lgears.Prelude.{◌+◌, ◌*◌, ◌≡◌, arith, [], ◌∷◌, true, length, none}
use lgears.Prelude.Run.{ok, ◌>>=◌}
use lgears.Machine.{Thread, on_stack}
use lgears.Allocator.{heap_allocator}
use lgears.Loader.Fasl.{Names, load_consts}
use lgears.Loader.Fasl.Datum.{
  datum_fixnum, datum_char, datum_string, datum_boolean, datum_null, datum_pairs, datum_struct,
  Data, no_data, more, AreData, put_all, build_all,
}
use lgears.Loader.Fasl.RoundTrip.{load_consts-put_all}
use lgears.Tests.Data.{idle}

abbrev pub names : Names Thread
names = record {
  make_symbol = λ s t. ok (8 * length s + 2, t);
  lookup_global = λ t s. 0;
  address = λ bytes. 65536 + length bytes;
}

abbrev pub thread : Thread
thread = record {
  heap = idle;
  memory = λ p. none;
  opstack = [];
  op_stack_idx = 0;
  objects = on_stack 0;
  env = 0;
  bindmap = none;
  func = 0;
  closure = 0;
  heap_env = true;
  lib_cache = 5;
  exception_handlers = 5;
  local_roots = [];
  tramp = record { func = 0; argc = 0 };
}

-- The list of a number in front of a character, and a structure of a boolean and a string.
abbrev pub constants : Data
constants = more (datum_pairs datum_null (more (datum_char 97) (more (datum_fixnum 300) no_data))) (
    more
      (datum_struct (112 ∷ [])
        (more (datum_boolean true) (more (datum_string (104 ∷ 105 ∷ [])) no_data)))
      no_data)

pub constants-AreData : AreData constants
constants-AreData = (
  (tt, (omega arith, (omega arith, tt))),
  (
    (
      ((omega arith, tt), (omega arith, tt), omega arith),
      omega arith,
      (tt, (((omega arith, (omega arith, tt)), (omega arith, (omega arith, tt)), omega arith), tt)),
    ),
    tt,
  ),
)

load_consts-put_all_example :
    load_consts
      (heap_allocator 0 2)
      names
      40
      (record { code = 2 ∷ put_all constants (1 ∷ 2 ∷ []); code_size = 30 })
      thread
    ≡ (build_all (heap_allocator 0 2) names constants (1 ∷ 2 ∷ []) thread >>= λ r.
        ok (r.0, record { code = 1 ∷ 2 ∷ []; code_size = 2 }, r.1))
load_consts-put_all_example =
    load_consts-put_all (heap_allocator 0 2) names constants 40 (1 ∷ 2 ∷ []) 2 thread
      constants-AreData (omega arith) (omega arith)
