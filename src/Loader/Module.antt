-- ===== src/Loader/Module.antt =====
-- `module_parse` of vm/module.c as a whole, on the bytes of the mapped file: the header, the
-- constants and the functions behind them. The state that the allocator of constants works on comes
-- from `const_allocator_init`.
pub mod Fronts
pub mod RoundTrip
use lgears.Prelude.{ℕ, List, length}
use lgears.Prelude.Run.{Run, ok, ◌>>=◌}
use lgears.Allocator.{Allocator}
use lgears.Loader.Code.{Code}
use lgears.Loader.Parse.{Func, read_header, read_functions}
use lgears.Loader.Fasl.{Names, load_consts}

-- `module_t`, but for the file and the allocator of its constants.
pub record Module : Type 0 where
  pub functions : List Func
  pub fun_count : ℕ
  pub entry_point : ℕ
  pub consts : List ℕ

module _ {S : Type 0} (al : Allocator S) (names : Names S) where
  unfoldable pub module_parse : ℕ → List ℕ → S → Run (Module × S)
  module_parse fuel map s = do
    (mhdr, consts, code) ← read_header (record { code = map; code_size = length map })
    (objects, consts, s) ← load_consts al names fuel consts s
    (functions, code) ← read_functions mhdr.fun_count code
    ok (
      record {
        functions = functions;
        fun_count = mhdr.fun_count;
        entry_point = mhdr.entry_point;
        consts = objects;
      },
      s,
    )
