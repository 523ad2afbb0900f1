-- ===== src/Libraries.antt =====
-- The loaded libraries: `libraries` of vm/vm.c, and `load-library`, which enters a library's module
-- and loads it the first time.
pub mod Again
use lgears.Prelude.{ℕ, List, true, some, ◌==◌, if◌then◌else◌, get_elem?}
use lgears.Prelude.Run.{Run, ok, ◌>>=◌, defined}
use lgears.Object.{ptr, make_func}
use lgears.Memory.{Memory}
use lgears.Hash.{HashTable, hash_table_init, hash_table_lookup, hash_table_insert}
use lgears.Hash.Functions.{direct_hash, direct_equal}
use lgears.Machine.{Thread, stack_push}
use lgears.Native.{Rc, rc_ok, rc_error}
use lgears.Vectors.{is_symbol}

-- As `vm_init` leaves it: `destroy_val` is `module_free`.
abbrev pub libraries : HashTable
libraries = record (hash_table_init direct_hash (some direct_equal)) { destroy_val = true }

-- What the files and the memory of the modules answer: `module_load` of the file in the cache that
-- has the library's name, with the memory that holds the module's constants; and the entry point
-- and the functions of a module.
pub record Files : Type 0 where
  pub module_load : ℕ → Memory → Run (ℕ × Memory)
  pub entry_point : ℕ → ℕ
  pub module_func : ℕ → ℕ → ℕ

-- The thread that calls the module's entry with no argument.
abbrev pub entering : Files → ℕ → Thread → Thread
entering files module_at t = record t {
  tramp = record {
    func = make_func (files.module_func module_at (files.entry_point module_at));
    argc = 1;
  };
}

-- The module of a library, and the table.
unfoldable pub find_library : Files → ℕ → Memory → HashTable → Run (ℕ × Memory × HashTable)
find_library files libname m libs =
    let module_at = hash_table_lookup libs libname in
    if module_at == 0
    then (do
      (module_at, m) ← files.module_load libname m
      ok (module_at, m, (hash_table_insert libs libname module_at).0))
    else ok (module_at, m, libs)

unfoldable pub load_library : Files → Thread → HashTable → List ℕ → Run (Rc × Thread × HashTable)
unfolding find_library
load_library files t libs argv = do
  name ← defined (get_elem? argv 1)
  if is_symbol t name
      then (do
        (module_at, m, libs) ← find_library files (ptr name) t.memory libs
        k ← defined (get_elem? argv 0)
        t ← stack_push (record t { memory = m }) k
        ok (rc_ok, entering files module_at t, libs))
      else ok (rc_error, t, libs)
