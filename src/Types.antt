-- ===== src/Types.antt =====
-- The registry of heap types, vm/types.c, and the numbers that the types get: `vm_init` of vm/vm.c
-- registers environments and closures, then `primitives_init` of vm/primitives.c pairs and
-- continuations, and through the other modules the rest. A name is a number here.
use lgears.Prelude.{ℕ, ◌-◌, List, [], ◌∷◌, ◌++◌, ◌==◌, if◌then◌else◌, length}
use lgears.Prelude.Run.{Run, ok, fatal}

abbrev pub vm_max_types : ℕ
vm_max_types = 16

-- The filled part of `type_table`; `types_count` is its length.
unfoldable pub register_type {ℓ} : {A : Type ℓ} → List A → A → Run (ℕ × List A)
register_type type_table type =
    if length type_table == vm_max_types - 1
    then fatal
    else ok (length type_table, type_table ++ type ∷ [])

abbrev pub t_env : ℕ
t_env = 0

abbrev pub t_closure : ℕ
t_closure = 1

abbrev pub t_pair : ℕ
t_pair = 2

abbrev pub t_cont : ℕ
t_cont = 3

abbrev pub t_string : ℕ
t_string = 4

abbrev pub t_symbol : ℕ
t_symbol = 5

abbrev pub t_struct : ℕ
t_struct = 6

abbrev pub t_bytevector : ℕ
t_bytevector = 7
