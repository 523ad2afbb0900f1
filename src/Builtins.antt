-- ===== src/Builtins.antt =====
-- The names of the built-in procedures: `ns_install_native` of vm/primitives.c, with the calls of it
-- in `primitives_init`, `strings_init`, `struct_init`, `bytevector_init` and `vm_init`, and
-- `lookup_global` of vm/vm.c.
pub mod Names
use lgears.Prelude.{ℕ, List, [], ◌∷◌, ◌++◌, some}
use lgears.Object.{make_func}
use lgears.Hash.{HashTable, hash_table_init, hash_table_insert, hash_table_lookup}
use lgears.Hash.Functions.{Strcmp, string_hash, string_equal}
use lgears.Natives.{
  NativeName, alloc_struct_nt, apply_nt, bytevector_8_set_nt, call_cc_nt, char_to_integer_nt,
  exception_handlers_nt, get_eof_nt, get_void_nt, integer_to_char_nt, is_bytevector_nt,
  library_cache_nt, list_length_nt, list_nt, make_bytevector_nt, make_list_nt, make_string_nt,
  make_struct_nt, string_concat_nt, string_copy_nt, string_copy_to_nt, string_eq_nt,
  string_length_nt, string_ref_nt, string_set_nt, struct_ref_nt, struct_set_nt, struct_size_nt,
  struct_to_list_nt, struct_type_nt, substring_nt, symbol_to_string_nt, vm_exit_nt,
}
use lgears.Prelude.Text.{codes}

-- The headers that have a name: those of Natives.antt, and those of Print.antt and Libraries.antt.
pub data Builtin : Type 0 where
  procedure : NativeName → Builtin
  display_nt load_library_nt : Builtin

-- The tables of the machine: `text` is what the memory holds at the address of a string up to its
-- NUL, and `strcmp` is taken from the C library.
unfoldable pub builtin : Strcmp → (ℕ → List ℕ) → HashTable
builtin lib text =
    hash_table_init (λ p. string_hash (text p)) (some (λ p q. string_equal lib (text p) (text q)))

unfoldable pub ns_install_native : HashTable → ℕ → ℕ → HashTable
ns_install_native tbl name nt = (hash_table_insert tbl name (make_func nt)).0

unfoldable pub lookup_global : HashTable → ℕ → ℕ
lookup_global tbl name = hash_table_lookup tbl name

-- A name, as the bytes of the literal, and the header that is installed under it.
abbrev pub Install : Type 0
Install = List ℕ × Builtin

-- The calls of `ns_install_global`, in their order.
abbrev pub primitives_init : List Install
primitives_init =
    (codes "display", display_nt)
    ∷ (codes "__exit", procedure vm_exit_nt)
    ∷ (codes "call/cc", procedure call_cc_nt)
    ∷ (codes "apply", procedure apply_nt)
    ∷ (codes "exception-handlers", procedure exception_handlers_nt)
    ∷ (codes "list", procedure list_nt)
    ∷ (codes "$make-list", procedure make_list_nt)
    ∷ (codes "void", procedure get_void_nt)
    ∷ (codes "eof-object", procedure get_eof_nt)
    ∷ (codes "char->integer", procedure char_to_integer_nt)
    ∷ (codes "integer->char", procedure integer_to_char_nt)
    ∷ (codes "length", procedure list_length_nt)
    ∷ []

abbrev pub strings_init : List Install
strings_init =
    (codes "symbol->string", procedure symbol_to_string_nt)
    ∷ (codes "string-ref", procedure string_ref_nt)
    ∷ (codes "string-set!", procedure string_set_nt)
    ∷ (codes "string-length", procedure string_length_nt)
    ∷ (codes "string=?", procedure string_eq_nt)
    ∷ (codes "string-concat", procedure string_concat_nt)
    ∷ (codes "substring", procedure substring_nt)
    ∷ (codes "string-copy", procedure string_copy_nt)
    ∷ (codes "string-copy!", procedure string_copy_to_nt)
    ∷ (codes "make-string", procedure make_string_nt)
    ∷ []

abbrev pub struct_init : List Install
struct_init =
    (codes "make-struct", procedure make_struct_nt)
    ∷ (codes "alloc-struct", procedure alloc_struct_nt)
    ∷ (codes "struct-size", procedure struct_size_nt)
    ∷ (codes "struct-set!", procedure struct_set_nt)
    ∷ (codes "struct-ref", procedure struct_ref_nt)
    ∷ (codes "struct-type", procedure struct_type_nt)
    ∷ (codes "struct->list", procedure struct_to_list_nt)
    ∷ []

abbrev pub bytevector_init : List Install
bytevector_init =
    (codes "make-bytevector", procedure make_bytevector_nt)
    ∷ (codes "bytevector?", procedure is_bytevector_nt)
    ∷ (codes "bytevector-u8-set!", procedure bytevector_8_set_nt)
    ∷ []

-- `primitives_init` runs the initialisation of the three modules at its end; `vm_init` adds two.
abbrev pub vm_init : List Install
vm_init =
    primitives_init
    ++ (strings_init
        ++ (struct_init
            ++ (bytevector_init
                ++ (codes "load-library", load_library_nt)
                  ∷ (codes "library-cache", procedure library_cache_nt)
                  ∷ [])))

-- `literal` is the address of a literal of the program, and `header` that of a header.
unfoldable pub ns_install_global : (List ℕ → ℕ) → (Builtin → ℕ) → Install → HashTable → HashTable
unfolding ns_install_native
ns_install_global literal header (name, nt) tbl = ns_install_native tbl (literal name) (header nt)

unfoldable pub install_all : (List ℕ → ℕ) → (Builtin → ℕ) → List Install → HashTable → HashTable
unfolding ns_install_global
install_all literal header [] tbl = tbl
install_all literal header (e ∷ es) tbl =
    install_all literal header es (ns_install_global literal header e tbl)
