-- ===== src/Natives.antt =====
-- The table of the procedures in C: the wrappers of vm/native.c that pass the arguments, MAKE_NATIVE
-- of vm/native.h, and the headers that it makes in vm/primitives.c, vm/strings.c, vm/struct.c,
-- vm/bytevector.c and vm/vm.c. `display` is in Print.antt and
-- `load-library` in Libraries.antt.
pub mod Listed
use lgears.Prelude.{ℕ, zero, suc, ◌+◌, ◌≡◌, Bool, true, false, Option, List}
use lgears.Prelude.Run.{Run, ok, ◌>>=◌}
use lgears.Machine.{Thread}
use lgears.Allocator.{Pointer, argument}
use lgears.Native.{
  Rc, struct_size, struct_set, struct_ref, struct_type, bytevector_length, is_bytevector,
  bytevector_8_set, list_length, char_to_integer, integer_to_char, get_void, get_eof, vm_exit,
  exception_handlers, library_cache,
}
use lgears.Lists.{list, make_list, call_cc, apply}
use lgears.Vectors.{words_from, make_struct, alloc_struct, struct_to_list, make_bytevector}
use lgears.Strings.{string_ref, string_set, string_length, string_eq, string_copy_to}
use lgears.Strings.Make.{make_string, string_concat, string_copy, substring, symbol_to_string}
use lgears.Interp.{NativeFunc}

-- The result of a procedure.
abbrev pub Result : Type 0
Result = Run (Rc × Thread)

-- The wrappers. `fp` takes pointers to its arguments, behind `argv[0]`, the continuation.
unfoldable pub native_call_variadic : (ℕ → ℕ → Thread → Result) → Thread → ℕ → ℕ → Result
native_call_variadic fp t argv argc = fp argv argc t

unfoldable pub native_call_nullary : (Thread → Result) → Thread → ℕ → ℕ → Result
native_call_nullary fp t argv argc = fp t

unfoldable pub native_call_unary : (Pointer Thread → Thread → Result) → Thread → ℕ → ℕ → Result
native_call_unary fp t argv argc = fp (argument argv 1) t

unfoldable pub native_call_binary :
    (Pointer Thread → Pointer Thread → Thread → Result) → Thread → ℕ → ℕ → Result
native_call_binary fp t argv argc = fp (argument argv 1) (argument argv 2) t

unfoldable pub native_call_ternary :
    (Pointer Thread → Pointer Thread → Pointer Thread → Thread → Result) → Thread → ℕ → ℕ → Result
native_call_ternary fp t argv argc = fp (argument argv 1) (argument argv 2) (argument argv 3) t

-- MAKE_NATIVE and its forms.
abbrev pub make_native : (Thread → ℕ → ℕ → Result) → ℕ → Bool → NativeFunc
make_native fcall fargc fswallow = record { argc = fargc + 1; swallow = fswallow; call = fcall }

abbrev pub make_native_variadic : (ℕ → ℕ → Thread → Result) → ℕ → NativeFunc
make_native_variadic func fargc = make_native (native_call_variadic func) fargc true

abbrev pub make_native_nullary : (Thread → Result) → NativeFunc
make_native_nullary func = make_native (native_call_nullary func) 0 false

abbrev pub make_native_unary : (Pointer Thread → Thread → Result) → NativeFunc
make_native_unary func = make_native (native_call_unary func) 1 false

abbrev pub make_native_binary : (Pointer Thread → Pointer Thread → Thread → Result) → NativeFunc
make_native_binary func = make_native (native_call_binary func) 2 false

abbrev pub make_native_ternary :
    (Pointer Thread → Pointer Thread → Pointer Thread → Thread → Result) → NativeFunc
make_native_ternary func = make_native (native_call_ternary func) 3 false

-- A procedure that reads its arguments before anything else.
abbrev pub read1 : (Thread → ℕ → Result) → Pointer Thread → Thread → Result
read1 f a t = a t >>= λ x. f t x

abbrev pub read2 : (Thread → ℕ → ℕ → Result) → Pointer Thread → Pointer Thread → Thread → Result
read2 f a b t = a t >>= λ x. b t >>= λ y. f t x y

abbrev pub read3 :
    (Thread → ℕ → ℕ → ℕ → Result)
    → Pointer Thread
    → Pointer Thread
    → Pointer Thread
    → Thread
    → Result
read3 f a b c t = a t >>= λ x. b t >>= λ y. c t >>= λ z. f t x y z

abbrev pub read_all : (Thread → List ℕ → ℕ → Result) → ℕ → ℕ → Thread → Result
read_all f argv argc t = words_from t argv argc >>= λ args. f t args argc

-- The names of the headers.
pub data NativeName : Type 0 where
  vm_exit_nt call_cc_nt apply_nt exception_handlers_nt list_nt make_list_nt : NativeName
  get_void_nt get_eof_nt char_to_integer_nt integer_to_char_nt list_length_nt : NativeName
  symbol_to_string_nt string_ref_nt string_set_nt string_length_nt string_eq_nt : NativeName
  string_concat_nt substring_nt string_copy_nt string_copy_to_nt make_string_nt : NativeName
  make_struct_nt alloc_struct_nt struct_size_nt struct_set_nt struct_ref_nt : NativeName
  struct_type_nt struct_to_list_nt make_bytevector_nt bytevector_length_nt : NativeName
  is_bytevector_nt bytevector_8_set_nt library_cache_nt : NativeName

module _ (static : ℕ → Option (List ℕ)) (old_mem fuel : ℕ) where
  unfoldable pub native_of : NativeName → NativeFunc
  native_of vm_exit_nt = make_native_nullary vm_exit
  native_of call_cc_nt =
      make_native (native_call_variadic (λ argv argc. call_cc old_mem fuel argv)) 1 false
  native_of apply_nt = make_native (native_call_variadic (λ argv argc. apply argv)) 2 false
  native_of exception_handlers_nt = make_native_variadic (read_all exception_handlers) 0
  native_of list_nt = make_native_variadic (list old_mem fuel) 0
  native_of make_list_nt = make_native_binary (make_list old_mem fuel)
  native_of get_void_nt = make_native_nullary get_void
  native_of get_eof_nt = make_native_nullary get_eof
  native_of char_to_integer_nt = make_native_unary (read1 char_to_integer)
  native_of integer_to_char_nt = make_native_unary (read1 integer_to_char)
  native_of list_length_nt = make_native_unary (read1 list_length)
  native_of symbol_to_string_nt =
      make_native_unary (read1 (λ t sym. symbol_to_string old_mem fuel sym t))
  native_of string_ref_nt = make_native_binary (read2 (string_ref static))
  native_of string_set_nt = make_native_ternary (read3 (string_set static))
  native_of string_length_nt = make_native_unary (read1 (string_length static))
  native_of string_eq_nt = make_native_binary (read2 (string_eq static))
  native_of string_concat_nt =
      make_native_binary (read2 (λ t a b. string_concat static old_mem fuel a b t))
  native_of substring_nt = make_native_ternary (substring static old_mem fuel)
  native_of string_copy_nt = make_native_unary (string_copy static old_mem fuel)
  native_of string_copy_to_nt = make_native_ternary (read3 (string_copy_to static))
  native_of make_string_nt = make_native_binary (make_string static old_mem fuel)
  native_of make_struct_nt = make_native_variadic (make_struct old_mem fuel) 0
  native_of alloc_struct_nt = make_native_ternary (alloc_struct old_mem fuel)
  native_of struct_size_nt = make_native_unary (read1 struct_size)
  native_of struct_set_nt = make_native_ternary (read3 struct_set)
  native_of struct_ref_nt = make_native_binary (read2 struct_ref)
  native_of struct_type_nt = make_native_unary (read1 struct_type)
  native_of struct_to_list_nt = make_native_unary (struct_to_list old_mem fuel)
  native_of make_bytevector_nt = make_native_binary (make_bytevector old_mem fuel)
  native_of bytevector_length_nt = make_native_unary (read1 bytevector_length)
  native_of is_bytevector_nt = make_native_unary (read1 is_bytevector)
  native_of bytevector_8_set_nt = make_native_ternary (read3 bytevector_8_set)
  native_of library_cache_nt = make_native_variadic (read_all library_cache) 0
