-- ===== src/Lib.antt =====
-- The virtual machine of lGears, a Scheme system: the C code of vm/.
--
-- Object.antt models the tagged words of vm/types.h (`obj_t`); Hash.antt the hash table of
-- vm/hash.c, which holds the symbols, the built-in functions, the loaded libraries and, during a
-- collection, the new addresses of old objects; Memory.antt the blocks that the heap consists of,
-- and Space.antt the spaces of vm/heap.c that these are allocated in; Pool.antt is the allocator of
-- constants, vm/const_allocator.c. Heap.antt is `heap_t` of vm/heap.h with `heap_mark` and the
-- visitors of the heap types, and Collector.antt the collections and the allocation of vm/heap.c; its
-- children follow a collection from the word to the loops, with the invariant of the heap in
-- Collector/Valid.antt and what a step may change in Collector/Later.antt. Allocator.antt offers it
-- as `allocator_t` of vm/allocator.h.
--
-- Machine.antt is a thread of vm/vm.h with its operand stack, its environments and the
-- instructions of vm/vm.c on these, and Interp.antt the rest of `eval_thread`: `enter_interp`,
-- FUNC_CALL with the exceptions, and the step over one instruction. Types.antt is the registry of
-- vm/types.c; Native.antt has the procedures of vm/primitives.c, vm/struct.c and vm/bytevector.c
-- that do not allocate, Lists.antt and Vectors.antt those that do, Strings.antt is vm/strings.c,
-- and Natives.antt has the wrappers of vm/native.c and the headers of all of these. Builtins.antt
-- installs them under their names, as `vm_init` does; Libraries.antt is `load-library`, where
-- `module_load` is a parameter, for the file that it reads; Symbols.antt is `make_symbol` with its
-- table, Print.antt what `print_obj` prints, and Opcodes.antt the names of the instructions in
-- vm/opcodes.h. Loader.antt is the reader of compiled modules, of their constants and of their
-- debug symbols, vm/module.c, with `module_parse` as a whole in Loader/Module.antt. Prelude.antt
-- has the shared notation and the laws of bits, integers and lists, Tests.antt the runs at
-- concrete inputs. Macros and functions keep their names, in lower case; a macro that the source
-- spells `MAKE_OBJ` is `make_obj`; `_cons`, `_list` and `_string` are `cons`, `list_of` and
-- `string_new`.
--
-- A word is a number below 2 ^ 64 and a `long` an integer; casts and shifts that drop bits are
-- written out. `abort` is a result of its own, `fatal` of Prelude/Run.antt, with `out_of_memory`
-- for the FATAL of a space that is full, and so is what C leaves undefined. Memory that the code
-- takes from `malloc` is assumed to be there: `old_mem` is the address of the old region of the
-- heap. `strcmp` and the texts that `vsnprintf` and `printf` make of their arguments are
-- parameters. A pointer to a word that a collection may change is a function that reads the word.
-- The loops of the model are recursions on lists or on a number of rounds that the code has, or
-- take fuel: as much as the depth of the first environment and one for `env_display`, as there are
-- chunks for `const_allocator_clean`, as the stack has words for `apply`, and as a table of
-- constants has bytes for `load_consts`, and as a space has room for headers for the scans of a
-- collection. In the calls that a call leads to and in the loop over the instructions fuel is a
-- parameter, and more of it may be needed where it runs out. Printing takes fuel for the depth and
-- the length of what is printed.
--
-- Not modelled: the mapping of a module's file, the search for it and `module_free`; the start and
-- the end of threads, which are calls of the operating system; `vm_cleanup` and `heap_destroy`,
-- which give the memory back; and the compiler, which is written in Scheme.
pub mod Allocator
pub mod Builtins
pub mod Collector
pub mod Hash
pub mod Heap
pub mod Interp
pub mod Libraries
pub mod Lists
pub mod Loader
pub mod Machine
pub mod Memory
pub mod Native
pub mod Natives
pub mod Object
pub mod Opcodes
pub mod Pool
pub mod Prelude
pub mod Print
pub mod Space
pub mod Strings
pub mod Symbols
pub mod Tests
pub mod Types
pub mod Vectors
