-- ===== src/Tests/ListTests.antt =====
-- Lists that are built on a small heap.
use lgears.Prelude.{
  ℕ, zero, suc, ◌+◌, Option, List, ◌≡◌, ◌≢◌, refl, inr, arith, true, false, some, none, [], ◌∷◌,
  ◌==◌, if◌then◌else◌, get_elem?,
}
use lgears.Prelude.Int.{pos}
use lgears.Prelude.Run.{ok, defined}
use lgears.Object.{make_heap_ptr, get_tag, ptr}
use lgears.Memory.{Memory, Block, pair, is_type}
use lgears.Types.{t_pair}
use lgears.Heap.{Heap}
use lgears.Space.Layout.{IsSpace}
use lgears.Machine.{Thread, on_stack}
use lgears.Allocator.{Pointer, local, heap_allocator}
use lgears.Native.{list_length, return_fixnum}
use lgears.Lists.{cons, list_of}
use lgears.Lists.Cells.{IsCell, IsListApart, with_cell, list_length-cons}
use lgears.Lists.Built.{Spells, next_payload, with_list, list_of-Spells}
use lgears.Object.Kinds.{constants}
use lgears.Interp.{Program}
use lgears.Interp.Call.{dispatch, call_native}
use lgears.Natives.{native_of, list_nt}
use lgears.Natives.Listed.{IsPassed, answered, call_native-list}
use lgears.Tests.Data.{idle}

-- A list of one number, outside of the heap's spaces.
abbrev one : Block
one = record {
  hdr = record { type_id = t_pair; forward = false; generation = 0; remembered = false; size = 24 };
  body = pair 8 5 true 1;
}

abbrev memory : Memory
memory p = if p == 512 then some one else none

abbrev pub thread : Thread
thread = record {
  heap = idle;
  memory = memory;
  opstack = 8 ∷ 16 ∷ 24 ∷ [];
  op_stack_idx = 0;
  objects = on_stack 0;
  env = 0;
  bindmap = none;
  func = 0;
  closure = 0;
  heap_env = false;
  lib_cache = 5;
  exception_handlers = 5;
  local_roots = [];
  tramp = record { func = 0; argc = 0 };
}

fresh-IsSpace : IsSpace idle.fresh memory
fresh-IsSpace = record {
  aligned = refl;
  pos_aligned = refl;
  size_aligned = refl;
  ordered = omega arith;
  balance = refl;
  small = omega arith;
  tiled = refl;
}

one-IsListApart : IsListApart thread 513 1 4104
unfolding is_type get_tag ptr
one-IsListApart = inr (
  8,
  5,
  record { no_null = rw constants.0 refl; tested = refl; block = one; here = refl; fields = refl },
  (omega arith),
)

list_length-cons_example :
    (cons (heap_allocator 0 2) (local 16) (local 513) thread
      ≡ ok (make_heap_ptr 4104, with_cell thread 16 513 2))
    × IsCell (with_cell thread 16 513 2) (make_heap_ptr 4104) 16 513 2
    × (list_length (with_cell thread 16 513 2) (make_heap_ptr 4104)
        ≡ return_fixnum (with_cell thread 16 513 2) (pos 2))
    × IsSpace (with_cell thread 16 513 2).heap.fresh (with_cell thread 16 513 2).memory
    × ((q : ℕ) → q ≢ 4104 → (with_cell thread 16 513 2).memory q ≡ thread.memory q)
list_length-cons_example =
    list_length-cons 0 2 thread 16 513 1 fresh-IsSpace (omega arith) (omega arith) one-IsListApart
      (omega arith) (local 16) (local 513) (λ h m. refl) (λ h m. refl)

-- The words of the stack.
abbrev stack : ℕ → Pointer Thread
stack k t = defined (get_elem? t.opstack k)

list_of-Spells_example :
    (m : Memory) × (h : Heap) × (o : ℕ) × (list_of 0 2 stack 3 thread
      ≡ ok (o, record thread { heap = h; memory = m; local_roots = [] }))
    × Spells (with_list thread h m o) (next_payload (with_list thread h m o)) o (8 ∷ 16 ∷ 24 ∷ [])
    × IsSpace h.fresh m
list_of-Spells_example =
    list_of-Spells 0 2 stack (8 ∷ 16 ∷ 24 ∷ []) thread (λ k x h m r e. rw e) (omega arith)
      (record { valid = fresh-IsSpace; room = omega arith; word = omega arith })

-- A call of `list` with two arguments, and a function as its continuation.
abbrev calling : Thread
calling = record thread { opstack = 68 ∷ 8 ∷ 16 ∷ 0 ∷ 0 ∷ []; op_stack_idx = 3 }

words-passed :
    (i x : ℕ)
    → get_elem? (8 ∷ 16 ∷ []) i ≡ some x
    → get_elem? (68 ∷ 8 ∷ 16 ∷ 0 ∷ 0 ∷ []) (0 + (i + 1)) ≡ some x
words-passed zero x e = e
words-passed (suc zero) x e = e
words-passed (suc (suc i)) x e = cc e

calling-IsPassed : IsPassed calling 0 68 (8 ∷ 16 ∷ [])
calling-IsPassed = record { top = refl; continuation = refl; arguments = words-passed }

abbrev program : Program
program = record {
  callable = λ p. none;
  constant = λ m n. none;
  module_func = λ m n. 0;
  vm_exit_nt = 256;
  text = λ msg. [];
}

abbrev static : ℕ → Option (List ℕ)
static p = none

call_native-list_example :
    (m : Memory) × (h : Heap) × (o : ℕ) × (call_native 0 2 program
        (native_of static 0 2 list_nt)
        3
        calling
      ≡ ok (dispatch 68 (pos 1) (answered calling h m o)))
    × Spells (answered calling h m o) (next_payload (answered calling h m o)) o (8 ∷ 16 ∷ [])
call_native-list_example =
    call_native-list static 0 2 program calling 0 68 (8 ∷ 16 ∷ []) calling-IsPassed
      (record { valid = fresh-IsSpace; room = omega arith; word = omega arith }) (omega arith)
      (omega arith)
