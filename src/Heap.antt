-- ===== src/Heap.antt =====
-- The heap of a thread, `heap_t` of vm/heap.h: its spaces, the objects that the collector has to
-- look at, and its flags. `survived` and `future_survived` are what the two pointers lead to. The
-- remembered set, a linked list with a tail pointer, is a list of the addresses of headers, and
-- `old_map` is `none` for NULL. The counters of time and of collections are left out.
pub mod Mark
pub mod Visit
use lgears.Prelude.{ℕ, ◌+◌, ◌*◌, Bool, true, false, Option, none, some, List, [], ◌∷◌, ◌++◌}
use lgears.Hash.{HashTable}
use lgears.Memory.{Memory}
use lgears.Space.{Space, fresh_size, survived_size, space_init, space_reset0}

pub record Heap : Type 0 where
  pub mem : ℕ
  pub mem_size : ℕ
  pub fresh : Space
  pub survived : Space
  pub future_survived : Space
  pub old : Space
  pub remembered_set : List ℕ
  pub full_gc : Bool
  pub old_map : Option HashTable

-- The heap with the memory that its blocks stand in.
pub record Store : Type 0 where
  pub heap : Heap
  pub memory : Memory

-- A space that is all zero, as `memset` leaves `old`.
abbrev pub no_space : Space
no_space = record { mem = 0; pos = 0; size = 0; free_mem = 0; blocks = 0 }

-- `memp` is what `malloc` answers for the three spaces.
unfoldable pub heap_init : ℕ → Memory → Store
heap_init memp m =
    let (fresh, m) = space_init memp fresh_size m in
    let (first, m) = space_init (memp + fresh_size) survived_size m in
    let (second, m) = space_init (memp + fresh_size + survived_size) survived_size m in
    record {
      heap = record {
        mem = memp;
        mem_size = fresh_size + survived_size * 2;
        fresh = fresh;
        survived = first;
        future_survived = second;
        old = no_space;
        remembered_set = [];
        full_gc = false;
        old_map = none;
      };
      memory = m;
    }

-- `append_remembered` on the list.
abbrev pub append_remembered : List ℕ → ℕ → List ℕ
append_remembered rs new = rs ++ new ∷ []

unfoldable pub heap_remember : Heap → ℕ → Heap
heap_remember heap hdr = record heap { remembered_set = append_remembered heap.remembered_set hdr }

-- `forget` on the set of the heap.
unfoldable pub forget : Heap → Heap
forget heap = record heap { remembered_set = [] }

unfoldable pub heap_swap_survived : Store → Store
heap_swap_survived s =
    let (survived, m) = space_reset0 s.heap.survived s.memory in
    record {
      heap = record s.heap { survived = s.heap.future_survived; future_survived = survived };
      memory = m;
    }
