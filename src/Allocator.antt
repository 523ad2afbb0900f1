-- ===== src/Allocator.antt =====
-- `allocator_t` of vm/allocator.h, the interface that `_cons`, `_string` and `struct_new` allocate
-- through, and the allocator of a heap, vm/heap.c. A pointer to a word is the function that reads
-- it, since a collection may move what the word points to and change the word.
use lgears.Prelude.{ℕ, Bool, false, some, get_elem?, ◌+◌}
use lgears.Prelude.Run.{Run, ok, ◌>>=◌, defined}
use lgears.Object.Tag
use lgears.Memory.{Memory, Payload, write}
use lgears.Machine.{Thread}
use lgears.Collector.{heap_alloc}

-- The state that an allocator works on; `unset` is what the bit fields of a pair hold in memory
-- that was just allocated.
pub record Allocator (S : Type 0) : Type 0 where
  pub alloc : S → ℕ → ℕ → Run (ℕ × S)
  pub id : ℕ
  pub memory : S → Memory
  pub put : S → Memory → S
  pub unset : ℕ → Bool × ℕ

-- The structure at an address gets its fields.
abbrev pub fill_in : {S : Type 0} → Allocator S → S → ℕ → Payload → Run S
fill_in al s p body = do
  b ← defined (al.memory s p)
  ok (al.put s (write (al.memory s) p (some (record b { body = body }))))

-- `obj_t *`
abbrev pub Pointer : Type 0 → Type 0
Pointer S = S → Run ℕ

-- A local variable that no collection has to change.
abbrev pub local : {S : Type 0} → ℕ → Pointer S
local v s = ok v

-- `&argv[i]`, where the arguments start at an index of the operand stack.
abbrev pub argument : ℕ → ℕ → Pointer Thread
argument argv i t = defined (get_elem? t.opstack (argv + i))

-- A variable that `local_roots` points to.
abbrev pub root : ℕ → Pointer Thread
root i t = defined (get_elem? t.local_roots i)

-- The bytes of the fresh space are zero where nothing is allocated.
abbrev pub heap_allocator : ℕ → ℕ → Allocator Thread
heap_allocator old_mem fuel = record {
  alloc = heap_alloc old_mem fuel;
  id = Tag.ptr;
  memory = λ t. t.memory;
  put = λ t m. record t { memory = m };
  unset = λ p. (false, 0);
}
