-- ===== src/Libraries/Again.antt =====
-- A library is loaded once.
use lgears.Prelude.{
  if◌then◌else◌, ℕ, ◌+◌, ◌<◌, ◌≡◌, ◌≢◌, arith, true, false, [], ◌∷◌, ◌==◌, inl, inr,
}
use lgears.Prelude.Run.{ok}
use lgears.Object.{ptr}
use lgears.Memory.{Memory}
use lgears.Hash.{HashTable, hash_table_lookup, hash_table_insert}
use lgears.Hash.Keys.{Lawful}
use lgears.Hash.Valid.{eq, IsValid}
use lgears.Hash.Insert.{lookup-insert}
use lgears.Machine.{Thread, op_stack_size, stack_push}
use lgears.Machine.Stack.{pushed, stack_push_lem}
use lgears.Native.{rc_ok}
use lgears.Vectors.{is_symbol}
use lgears.Libraries.{Files, entering, load_library}

-- A call of `load-library` with a name, on a thread that has room for the continuation.
pub record IsCall (t : Thread) (name : ℕ) : Type 0 where
  pub symbol : is_symbol t name ≡ true
  pub room : t.op_stack_idx + 1 < op_stack_size t

push_fits :
    (t : Thread) (k : ℕ) → t.op_stack_idx + 1 < op_stack_size t → stack_push t k ≡ ok (pushed t k)
push_fits t k h = elim (stack_push_lem t k (omega arith)) [
  | inl (full, e) ↦ absurd (omega arith)
  | inr (e, v) ↦ e
]

-- A library that is in the table is entered without a load of its file.
load_library-found :
    (files : Files) (t : Thread) (libs : HashTable) (k name module_at : ℕ)
    → IsCall t name
    → hash_table_lookup libs (ptr name) ≡ module_at
    → module_at ≢ 0
    → load_library files t libs (k ∷ name ∷ [])
      ≡ ok (rc_ok, entering files module_at (pushed t k), libs)
unfolding load_library
load_library-found files t libs k name module_at c found some_mod =
    let there : (module_at == 0) ≡ false = ground arith in
    rw (c.symbol, found, there, push_fits t k c.room)

-- `load-library` of a library that is not in the table loads its file, enters the module with the
-- continuation on the stack, and puts it into the table. From then on a call of `load-library` with
-- the name, on any thread and with room for the continuation, enters the same module, whatever the
-- files have become, and leaves the table as it is; other libraries are looked up as before.
pub load_library-again :
    (files later : Files) (t t' : Thread) (libs : HashTable) (k k' name module_at : ℕ) (m : Memory)
    → Lawful libs.hash (eq libs)
    → IsValid libs
    → IsCall t name
    → IsCall t' name
    → hash_table_lookup libs (ptr name) ≡ 0
    → files.module_load (ptr name) t.memory ≡ ok (module_at, m)
    → module_at ≢ 0
    → let libs' = (hash_table_insert libs (ptr name) module_at).0 in
      (load_library files t libs (k ∷ name ∷ [])
        ≡ ok (rc_ok, entering files module_at (pushed (record t { memory = m }) k), libs'))
      × (load_library later t' libs' (k' ∷ name ∷ [])
          ≡ ok (rc_ok, entering later module_at (pushed t' k'), libs'))
      × ((q : ℕ)
          → hash_table_lookup libs' q
            ≡ (if eq libs (ptr name) q then module_at else hash_table_lookup libs q))
unfolding load_library
load_library-again files later t t' libs k k' name module_at m laws valid c c' new loads some_mod =
    let reads = lookup-insert libs laws valid (ptr name) module_at in
    let kept : hash_table_lookup (hash_table_insert libs (ptr name) module_at).0 (ptr name)
        ≡ module_at =
      rw (reads (ptr name), laws.eq_refl (ptr name)) in
    (
      rw (c.symbol, new, loads, push_fits (record t { memory = m }) k c.room),
      load_library-found later t' _ k' name module_at c' kept some_mod,
      reads,
    )
