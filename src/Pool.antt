-- ===== src/Pool.antt =====
-- The allocator of constants, vm/const_allocator.c. Each block stands in a chunk of its own, which
-- `malloc` gives and whose address is an argument here; the chunks make a linked list. An access
-- to a chunk that has been freed is undefined.
use mathlib.Core.Path.{subst}
use lgears.Prelude.{
  ℕ, zero, suc, ◌+◌, ◌%◌, ◌^◌, ◌≤◌, ◌≡◌, ◌≢◌, refl, sym, arith, true, false, Option, none, some,
  List, [], ◌∷◌, ◌==◌, if◌then◌else◌, length, All,
}
use lgears.Prelude.Run.{Run, ok, undefined, ◌>>=◌}
use lgears.Memory.{BlockHdr}

-- `linked_mem_t`, of 16 bytes with its header
pub record Chunk : Type 0 where
  pub next : ℕ
  pub hdr : BlockHdr

abbrev pub linked_mem_size : ℕ
linked_mem_size = 16

-- The chunks that are allocated, and the list of an allocator.
pub record Pool : Type 0 where
  pub chunks : ℕ → Option Chunk
  pub mem : ℕ

abbrev pub put_chunk : (ℕ → Option Chunk) → ℕ → Option Chunk → ℕ → Option Chunk
put_chunk chunks p c q = if p == q then c else chunks q

unfoldable pub const_allocator_init : (ℕ → Option Chunk) → Pool
const_allocator_init chunks = record { chunks = chunks; mem = 0 }

-- `new` is what `malloc` answers.
unfoldable pub const_allocator_alloc : ℕ → Pool → ℕ → ℕ → ℕ × Pool
const_allocator_alloc new cal size type_id =
    let hdr : BlockHdr = record {
      type_id = type_id % 2 ^ 16;
      forward = false;
      generation = 0;
      remembered = false;
      size = size % 2 ^ 32;
    } in
    (
      new + linked_mem_size,
      record {
        chunks = put_chunk cal.chunks new (some (record { next = cal.mem; hdr = hdr }));
        mem = new;
      },
    )

-- The loop of `const_allocator_clean` over at most `fuel` chunks: what it frees, and what is left.
unfoldable pub clean_loop : ℕ → (ℕ → Option Chunk) → ℕ → Run (List ℕ × (ℕ → Option Chunk))
clean_loop zero chunks cur = if cur == 0 then ok ([], chunks) else undefined
clean_loop (suc fuel) chunks cur = if cur == 0 then ok ([], chunks) else (elim (chunks cur) [
  | none ↦ undefined
  | some c ↦ clean_loop fuel (put_chunk chunks cur none) c.next >>= λ r. ok (cur ∷ r.0, r.1)
])

-- The list from an address on has the chunks, each of them once.
abbrev pub Linked : (ℕ → Option Chunk) → ℕ → List ℕ → Type 0
Linked chunks cur [] = cur ≡ 0
Linked chunks cur (p ∷ ps) =
    (cur ≡ p)
    × (p ≢ 0)
    × ((c : Chunk) × (chunks p ≡ some c) × Linked chunks c.next ps)
    × All (λ q. q ≢ p) ps

Linked-put_chunk :
    (chunks : ℕ → Option Chunk) (p : ℕ) (c : Option Chunk) (cur : ℕ) (ps : List ℕ)
    → All (λ q. q ≢ p) ps
    → Linked chunks cur ps
    → Linked (put_chunk chunks p c) cur ps
Linked-put_chunk chunks p c cur [] other l = l
Linked-put_chunk chunks p c cur (q ∷ ps) other (e, some_p, (d, at, l), once) =
    let apart : (p == q) ≡ false = let h = other.0 in ground arith in
    (e, some_p, (d, rw (apart, at), Linked-put_chunk chunks p c d.next ps other.1 l), once)

-- An allocation at a fresh address adds its chunk to the list and keeps those that are there.
pub const_allocator_alloc-Linked :
    (new : ℕ) (cal : Pool) (size type_id : ℕ) (ps : List ℕ)
    → Linked cal.chunks cal.mem ps
    → new ≢ 0
    → All (λ q. q ≢ new) ps
    → Linked
        (const_allocator_alloc new cal size type_id).1.chunks
        (const_allocator_alloc new cal size type_id).1.mem
        (new ∷ ps)
unfolding const_allocator_alloc
const_allocator_alloc-Linked new cal size type_id ps l some_new fresh =
    let same : (new == new) ≡ true = ground arith in
    let first : Chunk = record {
      next = cal.mem;
      hdr = record {
        type_id = type_id % 2 ^ 16;
        forward = false;
        generation = 0;
        remembered = false;
        size = size % 2 ^ 32;
      };
    } in
    (refl, some_new, (first, rw same, Linked-put_chunk cal.chunks new _ cal.mem ps fresh l), fresh)

-- Cleaning an allocator frees each of its chunks once, the newest first, and reads none that it
-- has freed; as many rounds as there are chunks are enough.
pub clean_loop_lem :
    (ps : List ℕ) (fuel : ℕ) (chunks : ℕ → Option Chunk) (cur : ℕ)
    → Linked chunks cur ps
    → length ps ≤ fuel
    → (left : ℕ → Option Chunk) × (clean_loop fuel chunks cur ≡ ok (ps, left))
unfolding clean_loop
clean_loop_lem [] zero chunks cur l h = (chunks, rw l)
clean_loop_lem [] (suc fuel) chunks cur l h = (chunks, rw l)
clean_loop_lem (p ∷ ps) zero chunks cur l h = absurd (omega arith)
clean_loop_lem (p ∷ ps) (suc fuel) chunks cur (e, some_p, (c, at, l), once) h =
    let more : (p == 0) ≡ false = ground arith in
    let (left, e') =
      clean_loop_lem ps fuel (put_chunk chunks p none) c.next
        (Linked-put_chunk chunks p none c.next ps once l) (omega arith) in
    (
      left,
      subst (λ x. clean_loop (suc fuel) chunks x ≡ ok (p ∷ ps, left)) (sym e) (rw (more, at, e')),
    )
