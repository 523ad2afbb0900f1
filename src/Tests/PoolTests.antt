-- ===== src/Tests/PoolTests.antt =====
-- The allocator of constants.
use lgears.Prelude.{ℕ, ◌≡◌, refl, arith, Option, none, [], ◌∷◌}
use lgears.Prelude.Run.{ok}
use lgears.Pool.{
  Chunk, Pool, const_allocator_init, const_allocator_alloc, clean_loop, Linked,
  const_allocator_alloc-Linked, clean_loop_lem,
}

abbrev empty : Pool
empty = record { chunks = λ p. none; mem = 0 }

abbrev one : Pool
one = (const_allocator_alloc 64 empty 16 2).1

abbrev two : Pool
two = (const_allocator_alloc 128 one 24 4).1

starts_empty : const_allocator_init (λ p. none) ≡ empty
unfolding const_allocator_init
starts_empty = refl

one-Linked : Linked one.chunks one.mem (64 ∷ [])
one-Linked = const_allocator_alloc-Linked 64 empty 16 2 [] refl (λ e. omega arith) tt

two-Linked : Linked two.chunks two.mem (128 ∷ 64 ∷ [])
two-Linked =
    const_allocator_alloc-Linked 128 one 24 4 (64 ∷ []) one-Linked (λ e. omega arith)
      ((λ e. omega arith), tt)

const_allocator_alloc-Linked_example : Linked two.chunks two.mem (128 ∷ 64 ∷ [])
const_allocator_alloc-Linked_example =
    const_allocator_alloc-Linked 128 one 24 4 (64 ∷ []) one-Linked (λ e. omega arith)
      ((λ e. omega arith), tt)

clean_loop_lem_example :
    (left : ℕ → Option Chunk) × (clean_loop 2 two.chunks two.mem ≡ ok (128 ∷ 64 ∷ [], left))
clean_loop_lem_example =
    clean_loop_lem (128 ∷ 64 ∷ []) 2 two.chunks two.mem two-Linked (omega arith)
