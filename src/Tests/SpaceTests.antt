-- ===== src/Tests/SpaceTests.antt =====
-- Spaces of the heap.
use lgears.Prelude.{
  ℕ, ◌+◌, ◌%◌, ◌≤◌, ◌<◌, ◌≡◌, ◌⊎◌, refl, true, false, none, some, List, arith, length,
}
use mathlib.Core.Option
use lgears.Prelude.Run.{ok, out_of_memory}
use lgears.Memory.{Block, Memory, bhdr_size, pair, write}
use lgears.Space.{Space, space_alloc, space_init, space_put, align_up}
use lgears.Space.Alloc.{padded, Grown, fresh_block, space_alloc_lem, space_put_lem}
use lgears.Space.Enough.{
  alloc_many, require_fits, require_blocks_fits, require_fits-alloc, require_blocks_fits-alloc_many,
}
use lgears.Space.Layout.{IsSpace, space_init-IsSpace}

spaces : Unit {0}
unfolding space_alloc space_init space_put require_fits require_blocks_fits alloc_many align_up
spaces = tt

abbrev memory : Memory
memory p = none

space_init-IsSpace_example : IsSpace (space_init 4096 256 memory).0 (space_init 4096 256 memory).1
space_init-IsSpace_example = space_init-IsSpace 4096 256 memory refl refl (omega arith)

-- A pair takes 24 bytes behind a header of eight; a string of one character is padded.
allocations :
    Option.map {A = ℕ × Space × Memory} {B = ℕ × ℕ}
      (λ r. (r.0, r.1.pos))
      (space_alloc (space_init 4096 256 memory).0 17 3 memory)
    ≡ some (4104, 4128)
unfolding spaces
allocations = refl

abbrev pair_block : Block
pair_block = record {
  hdr = record { type_id = 4; forward = false; generation = 1; remembered = false; size = 24 };
  body = pair 8 5 true 1;
}

-- A memory with a pair at 8200, outside the space.
abbrev with_pair : Memory
with_pair = write memory 8200 (some pair_block)

abbrev space : Space
unfolding space_init
space = (space_init 4096 256 with_pair).0

abbrev before : Memory
unfolding space_init
before = (space_init 4096 256 with_pair).1

space-IsSpace : IsSpace space before
unfolding space_init
space-IsSpace = space_init-IsSpace 4096 256 with_pair refl refl (omega arith)

space_alloc_lem_example :
    (space.free_mem < padded 17 + bhdr_size) × (space_alloc space 17 3 before ≡ none)
    ⊎ (padded 17 + bhdr_size ≤ space.free_mem)
      × (p : ℕ) × (s' : Space) × (m' : Memory) × (space_alloc space 17 3 before ≡ some (p, s', m'))
      × Grown space before (padded 17) p (fresh_block 3 (padded 17)) s' m'
      × (p % 8 ≡ 0)
space_alloc_lem_example = space_alloc_lem space before 17 3 space-IsSpace (omega arith)

space_put_lem_example :
    (space.free_mem < 32) × (space_put space 8192 32 before ≡ out_of_memory 32 space.free_mem)
    ⊎ (s' : Space) × (m' : Memory) × (space_put space 8192 32 before ≡ ok (space.pos, s', m'))
      × Grown space before 24 (space.pos + bhdr_size) pair_block s' m'
unfolding space_init
space_put_lem_example = space_put_lem space before 8192 pair_block space-IsSpace refl refl

require_fits-alloc_example :
    (p : ℕ) × (s' : Space) × (m' : Memory) × (space_alloc space 240 3 before ≡ some (p, s', m'))
    × IsSpace s' m'
unfolding space_init require_fits
require_fits-alloc_example = require_fits-alloc 240 3 (omega arith) space before space-IsSpace refl

require_blocks_fits-alloc_many_example :
    (ps : List ℕ) × (s' : Space) × (m' : Memory) × (alloc_many 7 space 24 3 before
      ≡ some (ps, s', m'))
    × (length ps ≡ 7)
    × IsSpace s' m'
unfolding space_init require_blocks_fits align_up
require_blocks_fits-alloc_many_example =
    require_blocks_fits-alloc_many 24 3 (omega arith) 7 space before space-IsSpace refl
