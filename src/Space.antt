-- ===== src/Space.antt =====
-- The spaces of the heap, vm/heap.c: a region of memory that is filled from its start with blocks,
-- each a header and a payload. Addresses and sizes are `size_t`; a field of a header keeps as many
-- bits as it has.
pub mod Layout
pub mod Alloc
pub mod Enough
use lgears.Prelude.{
  ℕ, zero, suc, ◌+◌, ◌-◌, ◌*◌, ◌%◌, ◌^◌, Bool, true, false, ◌&&◌, Option, none, some, bit_and, ltb,
  leb, ◌==◌, if◌then◌else◌,
}
use lgears.Prelude.Run.{Run, ok, out_of_memory, undefined}
use lgears.Memory.{Block, BlockHdr, bhdr_size, Memory, raw, write}

-- `(((s)+((a)-1)) & ~((a)-1))`
unfoldable pub align_up : ℕ → ℕ → ℕ
align_up s a = bit_and ((s + (a - 1)) % 2 ^ 64) (2 ^ 64 - 1 - (a - 1))

abbrev pub fresh_size : ℕ
fresh_size = 1024 * 128

abbrev pub survived_size : ℕ
survived_size = 1024 * 128

abbrev pub old_size : ℕ
old_size = survived_size * 5

pub record Space : Type 0 where
  pub mem : ℕ
  pub pos : ℕ
  pub size : ℕ
  pub free_mem : ℕ
  pub blocks : ℕ

-- `NEXT_HDR`
abbrev pub next_hdr : ℕ → BlockHdr → ℕ
next_hdr h hdr = bhdr_size + hdr.size + h

unfoldable pub space_reset : Space → Space
space_reset space = record space { pos = space.mem; free_mem = space.size; blocks = 0 }

-- The blocks of the region are gone: its bytes are zero.
unfoldable pub space_reset0 : Space → Memory → Space × Memory
unfolding space_reset
space_reset0 space m = (
  space_reset space,
  λ p. if leb space.mem p && ltb p (space.mem + space.size) then none else m p,
)

unfoldable pub space_init : ℕ → ℕ → Memory → Space × Memory
unfolding space_reset0
space_init mem size m =
    space_reset0 (record { mem = mem; pos = mem; size = size; free_mem = size; blocks = 0 }) m

-- `none` is NULL. The position moves by the size that the header has kept.
unfoldable pub space_alloc : Space → ℕ → ℕ → Memory → Option (ℕ × Space × Memory)
space_alloc space size type_id m =
    let size = align_up size 8 in
    let need = size + bhdr_size in
    let hdr : BlockHdr = record {
      type_id = type_id % 2 ^ 16;
      forward = false;
      generation = 0;
      remembered = false;
      size = size % 2 ^ 32;
    } in
    let res = space.pos + bhdr_size in
    if ltb space.free_mem need
    then none
    else some (
      res,
      record space {
        pos = res + hdr.size;
        free_mem = space.free_mem - need;
        blocks = space.blocks + 1;
      },
      write m res (some (record { hdr = hdr; body = raw })),
    )

-- `space_put` with the `memcpy` or the `memmove` of `space_copy` and `space_move`: the bytes from
-- the header at `p` on are one block, which is read before it is written.
unfoldable pub space_put : Space → ℕ → ℕ → Memory → Run (ℕ × Space × Memory)
space_put space p size m =
    if ltb space.free_mem size
    then out_of_memory size space.free_mem
    else ok (
      space.pos,
      record space {
        pos = space.pos + size;
        free_mem = space.free_mem - size;
        blocks = space.blocks + 1;
      },
      write m (space.pos + bhdr_size) (m (p + bhdr_size)),
    )

-- The bytes of so many blocks of one size, `size*count` in `heap_require_blocks`: a product that is
-- no `int` is undefined.
abbrev pub blocks_size : ℕ → ℕ → Run ℕ
blocks_size size count =
    let n = (align_up size 8 + bhdr_size) * count in if ltb n (2 ^ 31) then ok n else undefined

unfoldable pub space_enough : Space → ℕ → Bool
space_enough space size = ltb (size + bhdr_size) space.free_mem

unfoldable pub in_space : Space → ℕ → Bool
in_space space p = leb space.mem p && ltb p (space.mem + space.size)
