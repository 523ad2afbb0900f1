-- ===== src/Space/Alloc.antt =====
-- Allocation in a space, and the copy of a block into one.
use lgears.Prelude.{
  ℕ, suc, ◌+◌, ◌-◌, ◌*◌, ◌/◌, ◌%◌, ◌^◌, ◌≤◌, ◌<◌, ◌≡◌, ◌≢◌, ◌⊎◌, inl, inr, refl, false, none, some,
  arith, ltb, Bool-cases,
}
use lgears.Prelude.Bits.{bit_and-clear}
use lgears.Prelude.Run.{ok, out_of_memory}
use lgears.Memory.{Block, Memory, bhdr_size, write, raw}
use lgears.Space.{Space, align_up, next_hdr, space_alloc, space_put}
use lgears.Space.Layout.{Tiled, Tiled-frame, Tiled-suc, IsSpace}

-- The next multiple of eight.
abbrev pub padded : ℕ → ℕ
padded n = (n + 7) / 8 * 8

pub align_up-padded : (n : ℕ) → n + 7 < 2 ^ 64 → align_up n 8 ≡ padded n
unfolding align_up
align_up-padded n h = omega (arith, bit_and-clear ((n + 7) % 2 ^ 64) (omega arith))

-- A space took a block with a payload of `n` bytes at `p`, behind all of its blocks; it is still
-- well formed, and the memory is changed at `p` alone.
pub record Grown (s : Space) (m : Memory) (n p : ℕ) (b : Block) (s' : Space) (m' : Memory)
    : Type 0 where
  pub after : IsSpace s' m'
  pub at : p ≡ s.pos + bhdr_size
  pub next : s'.pos ≡ p + n
  pub inside : s'.pos ≤ s.mem + s.size
  pub free : s'.free_mem + bhdr_size + n ≡ s.free_mem
  pub counted : s'.blocks ≡ suc s.blocks
  pub region : (s'.mem ≡ s.mem) × (s'.size ≡ s.size)
  pub holds : m' p ≡ some b
  pub same : (q : ℕ) → q ≢ p → m' q ≡ m q

-- A space that is moved on over one more block.
abbrev pub advance : Space → ℕ → Space
advance s n = record s {
  pos = s.pos + bhdr_size + n;
  free_mem = s.free_mem - (n + bhdr_size);
  blocks = s.blocks + 1;
}

pub advance-Grown :
    (s : Space) (m : Memory) (n : ℕ) (b : Block)
    → IsSpace s m
    → n + bhdr_size ≤ s.free_mem
    → n % 8 ≡ 0
    → b.hdr.size ≡ n
    → Grown s m n (s.pos + bhdr_size) b (advance s n) (write m (s.pos + bhdr_size) (some b))
advance-Grown s m n b v fits even sized =
    let m' = write m (s.pos + bhdr_size) (some b) in
    let holds : m' (s.pos + bhdr_size) ≡ some b = ground arith in
    let old : Tiled m' s.mem s.blocks s.pos =
      Tiled-frame m m' s.blocks s.mem s.pos v.tiled (λ q low high. ground arith) in
    let new : Tiled m' s.mem (suc s.blocks) (next_hdr s.pos b.hdr) =
      Tiled-suc m' s.blocks s.mem s.pos b old holds (omega arith) in
    let one_more : s.blocks + 1 ≡ suc s.blocks = omega arith in
    let ends : s.pos + bhdr_size + n ≡ next_hdr s.pos b.hdr = omega (arith, sized) in
    record {
      after = record {
        aligned = v.aligned;
        pos_aligned = omega (arith, v.pos_aligned);
        size_aligned = v.size_aligned;
        ordered = omega (arith, v.ordered);
        balance = omega (arith, v.balance);
        small = v.small;
        tiled = rw (one_more, ends) new;
      };
      at = refl;
      next = refl;
      inside = omega (arith, v.balance);
      free = omega arith;
      counted = omega arith;
      region = (refl, refl);
      holds = holds;
      same = λ q away. ground arith;
    }

-- What `space_alloc` writes in front of a payload of `n` bytes.
abbrev pub fresh_block : ℕ → ℕ → Block
fresh_block type_id n = record {
  hdr = record {
    type_id = type_id % 2 ^ 16;
    forward = false;
    generation = 0;
    remembered = false;
    size = n;
  };
  body = raw;
}

module _ (s : Space) (m : Memory) (size type_id : ℕ) (v : IsSpace s m)
    (word : size + 7 < 2 ^ 64) where
  -- `space_alloc` answers NULL exactly if the padded size with its header is more than what is free.
  -- Otherwise the space takes a block of the padded size, whose payload starts at a multiple of
  -- eight and whose header carries the type and the size; all other blocks stay as they are.
  pub space_alloc_lem :
      (s.free_mem < padded size + bhdr_size) × (space_alloc s size type_id m ≡ none)
      ⊎ (padded size + bhdr_size ≤ s.free_mem)
        × (p : ℕ) × (s' : Space) × (m' : Memory) × (space_alloc s size type_id m ≡ some (p, s', m'))
        × Grown s m (padded size) p (fresh_block type_id (padded size)) s' m'
        × (p % 8 ≡ 0)
  unfolding space_alloc
  space_alloc_lem = elim (Bool-cases (ltb s.free_mem (padded size + bhdr_size))) [
    | inl full ↦ inl (ground arith, rw (align_up-padded size word, full))
    | inr fits ↦
        let room : padded size + bhdr_size ≤ s.free_mem = ground arith in
        let kept : padded size % 2 ^ 32 ≡ padded size =
          omega (arith, v.balance, v.small, v.ordered) in
        inr (
          room,
          s.pos + bhdr_size,
          advance s (padded size),
          write m (s.pos + bhdr_size) (some (fresh_block type_id (padded size))),
          rw (align_up-padded size word, fits, kept),
          advance-Grown s m (padded size) (fresh_block type_id (padded size)) v room (omega arith)
              refl,
          omega (arith, v.pos_aligned),
        )
  ]

-- A block is copied whole: header and payload stand at the end of the space, as they were; where
-- they do not fit the program ends.
pub space_put_lem :
    (s : Space) (m : Memory) (p : ℕ) (b : Block)
    → IsSpace s m
    → m (p + bhdr_size) ≡ some b
    → b.hdr.size % 8 ≡ 0
    → (s.free_mem < bhdr_size + b.hdr.size)
        × (space_put s p (bhdr_size + b.hdr.size) m
            ≡ out_of_memory (bhdr_size + b.hdr.size) s.free_mem)
      ⊎ (s' : Space) × (m' : Memory) × (space_put s p (bhdr_size + b.hdr.size) m
          ≡ ok (s.pos, s', m'))
        × Grown s m b.hdr.size (s.pos + bhdr_size) b s' m'
unfolding space_put
space_put_lem s m p b v here even = elim (Bool-cases (ltb s.free_mem (bhdr_size + b.hdr.size))) [
  | inl full ↦ inl (ground arith, rw full)
  | inr fits ↦ inr (
    advance s b.hdr.size,
    write m (s.pos + bhdr_size) (some b),
    rw (fits, here) (ground arith),
    advance-Grown s m b.hdr.size b v (ground arith) even refl,
  )
]
