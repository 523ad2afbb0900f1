-- ===== src/Space/Layout.antt =====
-- How the blocks lie in a space: they follow one another without a gap from the start of the space
-- to its position, so that the loops over `NEXT_HDR` meet each of them.
use lgears.Prelude.{ℕ, zero, suc, ◌+◌, ◌*◌, ◌%◌, ◌^◌, ◌≤◌, ◌<◌, ◌≡◌, ◌∙◌, some, arith}
use lgears.Memory.{Block, Memory, bhdr_size}
use lgears.Space.{Space, next_hdr, space_init}

-- From the header at `h` on, `n` blocks follow one another up to `e`.
abbrev pub Tiled : Memory → ℕ → ℕ → ℕ → Type 0
Tiled m h zero e = h ≡ e
Tiled m h (suc n) e =
    (b : Block) × (m (h + bhdr_size) ≡ some b)
    × (b.hdr.size % 8 ≡ 0)
    × Tiled m (next_hdr h b.hdr) n e

pub Tiled-le : (m : Memory) (n h e : ℕ) → Tiled m h n e → h + 8 * n ≤ e
Tiled-le m zero h e t = omega arith
Tiled-le m (suc n) h e (b, here, even, t) = omega (arith, Tiled-le m n (next_hdr h b.hdr) e t)

-- A change beyond the last block leaves the blocks as they are.
pub Tiled-frame :
    (m m' : Memory) (n h e : ℕ)
    → Tiled m h n e
    → ((q : ℕ) → h + 8 ≤ q → q ≤ e → m' q ≡ m q)
    → Tiled m' h n e
Tiled-frame m m' zero h e t same = t
Tiled-frame m m' (suc n) h e (b, here, even, t) same =
    let inside = Tiled-le m n (next_hdr h b.hdr) e t in
    (
      b,
      same (h + 8) (omega arith) (omega arith) ∙ here,
      even,
      Tiled-frame m m' n (next_hdr h b.hdr) e t (λ q low high. same q (omega arith) high),
    )

pub Tiled-suc :
    (m : Memory) (n h e : ℕ) (b : Block)
    → Tiled m h n e
    → m (e + bhdr_size) ≡ some b
    → b.hdr.size % 8 ≡ 0
    → Tiled m h (suc n) (next_hdr e b.hdr)
Tiled-suc m zero h e b t here even = (b, rw t here, even, rw t)
Tiled-suc m (suc n) h e b (c, there, even', t) here even =
    (c, there, even', Tiled-suc m n (next_hdr h c.hdr) e b t here even)

pub record IsSpace (s : Space) (m : Memory) : Type 0 where
  pub aligned : s.mem % 8 ≡ 0
  pub pos_aligned : s.pos % 8 ≡ 0
  pub size_aligned : s.size % 8 ≡ 0
  pub ordered : s.mem ≤ s.pos
  pub balance : s.pos + s.free_mem ≡ s.mem + s.size
  pub small : s.size < 2 ^ 32
  pub tiled : Tiled m s.mem s.blocks s.pos

-- `space_init` on aligned memory makes an empty space that has all of its memory free.
pub space_init-IsSpace :
    (mem size : ℕ) (m : Memory)
    → mem % 8 ≡ 0
    → size % 8 ≡ 0
    → size < 2 ^ 32
    → IsSpace (space_init mem size m).0 (space_init mem size m).1
unfolding space_init
space_init-IsSpace mem size m a b c = ground arith
