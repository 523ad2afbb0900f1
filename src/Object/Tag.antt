-- ===== src/Object/Tag.antt =====
-- The tags of vm/types.h: the values of its first enumeration, the width of a tag and its masks.
use lgears.Prelude.{ℕ, ◌-◌, ◌^◌}

abbrev pub fixnum : ℕ
fixnum = 0

abbrev pub ptr : ℕ
ptr = 1

abbrev pub const_ptr : ℕ
const_ptr = 2

abbrev pub char : ℕ
char = 3

abbrev pub func : ℕ
func = 4

abbrev pub const : ℕ
const = 5

abbrev pub size : ℕ
size = 3

abbrev pub mask : ℕ
mask = 7

-- `(unsigned long)-1 - TAG_MASK`
abbrev pub unmask : ℕ
unmask = 2 ^ 64 - 1 - mask
