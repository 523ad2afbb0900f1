-- ===== src/Memory.antt =====
-- The memory that holds objects. A block is a header, `block_hdr_t` of vm/types.h, and behind it
-- the payload, one of the structures of vm/vm.h, vm/primitives.h, vm/strings.h, vm/struct.h and
-- vm/bytevector.h. A memory maps the address of a payload to its block; `HTYPE` is the step back
-- over the header. An array that a payload has behind its structure is a list, beside the field
-- that points to it.
use lgears.Prelude.{ℕ, Bool, false, ◌&&◌, ◌||◌, Option, none, some, List, ◌==◌, if◌then◌else◌}
use lgears.Object.{ptr, is_heap_ptr, is_const_ptr}

-- The bit fields are numbers and tests here; `size` is that of the payload, with its padding.
pub record BlockHdr : Type 0 where
  pub type_id : ℕ
  pub forward : Bool
  pub generation : ℕ
  pub remembered : Bool
  pub size : ℕ

-- `BHDR_SIZE`: two bytes of type, the bit fields in the next two, and four of size.
abbrev pub bhdr_size : ℕ
bhdr_size = 8

pub data Payload : Type 0 where
  -- not yet written
  raw : Payload
  -- `env_t`: prev, size, depth, objects
  env : ℕ → ℕ → ℕ → ℕ → List ℕ → Payload
  -- `closure_t`: env, func
  closure : ℕ → ℕ → Payload
  -- `continuation_t`: func
  cont : ℕ → Payload
  -- `pair_t`: car, cdr, list, length
  pair : ℕ → ℕ → Bool → ℕ → Payload
  -- `string_t`: str, size, allocated
  string : ℕ → ℕ → Bool → List ℕ → Payload
  -- the bytes of a symbol
  symbol : List ℕ → Payload
  -- `struct_t`: type_name, size, fields
  struct : ℕ → ℕ → ℕ → List ℕ → Payload
  -- `bytevector_t`: data, size
  bytevector : ℕ → ℕ → List ℕ → Payload
  -- the forward pointer that the collector writes over the first word
  forwarded : ℕ → Payload

pub record Block : Type 0 where
  pub hdr : BlockHdr
  pub body : Payload

abbrev pub Memory : Type 0
Memory = ℕ → Option Block

abbrev pub write : Memory → ℕ → Option Block → Memory
write m p b q = if p == q then b else m q

-- `IS_TYPE`: the object is a pointer, and the header in front of what it points to has the type.
unfoldable pub is_type : Memory → ℕ → ℕ → Bool
is_type m obj tid =
    (is_heap_ptr obj || is_const_ptr obj)
    && (elim (m (ptr obj)) [ some b ↦ b.hdr.type_id == tid | none ↦ false ])
