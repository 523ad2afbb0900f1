-- ===== src/Strings/Access.antt =====
-- `string-ref` and `string-set!` of vm/strings.c on strings whose characters stand behind them.
use lgears.Prelude.{
  ℕ, suc, ◌%◌, ◌+◌, ◌-◌, ◌^◌, ◌≤◌, ◌<◌, ◌≡◌, ◌⊎◌, inl, inr, refl, ◌∙◌, arith, Bool, true, false,
  some, List, ◌==◌, leb, ltb, if◌then◌else◌, length, length-set, get_elem?, set, Bool-cases, Option,
}
use lgears.Prelude.Int.{ℤ, to_word, InRange, pos, negsuc, sub_ℕ}
use lgears.Prelude.Run.{ok, undefined}
use lgears.Object.{is_char, char, make_fixnum, make_char, ptr, cvoid}
use lgears.Memory.{Block, string, write}
use lgears.Types.{t_string}
use lgears.Machine.{Thread}
use lgears.Machine.Stack.{store-set, get_elem?-some, get_elem?-set}
use lgears.Heap.Visit.{sizeof_string}
use lgears.Native.{rc_error, return_obj}
use lgears.Native.Struct.{
  is_type-write, int_of-make_fixnum, int_of-int, is_fixnum-make_fixnum, in_range-small,
}
use lgears.Strings.{
  is_string, CString, string_at, chars, char_of_byte, byte_of, string_ref, string_set, put_chars,
}

-- The object is a string with its characters, of which one is the NUL, behind it.
pub record HasString (t : Thread) (o : ℕ) (b : Block) (size : ℕ) (allocated : Bool) (bytes : List ℕ)
    : Type 0 where
  pub tested : is_string t o ≡ true
  pub block : t.memory (ptr o) ≡ some b
  pub body : b.body ≡ string (ptr o + sizeof_string) size allocated bytes
  pub ended : 0 < size
  pub room : size ≤ length bytes

-- A `char`, which is signed, with the low eight bits of a word.
pub record IsCharOf (word : ℕ) (c : ℤ) : Type 0 where
  pub range : InRange (2 ^ 7) c
  pub same : to_word c % 2 ^ 8 ≡ word % 2 ^ 8

char_of_byte-IsCharOf : (w : ℕ) → IsCharOf w (char_of_byte w)
char_of_byte-IsCharOf w = elim (Bool-cases (ltb (w % 2 ^ 8) 128)) [
  | inl small ↦ record { range = rw small (ground arith); same = rw small (omega arith) }
  | inr large ↦ record { range = rw large (ground arith); same = rw large (ground arith) }
]

byte_of-IsCharOf : (oval : ℕ) → IsCharOf (to_word (char oval)) (char_of_byte (byte_of oval))
byte_of-IsCharOf oval =
    let c = char_of_byte-IsCharOf (byte_of oval) in
    record { range = c.range; same = c.same ∙ omega arith }

module _ (static : ℕ → Option (List ℕ)) (t : Thread) (o : ℕ) (b : Block) (size : ℕ)
    (allocated : Bool) (bytes : List ℕ) (h : HasString t o b size allocated bytes) where
  abbrev shape : CString
  shape = record {
    block = b;
    at = ptr o;
    str = ptr o + sizeof_string;
    size = size;
    allocated = allocated;
    bytes = bytes;
  }

  found : string_at t.memory o ≡ ok shape
  unfolding string_at
  found = rw (h.block, h.body)

  own : chars static t.memory shape ≡ ok bytes
  unfolding chars
  own = let same : (ptr o + sizeof_string == ptr o + sizeof_string) ≡ true = ground arith in rw same

  last : sub_ℕ size 1 ≡ pos (size - 1)
  last = let some_bytes : leb 1 size ≡ true = let e = h.ended in ground arith in rw some_bytes

  -- A reference to a string that has its characters behind it, at a number that an `int` has room
  -- for, is an error where the position is that of the NUL or behind it, and gives the character at
  -- a position that is inside, as a signed `char`. Where the position is negative, which the code
  -- does not test, it reads in front of the string.
  pub string_ref_lem :
      (z : ℤ)
      → InRange (2 ^ 31) z
      → ((n : ℕ) × (z ≡ pos n)
          × (size - 1 ≤ n)
          × (string_ref static t o (make_fixnum z) ≡ ok (rc_error, t)))
        ⊎ ((n : ℕ) × (byte : ℕ) × (c : ℤ) × (z ≡ pos n)
            × (n < size - 1)
            × (get_elem? bytes n ≡ some byte)
            × IsCharOf byte c
            × (string_ref static t o (make_fixnum z) ≡ return_obj t (make_char c)))
        ⊎ ((n : ℕ) × (z ≡ negsuc n) × (string_ref static t o (make_fixnum z) ≡ undefined))
  unfolding string_ref
  string_ref_lem (negsuc n) fits =
      let passes : ltb (0 + 0) (size - 1 + suc n) ≡ true = ground arith in
      let less : ltb (0 + 0) (0 + suc n) ≡ true = ground arith in
      let fix = is_fixnum-make_fixnum (negsuc n) in
      inr (inr (n, refl, rw (h.tested, fix, found, last, int_of-int (negsuc n) fits, passes)))
  string_ref_lem (pos n) fits =
      let fix = is_fixnum-make_fixnum (pos n) in
      let at = int_of-int (pos n) fits in
      elim (Bool-cases (ltb (n + 0) (size - 1 + 0))) [
        | inr outside ↦ inl (n, refl, ground arith, rw (h.tested, fix, found, last, at, outside))
        | inl inside ↦
            let (byte, there) = get_elem?-some bytes n (let r = h.room in ground arith) in
            inr (
              inl (
                n,
                byte,
                char_of_byte byte,
                refl,
                ground arith,
                there,
                char_of_byte-IsCharOf byte,
                rw (h.tested, fix, found, last, at, inside, own, there),
              ))
      ]

-- The thread after an assignment to one character.
abbrev pub with_char : Thread → ℕ → Block → ℕ → Bool → List ℕ → ℕ → ℕ → Thread
with_char t o b size allocated bytes n oval = record t {
  memory = write t.memory (ptr o) (
      some (record b {
        body = string (ptr o + sizeof_string) size allocated (set bytes n (byte_of oval));
      }));
}

some-if : (c : Bool) (x y : ℕ) → (if c then some x else some y) ≡ some (if c then x else y)
some-if true x y = refl
some-if false x y = refl

if-char :
    (c : Bool) (x y : ℕ)
    → char_of_byte (if c then x else y) ≡ (if c then char_of_byte x else char_of_byte y)
if-char true x y = refl
if-char false x y = refl

module _ (static : ℕ → Option (List ℕ)) (t : Thread) (o : ℕ) (b : Block) (size : ℕ)
    (allocated : Bool) (bytes : List ℕ) (h : HasString t o b size allocated bytes) (n oval : ℕ)
    (inside : n < size - 1) (int : size ≤ 2 ^ 31) where
  abbrev after : Thread
  after = with_char t o b size allocated bytes n oval

  after-HasString :
      HasString after o
        (record b {
          body = string (ptr o + sizeof_string) size allocated (set bytes n (byte_of oval));
        })
        size
        allocated
        (set bytes n (byte_of oval))
  after-HasString = record {
    tested = is_type-write t.memory o t_string b _ h.block ∙ h.tested;
    block = let same : (ptr o == ptr o) ≡ true = ground arith in rw same;
    body = refl;
    ended = h.ended;
    room = omega (arith, length-set bytes n (byte_of oval), h.room);
  }

  string_set-after :
      is_char oval ≡ true
      → string_set static t o (make_fixnum (pos n)) oval ≡ return_obj after cvoid
  unfolding string_set put_chars
  string_set-after char =
      let same : (ptr o + sizeof_string == ptr o + sizeof_string) ≡ true = ground arith in
      rw (
        h.tested,
        is_fixnum-make_fixnum (pos n),
        char,
        found static t o b size allocated bytes h,
        int_of-make_fixnum n (omega arith),
        in_range-small n (size - 1) inside,
        own static t o b size allocated bytes h,
        store-set bytes n (byte_of oval) (let r = h.room in omega arith),
        same,
      )

  -- The character at a position inside of a string whose bytes are known there.
  read_at :
      (u : Thread) (block : Block) (cs : List ℕ) (w : HasString u o block size allocated cs)
      (k byte : ℕ)
      → k < size - 1
      → get_elem? cs k ≡ some byte
      → string_ref static u o (make_fixnum (pos k)) ≡ return_obj u (make_char (char_of_byte byte))
  unfolding string_ref
  read_at u block cs w k byte below there =
      let within : ltb (k + 0) (size - 1 + 0) ≡ true = ground arith in
      rw (
        w.tested,
        is_fixnum-make_fixnum (pos k),
        found static u o block size allocated cs w,
        last static u o block size allocated cs w,
        int_of-make_fixnum k (omega arith),
        within,
        own static u o block size allocated cs w,
        there,
      )

  -- An assignment of a character to a position of a string that has its characters behind it, as
  -- far as an `int` counts, keeps its low eight bits: there the signed `char` of these is read back,
  -- which a character of ASCII is itself, and at every other position what was read before.
  pub string_ref-string_set :
      (k : ℕ)
      → is_char oval ≡ true
      → k < size - 1
      → (old : ℤ) × (new : ℤ) × (string_ref static t o (make_fixnum (pos k))
          ≡ return_obj t (make_char old))
        × (string_set static t o (make_fixnum (pos n)) oval ≡ return_obj after cvoid)
        × IsCharOf (to_word (char oval)) new
        × (string_ref static after o (make_fixnum (pos k))
            ≡ return_obj after (make_char (if n == k then new else old)))
  string_ref-string_set k char below =
      let (byte, e) = get_elem?-some bytes k (let r = h.room in omega arith) in
      let w = after-HasString in
      let stored : get_elem? (set bytes n (byte_of oval)) k
          ≡ some (if n == k then byte_of oval else byte) =
        rw (get_elem?-set bytes n k (byte_of oval) (let r = h.room in omega arith), e)
          (some-if (n == k) (byte_of oval) byte) in
      (
        char_of_byte byte,
        char_of_byte (byte_of oval),
        read_at t b bytes h k byte below e,
        string_set-after char,
        byte_of-IsCharOf oval,
        rw (read_at after _ _ w k _ below stored, if-char (n == k) (byte_of oval) byte),
      )
