-- ===== src/Strings.antt =====
-- Strings, vm/strings.c. The characters of a string stand behind its structure, or where `str`
-- points to: at a symbol, or in memory that is no block, as the mapped file of a module, which
-- `static` gives. Where `str` points to nothing that is alive, an access is undefined.
-- `Strings/Make.antt` has the procedures that allocate a string, `Strings/Access.antt` laws.
pub mod Access
pub mod Make
use lgears.Prelude.{
  ℕ, ◌+◌, ◌-◌, ◌%◌, ◌^◌, Bool, true, false, ◌&&◌, not, Option, none, some, List, [], ◌∷◌, replicate,
  ltb, leb, ◌==◌, if◌then◌else◌, get_elem?, length, take, drop, ◌++◌,
}
use lgears.Prelude.Int.{ℤ, pos, negsuc, pos_part, sub_ℕ, ltb_ℤ, to_word}
use lgears.Prelude.Run.{Run, ok, undefined, ◌>>=◌, defined}
use lgears.Object.{
  ptr, fixnum, is_fixnum, is_char, char, make_char, cif, cvoid, is_heap_ptr, make_heap_ptr,
  make_tagged_ptr,
}
use lgears.Memory.{Memory, Block, Payload, string, symbol, write, is_type}
use lgears.Types.{t_string}
use lgears.Machine.{Thread, store}
use lgears.Space.{align_up}
use lgears.Heap.Visit.{sizeof_string}
use lgears.Allocator.{Allocator, Pointer, fill_in, heap_allocator}
use lgears.Vectors.{is_symbol}
use lgears.Native.{Rc, return_obj, return_fixnum, safe_assert, int_of, in_range}

abbrev pub is_string : Thread → ℕ → Bool
is_string t o = is_type t.memory o t_string

-- `string_t`, with the address of the structure.
pub record CString : Type 0 where
  pub block : Block
  pub at : ℕ
  pub str : ℕ
  pub size : ℕ
  pub allocated : Bool
  pub bytes : List ℕ

string_of : Block → ℕ → Payload → Run CString
string_of b p (string str size allocated bytes) =
    ok (record { block = b; at = p; str = str; size = size; allocated = allocated; bytes = bytes })
string_of b p other = undefined

unfoldable pub string_at : Memory → ℕ → Run CString
unfolding string_of
string_at m o = defined (m (ptr o)) >>= λ b. string_of b (ptr o) b.body

-- The bytes of a symbol.
symbol_of : Payload → Run (List ℕ)
symbol_of (symbol bytes) = ok bytes
symbol_of other = undefined

-- `n` bytes from a place on, and a copy over the bytes from a place on.
unfoldable pub bytes_from : List ℕ → ℕ → ℕ → Run (List ℕ)
bytes_from bytes start n =
    if leb (start + n) (length bytes) then ok (take n (drop start bytes)) else undefined

unfoldable pub copy_over : List ℕ → ℕ → List ℕ → Run (List ℕ)
copy_over bytes start new =
    if leb (start + length new) (length bytes)
    then ok (take start bytes ++ (new ++ drop (start + length new) bytes))
    else undefined

-- The bytes up to the NUL, as `strlen` and `strcmp` read them.
unfoldable pub up_to_nul : List ℕ → Run (List ℕ)
up_to_nul [] = undefined
up_to_nul (c ∷ cs) = if c == 0 then ok [] else (up_to_nul cs >>= λ rest. ok (c ∷ rest))

-- `strcmp(a, b) == 0`
unfoldable pub same_bytes : List ℕ → List ℕ → Bool
same_bytes [] [] = true
same_bytes [] (d ∷ ds) = false
same_bytes (c ∷ cs) [] = false
same_bytes (c ∷ cs) (d ∷ ds) = c == d && same_bytes cs ds

-- A byte as a `char`, which is signed.
abbrev pub char_of_byte : ℕ → ℤ
char_of_byte c = let b = c % 2 ^ 8 in if ltb b 128 then pos b else negsuc (255 - b)

-- `(char)` of a character object.
abbrev pub byte_of : ℕ → ℕ
byte_of o = to_word (char o) % 2 ^ 8

-- The sum of two sizes as the `int` that `heap_alloc` takes.
abbrev pub int_size : ℕ → Run ℕ
int_size n = if ltb n (2 ^ 31) then ok n else undefined

-- `pos + size <= n` on `int`
abbrev pub fits_at : ℤ → ℕ → ℕ → Bool
fits_at p size n = not (ltb_ℤ p (pos 0)) && leb (pos_part p + size) n

-- A length that is no `size_t` from a fixnum below zero.
abbrev pub length_of : ℤ → Run ℕ
length_of (pos n) = ok n
length_of (negsuc n) = undefined

-- `_string`: `text` are the bytes up to the NUL that `str` points to, which a copy does not keep.
unfoldable pub string_new : {S : Type 0} → Allocator S → ℕ → List ℕ → Bool → S → Run (ℕ × S)
string_new al str text copy s = do
  let ssize = length text + 1
  (p, s) ← al.alloc s (if copy then sizeof_string + ssize else sizeof_string) t_string
  s ← fill_in al s p (
      if copy
      then string (p + sizeof_string) ssize true (text ++ 0 ∷ [])
      else string str ssize false [])
  ok (make_tagged_ptr p al.id, s)

module _ (static : ℕ → Option (List ℕ)) where
  -- The bytes that `str` points to.
  unfoldable pub chars : Memory → CString → Run (List ℕ)
  unfolding symbol_of
  chars m s =
      if s.str == s.at + sizeof_string
      then ok s.bytes
      else elim (m s.str) [ some b ↦ symbol_of b.body | none ↦ defined (static s.str) ]

  unfoldable pub string_ref : Thread → ℕ → ℕ → Run (Rc × Thread)
  string_ref t ostr opos = safe_assert (is_string t ostr) t (
      safe_assert (is_fixnum opos) t (do
        s ← string_at t.memory ostr
        safe_assert (ltb_ℤ (int_of opos) (sub_ℕ s.size 1)) t (do
          p ← length_of (int_of opos)
          bytes ← chars t.memory s
          c ← defined (get_elem? bytes p)
          return_obj t (make_char (char_of_byte c)))))

  -- The write through `str`, where a mapped file cannot be written.
  unfoldable pub put_chars : Thread → CString → List ℕ → Run Thread
  put_chars t s bytes =
      if s.str == s.at + sizeof_string
      then ok (record t {
        memory =
            write t.memory s.at
              (some (record s.block { body = string s.str s.size s.allocated bytes }));
      })
      else (do
        b ← defined (t.memory s.str)
        ok (record t { memory = write t.memory s.str (some (record b { body = symbol bytes })) }))

  unfoldable pub string_set : Thread → ℕ → ℕ → ℕ → Run (Rc × Thread)
  string_set t ostr opos oval = safe_assert (is_string t ostr) t (
      safe_assert (is_fixnum opos) t (
        safe_assert (is_char oval) t (do
          s ← string_at t.memory ostr
          safe_assert (in_range (int_of opos) (s.size - 1)) t (do
            bytes ← chars t.memory s
            bytes ← store bytes (pos_part (int_of opos)) (byte_of oval)
            t ← put_chars t s bytes
            return_obj t cvoid))))

  unfoldable pub string_length : Thread → ℕ → Run (Rc × Thread)
  string_length t ostr =
      safe_assert (is_string t ostr) t
        (do s ← string_at t.memory ostr; return_fixnum t (sub_ℕ s.size 1))

  unfoldable pub string_eq : Thread → ℕ → ℕ → Run (Rc × Thread)
  string_eq t a b = safe_assert (is_string t a) t (
      safe_assert (is_string t b) t (do
        sa ← string_at t.memory a
        sb ← string_at t.memory b
        ca ← chars t.memory sa
        cb ← chars t.memory sb
        xa ← up_to_nul ca
        xb ← up_to_nul cb
        return_obj t (cif (same_bytes xa xb))))

  unfoldable pub string_copy_to : Thread → ℕ → ℕ → ℕ → Run (Rc × Thread)
  string_copy_to t odest opos osrc = safe_assert (is_string t odest) t (
      safe_assert (is_heap_ptr odest) t (
        safe_assert (is_string t osrc) t (
          safe_assert (is_fixnum opos) t (do
            src ← string_at t.memory osrc
            dst ← string_at t.memory odest
            safe_assert dst.allocated t (
                safe_assert (fits_at (int_of opos) src.size dst.size) t (do
                  from ← chars t.memory src
                  new ← bytes_from from 0 (src.size - 1)
                  bytes ← chars t.memory dst
                  bytes ← copy_over bytes (pos_part (int_of opos)) new
                  t ← put_chars t dst bytes
                  return_obj t cvoid))))))
