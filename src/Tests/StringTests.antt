-- ===== src/Tests/StringTests.antt =====
-- Procedures on a string.
use lgears.Prelude.{
  ℕ, ◌≡◌, ◌≤◌, ◌<◌, ◌⊎◌, refl, arith, true, false, some, none, List, Option, [], ◌∷◌, ◌==◌,
  if◌then◌else◌, get_elem?,
}
use lgears.Prelude.Int.{ℤ, pos, negsuc, to_word}
use lgears.Prelude.Run.{ok, undefined}
use lgears.Object.{make_fixnum, make_char, char, get_tag, ptr, cvoid}
use lgears.Memory.{Block, string, is_type}
use lgears.Types.{t_string}
use lgears.Machine.{Thread, on_stack}
use lgears.Native.{rc_error, return_obj}
use lgears.Strings.{string_ref, string_set}
use lgears.Strings.Access.{HasString, IsCharOf, with_char, string_ref_lem, string_ref-string_set}
use lgears.Tests.Data.{idle}

-- "hi" at 512, in the 24 bytes that a block for it has.
abbrev hi : Block
hi = record {
  hdr = record {
    type_id = t_string;
    forward = false;
    generation = 0;
    remembered = false;
    size = 24;
  };
  body = string 528 3 true (104 ∷ 105 ∷ 0 ∷ 0 ∷ 0 ∷ 0 ∷ 0 ∷ 0 ∷ []);
}

abbrev thread : Thread
thread = record {
  heap = idle;
  memory = λ p. if p == 512 then some hi else none;
  opstack = 0 ∷ 0 ∷ 0 ∷ 0 ∷ [];
  op_stack_idx = 0;
  objects = on_stack 0;
  env = 0;
  bindmap = none;
  func = 0;
  closure = 0;
  heap_env = false;
  lib_cache = 5;
  exception_handlers = 5;
  local_roots = [];
  tramp = record { func = 0; argc = 0 };
}

abbrev static : ℕ → Option (List ℕ)
static p = none

abbrev bytes : List ℕ
bytes = 104 ∷ 105 ∷ 0 ∷ 0 ∷ 0 ∷ 0 ∷ 0 ∷ 0 ∷ []

hi-HasString : HasString thread 513 hi 3 true bytes
unfolding is_type ptr get_tag
hi-HasString = record {
  tested = refl;
  block = refl;
  body = refl;
  ended = omega arith;
  room = omega arith;
}

-- A reference to the second character.
string_ref_lem_example :
    ((n : ℕ) × (pos 1 ≡ pos n)
      × (2 ≤ n)
      × (string_ref static thread 513 (make_fixnum (pos 1)) ≡ ok (rc_error, thread)))
    ⊎ ((n : ℕ) × (byte : ℕ) × (c : ℤ) × (pos 1 ≡ pos n)
        × (n < 2)
        × (get_elem? bytes n ≡ some byte)
        × IsCharOf byte c
        × (string_ref static thread 513 (make_fixnum (pos 1)) ≡ return_obj thread (make_char c)))
    ⊎ ((n : ℕ) × (pos 1 ≡ negsuc n)
        × (string_ref static thread 513 (make_fixnum (pos 1)) ≡ undefined))
string_ref_lem_example =
    string_ref_lem static thread 513 hi 3 true bytes hi-HasString (pos 1) (omega arith)

-- The first character becomes "H", the object 579.
abbrev after : Thread
after = with_char thread 513 hi 3 true bytes 0 579

string_ref-string_set_example :
    (old : ℤ) × (new : ℤ) × (string_ref static thread 513 (make_fixnum (pos 0))
      ≡ return_obj thread (make_char old))
    × (string_set static thread 513 (make_fixnum (pos 0)) 579 ≡ return_obj after cvoid)
    × IsCharOf (to_word (char 579)) new
    × (string_ref static after 513 (make_fixnum (pos 0)) ≡ return_obj after (make_char new))
unfolding get_tag
string_ref-string_set_example =
    string_ref-string_set static thread 513 hi 3 true bytes hi-HasString 0 579 (omega arith)
      (omega arith) 0 refl (omega arith)
