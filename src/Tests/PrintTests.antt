-- ===== src/Tests/PrintTests.antt =====
-- The printing of a short list of numbers.
use lgears.Prelude.{
  ℕ, ◌+◌, ◌≡◌, refl, sym, arith, true, false, some, none, [], ◌∷◌, ◌==◌, if◌then◌else◌,
}
use lgears.Prelude.Text.{codes}
use lgears.Prelude.Int.{pos, negsuc}
use lgears.Prelude.Run.{ok}
use lgears.Object.{get_tag, ptr, fixnum}
use lgears.Object.Kinds.{kind, constants}
use lgears.Memory.{Memory, Block, pair, is_type}
use lgears.Types.{t_pair}
use lgears.Machine.{Thread}
use lgears.Lists.Built.{Spells}
use lgears.Print.{Printer, print_obj}
use lgears.Print.Listing.{ArePrinted, print_obj-list}
use lgears.Tests.ListTests.{thread}

-- Digits, for numbers below ten.
abbrev digits : Printer
digits = record {
  show_long = λ v. elim v [ pos n ↦ (48 + n) ∷ [] | negsuc n ↦ codes "-" ];
  show_char = λ v. codes "c";
  callable = λ p. none;
  name = λ p. [];
  static = λ p. none;
}

abbrev cell_of : ℕ → ℕ → ℕ → Block
cell_of car cdr n = record {
  hdr = record { type_id = t_pair; forward = false; generation = 0; remembered = false; size = 24 };
  body = pair car cdr true n;
}

-- The list of one and two, with its pairs at 512 and at 520.
abbrev cells : Memory
cells p =
    if p == 512 then some (cell_of 8 521 2) else if p == 520 then some (cell_of 16 5 1) else none

abbrev listing : Thread
listing = record thread { memory = cells }

listing-Spells : Spells listing 600 513 (8 ∷ 16 ∷ [])
unfolding is_type get_tag ptr
listing-Spells = (
  omega arith,
  (
    521,
    record {
      no_null = rw constants.0 refl;
      tested = refl;
      block = cell_of 8 521 2;
      here = refl;
      fields = refl;
    },
    (
      omega arith,
      (
        5,
        record {
          no_null = rw constants.0 refl;
          tested = refl;
          block = cell_of 16 5 1;
          here = refl;
          fields = refl;
        },
        sym (constants.0),
      ),
    ),
  ),
)

numbers-ArePrinted :
    ArePrinted (print_obj digits 2 cells) (8 ∷ 16 ∷ []) (codes "1" ∷ codes "2" ∷ [])
unfolding print_obj kind get_tag fixnum
numbers-ArePrinted = (refl, (refl, refl))

print_obj-list_example : print_obj digits 3 cells 513 ≡ ok (codes "(1 2)")
print_obj-list_example =
    print_obj-list digits listing 600 2 513 8 (16 ∷ []) (codes "1") (codes "2" ∷ []) listing-Spells
      numbers-ArePrinted (omega arith)
