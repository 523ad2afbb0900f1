-- ===== src/Symbols/Interned.antt =====
-- Strings with the same characters are one symbol.
use lgears.Prelude.{ℕ, ◌+◌, ◌≡◌, ◌≢◌, Bool, some, List, ◌==◌, if◌then◌else◌, length, All}
use lgears.Object.{make_const_ptr}
use lgears.Hash.{HashNode, HashTable, hash_table_insert}
use lgears.Hash.Buckets.{chain}
use lgears.Hash.Valid.{value, IsValid}
use lgears.Hash.Functions.{Strcmp}
use lgears.Pool.{const_allocator_alloc, linked_mem_size}
use lgears.Types.{t_symbol}
use lgears.Symbols.{Symbols, over, copied_to, make_symbol}

-- Two keys that compare alike with the keys of a chain find the same.
module _ (e e' : ℕ → ℕ → Bool) (q q' : ℕ) where
  abbrev AgreeOn : List HashNode → Type 0
  AgreeOn c = All (λ (n : HashNode). e n.key q ≡ e' n.key q') c

-- No node of the table has the address for its key.
abbrev pub IsNewKey : ℕ → HashTable → Type 0
IsNewKey res t = (i : ℕ) → All (λ (n : HashNode). n.key ≢ res) (chain t.nodes i)

module _ (lib : Strcmp) (text : ℕ → List ℕ) (tbl : HashTable) where
  abbrev strings : HashTable
  strings = over lib text tbl

  -- A string is copied to an address that is no key of the table.
  module _ (res str : ℕ) (valid : IsValid strings) (new : IsNewKey res tbl) where
    abbrev text' : ℕ → List ℕ
    text' = copied_to text res str

    -- The string that a key had the characters of before.
    abbrev before : ℕ → ℕ
    before q = if res == q then str else q

    abbrev later : HashTable
    later = over lib text' tbl

-- The table is valid, and holds under each string a symbol of the same characters.
pub record AreSymbols (lib : Strcmp) (s : Symbols) : Type 0 where
  pub valid : IsValid (over lib s.text s.sym_table)
  pub spelled :
      (q v : ℕ) → value (over lib s.text s.sym_table) q ≡ some v → (v ≢ 0) × (s.text v ≡ s.text q)

-- The address of the next symbol is that of none.
pub record IsFresh (lib : Strcmp) (s : Symbols) (res : ℕ) : Type 0 where
  pub some_address : res ≢ 0
  pub no_key : IsNewKey res s.sym_table
  pub no_value : (q : ℕ) → value (over lib s.text s.sym_table) q ≢ some res

-- The symbol of a string: it has the characters of the string, and any string that has them
-- is given the same symbol from then on, with no change to the table.
pub record IsSymbolOf (lib : Strcmp) (s : Symbols) (str : ℕ) (r : ℕ × Symbols) : Type 0 where
  pub at : ℕ
  pub object : r.0 ≡ make_const_ptr at
  pub spells : r.1.text at ≡ s.text str
  pub symbols : AreSymbols lib r.1
  pub again : (new q : ℕ) → r.1.text q ≡ s.text str → make_symbol lib new q r.1 ≡ r

module _ (lib : Strcmp) where
  -- The symbols after a new one has been entered.
  abbrev entered : Symbols → ℕ → ℕ → Symbols
  entered s new str =
      let res = new + linked_mem_size in
      record {
        sym_table = (hash_table_insert (over lib (copied_to s.text res str) s.sym_table) res res).0;
        pool = (const_allocator_alloc new s.pool (length (s.text str) + 1) t_symbol).1;
        text = copied_to s.text res str;
      }
