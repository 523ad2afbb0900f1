-- ===== src/Tests/HashTests.antt =====
-- Hash tables.
use lgears.Prelude.{
  ℕ, zero, suc, ◌+◌, ◌*◌, ◌%◌, ◌^◌, ◌≡◌, refl, none, some, List, [], ◌∷◌, arith, flatten, length,
  ◌==◌, get_or, replicate, if◌then◌else◌,
}
use lgears.Prelude.Int.{ℤ, pos}
use lgears.Hash.{
  HashTable, hash_table_init, hash_table_insert, hash_table_lookup, hash_table_destroy,
  spaced_primes_closest,
}
use lgears.Hash.Destroy.{Destroyed, freed, hash_table_destroy_lem}
use lgears.Hash.Functions.{
  string_hash, polynomial, direct_hash, direct_equal, direct_keys-Lawful, Strcmp, string_equal,
  string_hash-polynomial, string_keys-Lawful,
}
use lgears.Hash.Insert.{lookup-value, Inserted, insert-Inserted, lookup-insert}
use lgears.Hash.Keys.{same, Lawful}
use lgears.Hash.Primes.{Closest, spaced_primes_closest_lem}
use lgears.Hash.Valid.{IsValid, init-IsValid, or_null, reshape, value}

tables : Unit {0}
unfolding hash_table_init hash_table_insert hash_table_lookup hash_table_destroy
    spaced_primes_closest string_hash direct_hash direct_equal get_or replicate
tables = tt

-- "list" as the C compiler hashes it.
hash_of_list : string_hash (108 ∷ 105 ∷ 115 ∷ 116 ∷ []) ≡ 3322014
unfolding tables
hash_of_list = refl

-- A byte above 127 is a negative `char`.
hash_of_high_byte : string_hash (255 ∷ []) ≡ 0xffff_ffff
unfolding tables
hash_of_high_byte = refl

primes_above : (spaced_primes_closest 33 ≡ 37) × (spaced_primes_closest 37 ≡ 73)
unfolding tables
primes_above = (refl, refl)

abbrev empty : HashTable
unfolding hash_table_init
empty = hash_table_init direct_hash (some direct_equal)

abbrev fill : ℕ → HashTable → HashTable
fill zero t = t
fill (suc n) t = (hash_table_insert (fill n t) (8 * n) (n + 100)).0

-- The thirty-third node makes the table grow.
grows :
    ((fill 32 empty).size ≡ 11)
    × ((fill 33 empty).size ≡ 37)
    × (hash_table_lookup (fill 33 empty) 24 ≡ 103)
unfolding tables
grows = (refl, refl, refl)

abbrev empty-Lawful : Lawful direct_hash (same (some direct_equal))
empty-Lawful = direct_keys-Lawful

init-IsValid_example :
    IsValid (hash_table_init direct_hash (some direct_equal))
    × ((k : ℕ) → value (hash_table_init direct_hash (some direct_equal)) k ≡ none)
init-IsValid_example = init-IsValid direct_hash (some direct_equal) direct_keys-Lawful

-- The table with the value 70 under 0, and then with 71 under 11, which falls into the same chain.
empty-IsValid : IsValid empty
unfolding hash_table_init
empty-IsValid = (init-IsValid direct_hash (some direct_equal) direct_keys-Lawful).0

abbrev first : Inserted empty 0 70 (hash_table_insert empty 0 70)
unfolding hash_table_init
first = insert-Inserted empty direct_keys-Lawful empty-IsValid 0 70

abbrev one : HashTable
unfolding hash_table_init
one = reshape empty first.size first.nnodes first.nodes

one-IsValid : IsValid one
unfolding hash_table_init
one-IsValid = first.valid

insert-Inserted_example : Inserted one 11 71 (hash_table_insert one 11 71)
unfolding hash_table_init
insert-Inserted_example = insert-Inserted one direct_keys-Lawful one-IsValid 11 71

lookup-insert_example : hash_table_lookup (hash_table_insert one 11 71).0 11 ≡ 71
unfolding hash_table_init direct_equal
lookup-insert_example = lookup-insert one direct_keys-Lawful one-IsValid 11 71 11

lookup-value_example : hash_table_lookup one 0 ≡ or_null (value one 0)
unfolding hash_table_init
lookup-value_example = lookup-value one direct_keys-Lawful one-IsValid 0

hash_table_destroy_lem_example :
    Destroyed one (flatten one.nodes) (hash_table_destroy one)
    × (length (freed (hash_table_destroy one)) ≡ one.nnodes)
unfolding hash_table_init
hash_table_destroy_lem_example = hash_table_destroy_lem one one-IsValid

spaced_primes_closest_lem_example : Closest 33 (spaced_primes_closest 33)
spaced_primes_closest_lem_example = spaced_primes_closest_lem 33

string_hash-polynomial_example :
    string_hash (108 ∷ 105 ∷ []) ≡ polynomial 0 (108 ∷ 105 ∷ []) % 2 ^ 32
string_hash-polynomial_example = string_hash-polynomial (108 ∷ 105 ∷ [])

-- A comparison of strings that meets the documented behaviour of `strcmp`.
pub compare_bytes : List ℕ → List ℕ → ℤ
compare_bytes [] [] = pos 0
compare_bytes [] (b ∷ ys) = pos 1
compare_bytes (a ∷ xs) [] = pos 1
compare_bytes (a ∷ xs) (b ∷ ys) = if a == b then compare_bytes xs ys else pos 1

pub compare_bytes-eq : (a b : List ℕ) → compare_bytes a b ≡ pos 0 → a ≡ b
unfolding compare_bytes
compare_bytes-eq [] [] h = refl
compare_bytes-eq [] (b ∷ ys) h = cc
compare_bytes-eq (a ∷ xs) [] h = cc
compare_bytes-eq (a ∷ xs) (b ∷ ys) h = ground (arith, compare_bytes-eq xs ys)

pub compare_bytes_self : (a : List ℕ) → compare_bytes a a ≡ pos 0
unfolding compare_bytes
compare_bytes_self [] = refl
compare_bytes_self (a ∷ xs) = ground (arith, compare_bytes_self xs)

abbrev pub strings : Strcmp
strings = record {
  strcmp = compare_bytes;
  strcmp_iff = λ a b. (compare_bytes-eq a b, λ e. rw e (compare_bytes_self b));
}

-- The symbol table of vm/strings.c hashes the texts that its keys point to.
abbrev text : ℕ → List ℕ
text p = p ∷ []

string_keys-Lawful_example :
    Lawful (λ p. string_hash (text p)) (same (some (λ p q. string_equal strings (text p) (text q))))
string_keys-Lawful_example = string_keys-Lawful strings text
