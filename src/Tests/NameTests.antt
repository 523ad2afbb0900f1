-- ===== src/Tests/NameTests.antt =====
-- The names of the built-in procedures, and symbols, at concrete inputs.
use lgears.Prelude.{
  ℕ, ◌+◌, ◌≡◌, refl, true, List, [], ◌∷◌, some, none, get_or, map, All, if◌then◌else◌,
}
use lgears.Prelude.Text.{codes}
use lgears.Object.{make_func}
use lgears.Hash.{hash_table_init}
use lgears.Hash.Functions.{string_hash, string_equal}
use lgears.Strings.{same_bytes}
use lgears.Builtins.{Builtin, Install, builtin, lookup_global, install_all, vm_init}
use lgears.Builtins.Names.{are_distinct, named, lookup_global-vm_init}
use lgears.Pool.{const_allocator_init}
use lgears.Symbols.{Symbols}
use lgears.Tests.HashTests.{strings}

-- The literals of the program stand one after the other from the address 1 on; a module's file
-- has the name of a procedure at another place.
abbrev position : List Install → List ℕ → ℕ
position [] s = 1
position (e ∷ es) s = let rest = position es s in if same_bytes e.0 s then 1 else rest + 1

abbrev literal : List ℕ → ℕ
literal s = position vm_init s

abbrev literals : List (List ℕ)
literals = [] ∷ map (λ (e : Install). e.0) vm_init

abbrev text : ℕ → List ℕ
text p = get_or literals p (codes "list")

abbrev header : Builtin → ℕ
header nt = 64

literals-stand : All (λ (e : Install). text (literal e.0) ≡ e.0) vm_init
unfolding same_bytes get_or
literals-stand = (
  refl,
  (
    refl,
    (
      refl,
      (
        refl,
        (
          refl,
          (
            refl,
            (
              refl,
              (
                refl,
                (
                  refl,
                  (
                    refl,
                    (
                      refl,
                      (
                        refl,
                        (
                          refl,
                          (
                            refl,
                            (
                              refl,
                              (
                                refl,
                                (
                                  refl,
                                  (
                                    refl,
                                    (
                                      refl,
                                      (
                                        refl,
                                        (
                                          refl,
                                          (
                                            refl,
                                            (
                                              refl,
                                              (
                                                refl,
                                                (
                                                  refl,
                                                  (
                                                    refl,
                                                    (
                                                      refl,
                                                      (
                                                        refl,
                                                        (
                                                          refl,
                                                          (
                                                            refl,
                                                            (refl, (refl, (refl, (refl, tt)))),
                                                          ),
                                                        ),
                                                      ),
                                                    ),
                                                  ),
                                                ),
                                              ),
                                            ),
                                          ),
                                        ),
                                      ),
                                    ),
                                  ),
                                ),
                              ),
                            ),
                          ),
                        ),
                      ),
                    ),
                  ),
                ),
              ),
            ),
          ),
        ),
      ),
    ),
  ),
)

lookup_global-vm_init_example :
    (lookup_global (install_all literal header vm_init (builtin strings text)) 1000
      ≡ named header vm_init (codes "list") 0)
    × (are_distinct vm_init ≡ true)
unfolding get_or
lookup_global-vm_init_example =
    lookup_global-vm_init strings text literal header literals-stand 1000

list_named : named header vm_init (codes "list") 0 ≡ make_func 64
unfolding named same_bytes
list_named = refl

-- A table with no symbols.
abbrev letters : ℕ → List ℕ
letters p = p ∷ []

abbrev no_symbols : Symbols
no_symbols = record {
  sym_table =
      hash_table_init (λ p. string_hash (letters p))
        (some (λ p q. string_equal strings (letters p) (letters q)));
  pool = const_allocator_init (λ p. none);
  text = letters;
}
