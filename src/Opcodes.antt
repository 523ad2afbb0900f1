-- ===== src/Opcodes.antt =====
-- The names of the numbers of vm/opcodes.h, which are printed where a number is not known or is
-- traced: a number is compared with one case after the other.
use lgears.Prelude.{ℕ, List, [], ◌∷◌, ◌==◌, if◌then◌else◌}
use lgears.Prelude.Text.{codes}

-- The cases of a `switch`, each with its OP_CASE.
abbrev pub cases : List (ℕ × List ℕ) → ℕ → List ℕ
cases [] n = codes "unknown"
cases ((k, name) ∷ rest) n = let other = cases rest n in if n == k then name else other

unfoldable pub opcode_name : ℕ → List ℕ
opcode_name = cases (
    (0, codes "LOAD_FUNC")
    ∷ (1, codes "LOAD_CLOSURE")
    ∷ (2, codes "LOAD_LOCAL")
    ∷ (3, codes "LOAD_BIND")
    ∷ (4, codes "LOAD_CONST")
    ∷ (5, codes "PUSH_BOOL")
    ∷ (6, codes "PUSH_NULL")
    ∷ (7, codes "JUMP_IF_FALSE")
    ∷ (8, codes "JUMP_FORWARD")
    ∷ (9, codes "FUNC_CALL")
    ∷ (10, codes "SET_LOCAL")
    ∷ (11, codes "SET_BIND")
    ∷ (12, codes "OP_CONS")
    ∷ (13, codes "OP_CAR")
    ∷ (14, codes "OP_CDR")
    ∷ (15, codes "OP_SUB")
    ∷ (16, codes "OP_ADD")
    ∷ (17, codes "OP_MUL")
    ∷ (18, codes "OP_DIV")
    ∷ (19, codes "OP_MOD")
    ∷ (20, codes "OP_BIT_AND")
    ∷ (21, codes "OP_BIT_IOR")
    ∷ (22, codes "OP_BIT_XOR")
    ∷ (23, codes "OP_BIT_NOT")
    ∷ (24, codes "OP_LT")
    ∷ (25, codes "OP_GT")
    ∷ (26, codes "OP_EQ")
    ∷ (27, codes "OP_EQ_PTR")
    ∷ (28, codes "OP_NOT")
    ∷ (29, codes "OP_TYPE_TEST")
    ∷ [])

unfoldable pub object_type_name : ℕ → List ℕ
object_type_name = cases (
    (0, codes "OT_FIXNUM")
    ∷ (1, codes "OT_CHARACTER")
    ∷ (2, codes "OT_STRING")
    ∷ (3, codes "OT_SYMBOL")
    ∷ (4, codes "OT_STATIC")
    ∷ (5, codes "OT_PAIR_BEGIN")
    ∷ (6, codes "OT_PAIR_END")
    ∷ (7, codes "OT_STRUCT")
    ∷ (8, codes "OT_BOOLEAN")
    ∷ (9, codes "OT_NULL")
    ∷ [])

unfoldable pub type_test_name : ℕ → List ℕ
type_test_name = cases (
    (0, codes "TT_FIXNUM")
    ∷ (1, codes "TT_NULL")
    ∷ (2, codes "TT_LIST")
    ∷ (3, codes "TT_PAIR")
    ∷ (4, codes "TT_PROCEDURE")
    ∷ (5, codes "TT_BOOLEAN")
    ∷ (6, codes "TT_CHAR")
    ∷ (7, codes "TT_SYMBOL")
    ∷ (8, codes "TT_STRUCT")
    ∷ (9, codes "TT_STRING")
    ∷ (10, codes "TT_BYTEVECTOR")
    ∷ (11, codes "TT_EOF")
    ∷ [])
