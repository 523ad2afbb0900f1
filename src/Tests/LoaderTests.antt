-- ===== src/Tests/LoaderTests.antt =====
-- A small module file.
use lgears.Prelude.{ℕ, some, none, ◌+◌, ◌≡◌, ◌⊎◌, refl, arith, List, [], ◌∷◌, ◌++◌, length, map}
use lgears.Prelude.Run.{ok, fatal}
use lgears.Loader.Code.{Code, IsCode, code_read_bytes}
use lgears.Loader.Parse.{
  Func, ModuleHdr, read_functions, read_function, read_bindings, func_hdr, bindmap_loop,
  bindings_loop, read_header, module_hdr,
}
use lgears.Loader.Layout.{
  Image, IsHdr, IsImage, put_functions, func_of, read_functions-put_functions,
}
use lgears.Loader.Debug.{string_iter_next, dbg_table, put_strings, dbg_table-put_strings}
use lgears.Loader.Bounds.{read_functions-bounds, read_header-bounds}

-- A function of two arguments with one binding, and one with none.
abbrev inner : Image
inner = record {
  hdr = record {
    env_size = 3;
    argc = 2;
    swallow = 1;
    op_count = 1;
    heap_env = 1;
    depth = 2;
    bcount = 1;
    bmcount = 1;
  };
  binds = (0, 300) ∷ [];
  depths = 1 ∷ [];
  opcode = 6 ∷ 0 ∷ 0 ∷ 0 ∷ [];
}

abbrev outer : Image
outer = record {
  hdr = record {
    env_size = 1;
    argc = 1;
    swallow = 0;
    op_count = 0;
    heap_env = 0;
    depth = 1;
    bcount = 0;
    bmcount = 0;
  };
  binds = [];
  depths = [];
  opcode = [];
}

abbrev pub images : List Image
images = inner ∷ outer ∷ []

inner-IsHdr : IsHdr inner.hdr
inner-IsHdr = record {
  env_size = omega arith;
  argc = omega arith;
  swallow = omega arith;
  op_count = omega arith;
  heap_env = omega arith;
  depth = omega arith;
  bcount = omega arith;
  bmcount = omega arith;
}

outer-IsHdr : IsHdr outer.hdr
outer-IsHdr = record {
  env_size = omega arith;
  argc = omega arith;
  swallow = omega arith;
  op_count = omega arith;
  heap_env = omega arith;
  depth = omega arith;
  bcount = omega arith;
  bmcount = omega arith;
}

pub inner-IsImage : IsImage inner
inner-IsImage = record {
  hdr = inner-IsHdr;
  binds = ((omega arith, omega arith), tt);
  bcount = refl;
  depths = (omega arith, tt);
  bmcount = refl;
  op_count = refl;
}

pub outer-IsImage : IsImage outer
outer-IsImage = record {
  hdr = outer-IsHdr;
  binds = tt;
  bcount = refl;
  depths = tt;
  bmcount = refl;
  op_count = refl;
}

abbrev file : Code
file = record {
  code = put_functions images ++ 7 ∷ 8 ∷ [];
  code_size = length (put_functions images) + 2;
}

read_functions-put_functions_example :
    read_functions 2 file ≡ ok (map func_of images, record { code = 7 ∷ 8 ∷ []; code_size = 2 })
read_functions-put_functions_example =
    read_functions-put_functions images (inner-IsImage, (outer-IsImage, tt)) (7 ∷ 8 ∷ []) 2

read_functions-bounds_example :
    (read_functions 3 file ≡ fatal)
    ⊎ (fs : List Func) × (c' : Code) × (read_functions 3 file ≡ ok (fs, c'))
      × (length fs ≡ 3)
      × IsCode c'
read_functions-bounds_example = read_functions-bounds 3 file (omega arith)

-- The file has two functions, so that reading a third fails.
too_many : read_functions 3 file ≡ fatal
unfolding read_functions read_function read_bindings func_hdr bindmap_loop bindings_loop
    code_read_bytes
too_many = refl

-- A header of a file with two bytes of constants, and one byte behind them.
abbrev header : Code
header = record { code = 2 ∷ 0 ∷ 0 ∷ 0 ∷ 1 ∷ 0 ∷ 0 ∷ 0 ∷ 1 ∷ 9 ∷ 5 ∷ []; code_size = 11 }

read_header-bounds_example :
    (read_header header ≡ fatal)
    ⊎ (mhdr : ModuleHdr) × (consts : Code) × (rest : Code) × (read_header header
        ≡ ok (mhdr, consts, rest))
      × (consts.code_size ≡ mhdr.consts_size)
      × IsCode consts
      × IsCode rest
read_header-bounds_example = read_header-bounds header (omega arith)

constants :
    read_header header
    ≡ ok (
      record { consts_size = 2; fun_count = 1; entry_point = 0 },
      record { code = 1 ∷ 9 ∷ 5 ∷ []; code_size = 2 },
      record { code = 5 ∷ []; code_size = 1 },
    )
unfolding read_header module_hdr code_read_bytes
constants = refl

abbrev symbols : List (List ℕ)
symbols = (99 ∷ 97 ∷ 114 ∷ []) ∷ [] ∷ (120 ∷ []) ∷ []

dbg_table-put_strings_example :
    dbg_table 3 (put_strings symbols ++ 5 ∷ []) ≡ (map some symbols, 5 ∷ [])
dbg_table-put_strings_example = dbg_table-put_strings symbols (5 ∷ []) (
  ((λ e. omega arith), ((λ e. omega arith), ((λ e. omega arith), tt))),
  (tt, (((λ e. omega arith), tt), tt)),
)

-- A buffer that ends too early leaves the other instructions with no symbol.
too_short : dbg_table 2 (97 ∷ 0 ∷ 98 ∷ []) ≡ (some (97 ∷ []) ∷ none ∷ [], [])
unfolding dbg_table string_iter_next
too_short = refl
