-- ===== src/Loader/Parse.antt =====
-- The headers of a module file and the loop of `module_parse` of vm/module.c over its functions. A
-- function keeps a pointer to its instructions in the mapped file, here the bytes that it may read
-- there. The loop runs after `load_consts`, which it does not depend on: it starts behind the
-- constants, whose size the module header has.
use lgears.Prelude.{ℕ, zero, suc, ◌*◌, ◌%◌, Option, none, some, List, [], ◌∷◌, ◌==◌, if◌then◌else◌}
use lgears.Prelude.Int.{ℤ, signed16}
use lgears.Prelude.Run.{Run, ok, ◌>>=◌}
use lgears.Loader.Code.{Code, split, little_endian, code_read_bytes}

-- `struct module_hdr_s`
pub record ModuleHdr : Type 0 where
  pub consts_size : ℕ
  pub fun_count : ℕ
  pub entry_point : ℕ

-- `struct func_hdr_s`
pub record FuncHdr : Type 0 where
  pub env_size : ℕ
  pub argc : ℕ
  pub swallow : ℕ
  pub op_count : ℕ
  pub heap_env : ℕ
  pub depth : ℕ
  pub bcount : ℕ
  pub bmcount : ℕ

-- `bind_t`
pub record Bind : Type 0 where
  pub up : ℤ
  pub idx : ℤ

-- `func_t` with its header; NULL is `none`.
pub record Func : Type 0 where
  pub argc : ℕ
  pub swallow : ℕ
  pub env_size : ℤ
  pub op_count : ℕ
  pub heap_env : ℤ
  pub depth : ℕ
  pub bcount : ℕ
  pub bmcount : ℕ
  pub opcode : List ℕ
  pub bindings : Option (List Bind)
  pub bindmap : Option (List ℕ)

-- The first word of a packed structure or of an array of `uint16_t`, and the bytes behind it.
abbrev pub word16 : List ℕ → Run (ℕ × List ℕ)
word16 bytes = split 2 bytes >>= λ r. ok (little_endian r.0, r.1)

abbrev pub word32 : List ℕ → Run (ℕ × List ℕ)
word32 bytes = split 4 bytes >>= λ r. ok (little_endian r.0, r.1)

unfoldable pub module_hdr : List ℕ → Run ModuleHdr
module_hdr bytes = do
  (consts_size, bytes) ← word32 bytes
  (fun_count, bytes) ← word16 bytes
  (entry_point, bytes) ← word16 bytes
  ok (record { consts_size = consts_size; fun_count = fun_count; entry_point = entry_point })

unfoldable pub func_hdr : List ℕ → Run FuncHdr
func_hdr bytes = do
  (env_size, bytes) ← word16 bytes
  (argc, bytes) ← word16 bytes
  (swallow, bytes) ← word16 bytes
  (op_count, bytes) ← word16 bytes
  (heap_env, bytes) ← word16 bytes
  (depth, bytes) ← word16 bytes
  (bcount, bytes) ← word16 bytes
  (bmcount, bytes) ← word16 bytes
  ok (record {
    env_size = env_size;
    argc = argc;
    swallow = swallow;
    op_count = op_count;
    heap_env = heap_env;
    depth = depth;
    bcount = bcount;
    bmcount = bmcount;
  })

-- The loop that copies the bindmap.
unfoldable pub bindmap_loop : ℕ → List ℕ → Run (List ℕ)
bindmap_loop zero cur = ok []
bindmap_loop (suc n) cur = do
  (depth, cur) ← word16 cur
  rest ← bindmap_loop n cur
  ok (depth ∷ rest)

-- The loop that copies the bindings.
unfoldable pub bindings_loop : ℕ → List ℕ → Run (List Bind)
bindings_loop zero cur = ok []
bindings_loop (suc n) cur = do
  (up, cur) ← word16 cur
  (idx, cur) ← word16 cur
  rest ← bindings_loop n cur
  ok (record { up = signed16 up; idx = signed16 idx } ∷ rest)

-- The branch on `hdr->bcount`.
unfoldable pub read_bindings : FuncHdr → Code → Run (Option (List Bind) × Option (List ℕ) × Code)
read_bindings hdr code = if hdr.bcount == 0 then ok (none, none, code) else do
  (bindings, code) ← code_read_bytes code (hdr.bcount * 4)
  (bindmap, code) ← code_read_bytes code (hdr.bmcount * 2)
  depths ← bindmap_loop hdr.bmcount bindmap
  binds ← bindings_loop hdr.bcount bindings
  ok (some binds, some depths, code)

-- The body of the loop over the functions.
unfoldable pub read_function : Code → Run (Func × Code)
read_function code = do
  (bytes, code) ← code_read_bytes code 16
  hdr ← func_hdr bytes
  (bindings, bindmap, code) ← read_bindings hdr code
  (opcode, code) ← code_read_bytes code (hdr.op_count * 4)
  ok (
    record {
      argc = hdr.argc;
      swallow = hdr.swallow % 2;
      env_size = signed16 hdr.env_size;
      op_count = hdr.op_count;
      heap_env = signed16 hdr.heap_env;
      depth = hdr.depth;
      bcount = hdr.bcount;
      bmcount = hdr.bmcount;
      opcode = opcode;
      bindings = bindings;
      bindmap = bindmap;
    },
    code,
  )

unfoldable pub read_functions : ℕ → Code → Run (List Func × Code)
read_functions zero code = ok ([], code)
read_functions (suc count) code = do
  (func, code) ← read_function code
  (funcs, code) ← read_functions count code
  ok (func ∷ funcs, code)

-- The module header, the bytes of the constants and the code behind them.
unfoldable pub read_header : Code → Run (ModuleHdr × Code × Code)
read_header code = do
  (bytes, code) ← code_read_bytes code 8
  mhdr ← module_hdr bytes
  (consts, rest) ← code_read_bytes code mhdr.consts_size
  ok (mhdr, record { code = code.code; code_size = mhdr.consts_size }, rest)
