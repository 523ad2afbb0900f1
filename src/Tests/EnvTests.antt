-- ===== src/Tests/EnvTests.antt =====
-- Environments and local variables.
use lgears.Prelude.{
  ℕ, ◌≡◌, ◌⊎◌, refl, arith, true, false, none, some, List, [], ◌∷◌, ◌==◌, if◌then◌else◌, set,
}
use lgears.Prelude.Run.{ok, fatal}
use lgears.Memory.{Memory, Block, BlockHdr, env}
use lgears.Types.{t_env}
use lgears.Tests.Data.{idle}
use lgears.Machine.{Thread, in_env, stack_push}
use lgears.Machine.Env.{Env, env_at, env_display, set_local, load_local}
use lgears.Machine.Env.Display.{Nested, outermost, inside, Reaches, HasDepth, env_display_lem}
use lgears.Machine.Env.Variables.{HasLocals, enclosed, load_local-set_local}

abbrev header : BlockHdr
header = record { type_id = t_env; forward = false; generation = 0; remembered = false; size = 48 }

abbrev outer_objects : List ℕ
outer_objects = 8 ∷ []

abbrev inner_objects : List ℕ
inner_objects = 16 ∷ 24 ∷ []

abbrev outer_block : Block
outer_block = record { hdr = header; body = env 0 1 1 96 outer_objects }

abbrev inner_block : Block
inner_block = record { hdr = header; body = env 64 2 2 160 inner_objects }

-- An environment at 128 within one at 64.
abbrev memory : Memory
memory p = if p == 64 then some outer_block else if p == 128 then some inner_block else none

abbrev outer_env : Env
outer_env = record {
  hdr = outer_block;
  prev = 0;
  size = 1;
  depth = 1;
  array = 96;
  objects = outer_objects;
}

abbrev inner_env : Env
inner_env = record {
  hdr = inner_block;
  prev = 64;
  size = 2;
  depth = 2;
  array = 160;
  objects = inner_objects;
}

outer_at : env_at memory 64 ≡ ok outer_env
unfolding env_at
outer_at = refl

inner_at : env_at memory 128 ≡ ok inner_env
unfolding env_at
inner_at = refl

nested : Nested memory 128 2
nested =
    inside 128 2 1 inner_env inner_at refl (λ e. omega arith) (omega arith)
      (outermost 64 1 outer_env outer_at refl refl)

env_display_lem_example :
    ((e' : ℕ) × (env_display 3 memory 128 1 ≡ ok e') × Reaches memory 128 e' × HasDepth memory e' 1)
    ⊎ (env_display 3 memory 128 1 ≡ fatal)
      × ((e' : ℕ) → Reaches memory 128 e' → ¬ HasDepth memory e' 1)
env_display_lem_example = env_display_lem 3 memory 128 2 1 nested (omega arith)

displays : (env_display 3 memory 128 1 ≡ ok 64) × (env_display 3 memory 128 7 ≡ fatal)
unfolding env_display env_at
displays = (refl, refl)

abbrev thread : Thread
thread = record {
  heap = idle;
  memory = memory;
  opstack = 40 ∷ 0 ∷ 0 ∷ 0 ∷ [];
  op_stack_idx = 1;
  objects = in_env 128;
  env = 128;
  bindmap = none;
  func = 0;
  closure = 0;
  heap_env = true;
  lib_cache = 0;
  exception_handlers = 0;
  local_roots = [];
  tramp = record { func = 0; argc = 0 };
}

load_local-set_local_example :
    (t' : Thread) × (set_local 1 thread ≡ ok t')
    × (load_local 0 t' ≡ stack_push t' (if 1 == 0 then 40 else 16))
    × HasLocals t' 0 (set inner_objects 1 40)
load_local-set_local_example =
    load_local-set_local thread 0 inner_objects 0 40 1 0 24 16
      (enclosed 128 inner_env refl inner_at refl refl) refl refl refl refl
