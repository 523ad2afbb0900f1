-- ===== src/Machine/Env.antt =====
-- Environments on the heap, `env_display` and `bindmap_init` of vm/vm.c, and the instructions of
-- `eval_thread` that read and write local and bound variables. The index of an instruction is one
-- that the compiler gives, which is never negative; `MAKE_HEAP_PTR` of the environments is the word
-- in the bindmap.
pub mod Display
pub mod Variables
use lgears.Prelude.{
  ℕ, zero, suc, ◌+◌, ◌<◌, ◌≢◌, ◌≡◌, ◌⊎◌, inl, inr, refl, arith, none, some, Option, Bool, true,
  false, List, [], ◌∷◌, ◌==◌, if◌then◌else◌, get_elem?, set, Bool-cases,
}
use lgears.Prelude.Run.{Run, ok, fatal, undefined, ◌>>=◌, defined}
use lgears.Object.{ptr, make_heap_ptr}
use lgears.Memory.{
  Memory, Block, Payload, raw, env, closure, cont, pair, string, symbol, struct, bytevector,
  forwarded, write,
}
use lgears.Machine.{Thread, Locals, on_stack, in_env, store, stack_push, stack_pop}

-- `env_t`
pub record Env : Type 0 where
  pub hdr : Block
  pub prev : ℕ
  pub size : ℕ
  pub depth : ℕ
  pub array : ℕ
  pub objects : List ℕ

env_of : Block → Payload → Run Env
env_of b (env prev size depth array objects) =
    ok (record {
      hdr = b;
      prev = prev;
      size = size;
      depth = depth;
      array = array;
      objects = objects;
    })
env_of b other = undefined

unfoldable pub env_at : Memory → ℕ → Run Env
unfolding env_of
env_at m e = defined (m e) >>= λ b. env_of b b.body

-- The loop of `env_display`, which goes up at most `fuel` environments.
unfoldable pub env_display : ℕ → Memory → ℕ → ℕ → Run ℕ
env_display zero m e idx = undefined
env_display (suc fuel) m e idx = do
  at ← env_at m e
  let up = env_display fuel m at.prev idx
  if idx == at.depth then ok e else if at.prev == 0 then fatal else up

-- The loop of `bindmap_init`: the words that it writes.
unfoldable pub bindmap_init : ℕ → Memory → ℕ → List ℕ → Run (List ℕ)
bindmap_init fuel m senv [] = ok []
bindmap_init fuel m senv (depth ∷ depths) = do
  e ← env_display fuel m senv depth
  rest ← bindmap_init fuel m senv depths
  ok (make_heap_ptr e ∷ rest)

-- `thread->objects[op_arg]`: a word of the operand stack, or of the environment.
abbrev pub get_object : Thread → ℕ → Run ℕ
get_object t op_arg = elim t.objects [
  | on_stack base ↦ defined (get_elem? t.opstack (base + op_arg))
  | in_env e ↦ env_at t.memory e >>= λ at. defined (get_elem? at.objects op_arg)
]

-- An assignment to an object of an environment.
unfoldable pub set_env_object : Thread → ℕ → ℕ → ℕ → Run Thread
set_env_object t e i obj = do
  at ← env_at t.memory e
  objects ← store at.objects i obj
  ok (record t {
    memory =
        write t.memory e (
          some (record { hdr = at.hdr.hdr; body = env at.prev at.size at.depth at.array objects }));
  })

abbrev pub set_object : Thread → ℕ → ℕ → Run Thread
set_object t op_arg obj = elim t.objects [
  | on_stack base ↦
      store t.opstack (base + op_arg) obj >>= λ stack. ok (record t { opstack = stack })
  | in_env e ↦ set_env_object t e op_arg obj
]

unfoldable pub load_local : ℕ → Thread → Run Thread
load_local op_arg t = get_object t op_arg >>= stack_push t

unfoldable pub set_local : ℕ → Thread → Run Thread
set_local op_arg t = do (obj, t) ← stack_pop t; set_object t op_arg obj

-- The environment of a binding: `ENV(thread->bindmap[bind->up])`.
unfoldable pub bound_env : Thread → ℕ → Run ℕ
bound_env t up = do
  base ← defined t.bindmap
  word ← defined (get_elem? t.opstack (base + up))
  ok (ptr word)

-- `bind` is `func->bindings[op_arg]`, here its two fields.
unfoldable pub load_bind : ℕ → ℕ → Thread → Run Thread
load_bind up idx t = do
  e ← bound_env t up
  at ← env_at t.memory e
  obj ← defined (get_elem? at.objects idx)
  stack_push t obj

unfoldable pub set_bind : ℕ → ℕ → Thread → Run Thread
set_bind up idx t = do e ← bound_env t up; (obj, t) ← stack_pop t; set_env_object t e idx obj
