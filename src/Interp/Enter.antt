-- ===== src/Interp/Enter.antt =====
-- `env_new`, `closure_new` and `enter_interp` of vm/vm.c.
use lgears.Prelude.{
  ℕ, ◌+◌, ◌-◌, ◌*◌, not, none, some, List, replicate, ltb, leb, ◌==◌, if◌then◌else◌, get_elem?,
  length, take, drop,
}
use lgears.Machine.Arith.{abs}
use lgears.Prelude.Run.{Run, ok, undefined, ◌>>=◌, defined}
use lgears.Object.{cnull, make_heap_ptr}
use lgears.Memory.{env, closure}
use lgears.Types.{t_env, t_closure}
use lgears.Machine.{Thread, on_stack, in_env, stack_push}
use lgears.Machine.Env.{bindmap_init}
use lgears.Heap.Visit.{sizeof_env}
use lgears.Allocator.{Allocator, fill_in, heap_allocator}
use lgears.Lists.{list_of}
use lgears.Vectors.{natural}
use lgears.Strings.{copy_over}
use lgears.Loader.Parse.{Func}

abbrev pub sizeof_closure : ℕ
sizeof_closure = 16

-- The words of the operand stack from an index on, read together.
unfoldable pub stack_words : List ℕ → ℕ → ℕ → Run (List ℕ)
stack_words stack base n =
    if leb (base + n) (length stack) then ok (take n (drop base stack)) else undefined

-- The index of the first of so many words on the top of the stack.
abbrev pub args_base : Thread → ℕ → Run ℕ
args_base t n = if leb n t.op_stack_idx then ok (t.op_stack_idx - n) else undefined

module _ (old_mem fuel : ℕ) where
  abbrev heap : Allocator Thread
  heap = heap_allocator old_mem fuel

  -- An environment of zeros around which is the thread's.
  unfoldable pub env_new : ℕ → ℕ → Thread → Run (ℕ × Thread)
  env_new size depth t = do
    (p, t) ← heap.alloc t (sizeof_env + 8 * size) t_env
    t ← fill_in heap t p (env t.env size depth (p + sizeof_env) (replicate size 0))
    ok (p, t)

  unfoldable pub closure_new : ℕ → ℕ → Thread → Run (ℕ × Thread)
  closure_new bmcount func t = do
    (p, t) ← heap.alloc t (sizeof_closure + 8 * bmcount) t_closure
    t ← fill_in heap t p (closure t.env func)
    ok (make_heap_ptr p, t)

  -- The arguments beyond those that the function names become a list: the number of arguments then.
  -- They are off the stack while the list is made.
  unfoldable pub swallow_args : Func → ℕ → Thread → Run (ℕ × Thread)
  swallow_args func op_arg t =
      if func.swallow == 0
      then ok (op_arg, t)
      else (let i = op_arg - func.argc in
          if i == 0 then (do t ← stack_push t cnull; ok (op_arg + 1, t)) else (do
            args ← args_base t i
            (res, t) ←
                list_of old_mem fuel (λ k t. defined (get_elem? t.opstack (args + k))) i
                  (record t { op_stack_idx = args })
            t ← stack_push t res
            ok (op_arg - (i - 1), t)))

  -- The objects go to a new environment.
  unfoldable pub enter_env : Func → ℕ → Thread → Run Thread
  enter_env func op_arg t = do
    args ← args_base t op_arg
    size ← natural func.env_size
    (e, t) ← env_new size func.depth t
    words ← stack_words t.opstack args op_arg
    objects ← copy_over (replicate size 0) 0 words
    t ← fill_in heap t e (env t.env size func.depth (e + sizeof_env) objects)
    ok (record t {
      env = e;
      objects = in_env e;
      op_stack_idx = if op_arg == 0 then t.op_stack_idx else 0;
    })

-- The objects stay on the stack, and move to its start where there is room below them.
unfoldable pub enter_stack : ℕ → Thread → Run Thread
enter_stack op_arg t = do
  args ← args_base t op_arg
  if ltb (op_arg * 2) t.op_stack_idx
      then (do
        words ← stack_words t.opstack args op_arg
        stack ← copy_over t.opstack 0 words
        ok (record t { opstack = stack; objects = on_stack 0; op_stack_idx = op_arg }))
      else ok (record t { objects = on_stack args })

-- The words of a new bindmap stand on top of the stack; the index moves past them unchecked.
unfoldable pub enter_bindmap : ℕ → Func → Thread → Run Thread
enter_bindmap fuel func t = if func.bcount == 0 then ok t else elim t.bindmap [
  | some base ↦ ok t
  | none ↦ do
    depths ← defined func.bindmap
    words ← bindmap_init fuel t.memory t.env (take func.bmcount depths)
    stack ← copy_over t.opstack t.op_stack_idx words
    ok (record t {
      opstack = stack;
      bindmap = some t.op_stack_idx;
      op_stack_idx = t.op_stack_idx + func.bmcount;
    })
]

-- `addr` is the address of the function.
unfoldable pub enter_interp : ℕ → ℕ → ℕ → Func → ℕ → Thread → Run Thread
enter_interp old_mem fuel addr func op_arg t = do
  (op_arg, t) ← swallow_args old_mem fuel func op_arg (record t { func = addr })
  let on_heap = not (abs func.heap_env == 0)
  t ← (if on_heap then enter_env old_mem fuel func op_arg t else enter_stack op_arg t)
  enter_bindmap fuel func (record t { heap_env = on_heap })
