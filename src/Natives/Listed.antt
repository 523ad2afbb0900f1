-- ===== src/Natives/Listed.antt =====
-- A call of `list` by FUNC_CALL of vm/vm.c.
use lgears.Prelude.{
  ℕ, ◌+◌, ◌-◌, ◌^◌, ◌<◌, ◌≡◌, refl, ◌∙◌, arith, true, false, some, Option, List, length, get_elem?,
  set, leb, ◌==◌, [],
}
use lgears.Prelude.Int.{pos}
use lgears.Prelude.Run.{ok}
use lgears.Memory.{Memory}
use lgears.Heap.{Heap}
use lgears.Machine.{Thread, stack_push}
use lgears.Machine.Stack.{get_elem?-set, pushed, HasRoom, stack_push-HasRoom}
use lgears.Allocator.{argument}
use lgears.Native.{rc_ok}
use lgears.Lists.{list_of, list}
use lgears.Lists.Built.{Spells, Spells-frame, HasPairs, next_payload, with_list, list_of-Spells}
use lgears.Interp.{NativeFunc, Program}
use lgears.Interp.Enter.{args_base}
use lgears.Interp.Call.{dispatch, call_native}
use lgears.Natives.{native_of, native_call_variadic, list_nt}

-- The stack of a thread ends with a continuation and the arguments of a call.
pub record IsPassed (t : Thread) (base k : ℕ) (args : List ℕ) : Type 0 where
  pub top : t.op_stack_idx ≡ base + (1 + length args)
  pub continuation : get_elem? t.opstack base ≡ some k
  pub arguments :
      (i x : ℕ) → get_elem? args i ≡ some x → get_elem? t.opstack (base + (i + 1)) ≡ some x

-- The thread with the list on top of its stack.
abbrev pub answered : Thread → Heap → Memory → ℕ → Thread
answered t h m o =
    pushed
      (record t { heap = h; memory = m; local_roots = []; tramp = record { func = 0; argc = 1 } }) o

-- A native that answers goes on with its continuation.
call_native-answered :
    (old_mem fuel : ℕ) (prog : Program) (f : NativeFunc) (n base k : ℕ) (t t' : Thread)
    → args_base t n ≡ ok base
    → f.call (record t { tramp = record { func = 0; argc = 1 } }) base n ≡ ok (rc_ok, t')
    → get_elem? t'.opstack base ≡ some k
    → (t'.tramp.func ≡ 0) × (t'.tramp.argc ≡ 1)
    → call_native old_mem fuel prog f n t ≡ ok (dispatch k (pos 1) t')
unfolding call_native
call_native-answered old_mem fuel prog f n base k t t' at runs first tramp =
    rw (at, runs, first, tramp.0, tramp.1)

module _ (static : ℕ → Option (List ℕ)) (old_mem fuel : ℕ) (prog : Program) where
  listed :
      (t : Thread) (base : ℕ) (args : List ℕ) (m : Memory) (h : Heap) (o : ℕ)
      → list_of old_mem fuel (λ i. argument base (i + 1)) (length args) t
        ≡ ok (o, record t { heap = h; memory = m; local_roots = [] })
      → stack_push (record t { heap = h; memory = m; local_roots = [] }) o
        ≡ ok (pushed (record t { heap = h; memory = m; local_roots = [] }) o)
      → (native_of static old_mem fuel list_nt).call t base (1 + length args)
        ≡ ok (rc_ok, pushed (record t { heap = h; memory = m; local_roots = [] }) o)
  unfolding native_of native_call_variadic list
  listed t base args m h o runs push =
      let count : 1 + length args - 1 ≡ length args = omega arith in rw (count, runs, push)

  -- Where the fresh space has room for the pairs and the stack for a word, a call of `list` with a
  -- continuation and the arguments goes on with the continuation, called with the one word on top
  -- of the stack, which is a list of the arguments in their order.
  pub call_native-list :
      (t : Thread) (base k : ℕ) (args : List ℕ)
      → IsPassed t base k args
      → HasPairs t (length args)
      → HasRoom 1 t
      → length args < 2 ^ 31
      → (m : Memory) × (h : Heap) × (o : ℕ) × (call_native old_mem fuel prog
            (native_of static old_mem fuel list_nt)
            (1 + length args)
            t
          ≡ ok (dispatch k (pos 1) (answered t h m o)))
        × Spells (answered t h m o) (next_payload (answered t h m o)) o args
  unfolding native_of
  call_native-list t base k args p pairs room small =
      let t1 = record t { tramp = record { func = 0; argc = 1 } } in
      let (m, h, o, runs, spells, valid) =
        list_of-Spells old_mem fuel (λ i. argument base (i + 1)) args t1
          (λ i x h m r e. rw (p.arguments i x e)) small
          (record { valid = pairs.valid; room = pairs.room; word = pairs.word }) in
      let enough : leb (1 + length args) t.op_stack_idx ≡ true = let e = p.top in ground arith in
      let below : t.op_stack_idx - (1 + length args) ≡ base = omega (arith, p.top) in
      let push =
        stack_push-HasRoom 0 (record t1 { heap = h; memory = m; local_roots = [] }) o room in
      let answer = listed t1 base args m h o runs push.0 in
      let other : (t.op_stack_idx == base) ≡ false = let e = p.top in ground arith in
      let kept : get_elem? (set t.opstack t.op_stack_idx o) base ≡ some k =
        get_elem?-set t.opstack t.op_stack_idx base o (omega arith) ∙ rw (other, p.continuation) in
      let bound = next_payload (with_list t1 h m o) in
      let here =
        Spells-frame (with_list t1 h m o) (answered t h m o) bound bound o args (λ q less. refl)
          (omega arith) spells in
      let called =
        call_native-answered old_mem fuel prog (native_of static old_mem fuel list_nt)
          (1 + length args) base k t (answered t h m o) (rw (enough, below)) answer kept
          (refl, refl) in
      (m, h, o, called, here)
