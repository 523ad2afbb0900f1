-- ===== src/Collector/Valid.antt =====
-- What the words of a heap lead to while it is collected, vm/heap.c: the blocks of the spaces that
-- are given up, and those that are kept, the survivors and the old region. The predicates are over
-- a frame, the part of the heap that a collection leaves as it is.
use lgears.Prelude.{
  ℕ, ◌+◌, ◌%◌, ◌^◌, ◌≤◌, ◌<◌, ◌≡◌, ◌≢◌, ◌⊎◌, inl, inr, none, some, true, false, Bool, List, [],
  take, length, All, All-mono,
}
use lgears.Object.{is_heap_ptr, make_heap_ptr}
use lgears.Memory.{
  Block, Memory, Payload, bhdr_size, env, closure, cont, pair, string, struct, bytevector,
  forwarded,
}
use lgears.Space.{Space, in_space}
use lgears.Space.Layout.{IsSpace}
use lgears.Heap.{Heap, Store}
use lgears.Collector.Chain.{Chain, Any, In}
use lgears.Types.{t_env, t_closure, t_pair, t_cont, t_string, t_symbol, t_struct, t_bytevector}

-- A space without what is in it.
abbrev pub region : Space → Space
region sp = record { mem = sp.mem; pos = 0; size = sp.size; free_mem = 0; blocks = 0 }

abbrev pub frame : Heap → Heap
frame h = record h {
  future_survived = region h.future_survived;
  old = region h.old;
  remembered_set = [];
}

abbrev pub Kept : Heap → ℕ → Type 0
Kept f p = (in_space f.future_survived p ≡ true) ⊎ (in_space f.old p ≡ true)

-- A block of the spaces that are given up.
pub record IsGiven (f : Heap) (p : ℕ) : Type 0 where
  pub low : f.mem ≤ p
  pub high : p ≤ f.mem + f.mem_size
  pub not_survived : in_space f.future_survived p ≡ false
  pub not_old : in_space f.old p ≡ false
  pub given : (in_space f.fresh p ≡ true) ⊎ (in_space f.survived p ≡ true)

pub record IsAddress (p : ℕ) : Type 0 where
  pub word : p < 2 ^ 64
  pub aligned : p % 8 ≡ 0

abbrev pub Holds : Memory → ℕ → Type 0
Holds m p = (b : Block) × (m p ≡ some b)

-- What a word of the heap leads to: first a block anywhere, at the end one that is kept.
abbrev pub Target : Heap → Memory → ℕ → Type 0
Target f m p = IsAddress p × (IsGiven f p ⊎ Kept f p) × Holds m p

abbrev pub Moved : Heap → Memory → ℕ → Type 0
Moved f m p = IsAddress p × Kept f p × Holds m p

-- A word that is no pointer, or points to a target.
abbrev pub Word : (ℕ → Type 0) → ℕ → Type 0
Word T w = (is_heap_ptr w ≡ false) ⊎ (p : ℕ) × (w ≡ make_heap_ptr p) × T p

-- The pointer to an environment, which is bare and may be NULL.
abbrev pub EnvPtr : (ℕ → Type 0) → ℕ → Type 0
EnvPtr T e = (e ≡ 0) ⊎ T e

-- The payload belongs to the type, and its words lead to targets.
pub data Live (T : ℕ → Type 0) (tid : ℕ) : Payload → Type 0 where
  an_env :
      {prev size depth array : ℕ} {objects : List ℕ}
      → tid ≡ t_env
      → size ≤ length objects
      → All (Word T) (take size objects)
      → EnvPtr T prev
      → Live T tid (env prev size depth array objects)
  a_closure : {e func : ℕ} → tid ≡ t_closure → EnvPtr T e → Live T tid (closure e func)
  a_pair :
      {car cdr count : ℕ} {is_list : Bool}
      → tid ≡ t_pair
      → Word T car
      → Word T cdr
      → Live T tid (pair car cdr is_list count)
  a_cont : {func : ℕ} → tid ≡ t_cont → Word T func → Live T tid (cont func)
  a_string :
      {str size : ℕ} {allocated : Bool} {bytes : List ℕ}
      → tid ≡ t_string
      → Live T tid (string str size allocated bytes)
  a_struct :
      {type_name size array : ℕ} {fields : List ℕ}
      → tid ≡ t_struct
      → size ≤ length fields
      → All (Word T) (take size fields)
      → Live T tid (struct type_name size array fields)
  a_bytevector :
      {array size : ℕ} {bytes : List ℕ}
      → tid ≡ t_bytevector
      → Live T tid (bytevector array size bytes)
  plain : {body : Payload} → (tid ≡ t_symbol) ⊎ (t_bytevector < tid) → Live T tid body

-- The words of a block lead to blocks that are kept: it has been scanned.
abbrev pub Done : Heap → Memory → Block → Type 0
Done f m b = Live (Moved f m) b.hdr.type_id b.body

pub record IsIntact (f : Heap) (m : Memory) (b : Block) : Type 0 where
  pub unmoved : b.hdr.forward ≡ false
  pub even : b.hdr.size % 8 ≡ 0
  pub room : 0 < b.hdr.size
  pub generation : b.hdr.generation < 4
  pub live : Live (Target f m) b.hdr.type_id b.body

-- What has been copied leads to its copy.
abbrev pub IsCopied : Heap → Memory → Block → Type 0
IsCopied f m b = (b.hdr.forward ≡ true) × (q : ℕ) × (b.body ≡ forwarded q) × Moved f m q

-- A space that is filled up to its position by blocks of positive sizes: no other block stands in
-- it.
pub record IsFilled (s : Space) (m : Memory) : Type 0 where
  pub space : IsSpace s m
  pub headers : List ℕ
  pub chained : Chain Any m s.mem headers s.pos
  pub counted : s.blocks ≡ length headers
  pub only :
      (q : ℕ) (b : Block)
      → m q ≡ some b
      → in_space s q ≡ true
      → (x : ℕ) × (q ≡ x + bhdr_size) × In x headers
  pub clear : (q : ℕ) → s.pos ≤ q → q < s.mem + s.size → m q ≡ none

pub record Contents (f : Heap) (m : Memory) : Type 0 where
  pub given : (p : ℕ) (b : Block) → m p ≡ some b → IsGiven f p → IsIntact f m b ⊎ IsCopied f m b
  pub kept : (p : ℕ) (b : Block) → m p ≡ some b → Kept f p → IsIntact f m b

-- No full collection is on the way, the old region is set up, and it and the space of the
-- survivors are apart.
pub record IsPartial (f : Heap) : Type 0 where
  pub partial : f.full_gc ≡ false
  pub unmapped : f.old_map ≡ none
  pub set_up : f.old.mem ≢ 0
  pub header : bhdr_size ≤ f.mem
  pub apart : (q : ℕ) → in_space f.future_survived q ≡ true → in_space f.old q ≡ false
  pub low : f.mem ≤ f.future_survived.mem
  pub high : f.future_survived.mem + f.future_survived.size ≤ f.mem + f.mem_size
  pub word : f.mem + f.mem_size < 2 ^ 64
  pub old_word : f.old.mem + f.old.size < 2 ^ 64

-- The header of a block that is kept.
abbrev pub Known : Heap → Memory → ℕ → Type 0
Known f m h = Kept f (h + bhdr_size) × Holds m (h + bhdr_size)

pub record IsValid (s : Store) : Type 0 where
  pub partial : IsPartial (frame s.heap)
  pub survived : IsFilled s.heap.future_survived s.memory
  pub old : IsFilled s.heap.old s.memory
  pub contents : Contents (frame s.heap) s.memory
  pub remembered : All (Known (frame s.heap) s.memory) s.heap.remembered_set

module _ (T T' : ℕ → Type 0) (f : (p : ℕ) → T p → T' p) where
  pub Word-map : (w : ℕ) → Word T w → Word T' w
  Word-map w (inl bare) = inl bare
  Word-map w (inr (p, e, t)) = inr (p, e, f p t)

  pub EnvPtr-map : (e : ℕ) → EnvPtr T e → EnvPtr T' e
  EnvPtr-map e (inl null) = inl null
  EnvPtr-map e (inr t) = inr (f e t)

  pub Words-map : (ws : List ℕ) → All (Word T) ws → All (Word T') ws
  Words-map ws all = All-mono (Word T) (Word T') Word-map ws all

  pub Live-map : (tid : ℕ) {body : Payload} → Live T tid body → Live T' tid body
  Live-map tid (an_env {size = size} {objects = objects} t n words prev) =
      an_env t n (Words-map (take size objects) words) (EnvPtr-map _ prev)
  Live-map tid (a_closure t e) = a_closure t (EnvPtr-map _ e)
  Live-map tid (a_pair t car cdr) = a_pair t (Word-map _ car) (Word-map _ cdr)
  Live-map tid (a_cont t func) = a_cont t (Word-map _ func)
  Live-map tid (a_string t) = a_string t
  Live-map tid (a_struct {size = size} {fields = fields} t n words) =
      a_struct t n (Words-map (take size fields) words)
  Live-map tid (a_bytevector t) = a_bytevector t
  Live-map tid (plain t) = plain t

-- Memory in which every block stays at its place, changed or not.
abbrev pub Stays : Memory → Memory → Type 0
Stays m m' = (p : ℕ) → Holds m p → Holds m' p

module _ (f : Heap) (m m' : Memory) (stays : Stays m m') where
  pub Moved-stays : (p : ℕ) → Moved f m p → Moved f m' p
  Moved-stays p (a, k, h) = (a, k, stays p h)

  pub Target-stays : (p : ℕ) → Target f m p → Target f m' p
  Target-stays p (a, k, h) = (a, k, stays p h)

  pub Done-stays : (b : Block) → Done f m b → Done f m' b
  Done-stays b d = Live-map (Moved f m) (Moved f m') Moved-stays b.hdr.type_id d

  pub IsIntact-stays : (b : Block) → IsIntact f m b → IsIntact f m' b
  IsIntact-stays b i = record {
    unmoved = i.unmoved;
    even = i.even;
    room = i.room;
    generation = i.generation;
    live = Live-map (Target f m) (Target f m') Target-stays b.hdr.type_id i.live;
  }

  pub IsCopied-stays : (b : Block) → IsCopied f m b → IsCopied f m' b
  IsCopied-stays b (forward, q, e, t) = (forward, q, e, Moved-stays q t)

  pub Known-stays : (hs : List ℕ) → All (Known f m) hs → All (Known f m') hs
  Known-stays hs all =
      All-mono (Known f m) (Known f m') (λ h k. (k.0, stays (h + bhdr_size) k.1)) hs all

pub Moved-Target : (f : Heap) (m : Memory) (p : ℕ) → Moved f m p → Target f m p
Moved-Target f m p (a, k, h) = (a, inr k, h)
