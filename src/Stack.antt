-- ===== src/Stack.antt =====
-- smp_stl/smp_stack/smp_stack.c: a linked stack with a list of nodes for reuse.
-- The bytes of an element are a value of `D`; `zeroed` is the value of zero bytes. The address that
-- `smp_mpalloc` gives for a node is an argument, NULL when it fails, with what is found there.
pub mod Chain
pub mod Push
pub mod Pop
mod Tests
use smpcil.Base.{
  ℕ, ◌+◌, ◌-◌, ◌*◌, ◌%◌, Bool, true, false, not, ◌||◌, Option, none, some, ℤ, pos, negsuc, Ptr,
  null, Status, ltb, leb, ◌==◌, if◌then◌else◌, inc64, dec64, size_mod, to_int,
}
use smpcil.Error.Texts.{stack_filled}
use smpcil.PoolApi.{PoolApi}
use smpcil.Store.{Cmd, ok, pure, ◌>>=◌, ◌>>◌, load, modify, poke, call, set_error}

-- `smp_stack_node_s`
pub record StackNode (D : Type 0) : Type 0 where
  pub below : Ptr
  pub bytes : D

-- `smp_stack_s`; `appoint` is `none` for NULL, and gets the bytes of the node and `elem_data`.
pub record Stack (D Pool : Type 0) : Type 0 where
  pub size : ℕ
  pub curr_size : ℕ
  pub appoint : Option (D → Ptr → D)
  pub top : Ptr
  pub bottom : Ptr
  pub idel : Ptr
  pub pool : Pool
  pub elem_size : ℕ

-- the address of `data` in a node
abbrev pub data_of : Ptr → Ptr
data_of node = node + 8

-- An `int` as a `size_t`.
abbrev pub to_size : ℤ → ℕ
to_size (pos n) = n
to_size (negsuc n) = size_mod - 1 - n

-- `stack->appoint(node->data, elem_data)`
abbrev pub appoint_bytes : {D : Type 0} → Option (D → Ptr → D) → Ptr → D → D
appoint_bytes none elem_data d = d
appoint_bytes (some f) elem_data d = f d elem_data

-- the size that `smp_stack_init` asks `smp_mpool_create` for
abbrev pub pool_size : ℕ → ℕ → ℕ
pool_size elem_size amount =
    ((if amount == 0 then 2048 else (elem_size * amount) % size_mod) + 56 + 16) % size_mod

module _ {D Pool : Type 0} where
  -- `__smp_stack_init`, with the assignment of the pool behind its call
  stack_init : ℕ → ℕ → Option (D → Ptr → D) → Pool → Stack D Pool
  stack_init elem_size amount appoint pool = record {
    size = amount;
    curr_size = 0;
    appoint = appoint;
    top = null;
    bottom = null;
    idel = null;
    pool = pool;
    elem_size = elem_size;
  }

  pub stack_elem_size : Stack D Pool → ℤ
  unfolding to_int
  stack_elem_size stack = to_int stack.elem_size

  pub stack_size : Stack D Pool → ℤ
  unfolding to_int
  stack_size stack = to_int stack.size

  pub stack_length : Stack D Pool → ℤ
  unfolding to_int
  stack_length stack = to_int stack.curr_size

  pub stack_empty : Stack D Pool → Bool
  unfolding stack_length
  stack_empty stack = (to_size (stack_length stack) == 0) || (stack.top == null)

  pub stack_filled? : Stack D Pool → Bool
  unfolding stack_length stack_size
  stack_filled? stack =
      let len = to_size (stack_size stack) in
      if len == 0 then false else leb len (to_size (stack_length stack))

  pub gettop : Stack D Pool → Ptr
  gettop stack = if stack.top == null then null else data_of stack.top

  -- `smp_stack_node_create`
  reuse_node : D → Stack D Pool → Cmd (StackNode D) (Ptr × Stack D Pool)
  reuse_node zeroed stack = do
    node ← load stack.idel
    modify stack.idel (λ n. record n { below = null; bytes = zeroed })
    pure (stack.idel, record stack { idel = node.below })

  pub node_create :
      D → (chunk : Ptr) → (found : D) → Stack D Pool → Cmd (StackNode D) (Ptr × Stack D Pool)
  unfolding reuse_node
  node_create zeroed chunk found stack =
      if not (stack.idel == null)
      then reuse_node zeroed stack
      else if chunk == null
      then pure (null, stack)
      else λ s. ok (chunk, stack) (poke chunk (some (record { below = null; bytes = found })) s)

  -- `smp_stack_push`, from the result of `smp_stack_node_create`
  push_node : Ptr → Ptr × Stack D Pool → Cmd (StackNode D) (Ptr × Stack D Pool)
  push_node elem_data (node, stack) = if node == null then pure (null, stack) else do
    modify node (λ n. record n { bytes = appoint_bytes stack.appoint elem_data n.bytes })
    let below = if stack.top == null then stack.bottom else stack.top
    modify node (λ n. record n { below = below })
    pure (data_of node, record stack { top = node; curr_size = inc64 stack.curr_size })

  pub push :
      D
      → (chunk : Ptr) → (found : D) → Stack D Pool
      → (elem_data : Ptr) → Cmd (StackNode D) (Ptr × Stack D Pool)
  unfolding stack_filled? node_create push_node
  push zeroed chunk found stack elem_data =
      if elem_data == null
      then pure (null, stack)
      else if stack_filled? stack
      then call (set_error stack_filled) >> pure (null, stack)
      else node_create zeroed chunk found stack >>= push_node elem_data

  pub pop : Stack D Pool → Cmd (StackNode D) (Ptr × Stack D Pool)
  unfolding stack_empty
  pop stack = if stack_empty stack then pure (null, stack) else do
    node ← load stack.top
    modify stack.top (λ n. record n { below = null })
    pure (stack.top, record stack { top = node.below; curr_size = dec64 stack.curr_size })

  pub recover : Stack D Pool → Ptr → Cmd (StackNode D) (Stack D Pool)
  recover stack node = if node == null then pure stack else do
    modify node (λ n. record n { below = stack.idel })
    pure (record stack { idel = node })

-- `smp_stack_init` and `smp_stack_destory`, over the pool
module _ (api : PoolApi) {D : Type 0} where
  stack_init_at :
      ℕ
      → ℕ
      → Option (D → Ptr → D)
      → Option Ptr × api.Pool × api.World
      → Option (Stack D api.Pool) × api.World
  unfolding stack_init
  stack_init_at elem_size amount appoint (none, pool, w) = (none, (api.destory pool w).1)
  stack_init_at elem_size amount appoint (some _, pool, w) =
      (some (stack_init elem_size amount appoint pool), w)

  stack_init_pool :
      ℕ
      → ℕ
      → Option (D → Ptr → D)
      → Option api.Pool × api.World
      → Option (Stack D api.Pool) × api.World
  unfolding stack_init_at
  stack_init_pool elem_size amount appoint (none, w) = (none, w)
  stack_init_pool elem_size amount appoint (some pool, w) =
      stack_init_at elem_size amount appoint (api.mpalloc 64 pool w)

  pub init : ℕ → ℕ → Option (D → Ptr → D) → api.World → Option (Stack D api.Pool) × api.World
  unfolding stack_init_pool
  init elem_size amount appoint w =
      stack_init_pool elem_size amount appoint (api.create (pool_size elem_size amount) w)

  pub destory : Stack D api.Pool → api.World → Status × api.World
  destory stack w = api.destory stack.pool w
