-- ===== src/Array.antt =====
-- smp_stl/smp_array/smp_array.c: an array of elements in blocks, with an index of the blocks.
-- The memory pool is any with the operations of `PoolApi`. A cell of the index is `none` as long as
-- nothing was written to it. Results under `Option` are `none` where the C code would read or write
-- outside of the index or read such a cell.
pub mod Elements
pub mod Index
pub mod Valid
pub mod Push
pub mod Visit
pub mod Lookup
pub mod Create
pub mod Layout
mod Tests
use mathlib.Core.Option
use smpcil.Base.{
  ℕ, zero, suc, ◌+◌, ◌-◌, ◌*◌, ◌/◌, ◌%◌, Option, none, some, List, [], ◌∷◌, ◌++◌, Ptr, null, Status,
  smp_ok, smp_failure, ltb, leb, ◌==◌, if◌then◌else◌, inc32, dec32, uint_mod, size_mod, replicate,
  take,
}
use smpcil.Error.Texts.{array_overflow, array_empty_size}
use smpcil.PoolApi.{PoolApi}

-- the product of two `uint`
abbrev pub mul32 : ℕ → ℕ → ℕ
mul32 a b = (a * b) % uint_mod

-- `index[i]`
pub read_cell : List (Option Ptr) → ℕ → Option Ptr
read_cell [] i = none
read_cell (c ∷ cs) zero = c
read_cell (c ∷ cs) (suc i) = read_cell cs i

-- `index[i] = p`
pub write_cell : List (Option Ptr) → ℕ → Ptr → Option (List (Option Ptr))
write_cell [] i p = none
write_cell (c ∷ cs) zero p = some (some p ∷ cs)
write_cell (c ∷ cs) (suc i) p = Option.map (λ rest. c ∷ rest) (write_cell cs i p)

module _ (api : PoolApi) where
  pub record Array : Type 0 where
    pub unit_elem_amt : ℕ
    pub elem_size : ℕ
    pub index_amt : ℕ
    pub index_used : ℕ
    pub curr_point : ℕ
    pub index : List (Option Ptr)
    pub pool : api.Pool

  -- what `smp_mpalloc` returns
  abbrev pub Chunk : Type 0
  Chunk = Option Ptr × api.Pool × api.World

  -- `smp_array_init` from its last call of `smp_mpalloc`, from the one in `smp_array_index_init`,
  -- and from the first. A failure leads to the label `smp_bad_init`.
  init_start : ℕ → ℕ → Chunk → Option Array × api.World
  init_start elem_size unit_elem_amt (none, pool, w) = (none, (api.destory pool w).1)
  init_start elem_size unit_elem_amt (some start, pool, w) = (
    some (record {
      unit_elem_amt = unit_elem_amt;
      elem_size = elem_size;
      index_amt = 32;
      index_used = 1;
      curr_point = 0;
      index = some start ∷ replicate 31 (some null);
      pool = pool;
    }),
    w,
  )

  init_index : ℕ → ℕ → Chunk → Option Array × api.World
  unfolding init_start
  init_index elem_size unit_elem_amt (none, pool, w) = (none, (api.destory pool w).1)
  init_index elem_size unit_elem_amt (some index, pool, w) =
      init_start elem_size unit_elem_amt (api.mpalloc (mul32 elem_size unit_elem_amt) pool w)

  init_array : ℕ → ℕ → Chunk → Option Array × api.World
  unfolding init_index
  init_array elem_size unit_elem_amt (none, pool, w) = (none, (api.destory pool w).1)
  init_array elem_size unit_elem_amt (some array, pool, w) =
      init_index elem_size unit_elem_amt (api.mpalloc 256 pool w)

  init_pool : ℕ → ℕ → Option api.Pool × api.World → Option Array × api.World
  unfolding init_array
  init_pool elem_size unit_elem_amt (none, w) = (none, w)
  init_pool elem_size unit_elem_amt (some pool, w) =
      init_array elem_size unit_elem_amt (api.mpalloc 40 pool w)

  -- `smp_array_init`
  pub init : ℕ → ℕ → api.World → Option Array × api.World
  unfolding init_pool
  init elem_size unit_elem_amt w =
      if mul32 elem_size unit_elem_amt == 0
      then (none, api.set_error array_empty_size w)
      else init_pool elem_size unit_elem_amt (api.create 2048 w)

  -- `smp_array_index_realloc`
  realloc_at : Array → Chunk → Status × Array × api.World
  realloc_at a (none, pool, w) = (smp_failure, record a { pool = pool }, w)
  realloc_at a (some _, pool, w) = (
    smp_ok,
    record a {
      pool = pool;
      index = take a.index_used a.index ++ replicate 4 none;
      index_amt = (a.index_amt + 4) % uint_mod;
    },
    w,
  )

  index_realloc : Array → api.World → Status × Array × api.World
  unfolding realloc_at
  index_realloc a w = realloc_at a (api.mpalloc (8 * ((a.index_used + 4) % uint_mod)) a.pool w)

  -- `smp_array_expand`, from its call of `smp_mpalloc`.
  new_block : Array → Chunk → Option (Status × Array × api.World)
  unfolding write_cell
  new_block a (none, pool, w) = some (smp_failure, record a { pool = pool }, w)
  new_block a (some arr, pool, w) =
      let used = inc32 a.index_used in
      Option.map
        (λ index.
          (smp_ok, record a { pool = pool; index_used = used; index = index; curr_point = 0 }, w))
        (write_cell a.index (dec32 used) arr)

  expand_block : Status × Array × api.World → Option (Status × Array × api.World)
  unfolding new_block
  expand_block (smp_failure, a, w) = some (smp_failure, a, w)
  expand_block (smp_ok, a, w) =
      new_block a (api.mpalloc (mul32 a.elem_size a.unit_elem_amt) a.pool w)

  pub expand : Array → api.World → Option (Status × Array × api.World)
  unfolding expand_block index_realloc
  expand a w =
      if leb a.unit_elem_amt a.curr_point
      then expand_block (if a.index_used == a.index_amt then index_realloc a w else (smp_ok, a, w))
      else some (smp_ok, a, w)

  -- `smp_array_push`, from the result of `smp_array_expand`.
  push_at : Status × Array × api.World → Option (Option Ptr × Array × api.World)
  unfolding read_cell
  push_at (smp_failure, a, w) = some (none, a, w)
  push_at (smp_ok, a, w) =
      Option.map
        (λ block. (
          some (block + mul32 a.curr_point a.elem_size),
          record a { curr_point = inc32 a.curr_point },
          w,
        ))
        (read_cell a.index (dec32 a.index_used))

  pub push : Array → api.World → Option (Option Ptr × Array × api.World)
  unfolding push_at expand
  push a w = Option.bind (expand a w) push_at

  -- `smp_array_size`
  pub size : Array → ℕ
  size a = (a.curr_point + mul32 (dec32 a.index_used) a.unit_elem_amt) % uint_mod

  -- `smp_array_elem_n`
  elem_in : Array → api.World → ℕ → Ptr → Option Ptr × api.World
  elem_in a w n block =
      if block == null
      then (none, w)
      else if leb a.curr_point n
      then (none, api.set_error array_overflow w)
      else (some (block + mul32 a.elem_size n), w)

  pub elem_n : Array → ℕ → api.World → Option (Option Ptr × api.World)
  unfolding elem_in read_cell
  elem_n a i w =
      let j = inc32 i in
      let n = dec32 (j % a.unit_elem_amt) in
      let idx = j / a.unit_elem_amt in
      if leb a.index_used idx
      then some (none, api.set_error array_overflow w)
      else Option.map (elem_in a w n) (read_cell a.index idx)

  -- `smp_array_traversal`: `n` is how many rounds of a loop are left. The visits do not touch the
  -- array.
  module _ (trave : Ptr → api.World → api.World) where
    trave_block : ℕ → Ptr → (i n : ℕ) → api.World → api.World
    trave_block elem_size block i zero w = w
    trave_block elem_size block i (suc n) w =
        trave_block elem_size block (i + 1) n (trave (block + mul32 elem_size i) w)

    trave_blocks : Array → (idx n : ℕ) → api.World → Option api.World
    unfolding trave_block read_cell
    trave_blocks a idx zero w = some w
    trave_blocks a idx (suc n) w =
        let tmp = if idx == dec32 a.index_used then a.curr_point else a.unit_elem_amt in
        Option.bind (read_cell a.index idx)
          λ block. trave_blocks a (idx + 1) n (trave_block a.elem_size block 0 tmp w)

    pub traversal : Array → api.World → Option api.World
    unfolding trave_blocks
    traversal a w = trave_blocks a 0 a.index_used w

  -- `smp_array_destory`; `free_elems_func` is `none` for NULL.
  destory_after : Array → Option api.World → Option (Status × api.World)
  destory_after a visited = Option.map (λ w. api.destory a.pool w) visited

  pub destory :
      Array → Option (Ptr → api.World → api.World) → api.World → Option (Status × api.World)
  unfolding destory_after traversal
  destory a none w = destory_after a (some w)
  destory a (some free_elems_func) w = destory_after a (traversal free_elems_func a w)
