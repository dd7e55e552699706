-- ===== src/Mpool.antt =====
-- smp_mpool/smp_mpool.c: allocation from a chain of blocks, with a list for what is too big for
-- one. `smp_pool_s` stands at the head of the first block. A block is known by its address, and the
-- chain from that first block is split where `current` points: `before`, `current`, `after`. Sizes
-- are those of the LP64 headers: 56 bytes for `smp_pool_s`, 32 for `smp_pool_data_s`, 16 for
-- `smp_big_pool_s`.
pub mod Regions
pub mod Chain
pub mod Age
pub mod Grow
pub mod Alloc
pub mod Total
pub mod Create
pub mod Instance
mod Tests
use mathlib.Core.Option
use smpcil.Base.{
  ℕ, zero, suc, ◌+◌, ◌-◌, ◌*◌, ◌/◌, ◌%◌, Option, none, some, List, [], ◌∷◌, ◌++◌, Ptr, null, Status,
  smp_ok, ltb, leb, ◌==◌, if◌then◌else◌, size_mod, inc32,
}
use smpcil.Libc.{Libc}
use smpcil.Error.{World, set_error}

-- the part of `smp_pool_data_s` that says where bytes are free: from `last` up to `end`
pub record Region : Type 0 where
  pub base : Ptr
  pub last : Ptr
  pub end : Ptr

pub record Block : Type 0 where
  pub region : Region
  pub open region use *
  pub failure : ℕ

-- `smp_big_pool_s`, at the address `at`
pub record Big : Type 0 where
  pub at : Ptr
  pub alloc : Ptr

pub record Pool : Type 0 where
  pub before : List Block
  pub current : Block
  pub after : List Block
  pub max : ℕ
  pub bigs : List Big

abbrev pub blocks : Pool → List Block
blocks pool = pool.before ++ pool.current ∷ pool.after

-- the block that `pool` itself points to
abbrev pub first_block : List Block → Block → Block
first_block [] b = b
first_block (b ∷ _) _ = b

abbrev pub head : Pool → Block
head pool = first_block pool.before pool.current

-- `smp_align_ptr(p, SMP_POOL_ALIGNMENT)`
abbrev pub align_ptr : ℕ → ℕ
align_ptr p = (p + 7) % size_mod / 8 * 8

-- pointer arithmetic and `size_t`
abbrev pub add_size : ℕ → ℕ → ℕ
add_size a b = (a + b) % size_mod

abbrev pub sub_size : ℕ → ℕ → ℕ
sub_size a b = (a + size_mod - b) % size_mod

-- One round of the `do` loop of `smp_mpalloc`: the address, and the block with its `last` moved.
pub block_alloc : ℕ → Block → Option (Ptr × Block)
block_alloc size b =
    let m = align_ptr b.last in
    if leb size (sub_size b.end m)
    then some (m, record b { region = record b.region { last = add_size m size } })
    else none

-- `p = p->data.next`: the round at `b` decides, and behind it stands what the rest would give.
pub next_round :
    Block
    → List Block
    → Option (Ptr × Block)
    → Option (Ptr × Block × List Block)
    → Option (Ptr × Block × List Block)
next_round b bs (some (m, b')) rest = some (m, b', bs)
next_round b bs none rest = Option.map (λ (m, c, cs). (m, b, c ∷ cs)) rest

-- The `do` loop, over the block `current` and those after it.
pub chain_alloc : ℕ → Block → List Block → Option (Ptr × Block × List Block)
unfolding next_round
chain_alloc size b [] = next_round b [] (block_alloc size b) none
chain_alloc size b (c ∷ cs) = next_round b (c ∷ cs) (block_alloc size b) (chain_alloc size c cs)

-- The `for` loop of `smp_mpalloc_block`, and the link of `fresh` behind the last block. `skipped`
-- are the blocks before `current_p`, `kept` those from there to the loop's `p`, which is `b`.
pub age : (skipped kept : List Block) → Block → List Block → Block → List Block × List Block
age skipped kept b [] fresh = (skipped, kept ++ b ∷ fresh ∷ [])
age skipped kept b (c ∷ cs) fresh =
    let b' = record b { failure = inc32 b.failure } in
    let used_out = ltb 4 b.failure in
    age (if used_out then skipped ++ (kept ++ b' ∷ []) else skipped)
      (if used_out then [] else kept ++ b' ∷ []) c cs fresh

-- `pool->current = current_p`: the first of the blocks that are kept.
pub set_current : Pool → List Block × List Block → Pool
set_current pool (skipped, []) = pool
set_current pool (skipped, b ∷ bs) = record pool { before = skipped; current = b; after = bs }

-- The loop of `smp_mpalloc_bigpool`: an entry that was freed is used again, if one of the first
-- five is.
pub reuse_big : ℕ → Ptr → List Big → Option (List Big)
reuse_big n p [] = none
reuse_big n p (big ∷ bigs) =
    if big.alloc == null
    then some (record big { alloc = p } ∷ bigs)
    else if ltb 3 n
    then none
    else Option.map (λ rest. big ∷ rest) (reuse_big (n + 1) p bigs)

-- The scan of `smp_mpfree_bigpool`: whether an entry holds `p`, and the list with it cleared.
pub clear_big : Ptr → List Big → Option (List Big)
clear_big p [] = none
clear_big p (big ∷ bigs) =
    if big.alloc == p
    then some (record big { alloc = null } ∷ bigs)
    else Option.map (λ rest. big ∷ rest) (clear_big p bigs)

-- `smp_mpdestory` frees these, in this order: what the big entries hold, the blocks behind the
-- first, the first.
abbrev pub held : List Big → List Ptr
held [] = []
held (big ∷ bigs) = if big.alloc == null then held bigs else big.alloc ∷ held bigs

abbrev pub bases : List Block → List Ptr
bases [] = []
bases (b ∷ bs) = b.base ∷ bases bs

abbrev pub behind_first : List Block → List Block → List Block
behind_first [] after = after
behind_first (_ ∷ bs) rest = bs ++ rest

module _ (os : Libc) where
  -- an address or NULL, and the state after the call
  abbrev pub Reply : Type 0
  Reply = Option Ptr × Pool × World os

  abbrev pub fail_text : World os → World os
  fail_text w = set_error (os.error_text w.mem) w

  -- `smp_alloc` and `smp_calloc`; the second sets the error once more. The bytes are not modelled,
  -- so `smp_memzero` leaves no trace.
  alloc_result : Option Ptr × os.Mem → World os → Option Ptr × World os
  alloc_result (none, m) w = (none, fail_text (record w { mem = m }))
  alloc_result (some p, m) w = (some p, record w { mem = m })

  pub alloc : ℕ → World os → Option Ptr × World os
  unfolding alloc_result
  alloc size w = alloc_result (os.malloc size w.mem) w

  calloc_result : Option Ptr × World os → Option Ptr × World os
  calloc_result (none, w) = (none, fail_text w)
  calloc_result (some p, w) = (some p, w)

  pub calloc : ℕ → World os → Option Ptr × World os
  unfolding alloc calloc_result
  calloc size w = calloc_result (alloc size w)

  pub memalign : ℕ → World os → Option Ptr × World os
  unfolding alloc_result
  memalign size w = alloc_result (os.memalign size w.mem) w

  -- `smp_mpool_create`
  pub pool_at : ℕ → Ptr → Pool
  pool_at size p = record {
    before = [];
    current = record {
      region = record { base = p; last = add_size p 56; end = add_size p size };
      failure = 0;
    };
    after = [];
    max = if ltb (sub_size size 56) os.page_size then sub_size size 56 else os.page_size;
    bigs = [];
  }

  create_at : ℕ → Option Ptr × World os → Option Pool × World os
  unfolding pool_at
  create_at size (none, w) = (none, w)
  create_at size (some p, w) = (some (pool_at size p), w)

  pub create : ℕ → World os → Option Pool × World os
  unfolding create_at memalign
  create size w = create_at size (memalign size w)

  -- `smp_mpalloc_block`: a block as long as the first one, whose head is the shorter
  -- `smp_pool_data_s`.
  block_at : ℕ → ℕ → Pool → Option Ptr × World os → Reply
  unfolding age set_current
  block_at size psize pool (none, w) = (none, pool, w)
  block_at size psize pool (some m, w) =
      let start = align_ptr (add_size m 32) in
      let fresh : Block = record {
        region = record { base = m; last = add_size start size; end = add_size m psize };
        failure = 0;
      } in
      (some start, set_current pool (age pool.before [] pool.current pool.after fresh), w)

  mpalloc_block : ℕ → Pool → World os → Reply
  unfolding block_at memalign
  mpalloc_block size pool w =
      let psize = sub_size (head pool).end (head pool).base in
      block_at size psize pool (memalign psize w)

  -- The branch of `smp_mpalloc` for `size <= pool->max`; behind what the loop finds stands the
  -- reply of `smp_mpalloc_block`, for the case that it finds nothing.
  chain_reply : Pool → World os → Option (Ptr × Block × List Block) → Reply → Reply
  chain_reply pool w (some (m, b, bs)) other = (some m, record pool { current = b; after = bs }, w)
  chain_reply pool w none other = other

  pub small_alloc : ℕ → Pool → World os → Reply
  unfolding chain_alloc block_alloc mpalloc_block chain_reply
  small_alloc size pool w =
      chain_reply pool w (chain_alloc size pool.current pool.after) (mpalloc_block size pool w)

  -- The end of `smp_mpalloc_bigpool`, with the address for the entry or NULL.
  link_big : Ptr → Reply → Reply
  link_big p (none, pool, w) = (none, pool, w)
  link_big p (some at, pool, w) =
      (some p, record pool { bigs = record { at = at; alloc = p } ∷ pool.bigs }, w)

  -- `smp_mpalloc_bigpool`, with what the search for a free entry gives. It calls `smp_mpalloc` for
  -- a new entry, which is `inner` here; `none` is a recursion that is deeper than the fuel.
  big_entry :
      (ℕ → Pool → World os → Option Reply)
      → Ptr
      → Pool
      → World os
      → Option (List Big)
      → Option Reply
  unfolding link_big
  big_entry inner p pool w (some bigs) = some (some p, record pool { bigs = bigs }, w)
  big_entry inner p pool w none = Option.map (link_big p) (inner 16 pool w)

  big_at : (ℕ → Pool → World os → Option Reply) → Pool → Option Ptr × World os → Option Reply
  unfolding reuse_big big_entry
  big_at inner pool (none, w) = some (none, pool, w)
  big_at inner pool (some p, w) = big_entry inner p pool w (reuse_big 0 p pool.bigs)

  mpalloc_bigpool : (ℕ → Pool → World os → Option Reply) → ℕ → Pool → World os → Option Reply
  unfolding big_at calloc
  mpalloc_bigpool inner size pool w = big_at inner pool (calloc size w)

  -- `smp_mpalloc`, on fuel for its recursion through `smp_mpalloc_bigpool`.
  pub mpalloc : ℕ → ℕ → Pool → World os → Option Reply
  unfolding small_alloc mpalloc_bigpool
  mpalloc zero size pool w = none
  mpalloc (suc fuel) size pool w =
      if leb size pool.max
      then some (small_alloc size pool w)
      else mpalloc_bigpool (mpalloc fuel) size pool w

  -- `smp_mpfree_bigpool`
  pub mpfree_bigpool : Pool → Ptr → World os → Status × Pool × World os
  unfolding clear_big
  mpfree_bigpool pool p w = elim (clear_big p pool.bigs) [
    | none ↦ (smp_ok, pool, w)
    | some bigs ↦ (smp_ok, record pool { bigs = bigs }, record w { mem = os.free p w.mem })
  ]

  -- `smp_mpdestory`: the calls of `free`, in order.
  free_all : List Ptr → os.Mem → os.Mem
  free_all [] m = m
  free_all (p ∷ ps) m = free_all ps (os.free p m)

  pub mpdestory : Pool → World os → Status × World os
  unfolding free_all
  mpdestory pool w =
      let m = free_all (held pool.bigs) w.mem in
      let m' = free_all (bases (behind_first pool.before (pool.current ∷ pool.after))) m in
      (smp_ok, record w { mem = os.free (head pool).base m' })
