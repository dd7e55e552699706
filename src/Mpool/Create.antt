-- ===== src/Mpool/Create.antt =====
-- `smp_mpool_create`, and the sizes for which the allocator goes wrong.
use mathlib.Core.Option
use smpcil.Base.{
  ℕ, zero, suc, ◌+◌, ◌%◌, ◌^◌, ◌≤◌, ◌<◌, ◌-◌, ◌≡◌, ◌∙◌, refl, ap, true, false, Option, some, none,
  [], arith, Ptr, size_mod, leb,
}
use smpcil.Libc.{Libc, Laws}
use smpcil.Error.{World}
use smpcil.Mpool
use smpcil.Mpool.{
  Block, Pool, pool_at, create, sub_size, small_alloc, chain_alloc, next_round, chain_reply,
  create_at, memalign, alloc_result, add_size, align_ptr, block_alloc, mpalloc, mpalloc_bigpool,
  big_at, big_entry, calloc, calloc_result, alloc, reuse_big, link_big,
}
use smpcil.Mpool.Regions.{IsSound, IsValid}

module _ (os : Libc) (laws : Laws os) (size : ℕ) (w : World os) (p : Ptr) (m : os.Mem)
    (got : os.memalign size w.mem ≡ (some p, m)) where
  pool_at-IsSound :
      72 ≤ size → size % 8 ≡ 0 → IsSound laws.Live m size (pool_at os size p).current.region
  unfolding pool_at
  pool_at-IsSound big even =
      let chunk = laws.memalign_fresh size w.mem m p got in
      record {
        starts = omega (arith, chunk.in_range);
        stops = omega (arith, chunk.in_range);
        size = omega (arith, chunk.in_range);
        aligned = omega (arith, chunk.in_range, chunk.aligned);
        in_range = omega (arith, chunk.in_range);
        live = λ a lo hi. chunk.live a lo (omega (arith, chunk.in_range));
      }

  -- From the chunk that the C library gives, `smp_mpool_create` makes a valid pool, if the size is
  -- a multiple of eight that leaves sixteen bytes behind the head, and a page has sixteen bytes;
  -- its `max` is then at least sixteen.
  pub create-IsValid :
      72 ≤ size
      → size % 8 ≡ 0
      → 16 ≤ os.page_size
      → (create os size w ≡ (some (pool_at os size p), record w { mem = m }))
        × IsValid laws.Live m size (pool_at os size p)
        × (16 ≤ (pool_at os size p).max)
  unfolding create create_at memalign alloc_result
  create-IsValid big even page =
      let chunk = laws.memalign_fresh size w.mem m p got in
      (
        rw got,
        record {
          sound = record { sound = (pool_at-IsSound big even, tt); apart = (tt, tt) };
          fits = ground (arith, chunk.in_range);
          short = omega (arith, chunk.in_range);
          even = even;
        },
        ground (arith, chunk.in_range),
      )

-- A round of the loop that has room, and one at a block whose end lies before the next multiple of
-- eight, where the room test wraps round.
block_alloc-fits :
    (size : ℕ) (b : Block)
    → b.last % 8 ≡ 0
    → b.last + size ≤ b.end
    → b.end + 8 ≤ size_mod
    → block_alloc size b
      ≡ some (b.last, record b { region = record b.region { last = b.last + size } })
unfolding block_alloc
block_alloc-fits size b even room low =
    let at : align_ptr b.last ≡ b.last = omega arith in
    let test : leb size (sub_size b.end b.last) ≡ true = ground arith in
    let last : add_size b.last size ≡ b.last + size = omega arith in rw (at, test, last) refl

block_alloc-overruns :
    (size : ℕ) (b : Block)
    → size ≤ 2 ^ 63
    → b.last + 8 ≤ size_mod
    → b.last ≤ b.end
    → b.end < align_ptr b.last
    → (b' : Block) × (block_alloc size b ≡ some (align_ptr b.last, b'))
unfolding block_alloc
block_alloc-overruns size b small low inside past = (
  record b { region = record b.region { last = add_size (align_ptr b.last) size } },
  ground arith,
)

-- A request that the only block of a chain can take.
mpalloc-last :
    (os : Libc) (fuel size : ℕ) (pool : Pool) (w : World os) (q : Ptr) (b : Block)
    → size ≤ pool.max
    → pool.after ≡ []
    → block_alloc size pool.current ≡ some (q, b)
    → mpalloc os (suc fuel) size pool w ≡ some (some q, record pool { current = b; after = [] }, w)
unfolding mpalloc small_alloc chain_alloc next_round chain_reply
mpalloc-last os fuel size pool w q b small alone got =
    let test : leb size pool.max ≡ true = ground arith in rw (test, alone, got) refl

module _ (os : Libc) (laws : Laws os) (fuel size n : ℕ) (w : World os) (p : Ptr) (m : os.Mem)
    (got : os.memalign size w.mem ≡ (some p, m)) (some_room : 56 < size)
    (page : size ≤ os.page_size + 56) (low : size < 2 ^ 63) (odd : 0 < size % 8)
    (fits : n ≤ size - 56) where
  abbrev made : World os
  made = record w { mem = m }

  -- A pool from `smp_mpool_create` whose size is no multiple of eight, and small enough for its
  -- `max` to be all that follows the head: a first request takes all of `max`, and the next one, of
  -- any size up to `max`, gets an address behind the end of the block.
  pub mpalloc-overruns :
      (pool : Pool) × (pool' : Pool) × (pool'' : Pool) × (q : Ptr) × (create os size w
        ≡ (some pool, made))
      × (pool.max ≡ size - 56)
      × (mpalloc os (suc fuel) (size - 56) pool made ≡ some (some (p + 56), pool', made))
      × (mpalloc os (suc fuel) n pool' made ≡ some (some q, pool'', made))
      × (p + size < q)
  unfolding create create_at memalign alloc_result pool_at
  mpalloc-overruns =
      let chunk = laws.memalign_fresh size w.mem m p got in
      let pool = pool_at os size p in
      let max : pool.max ≡ size - 56 = ground (arith, chunk.in_range) in
      let last : pool.current.last ≡ p + 56 = omega (arith, chunk.in_range) in
      let end : pool.current.end ≡ p + size = omega (arith, chunk.in_range) in
      let full : Block = record pool.current {
        region = record pool.current.region { last = pool.current.last + (size - 56) };
      } in
      let first =
        block_alloc-fits (size - 56) pool.current (omega (arith, last, chunk.aligned))
          (omega (arith, last, end)) (omega (arith, end, chunk.in_range)) in
      let past : full.end < align_ptr full.last =
        omega (arith, last, end, chunk.aligned, chunk.in_range) in
      let (b, second) =
        block_alloc-overruns n full (omega arith) (omega (arith, last, chunk.in_range))
          (omega (arith, last, end)) past in
      (
        pool,
        record pool { current = full; after = [] },
        record pool { current = b; after = [] },
        align_ptr full.last,
        rw got refl,
        max,
        mpalloc-last os fuel (size - 56) pool made (p + 56) full (omega (arith, max)) refl
            (first ∙ ap (λ q. some (q, full)) last),
        mpalloc-last os fuel n (record pool { current = full; after = [] }) made
            (align_ptr full.last) b (omega (arith, max)) refl second,
        omega (arith, end, past),
      )

module _ (os : Libc) (pool : Pool) (tiny : pool.max < 16) (empty : pool.bigs ≡ [])
    (answers : (n : ℕ) (m : os.Mem)
      → (p : Ptr) × (m' : os.Mem) × (os.malloc n m ≡ (some p, m'))) where
  no_entry :
      (inner : ℕ → Pool → World os → Option (Mpool.Reply os)) (p : Ptr) (w : World os)
      → inner 16 pool w ≡ none
      → big_entry os inner p pool w (reuse_big 0 p pool.bigs) ≡ none
  unfolding big_entry reuse_big
  no_entry inner p w e =
      let none_free : reuse_big 0 p pool.bigs ≡ none = ap (reuse_big 0 p) empty in
      rw none_free (ap (Option.map (link_big os p)) e)

  -- From a pool without big entries whose `max` is below the sixteen bytes of one, and while
  -- `malloc` answers, a request that is too big for a block never ends: whatever the depth, the
  -- recursion is deeper.
  pub mpalloc-never_ends :
      (fuel size : ℕ) (w : World os) → pool.max < size → mpalloc os fuel size pool w ≡ none
  unfolding mpalloc mpalloc_bigpool big_at calloc calloc_result alloc alloc_result
  mpalloc-never_ends zero size w big = refl
  mpalloc-never_ends (suc fuel) size w big =
      let (p, m', got) = answers size w.mem in
      let no : leb size pool.max ≡ false = ground arith in
      let w' = record w { mem = m' } in
      rw (no, got, no_entry (mpalloc os fuel) p w' (mpalloc-never_ends fuel 16 w' tiny))
