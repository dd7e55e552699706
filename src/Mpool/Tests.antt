-- ===== src/Mpool/Tests.antt =====
-- A C library that hands out bytes in order of address, and the theorems at a pool from it.
use smpcil.Base.{
  ℕ, ◌+◌, ◌*◌, ◌/◌, ◌≤◌, ◌<◌, ◌≡◌, refl, Option, none, some, [], arith, Ptr, leb, if◌then◌else◌,
  size_mod,
}
use smpcil.Libc.{Libc, Laws, IsFresh}
use smpcil.Error.{World}
use smpcil.Mpool
use smpcil.Mpool.{Region, Block, Pool, create, pool_at, mpalloc, block_alloc}
use smpcil.Mpool.Regions.{IsValid}
use smpcil.Mpool.Alloc.{Answers}
use smpcil.Mpool.Total.{mpalloc-Ends}
use smpcil.Mpool.Create.{create-IsValid, mpalloc-overruns, mpalloc-never_ends}

-- The memory is the number of eight-byte words handed out; address 0 is never one.
abbrev next : ℕ → Ptr
next m = 8 * (m + 1)

abbrev take_words : ℕ → ℕ → Option Ptr × ℕ
take_words n m = if leb (next m + n + 8) size_mod then (some (next m), m + n / 8 + 1) else (none, m)

abbrev bump : Libc
bump = record {
  Mem = ℕ;
  malloc = take_words;
  memalign = take_words;
  free = λ p m. m;
  page_size = 4096;
  error_text = λ m. [];
}

abbrev Handed : ℕ → ℕ → Type 0
Handed m a = a < next m

take_words-IsFresh :
    (n m m' : ℕ) (p : Ptr) → take_words n m ≡ (some p, m') → IsFresh Handed m m' p n
take_words-IsFresh n m m' p e = record {
  nonnull = omega (arith, taken);
  aligned = omega (arith, taken);
  in_range = omega (arith, taken);
  new = λ a lo hi h. omega (arith, taken);
  live = λ a lo hi. omega (arith, taken);
  keeps = λ a h. omega (arith, taken);
}
  where
    taken : (p ≡ next m) × (m' ≡ m + n / 8 + 1) × (next m + n + 8 ≤ size_mod)
    taken = ground arith

take_words-fails : (n m m' : ℕ) → take_words n m ≡ (none, m') → (a : ℕ) → Handed m a → Handed m' a
take_words-fails n m m' e a h = ground arith

abbrev bump-laws : Laws bump
bump-laws = record {
  Live = Handed;
  malloc_fresh = take_words-IsFresh;
  malloc_fails = take_words-fails;
  memalign_fresh = take_words-IsFresh;
  memalign_fails = take_words-fails;
}

abbrev start : World bump
start = record { mem = 0; smp_errno = none }

-- `smp_mpool_create(256)`
abbrev pool : Pool
pool = pool_at bump 256 8

abbrev started : World bump
started = record { mem = 33; smp_errno = none }

create-IsValid_example :
    (create bump 256 start ≡ (some pool, started)) × IsValid Handed 33 256 pool × (16 ≤ pool.max)
create-IsValid_example =
    create-IsValid bump bump-laws 256 start 8 33 refl (omega arith) refl (omega arith)

pool_started : IsValid Handed 33 256 pool × (16 ≤ pool.max)
pool_started =
    let r = create-IsValid bump bump-laws 256 start 8 33 refl (omega arith) refl (omega arith) in
    (r.1, r.2)

-- A request that no block can hold, from that pool.
mpalloc-Ends_example :
    (r : Mpool.Reply bump) × (mpalloc bump 2 1000 pool started ≡ some r)
    × Answers Handed 256 pool started 1000 r
mpalloc-Ends_example =
    mpalloc-Ends bump bump-laws 256 pool started pool_started.0 1000 0 pool_started.1

-- `smp_mpool_create(61)`: five bytes behind the head, and the second five behind the end at 69.
mpalloc-overruns_example :
    (pool : Pool) × (pool' : Pool) × (pool'' : Pool) × (q : Ptr) × (create bump 61 start
      ≡ (some pool, record start { mem = 8 }))
    × (pool.max ≡ 5)
    × (mpalloc bump 1 5 pool (record start { mem = 8 })
        ≡ some (some 64, pool', record start { mem = 8 }))
    × (mpalloc bump 1 5 pool' (record start { mem = 8 })
        ≡ some (some q, pool'', record start { mem = 8 }))
    × (69 < q)
mpalloc-overruns_example =
    mpalloc-overruns bump bump-laws 0 61 5 start 8 8 refl (omega arith) (omega arith) (omega arith)
      (omega arith) (omega arith)

-- A C library that never says no.
abbrev endless : Libc
endless = record bump { malloc = λ n m. (some (next m), m + n / 8 + 1) }

-- `smp_mpool_create(64)` leaves eight bytes.
abbrev tiny_pool : Pool
tiny_pool = pool_at endless 64 8

mpalloc-never_ends_example :
    mpalloc endless 100 16 tiny_pool (record { mem = 8; smp_errno = none }) ≡ none
unfolding pool_at
mpalloc-never_ends_example =
    mpalloc-never_ends endless tiny_pool (omega arith) refl (λ n m. (next m, m + n / 8 + 1, refl))
      100 16 (record { mem = 8; smp_errno = none }) (omega arith)
