-- ===== src/PoolApi.antt =====
-- What the containers of smp_stl ask of a memory pool: the operations of smp_mpool.h that they
-- call, and the laws that they rely on. `Mpool.Instance` shows that the pool of smp_mpool.c has
-- them.
pub mod Counter
use smpcil.Base.{ℕ, ◌+◌, ◌%◌, ◌≤◌, ◌<◌, ◌≡◌, Option, none, some, List, Ptr, Status}

-- `set_error` is `smp_set_error`, which shares the state.
pub record PoolApi : Type 1 where
  pub World : Type 0
  pub Pool : Type 0
  pub create : ℕ → World → Option Pool × World
  pub mpalloc : ℕ → Pool → World → Option Ptr × Pool × World
  pub destory : Pool → World → Status × World
  pub set_error : List ℕ → World → World

-- The `n` bytes at `p` were nobody's and are in use now.
pub record IsChunk (Before After : ℕ → Type 0) (p n : ℕ) : Type 0 where
  pub nonnull : 0 < p
  pub fresh : (a : ℕ) → p ≤ a → a < p + n → ¬ Before a
  pub used : (a : ℕ) → p ≤ a → a < p + n → After a

abbrev pub Grants : (ℕ → Type 0) → (ℕ → Type 0) → ℕ → Option Ptr → Type 0
Grants Before After n none = Unit {0}
Grants Before After n (some p) = IsChunk Before After p n

pub record PoolLaws (api : PoolApi) : Type 1 where
  pub IsValid : api.Pool → api.World → Type 0
  pub InUse : api.Pool → api.World → ℕ → Type 0
  pub create_valid :
      (size : ℕ) (w w' : api.World) (pool : api.Pool)
      → 72 ≤ size
      → size % 8 ≡ 0
      → api.create size w ≡ (some pool, w')
      → IsValid pool w'
  pub mpalloc_valid :
      (n : ℕ) (pool : api.Pool) (w : api.World)
      → IsValid pool w
      → IsValid (api.mpalloc n pool w).1 (api.mpalloc n pool w).2
  pub mpalloc_keeps :
      (n : ℕ) (pool : api.Pool) (w : api.World)
      → IsValid pool w
      → (a : ℕ) → InUse pool w a
      → InUse (api.mpalloc n pool w).1 (api.mpalloc n pool w).2 a
  pub mpalloc_grants :
      (n : ℕ) (pool : api.Pool) (w : api.World)
      → IsValid pool w
      → Grants
          (InUse pool w)
          (InUse (api.mpalloc n pool w).1 (api.mpalloc n pool w).2)
          n
          (api.mpalloc n pool w).0
  pub set_error_valid :
      (error : List ℕ) (pool : api.Pool) (w : api.World)
      → IsValid pool w
      → IsValid pool (api.set_error error w)
  pub set_error_keeps :
      (error : List ℕ) (pool : api.Pool) (w : api.World) (a : ℕ)
      → InUse pool w a
      → InUse pool (api.set_error error w) a
