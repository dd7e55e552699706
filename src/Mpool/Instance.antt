-- ===== src/Mpool/Instance.antt =====
-- The pool of smp_mpool.c has the laws that the containers rely on.
use smpcil.Base.{ℕ, ◌%◌, ◌≤◌, ◌≡◌, refl, sym, ap, Option, none, some, Ptr, arith}
use mathlib.Core.Option.{some-injective, none-ne-some}
use smpcil.Libc.{Libc, Laws}
use smpcil.Error.{World, set_error}
use smpcil.Error.Laws.{set_error-keeps}
use smpcil.PoolApi
use smpcil.PoolApi.{PoolApi, PoolLaws, IsChunk}
use smpcil.Mpool
use smpcil.Mpool.{
  Pool, blocks, create, create_at, memalign, alloc_result, pool_at, mpalloc, mpdestory,
}
use smpcil.Mpool.Regions.{Used, IsValid, regions}
use smpcil.Mpool.Grow.{IsValid-grows, Used-grows}
use smpcil.Mpool.Alloc.{Answers, Granted}
use smpcil.Mpool.Total.{mpalloc-Ends}
use smpcil.Mpool.Create.{create-IsValid}

module _ (os : Libc) where
  -- Fuel two is enough on the pools that `smp_mpool_create` makes (`Mpool.Total`).
  abbrev run_of : Option (Mpool.Reply os) → Pool → World os → Mpool.Reply os
  run_of none pool w = (none, pool, w)
  run_of (some r) pool w = r

  abbrev pub mpool_api : PoolApi
  mpool_api = record {
    World = World os;
    Pool = Pool;
    create = create os;
    mpalloc = λ n pool w. run_of (mpalloc os 2 n pool w) pool w;
    destory = mpdestory os;
    set_error = set_error;
  }

  module _ (laws : Laws os) (page : 16 ≤ os.page_size) where
    record IsReady (pool : Pool) (w : World os) : Type 0 where
      psize : ℕ
      valid : IsValid laws.Live w.mem psize pool
      room : 16 ≤ pool.max

    abbrev InPool : Pool → World os → ℕ → Type 0
    InPool pool w a = Used laws.Live w.mem (regions (blocks pool)) a

    module _ (n : ℕ) (pool : Pool) (w : World os) (v : IsReady pool w) where
      answers : Answers laws.Live v.psize pool w n (mpool_api.mpalloc n pool w)
      answers =
          let (r, ends, a) = mpalloc-Ends os laws v.psize pool w v.valid n 0 v.room in rw ends a

    Granted-keeps :
        (pool : Pool) (w : World os) (n : ℕ) (r : Mpool.Reply os)
        → Granted laws.Live w.mem (regions (blocks pool)) r.2.mem (regions (blocks r.1)) n r.0
        → (a : ℕ) → InPool pool w a
        → InPool r.1 r.2 a
    Granted-keeps pool w n (none, pool', w') g a u = g a u
    Granted-keeps pool w n (some p, pool', w') g a u = g.keeps a u

    Granted-chunk :
        (pool : Pool) (w : World os) (n : ℕ) (r : Mpool.Reply os)
        → Granted laws.Live w.mem (regions (blocks pool)) r.2.mem (regions (blocks r.1)) n r.0
        → PoolApi.Grants (InPool pool w) (InPool r.1 r.2) n r.0
    Granted-chunk pool w n (none, pool', w') g = tt
    Granted-chunk pool w n (some p, pool', w') g = record {
      nonnull = g.nonnull;
      fresh = g.fresh;
      used = g.used;
    }

    created :
        (size : ℕ) (w w' : World os) (pool : Pool) (r : Option Ptr × os.Mem)
        → os.memalign size w.mem ≡ r
        → 72 ≤ size
        → size % 8 ≡ 0
        → create_at os size (alloc_result os r w) ≡ (some pool, w')
        → IsReady pool w'
    unfolding create_at alloc_result
    created size w w' pool (none, m) got big even e = absurd (none-ne-some _ (ap (λ t. t.0) e))
    created size w w' pool (some p, m) got big even e =
        let made = create-IsValid os laws size w p m got big even page in
        let made_pool : pool_at os size p ≡ pool = some-injective _ _ (ap (λ t. t.0) e) in
        let made_world : record w { mem = m } ≡ w' = ap (λ t. t.1) e in
        rw (sym made_pool, sym made_world) (record { psize = size; valid = made.1; room = made.2 })

    -- The pool of smp_mpool.c gives its clients what they rely on.
    pub mpool_laws : PoolLaws mpool_api
    unfolding create memalign
    mpool_laws = record {
      IsValid = IsReady;
      InUse = InPool;
      create_valid = λ size w w' pool big even e.
          created size w w' pool (os.memalign size w.mem) refl big even e;
      mpalloc_valid = λ n pool w v.
          let a = answers n pool w v in
          record { psize = v.psize; valid = a.valid; room = omega (arith, a.max, v.room) };
      mpalloc_keeps = λ n pool w v a u.
          Granted-keeps pool w n (mpool_api.mpalloc n pool w) (answers n pool w v).granted a u;
      mpalloc_grants = λ n pool w v.
          Granted-chunk pool w n (mpool_api.mpalloc n pool w) (answers n pool w v).granted;
      set_error_valid = λ error pool w v. record {
        psize = v.psize;
        valid = IsValid-grows (set_error-keeps laws error w) v.psize pool v.valid;
        room = v.room;
      };
      set_error_keeps =
          λ error pool w a u. Used-grows (set_error-keeps laws error w) (regions (blocks pool)) a u;
    }
