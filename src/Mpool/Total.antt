-- ===== src/Mpool/Total.antt =====
-- `smp_mpalloc` as a whole: two levels of recursion are enough, and both branches answer.
use mathlib.Core.Option
use smpcil.Base.{
  ℕ, suc, ◌≤◌, ◌≡◌, refl, ap, inl, inr, Option, some, none, List, arith, All-map, Ptr, leb, leb→le,
  le→leb, Bool-cases,
}
use smpcil.Libc.{Libc, Laws, IsFresh}
use smpcil.Error.{World}
use smpcil.Mpool
use smpcil.Mpool.{
  Region, Pool, Big, blocks, mpalloc, small_alloc, mpalloc_bigpool, big_at, big_entry, link_big,
  calloc, calloc_result, alloc, alloc_result, reuse_big, fail_text,
}
use smpcil.Mpool.Regions.{Used, IsSoundList, IsValid, Grants, regions}
use smpcil.Mpool.Grow.{IsValid-grows, Used-grows}
use smpcil.Mpool.Alloc.{Answers, failed, fail_text-keeps, small_alloc-Answers}

-- Bytes that were granted stay granted when nobody loses any.
Grants-keeps :
    {M : Type 0} {Live : M → ℕ → Type 0} {m m' m'' : M} {rs rs' rs'' : List Region} {p n : ℕ}
    → Grants Live m rs m' rs' p n
    → ((a : ℕ) → Used Live m' rs' a → Used Live m'' rs'' a)
    → Grants Live m rs m'' rs'' p n
Grants-keeps g k = record {
  nonnull = g.nonnull;
  aligned = g.aligned;
  fresh = g.fresh;
  used = λ a lo hi. k a (g.used a lo hi);
  keeps = λ a u. k a (g.keeps a u);
}

-- A chunk of the C library's that is no block is in use from the start.
chunk-Grants :
    {M : Type 0} (Live : M → ℕ → Type 0) (m m' : M) (psize : ℕ) (rs : List Region) (p n : ℕ)
    → IsSoundList Live m psize rs
    → IsFresh Live m m' p n
    → Grants Live m rs m' rs p n
chunk-Grants Live m m' psize rs p n list chunk = record {
  nonnull = chunk.nonnull;
  aligned = chunk.aligned;
  fresh = λ a lo hi u. chunk.new a lo hi u.live;
  used = λ a lo hi. record {
    live = chunk.live a lo hi;
    taken =
        All-map rs (λ r s f. chunk.new a lo hi (s.live a (omega arith) (omega arith))) list.sound;
  };
  keeps = Used-grows chunk.keeps rs;
}

module _ (os : Libc) (laws : Laws os) (psize : ℕ) (pool : Pool) (w : World os)
    (v : IsValid laws.Live w.mem psize pool) (size : ℕ) where
  -- The call ends, and answers.
  abbrev Ends : Option (Mpool.Reply os) → Type 0
  Ends o = (r : Mpool.Reply os) × (o ≡ some r) × Answers laws.Live psize pool w size r

  link_big-Answers :
      (w' : World os) (p : Ptr)
      → IsFresh laws.Live w.mem w'.mem p size
      → (r : Mpool.Reply os) → Answers laws.Live psize pool w' 16 r
      → Answers laws.Live psize pool w size (link_big os p r)
  unfolding link_big
  link_big-Answers w' p chunk (none, pool', w'') a = record {
    valid = a.valid;
    max = a.max;
    granted = λ b u. a.granted b (Used-grows chunk.keeps (regions (blocks pool)) b u);
  }
  link_big-Answers w' p chunk (some at, pool', w'') a = record {
    valid = record {
      sound = a.valid.sound;
      fits = a.valid.fits;
      short = a.valid.short;
      even = a.valid.even;
    };
    max = a.max;
    granted =
        Grants-keeps
          (chunk-Grants laws.Live w.mem w'.mem psize (regions (blocks pool)) p size v.sound chunk)
          a.granted.keeps;
  }

  module _ (fuel : ℕ) (big_enough : 16 ≤ pool.max) where
    -- The entry for a big chunk comes from the blocks, so the inner call does not recur.
    inner_call :
        (w' : World os) → mpalloc os (suc fuel) 16 pool w' ≡ some (small_alloc os 16 pool w')
    unfolding mpalloc
    inner_call w' = rw (le→leb 16 pool.max big_enough)

    big_entry-Ends :
        (w' : World os) (p : Ptr) (o : Option (List Big))
        → IsFresh laws.Live w.mem w'.mem p size
        → Ends (big_entry os (mpalloc os (suc fuel)) p pool w' o)
    unfolding big_entry
    big_entry-Ends w' p (some bigs) chunk = (
      _,
      refl,
      record {
        valid = record { sound = grown.sound; fits = v.fits; short = v.short; even = v.even };
        max = refl;
        granted =
            chunk-Grants laws.Live w.mem w'.mem psize (regions (blocks pool)) p size v.sound chunk;
      },
    )
      where
        grown : IsValid laws.Live w'.mem psize pool
        grown = IsValid-grows chunk.keeps psize pool v
    big_entry-Ends w' p none chunk = (
      link_big os p (small_alloc os 16 pool w'),
      ap (Option.map (link_big os p)) (inner_call w'),
      link_big-Answers w' p chunk (small_alloc os 16 pool w') (
          small_alloc-Answers os laws psize pool w' (IsValid-grows chunk.keeps psize pool v) 16
            big_enough),
    )

    big_at-Ends :
        (r : Option Ptr × os.Mem)
        → os.malloc size w.mem ≡ r
        → Ends (big_at os (mpalloc os (suc fuel)) pool (calloc_result os (alloc_result os r w)))
    unfolding big_at calloc_result alloc_result
    big_at-Ends (none, m) e = (
      _,
      refl,
      failed os laws psize pool w v size _ λ a live.
          fail_text-keeps os laws psize pool _ a
            (fail_text-keeps os laws psize pool _ a (laws.malloc_fails size w.mem m e a live)),
    )
    big_at-Ends (some p, m) e =
        big_entry-Ends _ p (reuse_big 0 p pool.bigs) (laws.malloc_fresh size w.mem m p e)

    -- From a valid pool whose `max` is sixteen or more, the size of a big entry, `smp_mpalloc`
    -- needs at most one inner call. It returns either NULL, or an eight-aligned address of `size`
    -- bytes none of which was in use and all of which are now; bytes in use stay so, and the pool
    -- stays valid.
    pub mpalloc-Ends : Ends (mpalloc os (suc (suc fuel)) size pool w)
    unfolding mpalloc mpalloc_bigpool calloc alloc
    mpalloc-Ends = elim (Bool-cases (leb size pool.max)) [
      | inl small ↦
          rw small (_, refl, small_alloc-Answers os laws psize pool w v size (leb→le _ _ small))
      | inr large ↦ rw large (big_at-Ends (os.malloc size w.mem) refl)
    ]
