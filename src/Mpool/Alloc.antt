-- ===== src/Mpool/Alloc.antt =====
-- `smp_mpalloc` from a valid pool: what it returns was free, now belongs to the caller, and nothing
-- that belonged to somebody changes hands.
use mathlib.Core.List.{map-append, append_assoc}
use smpcil.Base.{
  ℕ, ◌+◌, ◌%◌, ◌≤◌, ◌≡◌, refl, Option, some, none, List, [], ◌∷◌, ◌++◌, arith, All,
  All-append_right, Ptr, size_mod, ◌∙◌,
}
use smpcil.Libc.{Libc, Laws}
use smpcil.Error.{World}
use smpcil.Error.Laws.{set_error-keeps}
use smpcil.Mpool
use smpcil.Mpool.{
  Region, Block, Pool, Big, blocks, head, first_block, set_current, sub_size, age, block_at,
  alloc_result, chain_alloc, chain_reply, small_alloc, mpalloc_block, memalign, align_ptr, add_size,
}
use smpcil.Mpool.Regions.{Used, IsSound, IsSoundList, IsValid, Grants, regions}
use smpcil.Mpool.Chain.{
  Carves, chain_alloc-Carves, Carved-behind, Carved-IsSoundList, Carved-Grants,
}
use smpcil.Mpool.Grow.{IsValid-grows, Used-grows, added-IsSoundList, added-Grants}
use smpcil.Mpool.Age.{age-regions}

-- What a call for `size` bytes leaves: a valid pool with the same `max`, and either the bytes or
-- NULL with nothing taken from anybody.
abbrev pub Granted :
    {M : Type 0} → (M → ℕ → Type 0) → M → List Region → M → List Region → ℕ → Option Ptr → Type 0
Granted Live m rs m' rs' size none = (a : ℕ) → Used Live m rs a → Used Live m' rs' a
Granted Live m rs m' rs' size (some p) = Grants Live m rs m' rs' p size

pub record Answers {os : Libc} (Live : os.Mem → ℕ → Type 0) (psize : ℕ) (pool : Pool) (w : World os)
    (size : ℕ) (r : Mpool.Reply os) : Type 0 where
  pub valid : IsValid Live r.2.mem psize r.1
  pub max : r.1.max ≡ pool.max
  pub granted : Granted Live w.mem (regions (blocks pool)) r.2.mem (regions (blocks r.1)) size r.0

max-set_current : (pool : Pool) (x : List Block × List Block) → (set_current pool x).max ≡ pool.max
unfolding set_current
max-set_current pool (s, []) = refl
max-set_current pool (s, b ∷ bs) = refl

IsSound-head :
    {M : Type 0} (Live : M → ℕ → Type 0) (m : M) (psize : ℕ) (before : List Block) (b : Block)
    (after : List Block)
    → All (IsSound Live m psize) (regions (before ++ b ∷ after))
    → IsSound Live m psize (first_block before b).region
IsSound-head Live m psize [] b after h = h.0
IsSound-head Live m psize (c ∷ cs) b after h = h.0

module _ (size psize : ℕ) (m : Ptr) where
  -- the block that `smp_mpalloc_block` makes of a chunk
  abbrev chunk_block : Block
  chunk_block = record {
    region = record {
      base = m;
      last = add_size (align_ptr (add_size m 32)) size;
      end = add_size m psize;
    };
    failure = 0;
  }

  module _ (aligned : m % 8 ≡ 0) (in_range : m + psize + 8 ≤ size_mod)
      (room : size + 56 ≤ psize) where
    start-eq : align_ptr (add_size m 32) ≡ m + 32
    start-eq = omega arith

    chunk_block-region :
        chunk_block.region ≡ record { base = m; last = m + 32 + size; end = m + psize }
    chunk_block-region = ground arith

    regions-chunk :
        (pool : Pool)
        → regions
            (blocks (set_current pool (age pool.before [] pool.current pool.after chunk_block)))
          ≡ regions (blocks pool) ++ record { base = m; last = m + 32 + size; end = m + psize } ∷ []
    regions-chunk pool =
        age-regions pool pool.before [] pool.current pool.after chunk_block
        ∙ (rw chunk_block-region (simp (map-append, append_assoc)))

module _ (os : Libc) (laws : Laws os) (psize : ℕ) (pool : Pool) where
  pub fail_text-keeps :
      (w : World os) (a : ℕ) → laws.Live w.mem a → laws.Live (Mpool.fail_text os w).mem a
  fail_text-keeps w a live = set_error-keeps laws (os.error_text w.mem) w a live

  module _ (w : World os) (v : IsValid laws.Live w.mem psize pool) (size : ℕ) where
    head-psize : sub_size (head pool).end (head pool).base ≡ psize
    head-psize =
        let s =
          IsSound-head laws.Live w.mem psize pool.before pool.current pool.after v.sound.sound in
        omega (arith, s.size, s.in_range)

    -- A failed call of the C library costs nobody anything.
    pub failed :
        (w' : World os)
        → ((a : ℕ) → laws.Live w.mem a → laws.Live w'.mem a)
        → Answers laws.Live psize pool w size (none, pool, w')
    failed w' grows = record {
      valid = IsValid-grows grows psize pool v;
      max = refl;
      granted = Used-grows grows (regions (blocks pool));
    }

    block_at-Answers :
        (r : Option Ptr × os.Mem)
        → os.memalign psize w.mem ≡ r
        → size ≤ pool.max
        → Answers laws.Live psize pool w size (block_at os size psize pool (alloc_result os r w))
    unfolding block_at alloc_result
    block_at-Answers (none, m) e small =
        failed _ λ a live. fail_text-keeps _ a (laws.memalign_fails psize w.mem m e a live)
    block_at-Answers (some p, m) e small =
        let chunk = laws.memalign_fresh psize w.mem m p e in
        let room : size + 56 ≤ psize = omega (arith, v.fits) in
        let same = regions-chunk size psize p chunk.aligned chunk.in_range room pool in
        let rs = regions (blocks pool) in
        record {
          valid = record {
            sound =
                rw same
                  (added-IsSoundList laws.Live w.mem m psize rs v.sound p chunk size room v.even);
            fits = rw max-set_current v.fits;
            short = v.short;
            even = v.even;
          };
          max = max-set_current pool _;
          granted =
              rw (same, start-eq size psize p chunk.aligned chunk.in_range room)
                (added-Grants laws.Live w.mem m psize rs v.sound p chunk size room v.even);
        }

    -- What the loop finds is granted; otherwise the other reply stands.
    chain_reply-Answers :
        (o : Option (Ptr × Block × List Block))
        → Carves size (regions (pool.current ∷ pool.after)) o
        → (other : Mpool.Reply os) → Answers laws.Live psize pool w size other
        → Answers laws.Live psize pool w size (chain_reply os pool w o other)
    unfolding chain_reply
    chain_reply-Answers none carves other a = a
    chain_reply-Answers (some (p, b, bs)) carves other a =
        let pre = regions pool.before in
        let front = λ (xs : List Block). map-append (λ (b : Block). b.region) pool.before xs in
        let list : IsSoundList laws.Live w.mem psize (pre ++ regions (pool.current ∷ pool.after)) =
          rw (front (pool.current ∷ pool.after)) at v.sound in
        let carved = Carved-behind pre carves in
        record {
          valid = record {
            sound = rw (front (b ∷ bs)) (Carved-IsSoundList laws.Live w.mem psize carved list);
            fits = v.fits;
            short = v.short;
            even = v.even;
          };
          max = refl;
          granted =
              rw (front (b ∷ bs), front (pool.current ∷ pool.after))
                (Carved-Grants laws.Live w.mem psize carved list);
        }

    pub small_alloc-Answers :
        size ≤ pool.max → Answers laws.Live psize pool w size (small_alloc os size pool w)
    unfolding small_alloc mpalloc_block memalign
    small_alloc-Answers small =
        let list : IsSoundList laws.Live w.mem psize (regions (blocks pool)) = v.sound in
        let tail =
          All-append_right (IsSound laws.Live w.mem psize) (regions pool.before)
            (regions (pool.current ∷ pool.after))
            (rw (map-append (λ (b : Block). b.region) pool.before (pool.current ∷ pool.after)) at
              list.sound) in
        chain_reply-Answers (chain_alloc size pool.current pool.after)
          (chain_alloc-Carves laws.Live w.mem psize size pool.current pool.after
            (omega (arith, v.fits, v.short)) tail)
          (mpalloc_block os size pool w)
          (rw head-psize (block_at-Answers (os.memalign psize w.mem) refl small))
