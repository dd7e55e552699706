-- ===== src/Mpool/Grow.antt =====
-- Growth of the live memory, and a new block behind the blocks of a pool.
use native.Mathlib.Decide.{dec_le}
use smpcil.Base.{
  ℕ, ◌+◌, ◌%◌, ◌≤◌, ◌<◌, ◌≡◌, refl, inl, inr, List, [], ◌∷◌, ◌++◌, arith, All-map, All-append, Ptr,
}
use smpcil.Libc.{IsFresh}
use smpcil.Mpool.{Region, Pool, blocks}
use smpcil.Mpool.Regions.{
  Free, Used, Apart, AllApart-snoc, IsSound, IsSoundList, IsValid, Grants, regions,
}

module _ {M : Type 0} {Live : M → ℕ → Type 0} {m m' : M}
    (grows : (a : ℕ) → Live m a → Live m' a) where
  pub IsSound-grows : (psize : ℕ) (r : Region) → IsSound Live m psize r → IsSound Live m' psize r
  IsSound-grows psize r s = record {
    starts = s.starts;
    stops = s.stops;
    size = s.size;
    aligned = s.aligned;
    in_range = s.in_range;
    live = λ a lo hi. grows a (s.live a lo hi);
  }

  pub IsValid-grows :
      (psize : ℕ) (pool : Pool) → IsValid Live m psize pool → IsValid Live m' psize pool
  IsValid-grows psize pool v = record {
    sound = record {
      sound = All-map (regions (blocks pool)) (IsSound-grows psize) v.sound.sound;
      apart = v.sound.apart;
    };
    fits = v.fits;
    short = v.short;
    even = v.even;
  }

  pub Used-grows : (rs : List Region) (a : ℕ) → Used Live m rs a → Used Live m' rs a
  Used-grows rs a u = record { live = grows a u.live; taken = u.taken }

-- A chunk that nobody held, added behind the regions as a block, grants the bytes at its start.
module _ {M : Type 0} (Live : M → ℕ → Type 0) (m m' : M) (psize : ℕ) (rs : List Region)
    (list : IsSoundList Live m psize rs) (base : Ptr) (chunk : IsFresh Live m m' base psize) where
  abbrev added : ℕ → Region
  added n = record { base = base; last = base + 32 + n; end = base + psize }

  fresh-Apart : (r : Region) → 0 < psize → IsSound Live m psize r → (n : ℕ) → Apart r (added n)
  fresh-Apart r pos s n = elim (dec_le r.end base) [
    | yes h ↦ inl h
    | no h ↦ elim (dec_le (base + psize) r.base) [
      | yes k ↦ inr k
      | no k ↦ elim (dec_le r.base base) [
        | yes j ↦ absurd (chunk.new base (omega arith) (omega arith) (s.live base j (omega arith)))
        | no j ↦ absurd (
            chunk.new r.base (omega arith) (omega arith)
              (s.live r.base (omega arith) (omega arith)))
      ]
    ]
  ]

  -- A sound region has none of the new bytes free.
  fresh-not-Free :
      (a : ℕ) (r : Region) → IsSound Live m psize r → base ≤ a → a < base + psize → ¬ Free a r
  fresh-not-Free a r s lo hi f = chunk.new a lo hi (s.live a (omega arith) (omega arith))

  module _ (n : ℕ) (room : n + 56 ≤ psize) (even : psize % 8 ≡ 0) where
    added-IsSound : IsSound Live m' psize (added n)
    added-IsSound = record {
      starts = omega arith;
      stops = omega arith;
      size = refl;
      aligned = omega arith;
      in_range = chunk.in_range;
      live = chunk.live;
    }

    pub added-IsSoundList : IsSoundList Live m' psize (rs ++ added n ∷ [])
    added-IsSoundList = record {
      sound =
          All-append (IsSound Live m' psize) rs (added n ∷ [])
            (All-map rs (IsSound-grows chunk.keeps psize) list.sound) (added-IsSound, tt);
      apart =
          AllApart-snoc rs (added n) list.apart
            (All-map rs (λ r s. fresh-Apart r (omega arith) s n) list.sound);
    }

    pub added-Grants : Grants Live m rs m' (rs ++ added n ∷ []) (base + 32) n
    added-Grants = record {
      nonnull = omega arith;
      aligned = omega (arith, chunk.aligned);
      fresh = λ a lo hi u. chunk.new a (omega arith) (omega arith) u.live;
      used = λ a lo hi. record {
        live = chunk.live a (omega arith) (omega arith);
        taken =
            All-append (λ r. ¬ Free a r) rs (added n ∷ [])
              (All-map rs (λ r s. fresh-not-Free a r s (omega arith) (omega arith)) list.sound)
              ((λ f. omega arith), tt);
      };
      keeps = λ a u. record {
        live = chunk.keeps a u.live;
        taken =
            All-append (λ r. ¬ Free a r) rs (added n ∷ []) u.taken
              ((λ f. chunk.new a (omega arith) (omega arith) u.live), tt);
      };
    }
