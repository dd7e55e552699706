-- ===== src/Mpool/Regions.antt =====
-- What the blocks of a pool own, and which of their bytes are in use: the terms in which the
-- allocator is specified. A region says where a block of `Mpool` starts, ends, and has free bytes.
use smpcil.Base.{
  ℕ, ◌+◌, ◌%◌, ◌≤◌, ◌<◌, ◌≡◌, ◌⊎◌, List, [], ◌∷◌, ◌++◌, map, All, All-append, size_mod,
}
use smpcil.Mpool.{Region, Block, Pool, blocks}

abbrev pub Free : ℕ → Region → Type 0
Free a r = (r.last ≤ a) × (a < r.end)

-- a byte that is live and that no block has free
pub record Used {M : Type 0} (Live : M → ℕ → Type 0) (m : M) (rs : List Region) (a : ℕ)
    : Type 0 where
  pub live : Live m a
  pub taken : All (λ r. ¬ Free a r) rs

abbrev pub Apart : Region → Region → Type 0
Apart r s = (r.end ≤ s.base) ⊎ (s.end ≤ r.base)

abbrev pub AllApart : List Region → Type 0
AllApart [] = Unit {0}
AllApart (r ∷ rs) = All (Apart r) rs × AllApart rs

-- A block of `psize` bytes: aligned, in the address space, its free bytes inside it, all live.
pub record IsSound {M : Type 0} (Live : M → ℕ → Type 0) (m : M) (psize : ℕ) (r : Region)
    : Type 0 where
  pub starts : r.base + 32 ≤ r.last
  pub stops : r.last ≤ r.end
  pub size : r.base + psize ≡ r.end
  pub aligned : r.end % 8 ≡ 0
  pub in_range : r.end + 8 ≤ size_mod
  pub live : (a : ℕ) → r.base ≤ a → a < r.end → Live m a

abbrev pub regions : List Block → List Region
regions = map (λ b. b.region)

pub record IsSoundList {M : Type 0} (Live : M → ℕ → Type 0) (m : M) (psize : ℕ) (rs : List Region)
    : Type 0 where
  pub sound : All (IsSound Live m psize) rs
  pub apart : AllApart rs

-- The invariant of a pool. Its `max` leaves room for the longer head of the first block.
pub record IsValid {M : Type 0} (Live : M → ℕ → Type 0) (m : M) (psize : ℕ) (pool : Pool)
    : Type 0 where
  pub sound : IsSoundList Live m psize (regions (blocks pool))
  pub fits : pool.max + 56 ≤ psize
  pub short : psize < size_mod
  pub even : psize % 8 ≡ 0

-- `p` is the address of `n` bytes that were not in use, and now are; all that was in use still is.
pub record Grants {M : Type 0} (Live : M → ℕ → Type 0) (m : M) (rs : List Region) (m' : M)
    (rs' : List Region) (p n : ℕ) : Type 0 where
  pub nonnull : 0 < p
  pub aligned : p % 8 ≡ 0
  pub fresh : (a : ℕ) → p ≤ a → a < p + n → ¬ Used Live m rs a
  pub used : (a : ℕ) → p ≤ a → a < p + n → Used Live m' rs' a
  pub keeps : (a : ℕ) → Used Live m rs a → Used Live m' rs' a

-- Behind the list a region may be added that is apart from each.
pub AllApart-snoc :
    (rs : List Region) (s : Region)
    → AllApart rs
    → All (λ r. Apart r s) rs
    → AllApart (rs ++ s ∷ [])
AllApart-snoc [] s h k = (tt, tt)
AllApart-snoc (r ∷ rs) s h k =
    (All-append (Apart r) rs (s ∷ []) h.0 (k.0, tt), AllApart-snoc rs s h.1 k.1)
