-- ===== src/Mpool/Age.antt =====
-- The `for` loop of `smp_mpalloc_block`: it counts failures and moves `current`, but the blocks
-- stay the same regions in the same order, with the new one behind them.
use mathlib.Core.List.{map-append, append_assoc}
use smpcil.Base.{◌≡◌, refl, ◌∙◌, inc32, ltb, List, [], ◌∷◌, ◌++◌, Bool, true, false, if◌then◌else◌}
use smpcil.Mpool.{Block, Region, Pool, blocks, age, set_current}
use smpcil.Mpool.Regions.{regions}

blocks-set_current :
    (pool : Pool) (skipped kept : List Block) (b : Block) (bs : List Block)
    → blocks (set_current pool (skipped, kept ++ b ∷ bs)) ≡ skipped ++ (kept ++ b ∷ bs)
unfolding set_current
blocks-set_current pool skipped [] b bs = refl
blocks-set_current pool skipped (k ∷ kept) b bs = refl

-- Where the loop puts a block makes no difference to the order of all.
split_order :
    (t : Bool) (skipped kept : List Block) (b : Block) (tail : List Region)
    → regions (if t then skipped ++ (kept ++ b ∷ []) else skipped)
        ++ (regions (if t then [] else kept ++ b ∷ []) ++ tail)
      ≡ regions skipped ++ (regions kept ++ b.region ∷ tail)
split_order true skipped kept b tail = simp (map-append, append_assoc)
split_order false skipped kept b tail = simp (map-append, append_assoc)

pub age-regions :
    (pool : Pool) (skipped kept : List Block) (b : Block) (cs : List Block) (fresh : Block)
    → regions (blocks (set_current pool (age skipped kept b cs fresh)))
      ≡ regions skipped ++ (regions kept ++ (regions (b ∷ cs) ++ fresh.region ∷ []))
unfolding age
age-regions pool skipped kept b [] fresh = rw blocks-set_current (simp map-append)
age-regions pool skipped kept b (c ∷ cs) fresh =
    let b' : Block = record b { failure = inc32 b.failure } in
    let t = ltb 4 b.failure in
    age-regions pool (if t then skipped ++ (kept ++ b' ∷ []) else skipped)
      (if t then [] else kept ++ b' ∷ []) c cs fresh
    ∙ split_order t skipped kept b' _
