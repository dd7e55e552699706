-- ===== src/Mpool/Chain.antt =====
-- The `do` loop of `smp_mpalloc`: it takes the bytes from the free part of one block.
use mathlib.Core.Option
use smpcil.Base.{
  ℕ, ◌+◌, ◌%◌, ◌≤◌, ◌<◌, ◌≡◌, refl, Option, some, none, List, [], ◌∷◌, ◌++◌, arith, All, All-map,
  Ptr, size_mod,
}
use smpcil.Mpool.{Region, Block, block_alloc, next_round, chain_alloc}
use smpcil.Mpool.Regions.{Free, Apart, AllApart, IsSound, IsSoundList, Grants, regions}

pub record CarveOk (m size : ℕ) (r r' : Region) : Type 0 where
  pub aligned : m % 8 ≡ 0
  pub behind : r.last ≤ m
  pub inside : m + size ≤ r.end
  pub same_base : r'.base ≡ r.base
  pub same_end : r'.end ≡ r.end
  pub moved : r'.last ≡ m + size

-- One region of the list gives up the `size` bytes at `m`.
pub data Carved (m size : ℕ) : List Region → List Region → Type 0 where
  here : {r r' : Region} {rs : List Region} → CarveOk m size r r' → Carved m size (r ∷ rs) (r' ∷ rs)
  there :
      {r : Region} {rs rs' : List Region} → Carved m size rs rs' → Carved m size (r ∷ rs) (r ∷ rs')

-- What the loop leaves: nothing found, or an address and the list with a region carved.
abbrev pub Carves : ℕ → List Region → Option (Ptr × Block × List Block) → Type 0
Carves size rs none = Unit {0}
Carves size rs (some (m, b, bs)) = Carved m size rs (regions (b ∷ bs))

Carves-there :
    (size : ℕ) (rs : List Region) (b : Block) (o : Option (Ptr × Block × List Block))
    → Carves size rs o
    → Carves size (b.region ∷ rs) (Option.map (λ (m, c', cs'). (m, b, c' ∷ cs')) o)
Carves-there size rs b none h = tt
Carves-there size rs b (some (m, c', cs')) h = there h

pub Carved-Apart :
    {m size : ℕ} {rs rs' : List Region}
    → Carved m size rs rs'
    → (r : Region) → All (Apart r) rs
    → All (Apart r) rs'
Carved-Apart (here {r = s} {r'} ok) r (h, t) = (ground arith, t)
Carved-Apart (there c) r (h, t) = (h, Carved-Apart c r t)

pub Carved-AllApart :
    {m size : ℕ} {rs rs' : List Region} → Carved m size rs rs' → AllApart rs → AllApart rs'
Carved-AllApart (here {r} {r'} {rs} ok) (h, t) = (All-map rs (λ s k. ground arith) h, t)
Carved-AllApart (there {r} c) (h, t) = (Carved-Apart c r h, Carved-AllApart c t)

-- The bytes come from the free part of a region,
pub Carved-was-Free :
    (a : ℕ) {m size : ℕ} {rs rs' : List Region}
    → Carved m size rs rs'
    → m ≤ a
    → a < m + size
    → ¬ All (λ r. ¬ Free a r) rs
Carved-was-Free a (here ok) lo hi (k, t) = k (omega arith, omega arith)
Carved-was-Free a (there c) lo hi (k, t) = Carved-was-Free a c lo hi t

-- and what was taken stays so.
pub Carved-keeps :
    (a : ℕ) {m size : ℕ} {rs rs' : List Region}
    → Carved m size rs rs'
    → All (λ r. ¬ Free a r) rs
    → All (λ r. ¬ Free a r) rs'
Carved-keeps a (here ok) (k, t) = (λ f. k (omega arith, omega arith), t)
Carved-keeps a (there c) (k, t) = (k, Carved-keeps a c t)

module _ {M : Type 0} (Live : M → ℕ → Type 0) (w : M) (psize : ℕ) where
  block_alloc-CarveOk :
      (size : ℕ) (b : Block) {m : Ptr} {b' : Block}
      → size < size_mod
      → IsSound Live w psize b.region
      → block_alloc size b ≡ some (m, b')
      → CarveOk m size b.region b'.region
  unfolding block_alloc
  block_alloc-CarveOk size b h s e = ground arith

  next_round-Carves :
      (size : ℕ) (b : Block) (bs : List Block) (o : Option (Ptr × Block))
      (rest : Option (Ptr × Block × List Block))
      → size < size_mod
      → IsSound Live w psize b.region
      → block_alloc size b ≡ o
      → Carves size (regions bs) rest
      → Carves size (regions (b ∷ bs)) (next_round b bs o rest)
  unfolding next_round
  next_round-Carves size b bs none rest h s e k = Carves-there size (regions bs) b rest k
  next_round-Carves size b bs (some (m, b')) rest h s e k = here (block_alloc-CarveOk size b h s e)

  -- Whatever the loop finds, it carves from one region; where it finds nothing it changes nothing.
  pub chain_alloc-Carves :
      (size : ℕ) (b : Block) (cs : List Block)
      → size < size_mod
      → All (IsSound Live w psize) (regions (b ∷ cs))
      → Carves size (regions (b ∷ cs)) (chain_alloc size b cs)
  unfolding chain_alloc
  chain_alloc-Carves size b [] h s =
      next_round-Carves size b [] (block_alloc size b) none h s.0 refl tt
  chain_alloc-Carves size b (c ∷ cs) h s =
      next_round-Carves size b (c ∷ cs) (block_alloc size b) (chain_alloc size c cs) h s.0 refl
        (chain_alloc-Carves size c cs h s.1)

  pub Carved-IsSound :
      {m size : ℕ} {rs rs' : List Region}
      → Carved m size rs rs'
      → All (IsSound Live w psize) rs
      → All (IsSound Live w psize) rs'
  Carved-IsSound (here {r} {r'} ok) (h, t) = (sound, t)
    where
      sound : IsSound Live w psize r'
      sound = record {
        starts = omega arith;
        stops = omega arith;
        size = omega arith;
        aligned = rw (ok.same_end) h.aligned;
        in_range = omega arith;
        live = λ a lo hi. h.live a (omega arith) (omega arith);
      }
  Carved-IsSound (there c) (h, t) = (h, Carved-IsSound c t)

  -- are live,
  pub Carved-live :
      {m size a : ℕ} {rs rs' : List Region}
      → Carved m size rs rs'
      → All (IsSound Live w psize) rs
      → m ≤ a
      → a < m + size
      → Live w a
  Carved-live {a} (here ok) (s, t) lo hi = s.live a (omega arith) (omega arith)
  Carved-live (there c) (s, t) lo hi = Carved-live c t lo hi

  -- and lie in no region that is apart from them all.
  Carved-outside :
      {m size a : ℕ} {rs rs' : List Region} (r : Region)
      → Carved m size rs rs'
      → All (IsSound Live w psize) rs
      → IsSound Live w psize r
      → All (Apart r) rs
      → m ≤ a
      → a < m + size
      → ¬ Free a r
  Carved-outside r (here ok) (s, t) q (h, k) lo hi f = ground arith
  Carved-outside r (there c) (s, t) q (h, k) lo hi f = Carved-outside r c t q k lo hi f

  Apart-taken :
      (a : ℕ) (r : Region) (rs : List Region)
      → All (IsSound Live w psize) rs
      → All (Apart r) rs
      → r.base ≤ a
      → a < r.end
      → All (λ s. ¬ Free a s) rs
  Apart-taken a r [] s h lo hi = tt
  Apart-taken a r (q ∷ rs) s h lo hi = (λ f. ground arith, Apart-taken a r rs s.1 h.1 lo hi)

  -- Afterwards no region has them free,
  pub Carved-taken :
      {m size a : ℕ} {rs rs' : List Region}
      → Carved m size rs rs'
      → IsSoundList Live w psize rs
      → m ≤ a
      → a < m + size
      → All (λ r. ¬ Free a r) rs'
  Carved-taken {a} (here {r} {rs} ok) s lo hi =
      (λ f. omega arith, Apart-taken a r rs s.sound.1 s.apart.0 (omega arith) (omega arith))
  Carved-taken (there {r} c) s lo hi = (
    Carved-outside r c s.sound.1 s.sound.0 s.apart.0 lo hi,
    Carved-taken c (record { sound = s.sound.1; apart = s.apart.1 }) lo hi,
  )

pub Carved-behind :
    {m size : ℕ} (qs : List Region) {rs rs' : List Region}
    → Carved m size rs rs'
    → Carved m size (qs ++ rs) (qs ++ rs')
Carved-behind [] c = c
Carved-behind (q ∷ qs) c = there (Carved-behind qs c)

pub Carved-aligned : {m size : ℕ} {rs rs' : List Region} → Carved m size rs rs' → m % 8 ≡ 0
Carved-aligned (here ok) = ok.aligned
Carved-aligned (there c) = Carved-aligned c

module _ {M : Type 0} (Live : M → ℕ → Type 0) (w : M) (psize : ℕ) where
  Carved-nonnull :
      {m size : ℕ} {rs rs' : List Region}
      → Carved m size rs rs'
      → All (IsSound Live w psize) rs
      → 0 < m
  Carved-nonnull (here ok) (s, t) = omega arith
  Carved-nonnull (there c) (s, t) = Carved-nonnull c t

  module _ {m size : ℕ} {rs rs' : List Region} (c : Carved m size rs rs')
      (list : IsSoundList Live w psize rs) where
    pub Carved-IsSoundList : IsSoundList Live w psize rs'
    Carved-IsSoundList = record {
      sound = Carved-IsSound Live w psize c list.sound;
      apart = Carved-AllApart c list.apart;
    }

    pub Carved-Grants : Grants Live w rs w rs' m size
    Carved-Grants = record {
      nonnull = Carved-nonnull c list.sound;
      aligned = Carved-aligned c;
      fresh = λ a lo hi u. Carved-was-Free a c lo hi u.taken;
      used = λ a lo hi. record {
        live = Carved-live Live w psize c list.sound lo hi;
        taken = Carved-taken Live w psize c list lo hi;
      };
      keeps = λ a u. record { live = u.live; taken = Carved-keeps a c u.taken };
    }
