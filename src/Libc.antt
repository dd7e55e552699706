-- ===== src/Libc.antt =====
-- What the library calls in the C library: the allocator, page size and error texts. Their code is
-- not in the repository, so they are a parameter, with the laws that POSIX documents.
use smpcil.Base.{ℕ, ◌+◌, ◌%◌, ◌≤◌, ◌<◌, ◌≡◌, refl, Option, none, some, List, Ptr, size_mod}

pub record Libc : Type 1 where
  pub Mem : Type 0
  pub malloc : ℕ → Mem → Option Ptr × Mem
  -- `posix_memalign` with the alignment `sizeof(unsigned long)`
  pub memalign : ℕ → Mem → Option Ptr × Mem
  pub free : Ptr → Mem → Mem
  pub page_size : ℕ
  -- `strerror(errno)`
  pub error_text : Mem → List ℕ

-- A chunk of `n` bytes at `p` that an allocator hands out when it takes the memory `m` to `m'`.
pub record IsFresh {M : Type 0} (Live : M → ℕ → Type 0) (m m' : M) (p n : ℕ) : Type 0 where
  pub nonnull : 0 < p
  pub aligned : p % 8 ≡ 0
  pub in_range : p + n + 8 ≤ size_mod
  pub new : (a : ℕ) → p ≤ a → a < p + n → ¬ Live m a
  pub live : (a : ℕ) → p ≤ a → a < p + n → Live m' a
  pub keeps : (a : ℕ) → Live m a → Live m' a

-- `malloc` and `posix_memalign` hand out bytes that nobody holds, aligned to eight, and take
-- none away; when they fail they take none away either.
pub record Laws (os : Libc) : Type 1 where
  pub Live : os.Mem → ℕ → Type 0
  pub malloc_fresh :
      (n : ℕ) (m m' : os.Mem) (p : Ptr) → os.malloc n m ≡ (some p, m') → IsFresh Live m m' p n
  pub malloc_fails :
      (n : ℕ) (m m' : os.Mem) → os.malloc n m ≡ (none, m') → (a : ℕ) → Live m a → Live m' a
  pub memalign_fresh :
      (n : ℕ) (m m' : os.Mem) (p : Ptr) → os.memalign n m ≡ (some p, m') → IsFresh Live m m' p n
  pub memalign_fails :
      (n : ℕ) (m m' : os.Mem) → os.memalign n m ≡ (none, m') → (a : ℕ) → Live m a → Live m' a

module _ {os : Libc} (laws : Laws os) (n : ℕ) (m : os.Mem) (a : ℕ) (live : laws.Live m a) where
  malloc_keeps_at : (r : Option Ptr) (m' : os.Mem) → os.malloc n m ≡ (r, m') → laws.Live m' a
  malloc_keeps_at none m' e = laws.malloc_fails n m m' e a live
  malloc_keeps_at (some p) m' e = (laws.malloc_fresh n m m' p e).keeps a live

  pub malloc_keeps : laws.Live (os.malloc n m).1 a
  malloc_keeps = malloc_keeps_at (os.malloc n m).0 (os.malloc n m).1 refl

  memalign_keeps_at : (r : Option Ptr) (m' : os.Mem) → os.memalign n m ≡ (r, m') → laws.Live m' a
  memalign_keeps_at none m' e = laws.memalign_fails n m m' e a live
  memalign_keeps_at (some p) m' e = (laws.memalign_fresh n m m' p e).keeps a live

  pub memalign_keeps : laws.Live (os.memalign n m).1 a
  memalign_keeps = memalign_keeps_at (os.memalign n m).0 (os.memalign n m).1 refl
