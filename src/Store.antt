-- ===== src/Store.antt =====
-- Linked nodes at addresses, the calls that a component makes through its function pointers, and
-- commands over both. A read or a write through NULL or a freed address is a fault.
pub mod Returns
use smpcil.Base.{ℕ, Option, none, some, List, ◌∷◌, Ptr, null, ◌==◌, if◌then◌else◌}

abbrev pub Heap : Type 0 → Type 0
Heap N = Ptr → Option N

unfoldable pub write : {N : Type 0} → Heap N → Ptr → Option N → Heap N
write h p c a = if a == p then c else h a

-- A call that leaves the component: through a function pointer, one that frees data or one that
-- visits data or a node; of `smp_set_error`, with its text or with `strerror(errno)`.
pub data Call : Type 0 where
  free_data visit : Ptr → Call
  set_error : List ℕ → Call
  set_os_error : Call

-- `calls` are those made so far, the latest first.
pub record Store (N : Type 0) : Type 0 where
  pub heap : Heap N
  pub calls : List Call

pub data Run (N A : Type 0) : Type 0 where
  ok : A → Store N → Run N A
  fault : Run N A
  out_of_fuel : Run N A

abbrev pub Cmd : Type 0 → Type 0 → Type 0
Cmd N A = Store N → Run N A

abbrev pub pure : {N A : Type 0} → A → Cmd N A
pure = ok

module _ {N A B : Type 0} where
  abbrev pub and_then : Run N A → (A → Cmd N B) → Run N B
  and_then (ok a s) k = k a s
  and_then fault k = fault
  and_then out_of_fuel k = out_of_fuel

  infixl 5 ◌>>=◌ ◌>>◌
  abbrev pub ◌>>=◌ : Cmd N A → (A → Cmd N B) → Cmd N B
  m >>= k = λ s. and_then (m s) k

  abbrev pub ◌>>◌ : Cmd N A → Cmd N B → Cmd N B
  m >> n = m >>= λ _. n

module _ {N : Type 0} where
  abbrev pub poke : Ptr → Option N → Store N → Store N
  poke p c s = record s { heap = write s.heap p c }

  -- `*p`
  unfoldable pub load : Ptr → Cmd N N
  load p s = if p == null then fault else elim (s.heap p) [ none ↦ fault | some n ↦ ok n s ]

  -- A write to a node that is there.
  unfoldable pub modify : Ptr → (N → N) → Cmd N (Unit {0})
  unfolding load
  modify p f = load p >>= λ n s. ok tt (poke p (some (f n)) s)

  unfoldable pub free : Ptr → Cmd N (Unit {0})
  unfolding load
  free p = load p >>= λ _ s. ok tt (poke p none s)

  -- `smp_calloc` of a node: the address is the allocator's. When there is none, `smp_alloc` and
  -- `smp_calloc` each set the error.
  unfoldable pub calloc : Ptr → N → Cmd N Ptr
  calloc p zeroed s =
      if p == null
      then ok null (record s { calls = set_os_error ∷ set_os_error ∷ s.calls })
      else ok p (poke p (some zeroed) s)

  abbrev pub call : Call → Cmd N (Unit {0})
  call c s = ok tt (record s { calls = c ∷ s.calls })
