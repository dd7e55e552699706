-- ===== src/Store/Returns.antt =====
-- Total correctness of a command: no fault, enough fuel, and a postcondition.
use smpcil.Base.{◌≡◌, Option, some, none, List, Ptr, null, ◌≢◌, false, arith, ◌==◌}
use smpcil.Store.{Store, Call, Run, ok, Cmd, and_then, write, load, modify, free, poke}

pub data Returns {N A : Type 0} (P : A → Store N → Type 0) : Run N A → Type 0 where
  returns : {a : A} {s : Store N} → P a s → Returns P (ok a s)

module _ {N A : Type 0} {P : A → Store N → Type 0} where
  pub bind :
      {B : Type 0} {Q : B → Store N → Type 0} {r : Run N A} {k : A → Cmd N B}
      → Returns P r
      → ((a : A) (s : Store N) → P a s → Returns Q (k a s))
      → Returns Q (and_then r k)
  bind (returns p) next = next _ _ p

  pub mono :
      {Q : A → Store N → Type 0} {r : Run N A}
      → Returns P r
      → ((a : A) (s : Store N) → P a s → Q a s)
      → Returns Q r
  mono (returns p) weaken = returns (weaken _ _ p)

-- The node `n` stands at `p`.
pub record Holds {N : Type 0} (s : Store N) (p : Ptr) (n : N) : Type 0 where
  pub nonnull : p ≢ null
  pub holds : s.heap p ≡ some n

module _ {N : Type 0} {s : Store N} {p : Ptr} {n : N} (e : Holds s p n) where
  pub not_null : (p == null) ≡ false
  not_null = ground arith

  pub load-ok : load p s ≡ ok n s
  unfolding load
  load-ok = rw (not_null, e.holds)

  pub modify-ok : (f : N → N) → modify p f s ≡ ok tt (poke p (some (f n)) s)
  unfolding modify
  modify-ok f = rw load-ok

  pub free-ok : free p s ≡ ok tt (poke p none s)
  unfolding free
  free-ok = rw load-ok

  -- What a node holds after a store to it, and after a store to another.
  pub Holds-poke_self : (m : N) → Holds (poke p (some m) s) p m
  unfolding write
  Holds-poke_self m = record { nonnull = e.nonnull; holds = ground arith }

  pub Holds-poke_other : (q : Ptr) (c : Option N) → (p == q) ≡ false → Holds (poke q c s) p n
  unfolding write
  Holds-poke_other q c d = record { nonnull = e.nonnull; holds = ground (arith, e.holds) }

  -- A call that leaves the component changes no node.
  pub Holds-calls : (cs : List Call) → Holds (record s { calls = cs }) p n
  Holds-calls cs = record { nonnull = e.nonnull; holds = e.holds }
