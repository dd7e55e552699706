-- ===== src/Array/Valid.antt =====
-- When an array of smp_array.c is well-formed, over any pool with the laws of `PoolApi`.
use native.Mathlib.Nat.{mul-zero, zero-mul, suc-mul}
use smpcil.Base.{
  ℕ, zero, suc, ◌+◌, ◌*◌, ◌≤◌, ◌<◌, ◌≡◌, refl, ◌⊎◌, inl, inr, Option, List, ◌∷◌, All, All-map, Ptr,
  arith, length, take, uint_mod, lt-or-ge,
}
use smpcil.PoolApi.{PoolApi, PoolLaws, IsChunk}
use smpcil.Array.{Array}
use smpcil.Array.Elements.{elems_of, Apart, AllApart}
use smpcil.Array.Index.{filled, known, known-take}

-- The elements of an array, by what its fields say.
abbrev pub elems : {api : PoolApi} → Array api → List Ptr
elems a = elems_of a.elem_size a.unit_elem_amt a.curr_point (known (take a.index_used a.index))

-- The `n` bytes at `p` are in use.
pub record Owned (In : ℕ → Type 0) (n : ℕ) (p : Ptr) : Type 0 where
  pub nonnull : 0 < p
  pub used : (a : ℕ) → p ≤ a → a < p + n → In a

-- The index holds `index_used` blocks, one or more, each of bytes in use and apart from the others;
-- `block_size` bytes are room for `unit_elem_amt` elements, and the product fits an `unsigned int`.
pub record IsValid {api : PoolApi} (laws : PoolLaws api) (a : Array api) (w : api.World)
    : Type 0 where
  pub first : Ptr
  pub others : List Ptr
  pub rest : List (Option Ptr)
  pub index : a.index ≡ filled (first ∷ others) rest
  pub used : a.index_used ≡ suc (length others)
  pub amt : a.index_amt ≡ suc (length others) + length rest
  pub fits : a.index_amt < uint_mod
  pub room : a.curr_point ≤ a.unit_elem_amt
  pub positive : 0 < a.elem_size * a.unit_elem_amt
  pub small : a.elem_size * a.unit_elem_amt < uint_mod
  pub pool : laws.IsValid a.pool w
  pub owned : All (Owned (laws.InUse a.pool w) (a.elem_size * a.unit_elem_amt)) (first ∷ others)
  pub apart : AllApart (a.elem_size * a.unit_elem_amt) (first ∷ others)

pub unit-pos : (e u : ℕ) → 0 < e * u → 0 < u
unit-pos e zero pos = absurd (omega (arith, pos, mul-zero e))
unit-pos e (suc u) pos = omega arith

pub unit-le : (e u : ℕ) → 0 < e * u → u ≤ e * u
unit-le zero u pos = absurd (omega (arith, pos, zero-mul u))
unit-le (suc e) u pos = omega (arith, suc-mul e u)

-- Chunks that meet do so at the start of one.
overlap : (n : ℕ) (p q : Ptr) → Apart n p q ⊎ (((p ≤ q) × (q < p + n)) ⊎ ((q ≤ p) × (p < q + n)))
overlap n p q = elim (lt-or-ge q (p + n)) [
  | inr h ↦ inl (inl h)
  | inl h ↦ elim (lt-or-ge p (q + n)) [
    | inr h' ↦ inl (inr h')
    | inl h' ↦ elim (lt-or-ge q p) [
      | inl l ↦ inr (inr (omega (arith, l), h'))
      | inr l ↦ inr (inl (l, h))
    ]
  ]
]

-- Bytes that were not in use are apart from all that were.
Owned-Apart :
    {In Later : ℕ → Type 0} (n : ℕ) (p q : Ptr)
    → 0 < n
    → Owned In n p
    → IsChunk In Later q n
    → Apart n p q
Owned-Apart n p q pos old new = elim (overlap n p q) [
  | inl apart ↦ apart
  | inr (inl (lo, hi)) ↦
      absurd (new.fresh q (omega (arith, pos)) (omega (arith, pos)) (old.used q lo hi))
  | inr (inr (lo, hi)) ↦
      absurd (new.fresh p lo hi (old.used p (omega (arith, pos)) (omega (arith, pos))))
]

pub Owned-AllApart :
    {In Later : ℕ → Type 0} (n : ℕ) (ps : List Ptr) (q : Ptr)
    → 0 < n
    → All (Owned In n) ps
    → IsChunk In Later q n
    → All (λ p. Apart n p q) ps
Owned-AllApart n ps q pos old new = All-map ps (λ p o. Owned-Apart n p q pos o new) old

pub Owned-moves :
    {In Later : ℕ → Type 0}
    → ((b : ℕ) → In b → Later b)
    → (n : ℕ) (ps : List Ptr) → All (Owned In n) ps
    → All (Owned Later n) ps
Owned-moves keeps n ps old =
    All-map ps (λ p o. record { nonnull = o.nonnull; used = λ b lo hi. keeps b (o.used b lo hi) })
      old

module _ {api : PoolApi} (laws : PoolLaws api) where
  pub elems-IsValid :
      (a : Array api) (w : api.World) (v : IsValid laws a w)
      → elems a ≡ elems_of a.elem_size a.unit_elem_amt a.curr_point (v.first ∷ v.others)
  elems-IsValid a w v = rw (v.index, v.used, known-take (v.first ∷ v.others) v.rest) refl

  -- Work on the pool that keeps what is in use keeps an array valid.
  pub IsValid-moves :
      (a : Array api) (w : api.World) (pool : api.Pool) (w' : api.World)
      → IsValid laws a w
      → laws.IsValid pool w'
      → ((b : ℕ) → laws.InUse a.pool w b → laws.InUse pool w' b)
      → IsValid laws (record a { pool = pool }) w'
  IsValid-moves a w pool w' v ok keeps = record {
    first = v.first;
    others = v.others;
    rest = v.rest;
    index = v.index;
    used = v.used;
    amt = v.amt;
    fits = v.fits;
    room = v.room;
    positive = v.positive;
    small = v.small;
    pool = ok;
    owned = Owned-moves keeps (a.elem_size * a.unit_elem_amt) (v.first ∷ v.others) v.owned;
    apart = v.apart;
  }
