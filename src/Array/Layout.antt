-- ===== src/Array/Layout.antt =====
-- Where the elements of a valid array lie in memory, also after `smp_array_push`.
use native.Mathlib.Nat.{mul-suc, mul-add, mul-one, mul-le-mul_left}
use smpcil.Base.{
  ◌<◌, Option, some, uint_mod, ℕ, zero, suc, ◌+◌, ◌*◌, ◌≤◌, ◌≡◌, inl, inr, List, [], ◌∷◌, ◌++◌, All,
  All-append, All-map, Ptr, arith,
}
use smpcil.PoolApi.{PoolApi, PoolLaws}
use smpcil.Array.{Array, push}
use smpcil.Array.Push.{push-sized}
use smpcil.Array.Elements.{stride, elems_of, Apart, AllApart, answer}
use smpcil.Array.Valid.{elems, Owned, IsValid, elems-IsValid}

-- The `e` bytes at `x` lie in the `n` bytes at `p`.
abbrev Inside : (e : ℕ) → Ptr → (n : ℕ) → Ptr → Type 0
Inside e p n x = (p ≤ x) × (x + e ≤ p + n)

stride-Inside :
    (e : ℕ) (p : Ptr) (i n m : ℕ) → i + n ≤ m → All (Inside e p (e * m)) (stride e p i n)
stride-Inside e p i zero m le = tt
stride-Inside e p i (suc n) m le =
    let next : suc i ≤ m = omega (arith, le) in
    (
      (omega arith, omega (arith, mul-suc e i, mul-le-mul_left e next)),
      stride-Inside e p (i + 1) n m (omega (arith, le)),
    )

stride-after : (e : ℕ) (p : Ptr) (i n : ℕ) → All (λ y. p + e * i ≤ y) (stride e p i n)
stride-after e p i zero = tt
stride-after e p i (suc n) =
    let next : i ≤ i + 1 = omega arith in
    (
      omega arith,
      All-map (stride e p (i + 1) n) (λ y le. omega (arith, le, mul-le-mul_left e next))
          (stride-after e p (i + 1) n),
    )

stride-AllApart : (e : ℕ) (p : Ptr) (i n : ℕ) → AllApart e (stride e p i n)
stride-AllApart e p i zero = tt
stride-AllApart e p i (suc n) =
    let step : e * (i + 1) ≡ e * i + e = omega (arith, mul-add e i 1, mul-one e) in
    (
      All-map (stride e p (i + 1) n) (λ y le. inl (omega (arith, le, step)))
          (stride-after e p (i + 1) n),
      stride-AllApart e p (i + 1) n,
    )

AllApart-append :
    (e : ℕ) (xs ys : List Ptr)
    → AllApart e xs
    → AllApart e ys
    → All (λ x. All (Apart e x) ys) xs
    → AllApart e (xs ++ ys)
AllApart-append e [] ys hx hy cross = hy
AllApart-append e (x ∷ xs) ys hx hy cross =
    (All-append (Apart e x) xs ys hx.0 cross.0, AllApart-append e xs ys hx.1 hy cross.1)

-- What lies in chunks that are apart is apart.
Inside-Apart :
    (e n : ℕ) (p q x y : Ptr) → Apart n p q → Inside e p n x → Inside e q n y → Apart e x y
Inside-Apart e n p q x y (inl h) hx hy = inl (omega (arith, h, hx.1, hy.0))
Inside-Apart e n p q x y (inr h) hx hy = inr (omega (arith, h, hx.0, hy.1))

module _ (e u curr : ℕ) (room : curr ≤ u) where
  -- What lies in a block that is apart from the others is apart from their elements.
  elems_of-Apart :
      (p x : Ptr) (qs : List Ptr)
      → Inside e p (e * u) x
      → All (Apart (e * u) p) qs
      → All (Apart e x) (elems_of e u curr qs)
  elems_of-Apart p x [] hx h = tt
  elems_of-Apart p x (q ∷ []) hx h =
      All-map (stride e q 0 curr) (λ y hy. Inside-Apart e (e * u) p q x y h.0 hx hy)
        (stride-Inside e q 0 curr u (omega (arith, room)))
  elems_of-Apart p x (q ∷ r ∷ qs) hx h =
      All-append (Apart e x) (stride e q 0 u) (elems_of e u curr (r ∷ qs))
        (All-map (stride e q 0 u) (λ y hy. Inside-Apart e (e * u) p q x y h.0 hx hy)
          (stride-Inside e q 0 u u (omega arith)))
        (elems_of-Apart p x (r ∷ qs) hx h.1)

  elems_of-AllApart : (ps : List Ptr) → AllApart (e * u) ps → AllApart e (elems_of e u curr ps)
  elems_of-AllApart [] h = tt
  elems_of-AllApart (p ∷ []) h = stride-AllApart e p 0 curr
  elems_of-AllApart (p ∷ q ∷ ps) h =
      AllApart-append e (stride e p 0 u) (elems_of e u curr (q ∷ ps)) (stride-AllApart e p 0 u)
        (elems_of-AllApart (q ∷ ps) h.1)
        (All-map (stride e p 0 u) (λ x hx. elems_of-Apart p x (q ∷ ps) hx h.0)
          (stride-Inside e p 0 u u (omega arith)))

  module _ (In : ℕ → Type 0) where
    Inside-Owned : (p x : Ptr) → Owned In (e * u) p → Inside e p (e * u) x → Owned In e x
    Inside-Owned p x o hx = record {
      nonnull = omega (arith, o.nonnull, hx.0);
      used = λ b lo hi. o.used b (omega (arith, lo, hx.0)) (omega (arith, hi, hx.1));
    }

    elems_of-Owned :
        (ps : List Ptr) → All (Owned In (e * u)) ps → All (Owned In e) (elems_of e u curr ps)
    elems_of-Owned [] h = tt
    elems_of-Owned (p ∷ []) h =
        All-map (stride e p 0 curr) (λ x hx. Inside-Owned p x h.0 hx)
          (stride-Inside e p 0 curr u (omega (arith, room)))
    elems_of-Owned (p ∷ q ∷ ps) h =
        All-append (Owned In e) (stride e p 0 u) (elems_of e u curr (q ∷ ps))
          (All-map (stride e p 0 u) (λ x hx. Inside-Owned p x h.0 hx)
            (stride-Inside e p 0 u u (omega arith)))
          (elems_of-Owned (q ∷ ps) h.1)

-- The elements of a valid array do not overlap, and each lies in memory that the pool gave out.
elems-AllApart :
    {api : PoolApi} (laws : PoolLaws api) (a : Array api) (w : api.World)
    → IsValid laws a w
    → AllApart a.elem_size (elems a) × All (Owned (laws.InUse a.pool w) a.elem_size) (elems a)
elems-AllApart laws a w v =
    let blocks = v.first ∷ v.others in
    let e = a.elem_size in
    let u = a.unit_elem_amt in
    rw (elems-IsValid laws a w v) (
      elems_of-AllApart e u a.curr_point v.room blocks v.apart,
      elems_of-Owned e u a.curr_point v.room (laws.InUse a.pool w) blocks v.owned,
    )

-- After `smp_array_push` on a valid array whose index can grow by four cells, the elements do not
-- overlap, and each lies in memory that the pool gave out: those from before and the address that
-- was returned, or none where it was NULL.
pub push-AllApart :
    {api : PoolApi} (laws : PoolLaws api) (a : Array api) (w : api.World)
    → IsValid laws a w
    → a.index_amt + 4 < uint_mod
    → (o : Option Ptr) × (a' : Array api) × (w' : api.World) × (push api a w ≡ some (o, a', w'))
      × (elems a' ≡ elems a ++ answer o)
      × AllApart a.elem_size (elems a ++ answer o)
      × All (Owned (laws.InUse a'.pool w') a.elem_size) (elems a ++ answer o)
push-AllApart laws a w v bound =
    let (o, a', w', e, valid, same, bytes) = push-sized laws a w v bound in
    let (apart, owned) = elems-AllApart laws a' w' valid in
    (o, a', w', e, same, rw (same, bytes) at apart, rw (same, bytes) at owned)
