-- ===== src/Array/Lookup.antt =====
-- `smp_array_elem_n` on a valid array: what it finds, and where it misses an element that is there.
use mathlib.Core.Option.{none-ne-some, some-injective}
use native.Mathlib.Nat.{
  mul-le-mul_left, zero-mul, mul-add-div_right, mul-add-mod_self_right, div-eq_of_lt, mod-eq_of_lt,
  suc-mul, mul-mod_left, mul-div_left,
}
use smpcil.Base.{
  ℕ, zero, suc, ◌+◌, ◌-◌, ◌*◌, ◌/◌, ◌%◌, ◌≤◌, ◌<◌, ◌≡◌, ◌⊎◌, inl, inr, refl, sym, ap, ◌∙◌, some,
  none, List, [], ◌∷◌, ◌++◌, Ptr, arith, length, get_elem?, uint_mod, inc32, dec32, leb, le→leb,
  if◌then◌else◌, ◌==◌, true, false, null, All,
}
use smpcil.Error.Texts.{array_overflow}
use smpcil.PoolApi.{PoolApi, PoolLaws}
use smpcil.Array.{Array, mul32, read_cell, elem_in, elem_n}
use smpcil.Array.Elements.{stride, elems_of}
use smpcil.Array.Index.{read_cell-filled}
use smpcil.Array.Valid.{elems, IsValid, Owned, unit-le, elems-IsValid}

length-stride : (e : ℕ) (p : Ptr) (i n : ℕ) → length (stride e p i n) ≡ n
length-stride e p i zero = refl
length-stride e p i (suc n) = cc (length-stride e p (i + 1) n)

get_elem?-stride :
    (e : ℕ) (p : Ptr) (i n k : ℕ) → k < n → get_elem? (stride e p i n) k ≡ some (p + e * (i + k))
get_elem?-stride e p i zero k lt = absurd (omega (arith, lt))
get_elem?-stride e p i (suc n) zero lt = ap (λ j. some (p + e * j)) (omega arith)
get_elem?-stride e p i (suc n) (suc k) lt =
    get_elem?-stride e p (i + 1) n k (omega (arith, lt)) ∙ ap (λ j. some (p + e * j)) (omega arith)

at_stride :
    (e : ℕ) (p : Ptr) (m n : ℕ) (q : Ptr) {z : ℕ}
    → p ≡ q
    → n < m
    → z ≡ 0
    → get_elem? (stride e p 0 m) (z + n) ≡ some (q + e * n)
at_stride e p m n q {z} same lt zero_z =
    let here : z + n ≡ n = omega (arith, zero_z) in
    let start : 0 + n ≡ n = omega arith in
    ap (get_elem? (stride e p 0 m)) here
    ∙ (get_elem?-stride e p 0 m n lt
        ∙ (ap (λ j. some (p + e * j)) start ∙ ap (λ p. some (p + e * n)) same))

get_elem?-left :
    (xs ys : List Ptr) (k : ℕ) → k < length xs → get_elem? (xs ++ ys) k ≡ get_elem? xs k
get_elem?-left [] ys k lt = absurd (omega (arith, lt))
get_elem?-left (x ∷ xs) ys zero lt = refl
get_elem?-left (x ∷ xs) ys (suc k) lt = get_elem?-left xs ys k (omega (arith, lt))

get_elem?-right : (xs ys : List Ptr) (k : ℕ) → get_elem? (xs ++ ys) (length xs + k) ≡ get_elem? ys k
get_elem?-right [] ys k = ap (get_elem? ys) (omega arith)
get_elem?-right (x ∷ xs) ys k =
    let next : suc (length xs) + k ≡ suc (length xs + k) = omega arith in
    ap (get_elem? (x ∷ xs ++ ys)) next ∙ get_elem?-right xs ys k

-- Element `n` of block `idx` is the element `idx * unit + n` of the array.
get_elem?-elems_of :
    (e unit curr : ℕ) (p : Ptr) (ps : List Ptr) (idx n : ℕ) (q : Ptr)
    → get_elem? (p ∷ ps) idx ≡ some q
    → n < unit
    → ((idx < length ps) ⊎ (n < curr))
    → get_elem? (elems_of e unit curr (p ∷ ps)) (idx * unit + n) ≡ some (q + e * n)
get_elem?-elems_of e unit curr p [] zero n q at lt (inl h) = absurd (omega (arith, h))
get_elem?-elems_of e unit curr p [] zero n q at lt (inr h) =
    at_stride e p curr n q (some-injective _ _ at) h (zero-mul unit)
get_elem?-elems_of e unit curr p [] (suc idx) n q at lt h = absurd (none-ne-some _ at)
get_elem?-elems_of e unit curr p (r ∷ ps) zero n q at lt h =
    get_elem?-left (stride e p 0 unit) _ (0 * unit + n)
      (omega (arith, lt, zero-mul unit, length-stride e p 0 unit))
    ∙ at_stride e p unit n q (some-injective _ _ at) lt (zero-mul unit)
get_elem?-elems_of e unit curr p (r ∷ ps) (suc idx) n q at lt h =
    let next : suc idx * unit + n ≡ length (stride e p 0 unit) + (idx * unit + n) =
      omega (arith, suc-mul idx unit, length-stride e p 0 unit) in
    ap (get_elem? (stride e p 0 unit ++ elems_of e unit curr (r ∷ ps))) next
    ∙ (get_elem?-right (stride e p 0 unit) (elems_of e unit curr (r ∷ ps)) (idx * unit + n)
        ∙ get_elem?-elems_of e unit curr r ps idx n q at lt (ground (arith, h)))

get_elem?-some : (ps : List Ptr) (i : ℕ) → i < length ps → (q : Ptr) × (get_elem? ps i ≡ some q)
get_elem?-some [] i lt = absurd (omega (arith, lt))
get_elem?-some (p ∷ ps) zero lt = (p, refl)
get_elem?-some (p ∷ ps) (suc i) lt = get_elem?-some ps i (omega (arith, lt))

All-get_elem? :
    (P : Ptr → Type 0) (ps : List Ptr) (i : ℕ) (q : Ptr) → get_elem? ps i ≡ some q → All P ps → P q
All-get_elem? P [] i q at h = absurd (none-ne-some _ at)
All-get_elem? P (p ∷ ps) zero q at h = rw (sym (some-injective _ _ at)) h.0
All-get_elem? P (p ∷ ps) (suc i) q at h = All-get_elem? P ps i q at h.1

module _ {api : PoolApi} (laws : PoolLaws api) (a : Array api) (w : api.World)
    (v : IsValid laws a w) where
  elem_n-at :
      (i idx n : ℕ) (q : Ptr)
      → inc32 i / a.unit_elem_amt ≡ idx
      → dec32 (inc32 i % a.unit_elem_amt) ≡ n
      → idx < a.index_used
      → get_elem? (v.first ∷ v.others) idx ≡ some q
      → elem_n api a i w
        ≡ some (
            if leb a.curr_point n
            then (none, api.set_error array_overflow w)
            else (some (q + mul32 a.elem_size n), w))
  unfolding elem_n elem_in
  elem_n-at i idx n q at_idx at_n used at =
      let owned = All-get_elem? (Owned _ _) (v.first ∷ v.others) idx q at v.owned in
      let nonnull : (q == null) ≡ false = ground (arith, owned.nonnull) in
      let inside : leb a.index_used idx ≡ false = ground (arith, used) in
      let cell : read_cell a.index idx ≡ some q =
        ap (λ cells. read_cell cells idx) v.index
        ∙ (read_cell-filled (v.first ∷ v.others) v.rest idx (omega (arith, used, v.used)) ∙ at) in
      rw (at_idx, at_n, inside, cell, nonnull) refl

  block_of :
      (idx : ℕ) → idx < a.index_used → (q : Ptr) × (get_elem? (v.first ∷ v.others) idx ≡ some q)
  block_of idx used = get_elem?-some (v.first ∷ v.others) idx (omega (arith, used, v.used))

  module _ (idx n : ℕ) (short : idx * a.unit_elem_amt + n + 1 < uint_mod) where
    -- where the number after that of the element is no multiple of the elements in a block
    in_block :
        suc n < a.unit_elem_amt
        → (inc32 (idx * a.unit_elem_amt + n) / a.unit_elem_amt ≡ idx)
          × (dec32 (inc32 (idx * a.unit_elem_amt + n) % a.unit_elem_amt) ≡ n)
    in_block lt =
        let u = a.unit_elem_amt in
        let pos : 0 < u = omega (arith, lt) in
        let next : inc32 (idx * u + n) ≡ idx * u + suc n = omega (arith, short) in
        let quot = mul-add-div_right pos idx (suc n) in
        let remainder = mul-add-mod_self_right idx u (suc n) in
        let zero_quot = div-eq_of_lt lt in
        (
          ap (λ j. j / u) next ∙ (quot ∙ omega (arith, zero_quot)),
          ap (λ j. dec32 (j % u)) next
              ∙ (ap dec32 (remainder ∙ mod-eq_of_lt lt) ∙ omega (arith, short)),
        )

    block_end :
        suc n ≡ a.unit_elem_amt
        → (inc32 (idx * a.unit_elem_amt + n) / a.unit_elem_amt ≡ suc idx)
          × (dec32 (inc32 (idx * a.unit_elem_amt + n) % a.unit_elem_amt) ≡ uint_mod - 1)
    block_end last =
        let u = a.unit_elem_amt in
        let next : inc32 (idx * u + n) ≡ suc idx * u = omega (arith, short, last, suc-mul idx u) in
        (
          ap (λ j. j / u) next ∙ mul-div_left (suc idx) (omega (arith, last)),
          ap (λ j. dec32 (j % u)) next ∙ ap dec32 (mul-mod_left (suc idx) u),
        )

    -- In a valid array, and for an index below 2^32 - 1, `smp_array_elem_n` gives the address of
    -- element `idx * unit_elem_amt + n`,
    -- if `n` is not the last place of a block and is below `curr_point`.
    pub elem_n-finds :
        idx < a.index_used
        → suc n < a.unit_elem_amt
        → n < a.curr_point
        → (p : Ptr) × (elem_n api a (idx * a.unit_elem_amt + n) w ≡ some (some p, w))
          × (get_elem? (elems a) (idx * a.unit_elem_amt + n) ≡ some p)
    elem_n-finds used lt written =
        let (q, at) = block_of idx used in
        let (at_idx, at_n) = in_block lt in
        let found = elem_n-at (idx * a.unit_elem_amt + n) idx n q at_idx at_n used at in
        let no : leb a.curr_point n ≡ false = ground (arith, written) in
        let inside : n ≤ a.unit_elem_amt = omega (arith, lt) in
        let exact : mul32 a.elem_size n ≡ a.elem_size * n =
          omega (arith, v.small, mul-le-mul_left a.elem_size inside) in
        (
          q + a.elem_size * n,
          rw (no, exact) at found,
          ap (λ ps. get_elem? ps (idx * a.unit_elem_amt + n)) (elems-IsValid laws a w v)
              ∙ get_elem?-elems_of a.elem_size a.unit_elem_amt a.curr_point v.first v.others idx n q
                  at (omega (arith, lt)) (inr written),
        )

    fails :
        suc idx < a.index_used
        → (suc n ≡ a.unit_elem_amt) ⊎ ((suc n < a.unit_elem_amt) × (a.curr_point ≤ n))
        → elem_n api a (idx * a.unit_elem_amt + n) w ≡ some (none, api.set_error array_overflow w)
    fails used (inl last) =
        let (at_idx, at_n) = block_end last in
        let (q, at) = block_of (suc idx) used in
        let found = elem_n-at _ (suc idx) (uint_mod - 1) q at_idx at_n used at in
        let yes : leb a.curr_point (uint_mod - 1) ≡ true =
          ground (arith, v.room, v.small, unit-le a.elem_size a.unit_elem_amt v.positive) in
        rw yes at found
    fails used (inr (lt, past)) =
        let (at_idx, at_n) = in_block lt in
        let here : idx < a.index_used = omega (arith, used) in
        let (q, at) = block_of idx here in
        let found = elem_n-at _ idx n q at_idx at_n here at in
        rw (le→leb a.curr_point n past) at found

    -- In a valid array, for an index below 2^32 - 1 and in a block that is not the last, so that is
    -- full, `smp_array_elem_n` fails for the last place, and for every place from `curr_point` on,
    -- although the elements are there.
    pub elem_n-misses :
        suc idx < a.index_used
        → n < a.unit_elem_amt
        → ((suc n ≡ a.unit_elem_amt) ⊎ (a.curr_point ≤ n))
        → (p : Ptr) × (get_elem? (elems a) (idx * a.unit_elem_amt + n) ≡ some p)
          × (elem_n api a (idx * a.unit_elem_amt + n) w
              ≡ some (none, api.set_error array_overflow w))
    elem_n-misses used lt miss =
        let here : idx < a.index_used = omega (arith, used) in
        let (q, at) = block_of idx here in
        let full : idx < length v.others = omega (arith, used, v.used) in
        let split : (suc n ≡ a.unit_elem_amt) ⊎ ((suc n < a.unit_elem_amt) × (a.curr_point ≤ n)) =
          ground (arith, miss, lt) in
        (
          q + a.elem_size * n,
          ap (λ ps. get_elem? ps (idx * a.unit_elem_amt + n)) (elems-IsValid laws a w v)
              ∙ get_elem?-elems_of a.elem_size a.unit_elem_amt a.curr_point v.first v.others idx n q
                  at lt (inl full),
          fails used split,
        )
