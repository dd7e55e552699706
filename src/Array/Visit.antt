-- ===== src/Array/Visit.antt =====
-- `smp_array_traversal` on a valid array.
use mathlib.Core.Option
use native.Mathlib.Nat.{mul-le-mul_left}
use smpcil.Base.{
  ℕ, zero, suc, ◌+◌, ◌*◌, ◌≤◌, ◌<◌, ◌≡◌, refl, sym, ap, ◌∙◌, some, List, [], ◌∷◌, ◌++◌, Ptr, arith,
  length, get_elem?, uint_mod, dec32, ◌==◌, true, false,
}
use smpcil.PoolApi.{PoolApi, PoolLaws}
use smpcil.Array.{Array, mul32, read_cell, trave_block, trave_blocks, traversal}
use smpcil.Array.Elements.{stride, elems_of}
use smpcil.Array.Index.{read_cell-filled}
use smpcil.Array.Valid.{elems, IsValid, elems-IsValid}

-- `trave` is called for each of the addresses, from the first to the last.
abbrev pub visit_all {ℓ} : {W : Type ℓ} → (Ptr → W → W) → List Ptr → W → W
visit_all trave [] w = w
visit_all trave (p ∷ ps) w = visit_all trave ps (trave p w)

pub visit_all-append :
    {W : Type 0} (trave : Ptr → W → W) (ps qs : List Ptr) (w : W)
    → visit_all trave (ps ++ qs) w ≡ visit_all trave qs (visit_all trave ps w)
visit_all-append trave [] qs w = refl
visit_all-append trave (p ∷ ps) qs w = visit_all-append trave ps qs (trave p w)

module _ (api : PoolApi) (trave : Ptr → api.World → api.World) where
  trave_block-visits :
      (e m : ℕ) (p : Ptr) (i n : ℕ) (w : api.World)
      → i + n ≤ m
      → e * m < uint_mod
      → trave_block api trave e p i n w ≡ visit_all trave (stride e p i n) w
  unfolding trave_block
  trave_block-visits e m p i zero w le small = refl
  trave_block-visits e m p i (suc n) w le small =
      let below : i ≤ m = omega (arith, le) in
      let exact : mul32 e i ≡ e * i = omega (arith, mul-le-mul_left e below, small) in
      rw exact (trave_block-visits e m p (i + 1) n (trave (p + e * i) w) (omega (arith, le)) small)

  trave_blocks-visits :
      (a : Array api) (p : Ptr) (ps : List Ptr) (idx : ℕ) (w : api.World)
      → a.elem_size * a.unit_elem_amt < uint_mod
      → a.elem_size * a.curr_point < uint_mod
      → dec32 a.index_used ≡ idx + length ps
      → ((k : ℕ) → k < suc (length ps) → read_cell a.index (idx + k) ≡ get_elem? (p ∷ ps) k)
      → trave_blocks api trave a idx (suc (length ps)) w
        ≡ some (visit_all trave (elems_of a.elem_size a.unit_elem_amt a.curr_point (p ∷ ps)) w)
  unfolding trave_blocks Option.bind
  trave_blocks-visits a p [] idx w unit curr last read =
      let here : (idx == dec32 a.index_used) ≡ true = ground (arith, last) in
      let same : idx + 0 ≡ idx = omega arith in
      let cell = rw same at (read 0 (omega arith)) in
      rw (cell, here)
        (ap some
          (trave_block-visits a.elem_size a.curr_point p 0 a.curr_point w (omega arith) curr))
  trave_blocks-visits a p (q ∷ ps) idx w unit curr last read =
      let there : (idx == dec32 a.index_used) ≡ false = ground (arith, last) in
      let same : idx + 0 ≡ idx = omega arith in
      let cell = rw same at (read 0 (omega arith)) in
      let u = a.unit_elem_amt in
      let first = trave_block-visits a.elem_size u p 0 u w (omega arith) unit in
      let rest = λ (w' : api.World).
        trave_blocks-visits a q ps (idx + 1) w' unit curr (omega (arith, last)) λ k lt.
          let next : idx + 1 + k ≡ idx + suc k = omega arith in
          rw next (read (suc k) (omega (arith, lt))) in
      rw (cell, there, first)
        (rest (visit_all trave (stride a.elem_size p 0 u) w)
          ∙ ap some (sym (visit_all-append trave (stride a.elem_size p 0 u) _ w)))

module _ {api : PoolApi} (laws : PoolLaws api) where
  -- `smp_array_traversal` of a valid array stays within the index, and hands every element of the
  -- array to `trave`, each once and in order.
  pub traversal-elems :
      (trave : Ptr → api.World → api.World) (a : Array api) (w : api.World)
      → IsValid laws a w
      → traversal api trave a w ≡ some (visit_all trave (elems a) w)
  unfolding traversal
  traversal-elems trave a w v =
      let curr : a.elem_size * a.curr_point < uint_mod =
        omega (arith, mul-le-mul_left a.elem_size v.room, v.small) in
      let read = λ (k : ℕ) (lt : k < suc (length v.others)).
        ap (λ i. read_cell a.index i) (omega arith)
        ∙ (ap (λ cells. read_cell cells k) v.index
            ∙ read_cell-filled (v.first ∷ v.others) v.rest k lt) in
      ap (λ n. trave_blocks api trave a 0 n w) v.used
      ∙ (trave_blocks-visits api trave a v.first v.others 0 w v.small curr
            (omega (arith, v.used, v.amt, v.fits)) read
          ∙ ap (λ ps. some (visit_all trave ps w)) (sym (elems-IsValid laws a w v)))
