-- ===== src/PartList/Visit.antt =====
-- `smp_list_traversal`.
use smpcil.Base.{ℕ, zero, suc, ◌+◌, ◌*◌, ◌≡◌, refl, sym, ◌∙◌, List, [], ◌∷◌, Ptr}
use smpcil.PoolApi.{PoolApi}
use smpcil.Array.Elements.{stride}
use smpcil.Array.Visit.{visit_all, visit_all-append}
use smpcil.PartList.{Part, PartList, parts, visit_part, visit_parts, list_traversal}
use smpcil.PartList.Valid.{elems_in}

module _ (api : PoolApi) (visit_func : Ptr → api.World → api.World) where
  visit_part-strides :
      (p : Ptr) (i n : ℕ) (w : api.World)
      → visit_part api visit_func p i n w ≡ visit_all visit_func (stride 4 p i n) w
  unfolding visit_part
  visit_part-strides p i zero w = refl
  visit_part-strides p i (suc n) w = visit_part-strides p (i + 1) n (visit_func (p + 4 * i) w)

  visit_parts-strides :
      (ps : List Part) (w : api.World)
      → visit_parts api visit_func ps w ≡ visit_all visit_func (elems_in 4 ps) w
  unfolding visit_parts
  visit_parts-strides [] w = refl
  visit_parts-strides (p ∷ ps) w =
      rw (visit_part-strides p.elems 0 p.elem_mnt w)
        (visit_parts-strides ps (visit_all visit_func (stride 4 p.elems 0 p.elem_mnt) w))
      ∙ sym (visit_all-append visit_func (stride 4 p.elems 0 p.elem_mnt) (elems_in 4 ps) w)

  -- `smp_list_traversal` visits as many places as there are elements, in order, but places them as
  -- if elements had four bytes, whatever `elem_size` is.
  pub list_traversal-strides :
      (list : PartList api) (w : api.World)
      → list_traversal api visit_func list w ≡ visit_all visit_func (elems_in 4 (parts api list)) w
  unfolding list_traversal
  list_traversal-strides list w = visit_parts-strides (parts api list) w
