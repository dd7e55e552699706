-- ===== src/PartList/Valid.antt =====
-- The elements of a list of smp_list.c, and when a list is well-formed.
use smpcil.Base.{ℕ, ◌*◌, ◌≤◌, ◌<◌, List, [], ◌∷◌, ◌++◌, All, Ptr, uint_mod, size_mod}
use smpcil.PoolApi.{PoolApi, PoolLaws}
use smpcil.Array.Elements.{stride, AllApart}
use smpcil.Array.Valid.{Owned}
use smpcil.PartList.{Part, PartList, parts}

-- The addresses of the elements, with `e` bytes to an element.
abbrev pub elems_in : ℕ → List Part → List Ptr
elems_in e [] = []
elems_in e (part ∷ rest) = stride e part.elems 0 part.elem_mnt ++ elems_in e rest

abbrev pub starts : List Part → List Ptr
starts [] = []
starts (part ∷ rest) = part.elems ∷ starts rest

-- Each part is room for `part_elem_maxmnt` elements, of bytes in use and apart from the others, and
-- the last is not overfull.
pub record IsValid {api : PoolApi} (laws : PoolLaws api) (list : PartList api) (w : api.World)
    : Type 0 where
  pub room : list.tail.elem_mnt ≤ list.part_elem_maxmnt
  pub short : list.part_elem_maxmnt < uint_mod
  pub positive : 0 < list.elem_size * list.part_elem_maxmnt
  pub small : list.elem_size * list.part_elem_maxmnt < size_mod
  pub pool : laws.IsValid list.mpool w
  pub owned :
      All
        (Owned (laws.InUse list.mpool w) (list.elem_size * list.part_elem_maxmnt))
        (starts (parts api list))
  pub apart : AllApart (list.elem_size * list.part_elem_maxmnt) (starts (parts api list))
