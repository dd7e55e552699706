-- ===== src/PartList/Create.antt =====
-- `smp_list_create`.
use smpcil.Base.{◌≡◌, Option, some, none, []}
use smpcil.PoolApi
use smpcil.PoolApi.{PoolApi, PoolLaws}
use smpcil.PartList.{PartList, parts}
use smpcil.PartList.Valid.{elems_in, IsValid}

-- A list without an element, or NULL.
abbrev pub Created : {api : PoolApi} → PoolLaws api → Option (PartList api) × api.World → Type 0
Created laws (none, w) = Unit {0}
Created {api} laws (some list, w) =
    IsValid laws list w × (elems_in list.elem_size (parts api list) ≡ [])
