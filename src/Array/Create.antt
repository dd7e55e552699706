-- ===== src/Array/Create.antt =====
-- `smp_array_init`.
use smpcil.Base.{◌≡◌, Option, some, none, []}
use smpcil.PoolApi
use smpcil.PoolApi.{PoolApi, PoolLaws}
use smpcil.Array.{Array}
use smpcil.Array.Valid.{elems, IsValid}

-- An array without an element, or NULL.
abbrev pub Created : {api : PoolApi} → PoolLaws api → Option (Array api) × api.World → Type 0
Created laws (none, w) = Unit {0}
Created laws (some a, w) = IsValid laws a w × (elems a ≡ [])
