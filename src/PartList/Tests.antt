-- ===== src/PartList/Tests.antt =====
-- A list of two parts on a pool that only counts, and the theorems at them.
use smpcil.Base.{◌+◌, ◌≡◌, refl, inl, [], ◌∷◌, ◌++◌, arith}
use smpcil.PoolApi.Counter.{counter, counter_laws}
use smpcil.Array.Elements.{answer}
use smpcil.Array.Visit.{visit_all}
use smpcil.PartList.{PartList, parts, list_push, list_traversal}
use smpcil.PartList.Valid.{elems_in, IsValid}
use smpcil.PartList.Push.{list_push-appends}
use smpcil.PartList.Visit.{list_traversal-strides}

-- two elements of eight bytes to a part
abbrev two_parts : PartList counter
two_parts = record {
  full = record { elems = 8; elem_mnt = 2 } ∷ [];
  tail = record { elems = 32; elem_mnt = 2 };
  elem_size = 8;
  part_elem_maxmnt = 2;
  mpool = 48;
}

abbrev two_parts-IsValid : IsValid counter_laws two_parts 0
two_parts-IsValid = record {
  room = omega arith;
  short = omega arith;
  positive = omega arith;
  small = omega arith;
  pool = tt;
  owned = (
    record { nonnull = omega arith; used = λ a lo hi. omega (arith, hi) },
    (record { nonnull = omega arith; used = λ a lo hi. omega (arith, hi) }, tt),
  );
  apart = ((inl (omega arith), tt), (tt, tt));
}

list_push-appends_example :
    IsValid counter_laws (list_push counter two_parts 0).1 (list_push counter two_parts 0).2
    × (elems_in
          (list_push counter two_parts 0).1.elem_size
          (parts counter (list_push counter two_parts 0).1)
        ≡ elems_in 8 (parts counter two_parts) ++ answer (list_push counter two_parts 0).0)
list_push-appends_example = list_push-appends counter_laws two_parts 0 two_parts-IsValid

list_traversal-strides_example :
    list_traversal counter (λ p w. w + p) two_parts 0
    ≡ visit_all (λ p w. w + p) (8 ∷ 12 ∷ 32 ∷ 36 ∷ []) 0
list_traversal-strides_example = list_traversal-strides counter (λ p w. w + p) two_parts 0

elems_two_parts : elems_in 8 (parts counter two_parts) ≡ 8 ∷ 16 ∷ 32 ∷ 40 ∷ []
elems_two_parts = refl
