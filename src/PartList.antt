-- ===== src/PartList.antt =====
-- smp_stl/smp_list/smp_list.c: a list of elements in parts, from a pool with the operations of
-- `PoolApi`. The parts that the `next` pointers chain from `head` are a list, `tail` the last.
pub mod Valid
pub mod Push
pub mod Visit
pub mod Create
mod Tests
use smpcil.Base.{
  ℕ, zero, suc, ◌+◌, ◌*◌, ◌%◌, ◌||◌, Option, none, some, List, [], ◌∷◌, ◌++◌, Ptr, Status, ◌==◌,
  if◌then◌else◌, inc32, size_mod,
}
use smpcil.Error.Texts.{list_init_failed, list_failed, list_head_failed}
use smpcil.PoolApi.{PoolApi}

-- `smp_lpart_s`, but for its `next`
pub record Part : Type 0 where
  pub elems : Ptr
  pub elem_mnt : ℕ

module _ (api : PoolApi) where
  -- `smp_list_s`; `full` are the parts before the last.
  pub record PartList : Type 0 where
    pub full : List Part
    pub tail : Part
    pub elem_size : ℕ
    pub part_elem_maxmnt : ℕ
    pub mpool : api.Pool

  abbrev pub parts : PartList → List Part
  parts list = list.full ++ list.tail ∷ []

  -- what `smp_mpalloc` returns
  abbrev pub Chunk : Type 0
  Chunk = Option Ptr × api.Pool × api.World

  -- `smp_list_init`, from its second call of `smp_mpalloc` and from its first
  init_head : ℕ → ℕ → Chunk → Option PartList × api.World
  init_head elem_size maxmnt (none, pool, w) = (none, api.set_error list_head_failed w)
  init_head elem_size maxmnt (some p, pool, w) = (
    some (record {
      full = [];
      tail = record { elems = p; elem_mnt = 0 };
      elem_size = elem_size;
      part_elem_maxmnt = maxmnt;
      mpool = pool;
    }),
    w,
  )

  init_list : ℕ → ℕ → Chunk → Option PartList × api.World
  unfolding init_head
  init_list elem_size maxmnt (none, pool, w) = (none, api.set_error list_failed w)
  init_list elem_size maxmnt (some list, pool, w) =
      init_head elem_size maxmnt (api.mpalloc ((elem_size * maxmnt) % size_mod) pool w)

  pub list_init : api.Pool → ℕ → ℕ → api.World → Option PartList × api.World
  unfolding init_list
  list_init pool elem_size maxmnt w =
      if (elem_size == 0) || (maxmnt == 0)
      then (none, api.set_error list_init_failed w)
      else init_list elem_size maxmnt (api.mpalloc 56 pool w)

  -- `smp_list_create`
  list_init_in : ℕ → ℕ → Option api.Pool × api.World → Option PartList × api.World
  unfolding list_init
  list_init_in elem_size maxmnt (none, w) = (none, w)
  list_init_in elem_size maxmnt (some pool, w) = list_init pool elem_size maxmnt w

  pub list_create : ℕ → ℕ → api.World → Option PartList × api.World
  unfolding list_init_in
  list_create elem_size maxmnt w = list_init_in elem_size maxmnt (api.create 4096 w)

  -- `smp_list_push`, from the last part, and from the two calls of `smp_mpalloc` for a new one
  push_elem : PartList → api.World → Option Ptr × PartList × api.World
  push_elem list w = (
    some (list.tail.elems + (list.elem_size * list.tail.elem_mnt) % size_mod),
    record list { tail = record list.tail { elem_mnt = inc32 list.tail.elem_mnt } },
    w,
  )

  push_elems : PartList → Chunk → Option Ptr × PartList × api.World
  unfolding push_elem
  push_elems list (none, pool, w) = (none, record list { mpool = pool }, w)
  push_elems list (some p, pool, w) =
      push_elem
        (record list { full = parts list; tail = record { elems = p; elem_mnt = 0 }; mpool = pool })
        w

  push_part : PartList → Chunk → Option Ptr × PartList × api.World
  unfolding push_elems
  push_part list (none, pool, w) = (none, record list { mpool = pool }, w)
  push_part list (some part, pool, w) =
      push_elems (record list { mpool = pool })
        (api.mpalloc ((list.elem_size * list.part_elem_maxmnt) % size_mod) pool w)

  pub list_push : PartList → api.World → Option Ptr × PartList × api.World
  unfolding push_elem push_part
  list_push list w =
      if list.tail.elem_mnt == list.part_elem_maxmnt
      then push_part list (api.mpalloc 24 list.mpool w)
      else push_elem list w

  -- `smp_list_visit_part_elems`: `ptr` is an `int *`, so `ptr + i` is four bytes further for each
  -- `i`. `n` is how many rounds are left. The visits do not touch the list.
  module _ (visit_func : Ptr → api.World → api.World) where
    visit_part : Ptr → (i n : ℕ) → api.World → api.World
    visit_part ptr i zero w = w
    visit_part ptr i (suc n) w = visit_part ptr (i + 1) n (visit_func (ptr + 4 * i) w)

    visit_parts : List Part → api.World → api.World
    unfolding visit_part
    visit_parts [] w = w
    visit_parts (part ∷ rest) w = visit_parts rest (visit_part part.elems 0 part.elem_mnt w)

    pub list_traversal : PartList → api.World → api.World
    unfolding visit_parts
    list_traversal list w = visit_parts (parts list) w

  pub list_destory : PartList → api.World → Status × api.World
  list_destory list w = api.destory list.mpool w
