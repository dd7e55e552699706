-- ===== src/Array/Tests.antt =====
-- An array of two blocks on a pool that only counts, and the theorems at them.
use smpcil.Base.{
  ℕ, ◌+◌, ◌≤◌, ◌<◌, ◌≡◌, refl, inl, Option, none, some, [], ◌∷◌, ◌++◌, All, Ptr, arith, get_elem?,
}
use smpcil.PoolApi.Counter.{counter, counter_laws}
use smpcil.Array.{Array, push, traversal, elem_n, size}
use smpcil.Array.Elements.{AllApart, answer}
use smpcil.Array.Valid.{elems, IsValid, Owned}
use smpcil.Array.Push.{push-appends}
use smpcil.Array.Visit.{visit_all, traversal-elems}
use smpcil.Array.Lookup.{elem_n-finds, elem_n-misses}
use smpcil.Array.Layout.{push-AllApart}

-- two elements of four bytes to a block
abbrev two_blocks : Array counter
two_blocks = record {
  unit_elem_amt = 2;
  elem_size = 4;
  index_amt = 3;
  index_used = 2;
  curr_point = 1;
  index = some 8 ∷ some 16 ∷ none ∷ [];
  pool = 24;
}

chunk_at : (p : Ptr) → 0 < p → p + 8 ≤ 25 → Owned (λ a. a < 25) 8 p
chunk_at p pos le = record { nonnull = pos; used = λ a lo hi. omega (arith, hi, le) }

abbrev two_blocks-IsValid : IsValid counter_laws two_blocks 0
two_blocks-IsValid = record {
  first = 8;
  others = 16 ∷ [];
  rest = none ∷ [];
  index = refl;
  used = refl;
  amt = refl;
  fits = omega arith;
  room = omega arith;
  positive = omega arith;
  small = omega arith;
  pool = tt;
  owned = (chunk_at 8 (omega arith) (omega arith), (chunk_at 16 (omega arith) (omega arith), tt));
  apart = ((inl (omega arith), tt), (tt, tt));
}

push-appends_example :
    (o : Option Ptr) × (a' : Array counter) × (w' : ℕ) × (push counter two_blocks 0
      ≡ some (o, a', w'))
    × IsValid counter_laws a' w'
    × (elems a' ≡ elems two_blocks ++ answer o)
push-appends_example = push-appends counter_laws two_blocks 0 two_blocks-IsValid (omega arith)

traversal-elems_example :
    traversal counter (λ p w. w + p) two_blocks 0
    ≡ some (visit_all (λ p w. w + p) (elems two_blocks) 0)
traversal-elems_example =
    traversal-elems counter_laws (λ p w. w + p) two_blocks 0 two_blocks-IsValid

elem_n-finds_example :
    (p : Ptr) × (elem_n counter two_blocks 0 0 ≡ some (some p, 0))
    × (get_elem? (elems two_blocks) 0 ≡ some p)
elem_n-finds_example =
    elem_n-finds counter_laws two_blocks 0 two_blocks-IsValid 0 0 (omega arith) (omega arith)
      (omega arith) (omega arith)

elem_n-misses_example :
    (p : Ptr) × (get_elem? (elems two_blocks) 1 ≡ some p)
    × (elem_n counter two_blocks 1 0 ≡ some (none, 1))
elem_n-misses_example =
    elem_n-misses counter_laws two_blocks 0 two_blocks-IsValid 0 1 (omega arith) (omega arith)
      (omega arith) (inl refl)

push-AllApart_example :
    (o : Option Ptr) × (a' : Array counter) × (w' : ℕ) × (push counter two_blocks 0
      ≡ some (o, a', w'))
    × (elems a' ≡ elems two_blocks ++ answer o)
    × AllApart 4 (elems two_blocks ++ answer o)
    × All (Owned (counter_laws.InUse a'.pool w') 4) (elems two_blocks ++ answer o)
push-AllApart_example = push-AllApart counter_laws two_blocks 0 two_blocks-IsValid (omega arith)

elems_two_blocks : elems two_blocks ≡ 8 ∷ 12 ∷ 16 ∷ []
elems_two_blocks = refl

size_two_blocks : size counter two_blocks ≡ 3
unfolding size
size_two_blocks = refl
