-- ===== src/Array/Index.antt =====
-- The index of smp_array.c: its first cells hold the blocks.
use smpcil.Base.{
  ℕ, zero, suc, ◌<◌, ◌≡◌, refl, Option, some, none, List, [], ◌∷◌, ◌++◌, Ptr, arith, length,
  get_elem?, take,
}
use smpcil.Array.{read_cell, write_cell}
use smpcil.Array.Elements.{last_of}

abbrev pub filled : List Ptr → List (Option Ptr) → List (Option Ptr)
filled [] rest = rest
filled (p ∷ ps) rest = some p ∷ filled ps rest

-- The addresses in the cells that were written.
abbrev pub known : List (Option Ptr) → List Ptr
known [] = []
known (none ∷ cs) = known cs
known (some p ∷ cs) = p ∷ known cs

pub known-take :
    (ps : List Ptr) (rest : List (Option Ptr)) → known (take (length ps) (filled ps rest)) ≡ ps
known-take [] rest = refl
known-take (p ∷ ps) rest = cc (known-take ps rest)

pub take-filled :
    (ps : List Ptr) (rest more : List (Option Ptr))
    → take (length ps) (filled ps rest) ++ more ≡ filled ps more
take-filled [] rest more = refl
take-filled (p ∷ ps) rest more = cc (take-filled ps rest more)

pub read_cell-filled :
    (ps : List Ptr) (rest : List (Option Ptr)) (i : ℕ)
    → i < length ps
    → read_cell (filled ps rest) i ≡ get_elem? ps i
unfolding read_cell
read_cell-filled [] rest i h = absurd (omega (arith, h))
read_cell-filled (p ∷ ps) rest zero h = refl
read_cell-filled (p ∷ ps) rest (suc i) h = read_cell-filled ps rest i (omega arith)

pub read_cell-last :
    (p : Ptr) (ps : List Ptr) (rest : List (Option Ptr))
    → read_cell (filled (p ∷ ps) rest) (length ps) ≡ some (last_of p ps)
unfolding read_cell
read_cell-last p [] rest = refl
read_cell-last p (q ∷ ps) rest = read_cell-last q ps rest

pub write_cell-filled :
    (ps : List Ptr) (c : Option Ptr) (rest : List (Option Ptr)) (fresh : Ptr)
    → write_cell (filled ps (c ∷ rest)) (length ps) fresh ≡ some (filled (ps ++ fresh ∷ []) rest)
unfolding write_cell
write_cell-filled [] c rest fresh = refl
write_cell-filled (p ∷ ps) c rest fresh = rw (write_cell-filled ps c rest fresh) refl
