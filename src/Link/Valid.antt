-- ===== src/Link/Valid.antt =====
-- What a link stands for: the chain of its nodes, and the nodes that are kept for reuse.
use smpcil.Base.{
  ◌<◌, ◌≡◌, refl, Bool, true, false, ◌||◌, List, [], ◌∷◌, arith, length, Ptr, null, size_mod, ◌==◌,
}
use smpcil.Store.{Store}
use smpcil.Store.Returns.{Holds}
use smpcil.Dll.{Node}
use smpcil.Dll.Seg.{Seg, has}
use smpcil.Link.{Link}

abbrev pub spares : Ptr → List Ptr → Bool
spares a [] = false
spares a (p ∷ ps) = (a == p) || spares a ps

-- From `p` the `next` pointers lead through the distinct nodes `ps`, which carry nothing.
pub data Spare (h : Store (Node Ptr)) : Ptr → List Ptr → Type 0 where
  done : {p : Ptr} → p ≡ null → Spare h p []
  more :
      {p q : Ptr} {ps : List Ptr}
      → Holds h p (record { prev = null; next = q; item = null })
      → spares p ps ≡ false
      → Spare h q ps
      → Spare h p (p ∷ ps)

pub Spare-frame :
    {h g : Store (Node Ptr)} {p : Ptr} {ps : List Ptr}
    → Spare h p ps
    → ((a : Ptr) → spares a ps ≡ true → g.heap a ≡ h.heap a)
    → Spare g p ps
Spare-frame (done e) same = done e
Spare-frame (more {p} n out s) same =
    more (record { nonnull = n.nonnull; holds = ground (arith, same p, n.holds) }) out
      (Spare-frame s λ a i. same a (ground arith))

pub record IsLink (s : Store (Node Ptr)) (link : Link) (xs : List (Ptr × Ptr)) (ps : List Ptr)
    : Type 0 where
  pub chain : Seg s link.tail null link.node xs
  pub count : link.size ≡ length xs
  pub small : length xs < size_mod
  pub spare : Spare s link.recover ps
  pub apart : (a : Ptr) → has a xs ≡ true → spares a ps ≡ false

-- The first of the nodes that are kept, when there is one.
pub data First (h : Store (Node Ptr)) (p x : Ptr) (ps : List Ptr) : Type 0 where
  first :
      (q : Ptr)
      → p ≡ x
      → Holds h x (record { prev = null; next = q; item = null })
      → spares x ps ≡ false
      → Spare h q ps
      → First h p x ps

pub Spare-First :
    {h : Store (Node Ptr)} {p x : Ptr} {ps : List Ptr} → Spare h p (x ∷ ps) → First h p x ps
Spare-First (more {q} n out s) = first q refl n out s

pub not_of_spares :
    (a b : Ptr) (ps : List Ptr) → spares a ps ≡ true → spares b ps ≡ false → (a == b) ≡ false
not_of_spares a b [] i o = cc
not_of_spares a b (p ∷ ps) i o = ground (arith, not_of_spares a b ps)
