-- ===== src/Rbt/Colors.antt =====
-- No red node of a tree has a red child: for trees, and for a path whose end is left open.
use smpcil.Base.{◌≡◌, ◌≢◌, refl, sym, ◌∙◌, ◌⊎◌, inl, inr, List, [], ◌∷◌, Ptr}
use smpcil.Rbt.{Side, on_left, on_right, Color, red, black}
use smpcil.Rbt.Rep.{Tree, leaf, branch, Entry}
use smpcil.Rbt.Place.{mk, Step, plug}
use smpcil.Rbt.Zoom.{root_color}

abbrev pub NoRedRed : Tree → Type 0
NoRedRed leaf = Unit
NoRedRed (branch l p e r) =
    (e.color ≡ red → (root_color l ≡ black) × (root_color r ≡ black)) × NoRedRed l × NoRedRed r

abbrev pub NoRedRedAt : Tree → Entry → Tree → Type 0
NoRedRedAt near e far =
    (e.color ≡ red → (root_color near ≡ black) × (root_color far ≡ black))
    × NoRedRed near
    × NoRedRed far

-- The color of the node above the end of a path; the sentinel is black.
abbrev pub path_color : List Step → Color
path_color [] = black
path_color (f ∷ fs) = f.entry.color

abbrev pub GoodPath : List Step → Type 0
GoodPath [] = Unit
GoodPath (f ∷ fs) =
    (f.entry.color ≡ red → (root_color f.sibling ≡ black) × (path_color fs ≡ black))
    × NoRedRed f.sibling
    × GoodPath fs

-- The root, at the far end of the path, is black.
abbrev pub TopBlack : List Step → Type 0
TopBlack [] = Unit
TopBlack (f ∷ []) = f.entry.color ≡ black
TopBlack (f ∷ g ∷ fs) = TopBlack (g ∷ fs)

pub red_or_black : (c : Color) → (c ≡ red) ⊎ (c ≡ black)
red_or_black red = inl refl
red_or_black black = inr refl

pub red-ne_black : red ≢ black
red-ne_black e = cc

pub root_color-mk :
    (side : Side) (near far : Tree) (p : Ptr) (e : Entry)
    → root_color (mk side near p e far) ≡ e.color
root_color-mk on_left near far p e = refl
root_color-mk on_right near far p e = refl

module _ (near far : Tree) (p : Ptr) (e : Entry) where
  pub NoRedRed-at : (side : Side) → NoRedRed (mk side near p e far) → NoRedRedAt near e far
  NoRedRed-at on_left h = h
  NoRedRed-at on_right (h, l, r) = ((λ c. ((h c).1, (h c).0)), r, l)

  pub at-NoRedRed : (side : Side) → NoRedRedAt near e far → NoRedRed (mk side near p e far)
  at-NoRedRed on_left h = h
  at-NoRedRed on_right (h, l, r) = ((λ c. ((h c).1, (h c).0)), r, l)

-- A good tree at the end of a good path, not red below red.
pub NoRedRed-plug :
    (fs : List Step) (t : Tree)
    → GoodPath fs
    → NoRedRed t
    → (path_color fs ≡ red → root_color t ≡ black)
    → NoRedRed (plug fs t)
NoRedRed-plug [] t good h joint = h
NoRedRed-plug (f ∷ fs) t (cond, sib, good) h joint =
    NoRedRed-plug fs (mk f.side t f.above f.entry f.sibling) good
      (at-NoRedRed t f.sibling f.above f.entry f.side ((λ c. (joint c, (cond c).0)), h, sib))
      λ c. root_color-mk f.side t f.sibling f.above f.entry ∙ joint_above c
  where
    joint_above : path_color fs ≡ red → f.entry.color ≡ black
    joint_above c = elim (red_or_black f.entry.color) [
      | inl r ↦ absurd (red-ne_black (sym c ∙ (cond r).1))
      | inr b ↦ b
    ]
