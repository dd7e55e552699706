-- ===== src/Rbt/Sorted.antt =====
-- Trees whose keys are in order, by the list of their nodes.
use smpcil.Base.{
  ◌≡◌, ◌≢◌, sym, ◌∙◌, true, false, List, [], ◌∷◌, ◌++◌, Ptr, ℤ, positive, All, All-append,
  All-append_left, All-append_right, All-map, Bool-cases, inl, inr,
}
use smpcil.Rbt.Rep.{Tree, leaf, branch, in_order, Preorder, AllBelow, AllAbove, IsOrdered}

-- A key that is above another one is not below it.
pub record Total (key_cmp : Ptr → Ptr → ℤ) : Type 0 where
  pub backwards : (x y : Ptr) → positive (key_cmp x y) ≡ true → positive (key_cmp y x) ≡ false

module _ (key_cmp : Ptr → Ptr → ℤ) (laws : Preorder key_cmp) where
  -- Each key is not above the keys behind it.
  abbrev pub Sorted : List (Ptr × Ptr) → Type 0
  Sorted [] = Unit
  Sorted (x ∷ xs) = AllAbove key_cmp x.1 xs × Sorted xs

  abbrev pub Across : List (Ptr × Ptr) → List (Ptr × Ptr) → Type 0
  Across xs ys = All (λ (x : Ptr × Ptr). AllAbove key_cmp x.1 ys) xs

  le_trans :
      (x y z : Ptr)
      → positive (key_cmp x y) ≡ false
      → positive (key_cmp y z) ≡ false
      → positive (key_cmp x z) ≡ false
  le_trans x y z le le' = elim (Bool-cases (positive (key_cmp x z))) [
    | inl gt ↦ absurd (clash (sym (laws.upwards x y z le gt) ∙ le'))
    | inr ng ↦ ng
  ]
    where
      clash : true ≢ false
      clash e = cc

  Sorted-join :
      (xs ys : List (Ptr × Ptr)) → Sorted xs → Sorted ys → Across xs ys → Sorted (xs ++ ys)
  Sorted-join [] ys sx sy across = sy
  Sorted-join (x ∷ xs) ys (h, sx) sy (a, across) =
      (All-append _ xs ys h a, Sorted-join xs ys sx sy across)

  Sorted-split :
      (xs ys : List (Ptr × Ptr)) → Sorted (xs ++ ys) → Sorted xs × Sorted ys × Across xs ys
  Sorted-split [] ys s = (tt, s, tt)
  Sorted-split (x ∷ xs) ys (h, s) =
      let (sx, sy, across) = Sorted-split xs ys s in
      ((All-append_left _ xs ys h, sx), sy, (All-append_right _ xs ys h, across))

  -- A key between two lists lets the one stand before the other.
  through :
      (k : Ptr) (xs ys : List (Ptr × Ptr))
      → AllBelow key_cmp k xs
      → AllAbove key_cmp k ys
      → Across xs ys
  through k xs ys below above =
      All-map xs (λ x le. All-map ys (λ y le'. le_trans x.1 k y.1 le le') above) below

  between :
      (x : Ptr × Ptr) (xs ys : List (Ptr × Ptr))
      → AllBelow key_cmp x.1 xs
      → Across xs ys
      → Across xs (x ∷ ys)
  between x [] ys below across = tt
  between x (y ∷ xs) ys (le, below) (a, across) = ((le, a), between x xs ys below across)

  pub IsOrdered-Sorted : (t : Tree) → IsOrdered key_cmp t → Sorted (in_order t)
  IsOrdered-Sorted leaf h = tt
  IsOrdered-Sorted (branch l p e r) (below, above, ol, orr) =
      let node : Ptr × Ptr = (p, e.key) in
      Sorted-join (in_order l) (node ∷ in_order r) (IsOrdered-Sorted l ol)
        (above, IsOrdered-Sorted r orr)
        (between node (in_order l) (in_order r) below (through e.key _ _ below above))

  heads : (x : Ptr × Ptr) (xs ys : List (Ptr × Ptr)) → Across xs (x ∷ ys) → AllBelow key_cmp x.1 xs
  heads x xs ys across = All-map xs (λ y both. both.0) across

  pub Sorted-IsOrdered : (t : Tree) → Sorted (in_order t) → IsOrdered key_cmp t
  Sorted-IsOrdered leaf s = tt
  Sorted-IsOrdered (branch l p e r) s =
      let (sl, (above, sr), across) = Sorted-split (in_order l) ((p, e.key) ∷ in_order r) s in
      (
        heads (p, e.key) (in_order l) (in_order r) across,
        above,
        Sorted-IsOrdered l sl,
        Sorted-IsOrdered r sr,
      )

  -- A node that is put where its key belongs.
  pub Sorted-insert :
      (x : Ptr × Ptr) (xs ys : List (Ptr × Ptr))
      → Sorted (xs ++ ys)
      → AllBelow key_cmp x.1 xs
      → AllAbove key_cmp x.1 ys
      → Sorted (xs ++ (x ∷ ys))
  Sorted-insert x xs ys s below above =
      let (sx, sy, across) = Sorted-split xs ys s in
      Sorted-join xs (x ∷ ys) sx (above, sy) (between x xs ys below across)
