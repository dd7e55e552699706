-- ===== src/Rbt/Heights.antt =====
-- The black heights of trees, and changes that keep them and the order of the nodes.
use smpcil.Base.{ℕ, zero, suc, ◌≡◌, sym, refl, ◌∙◌, inl, inr, List, [], ◌∷◌, Ptr}
use smpcil.Rbt.{Side, on_left, on_right, other, Color, red, black}
use smpcil.Rbt.Rep.{Tree, leaf, branch, Entry, in_order}
use smpcil.Rbt.Place.{mk, Step, plug, in_order-plug}
use smpcil.Rbt.Turn.{after}
use smpcil.Rbt.Zoom.{colored}
use smpcil.Rbt.Colors.{red-ne_black, red_or_black}

-- A black node is one higher than its children, a red one as high as they are.
abbrev pub AtColor : Color → (ℕ → Type 0) → ℕ → Type 0
AtColor red P h = P h
AtColor black P zero = ⊥
AtColor black P (suc h) = P h

-- Every way from the root to a leaf has `h` black nodes.
abbrev pub Balanced : Tree → ℕ → Type 0
Balanced leaf h = h ≡ 0
Balanced (branch l p e r) h = AtColor e.color (λ k. Balanced l k × Balanced r k) h

AtColor-map :
    (P Q : ℕ → Type 0) (c : Color) (h : ℕ) → ((k : ℕ) → P k → Q k) → AtColor c P h → AtColor c Q h
AtColor-map P Q red h f a = f h a
AtColor-map P Q black zero f a = a
AtColor-map P Q black (suc h) f a = f h a

abbrev Both : Tree → Tree → ℕ → Type 0
Both near far k = Balanced near k × Balanced far k

abbrev pub BalancedAt : Tree → Entry → Tree → ℕ → Type 0
BalancedAt near e far h = AtColor e.color (Both near far) h

module _ (near far : Tree) (p : Ptr) (e : Entry) (h : ℕ) where
  pub Balanced-at : (side : Side) → Balanced (mk side near p e far) h → BalancedAt near e far h
  Balanced-at on_left b = b
  Balanced-at on_right b = AtColor-map _ _ e.color h (λ k both. (both.1, both.0)) b

  pub at-Balanced : (side : Side) → BalancedAt near e far h → Balanced (mk side near p e far) h
  at-Balanced on_left b = b
  at-Balanced on_right b = AtColor-map _ _ e.color h (λ k both. (both.1, both.0)) b

red_out : (P : ℕ → Type 0) (c : Color) (h : ℕ) → c ≡ red → AtColor c P h → P h
red_out P red h r a = a
red_out P black h r a = absurd (red-ne_black (sym r))

red_in : (P : ℕ → Type 0) (c : Color) (h : ℕ) → c ≡ red → P h → AtColor c P h
red_in P red h r a = a
red_in P black h r a = absurd (red-ne_black (sym r))

black_out : (P : ℕ → Type 0) (c : Color) (h : ℕ) → c ≡ black → AtColor c P (suc h) → P h
black_out P red h b a = absurd (red-ne_black b)
black_out P black h b a = a

black_zero : (P : ℕ → Type 0) (c : Color) → c ≡ black → AtColor c P 0 → ⊥
black_zero P red b a = red-ne_black b
black_zero P black b a = a

-- The children of a red and of a black node, and such a node from its children.
module _ (side : Side) (near far : Tree) (p : Ptr) (e : Entry) (h : ℕ) where
  pub red_parts : e.color ≡ red → Balanced (mk side near p e far) h → Both near far h
  red_parts r b = red_out (Both near far) e.color h r (Balanced-at near far p e h side b)

  pub red_make : e.color ≡ red → Both near far h → Balanced (mk side near p e far) h
  red_make r b = at-Balanced near far p e h side (red_in (Both near far) e.color h r b)

  pub black_parts : e.color ≡ black → Balanced (mk side near p e far) (suc h) → Both near far h
  black_parts r b = black_out (Both near far) e.color h r (Balanced-at near far p e (suc h) side b)

  pub black_make : Both near far h → Balanced (mk side near p (colored black e) far) (suc h)
  black_make b = at-Balanced near far p (colored black e) (suc h) side b

  pub black_none : e.color ≡ black → Balanced (mk side near p e far) 0 → ⊥
  black_none r b = black_zero (Both near far) e.color r (Balanced-at near far p e 0 side b)

-- The parent and the uncle get black, and the grandparent red.
pub Balanced-recolored :
    (d side : Side) (n sib : Tree) (p : Ptr) (fe : Entry) (g : Ptr) (ge : Entry) (lu ru : Tree)
    (u : Ptr) (eu : Entry) (h : ℕ)
    → fe.color ≡ red
    → ge.color ≡ black
    → eu.color ≡ red
    → Balanced (mk d (mk side n p fe sib) g ge (branch lu u eu ru)) h
    → Balanced
        (mk d
          (mk side n p (colored black fe) sib)
          g
          (colored red ge)
          (branch lu u (colored black eu) ru))
        h
Balanced-recolored d side n sib p fe g ge lu ru u eu zero f_red g_black u_red b =
    absurd (black_none d (mk side n p fe sib) (branch lu u eu ru) g ge 0 g_black b)
Balanced-recolored d side n sib p fe g ge lu ru u eu (suc h) f_red g_black u_red b =
    let (bf, bu) = black_parts d (mk side n p fe sib) (branch lu u eu ru) g ge h g_black b in
    red_make d (mk side n p (colored black fe) sib) (branch lu u (colored black eu) ru) g
      (colored red ge) (suc h) refl
      (
        black_make side n sib p fe h (red_parts side n sib p fe h f_red bf),
        red_parts on_left lu ru u eu h u_red bu,
      )

-- The parent goes up and gets black, above the grandparent, which gets red.
pub Balanced-turned :
    (d : Side) (T : Tree) (p : Ptr) (fe : Entry) (sib : Tree) (g : Ptr) (ge : Entry) (U : Tree)
    (h : ℕ)
    → fe.color ≡ red
    → ge.color ≡ black
    → Balanced (mk d (mk d T p fe sib) g ge U) h
    → Balanced (after (other d) g p (colored red ge) (colored black fe) U sib T) h
Balanced-turned d T p fe sib g ge U zero f_red g_black b =
    absurd (black_none d (mk d T p fe sib) U g ge 0 g_black b)
Balanced-turned d T p fe sib g ge U (suc h) f_red g_black b =
    let (bf, bu) = black_parts d (mk d T p fe sib) U g ge h g_black b in
    let (bt, bs) = red_parts d T sib p fe h f_red bf in
    black_make (other d) (mk (other d) U g (colored red ge) sib) T p fe h
      (red_make (other d) U sib g (colored red ge) h refl (bu, bs), bt)

-- Two red nodes change places.
pub Balanced-middle :
    (d : Side) (B C : Tree) (q : Ptr) (e : Entry) (p : Ptr) (fe : Entry) (sib : Tree) (h : ℕ)
    → fe.color ≡ red
    → e.color ≡ red
    → Balanced (mk (other d) (mk d B q e C) p fe sib) h
    → Balanced (after d p q fe e sib B C) h
Balanced-middle d B C q e p fe sib h f_red is_red b =
    let (bn, bs) = red_parts (other d) (mk d B q e C) sib p fe h f_red b in
    let (bb, bc) = red_parts d B C q e h is_red bn in
    red_make d (mk d sib p fe B) C q e h is_red (red_make d sib B p fe h f_red (bs, bb), bc)

-- `V` has the nodes of `T` in their order, and the black height that `T` has.
pub record Alike (V T : Tree) : Type 0 where
  pub order : in_order V ≡ in_order T
  pub height : (h : ℕ) → Balanced T h → Balanced V h

pub Alike-refl : (T : Tree) → Alike T T
Alike-refl T = record { order = refl; height = λ h b. b }

pub Alike-trans : (U V W : Tree) → Alike U V → Alike V W → Alike U W
Alike-trans U V W a b = record {
  order = a.order ∙ b.order;
  height = λ h w. a.height h (b.height h w);
}

pub Balanced-plug :
    (fs : List Step) (V T : Tree) (h : ℕ)
    → ((k : ℕ) → Balanced T k → Balanced V k)
    → Balanced (plug fs T) h
    → Balanced (plug fs V) h
Balanced-plug [] V T h f b = f h b
Balanced-plug (g ∷ fs) V T h f b =
    Balanced-plug fs (mk g.side V g.above g.entry g.sibling) (mk g.side T g.above g.entry g.sibling)
      h
      (λ k at. at-Balanced V g.sibling g.above g.entry k g.side (
        AtColor-map _ _ g.entry.color k (λ i both. (f i both.0, both.1))
          (Balanced-at T g.sibling g.above g.entry k g.side at)))
      b

pub Alike-plug : (fs : List Step) (V T : Tree) → Alike V T → Alike (plug fs V) (plug fs T)
Alike-plug fs V T a = record {
  order = in_order-plug fs V T a.order;
  height = λ h b. Balanced-plug fs V T h a.height b;
}

pub record HasHeight (T : Tree) : Type 0 where
  pub height : ℕ
  pub balanced : Balanced T height

-- A red root may get black.
pub blackened-HasHeight :
    (l r : Tree) (p : Ptr) (e : Entry)
    → HasHeight (branch l p e r)
    → HasHeight (branch l p (colored black e) r)
blackened-HasHeight l r p e has = go has.height has.balanced
  where
    go : (h : ℕ) → Balanced (branch l p e r) h → HasHeight (branch l p (colored black e) r)
    go h b = elim (red_or_black e.color) [
      | inl is_red ↦ record { height = suc h; balanced = red_parts on_left l r p e h is_red b }
      | inr is_black ↦ by_height h b is_black
    ]
      where
        by_height :
            (h : ℕ)
            → Balanced (branch l p e r) h
            → e.color ≡ black
            → HasHeight (branch l p (colored black e) r)
        by_height zero b c = absurd (black_none on_left l r p e 0 c b)
        by_height (suc h) b c = record {
          height = suc h;
          balanced = black_parts on_left l r p e h c b;
        }

-- A red node without children, where there was none.
pub grown-HasHeight :
    (fs : List Step) (p : Ptr) (e : Entry)
    → e.color ≡ red
    → HasHeight (plug fs leaf)
    → HasHeight (plug fs (branch leaf p e leaf))
grown-HasHeight fs p e is_red has = record {
  height = has.height;
  balanced =
      Balanced-plug fs (branch leaf p e leaf) leaf has.height
        (λ k z. red_make on_left leaf leaf p e k is_red (z, z)) has.balanced;
}
