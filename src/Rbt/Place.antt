-- ===== src/Rbt/Place.antt =====
-- A place in a tree: the subtree that hangs there and the path that leads to it from the root. The
-- two sides are alike, so a node is written with its child on a given side first.
use smpcil.Base.{
  Bool, true, false, ◌||◌, ◌≡◌, ◌≢◌, refl, ◌∙◌, ap, some, List, [], ◌∷◌, ◌++◌, arith, Ptr, ◌==◌,
}
use smpcil.Store.{Store, ok, poke}
use smpcil.Store.Returns.{Holds, load-ok, modify-ok, Holds-poke_self}
use smpcil.Rbt.{
  Rnode, Rbt, Side, on_left, on_right, other, child, with_child, child_of, parent_of, set_child,
  set_parent,
}
use smpcil.Rbt.Rep.{Tree, leaf, branch, Entry, node, Rep, full, has, Rep-frame, in_order}

abbrev pub mk : Side → Tree → Ptr → Entry → Tree → Tree
mk on_left near p e far = branch near p e far
mk on_right near p e far = branch far p e near

abbrev pub linked : Side → (parent near far : Ptr) → Entry → Rnode
linked on_left u a b e = node u a b e
linked on_right u a b e = node u b a e

pub record Linked (s : Store Rnode) (side : Side) (p u a b : Ptr) (e : Entry) : Type 0 where
  pub there : Holds s p (linked side u a b e)

-- Reads of such a node, and stores to it.
module _ {s : Store Rnode} {side : Side} {p u a b : Ptr} {e : Entry}
    (h : Linked s side p u a b e) where
  pub near-ok : child_of side p s ≡ ok a s
  unfolding child_of
  near-ok = rw (load-ok h.there) (go side)
    where
      go : (d : Side) → ok (child d (linked d u a b e)) s ≡ ok a s
      go on_left = refl
      go on_right = refl

  pub far-ok : child_of (other side) p s ≡ ok b s
  unfolding child_of
  far-ok = rw (load-ok h.there) (go side)
    where
      go : (d : Side) → ok (child (other d) (linked d u a b e)) s ≡ ok b s
      go on_left = refl
      go on_right = refl

  pub parent-ok : parent_of p s ≡ ok u s
  unfolding parent_of
  parent-ok = rw (load-ok h.there) (go side)
    where
      go : (d : Side) → ok (linked d u a b e).parent s ≡ ok u s
      go on_left = refl
      go on_right = refl

  pub set_near-ok : (q : Ptr) → set_child side p q s ≡ ok tt (poke p (some (linked side u q b e)) s)
  unfolding set_child
  set_near-ok q = rw (modify-ok h.there) (go side)
    where
      go :
          (d : Side)
          → ok tt (poke p (some (with_child d q (linked d u a b e))) s)
            ≡ ok tt (poke p (some (linked d u q b e)) s)
      go on_left = refl
      go on_right = refl

  pub set_far-ok :
      (q : Ptr) → set_child (other side) p q s ≡ ok tt (poke p (some (linked side u a q e)) s)
  unfolding set_child
  set_far-ok q = rw (modify-ok h.there) (go side)
    where
      go :
          (d : Side)
          → ok tt (poke p (some (with_child (other d) q (linked d u a b e))) s)
            ≡ ok tt (poke p (some (linked d u a q e)) s)
      go on_left = refl
      go on_right = refl

  pub set_parent-ok : (q : Ptr) → set_parent p q s ≡ ok tt (poke p (some (linked side q a b e)) s)
  unfolding set_parent
  set_parent-ok q = rw (modify-ok h.there) (go side)
    where
      go :
          (d : Side)
          → ok tt (poke p (some (record (linked d u a b e) { parent = q })) s)
            ≡ ok tt (poke p (some (linked d q a b e)) s)
      go on_left = refl
      go on_right = refl

  -- What the node holds after a store to it, and after changes elsewhere.
  pub Linked-poke :
      (u' a' b' : Ptr) → Linked (poke p (some (linked side u' a' b' e)) s) side p u' a' b' e
  Linked-poke u' a' b' = record { there = Holds-poke_self h.there (linked side u' a' b' e) }

  pub Linked-store : (e' : Entry) → Linked (poke p (some (linked side u a b e')) s) side p u a b e'
  Linked-store e' = record { there = Holds-poke_self h.there (linked side u a b e') }

  pub Linked-same : {g : Store Rnode} → g.heap p ≡ s.heap p → Linked g side p u a b e
  Linked-same same = record {
    there = record { nonnull = h.there.nonnull; holds = same ∙ h.there.holds };
  }

pub has-mk :
    (a : Ptr) (side : Side) (near far : Tree) (p : Ptr) (e : Entry)
    → has a (mk side near p e far) ≡ ((a == p) || (has a near || has a far))
has-mk a on_left near far p e = refl
has-mk a on_right near far p e = ground arith

-- A tree whose root is written so.
pub data At (s : Store Rnode) (nil : Ptr) (side : Side) (parent p : Ptr) (near : Tree) (q : Ptr)
    (e : Entry) (far : Tree) : Type 0 where
  at :
      (a b : Ptr)
      → p ≡ q
      → Linked s side q parent a b e
      → q ≢ nil
      → Rep s nil q a near
      → Rep s nil q b far
      → At s nil side parent p near q e far

module _ {s : Store Rnode} {nil parent p q : Ptr} {near far : Tree} {e : Entry} where
  pub Rep-At :
      (side : Side)
      → Rep s nil parent p (mk side near q e far)
      → At s nil side parent p near q e far
  Rep-At on_left (full {a} {b} e h n l r) = at a b e (record { there = h }) n l r
  Rep-At on_right (full {a} {b} e h n l r) = at b a e (record { there = h }) n r l

  pub At-Rep :
      (side : Side)
      → At s nil side parent p near q e far
      → Rep s nil parent p (mk side near q e far)
  At-Rep on_left (at a b e h n l r) = full e h.there n l r
  At-Rep on_right (at a b e h n l r) = full e h.there n r l

-- No node stands twice in a tree.
abbrev pub Apart : Tree → Type 0
Apart leaf = Unit
Apart (branch l p e r) =
    (has p l ≡ false)
    × (has p r ≡ false)
    × ((a : Ptr) → has a l ≡ true → has a r ≡ false)
    × Apart l
    × Apart r

abbrev pub ApartAt : Tree → Ptr → Tree → Type 0
ApartAt near p far =
    (has p near ≡ false)
    × (has p far ≡ false)
    × ((a : Ptr) → has a near ≡ true → has a far ≡ false)
    × Apart near
    × Apart far

pub excludes : (x y : Bool) → (x ≡ true → y ≡ false) → y ≡ true → x ≡ false
excludes x false f e = cc
excludes false y f e = refl
excludes true true f e = f refl

module _ (near far : Tree) (p : Ptr) (e : Entry) where
  pub Apart-at : (side : Side) → Apart (mk side near p e far) → ApartAt near p far
  Apart-at on_left apart = apart
  Apart-at on_right (out, out', sep, al, ar) =
      (out', out, (λ a. excludes (has a far) (has a near) (sep a)), ar, al)

  pub at-Apart : (side : Side) → ApartAt near p far → Apart (mk side near p e far)
  at-Apart on_left apart = apart
  at-Apart on_right (out, out', sep, al, ar) =
      (out', out, (λ a. excludes (has a near) (has a far) (sep a)), ar, al)

-- A step of the path: the node above, the side on which the path goes down, and the other subtree.
pub record Step : Type 0 where
  pub side : Side
  pub above : Ptr
  pub entry : Entry
  pub sibling : Tree

-- The tree that a path, innermost step first, makes of the subtree at its end.
abbrev pub plug : List Step → Tree → Tree
plug [] t = t
plug (f ∷ fs) t = plug fs (mk f.side t f.above f.entry f.sibling)

abbrev pub on_path : Ptr → List Step → Bool
on_path a [] = false
on_path a (f ∷ fs) = (a == f.above) || (has a f.sibling || on_path a fs)

abbrev pub ApartPath : List Step → Type 0
ApartPath [] = Unit
ApartPath (f ∷ fs) =
    (has f.above f.sibling ≡ false)
    × (on_path f.above fs ≡ false)
    × ((a : Ptr) → has a f.sibling ≡ true → on_path a fs ≡ false)
    × Apart f.sibling
    × ApartPath fs

-- The path stands in the store and ends at a link that holds `q`, in the node `parent`.
pub data Hole (s : Store Rnode) (nil root : Ptr) : (q parent : Ptr) → List Step → Type 0 where
  top : {q parent : Ptr} → q ≡ root → parent ≡ nil → Hole s nil root q parent []
  under :
      {q parent up c : Ptr} {f : Step} {fs : List Step}
      → parent ≡ f.above
      → Linked s f.side f.above up q c f.entry
      → f.above ≢ nil
      → Rep s nil f.above c f.sibling
      → Hole s nil root f.above up fs
      → Hole s nil root q parent (f ∷ fs)

pub Hole-frame :
    {s g : Store Rnode} {nil root q parent : Ptr} {fs : List Step}
    → Hole s nil root q parent fs
    → ((a : Ptr) → on_path a fs ≡ true → g.heap a ≡ s.heap a)
    → Hole g nil root q parent fs
Hole-frame (top e e') same = top e e'
Hole-frame (under {f} e h n sib above) same =
    under e (Linked-same h (same f.above (ground arith))) n
      (Rep-frame sib (λ a i. same a (ground arith)))
      (Hole-frame above (λ a i. same a (ground arith)))

-- The subtree `t` stands at `q`, at the end of the path.
pub record Placed (s : Store Rnode) (rbt : Rbt) (q parent : Ptr) (t : Tree) (fs : List Step)
    : Type 0 where
  pub tree : Rep s rbt.nil parent q t
  pub hole : Hole s rbt.nil rbt.root q parent fs
  pub apart : Apart t
  pub apart_path : ApartPath fs
  pub separate : (a : Ptr) → has a t ≡ true → on_path a fs ≡ false

-- The whole tree that a subtree and its path make, and its nodes in order.
pub plug-Rep :
    {s : Store Rnode} {nil root q parent : Ptr} (t : Tree) (fs : List Step)
    → Rep s nil parent q t
    → Hole s nil root q parent fs
    → Rep s nil nil root (plug fs t)
plug-Rep {s} {nil} t [] rep (top e e') = rw e' at (rw e at rep)
plug-Rep t (f ∷ fs) rep (under {up} {c} e h n sib above) =
    plug-Rep (mk f.side t f.above f.entry f.sibling) fs
      (At-Rep f.side (at _ c refl h n (rw e at rep) sib)) above

pub in_order-mk :
    (side : Side) (t t' far : Tree) (p : Ptr) (e : Entry)
    → in_order t ≡ in_order t'
    → in_order (mk side t p e far) ≡ in_order (mk side t' p e far)
in_order-mk on_left t t' far p e same = ap (λ xs. xs ++ ((p, e.key) ∷ in_order far)) same
in_order-mk on_right t t' far p e same = ap (λ xs. in_order far ++ ((p, e.key) ∷ xs)) same

pub in_order-plug :
    (fs : List Step) (t t' : Tree)
    → in_order t ≡ in_order t'
    → in_order (plug fs t) ≡ in_order (plug fs t')
in_order-plug [] t t' same = same
in_order-plug (f ∷ fs) t t' same =
    in_order-plug fs _ _ (in_order-mk f.side t t' f.sibling f.above f.entry same)
