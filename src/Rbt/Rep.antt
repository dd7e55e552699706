-- ===== src/Rbt/Rep.antt =====
-- When nodes of the store form a tree, with their `parent` links, and its keys in order.
use smpcil.Base.{
  refl, ap, Bool, ◌||◌, arith, ◌∙◌, true, All, ℤ, positive, negative, ℕ, suc, ◌+◌, ◌≡◌, ◌≢◌, false,
  List, [], ◌∷◌, ◌++◌, Ptr, ◌==◌,
}
use smpcil.Store.{Store}
use smpcil.Store.Returns.{Holds}
use smpcil.Rbt.{Rnode, Rbt, Color}

-- What a node carries besides its links.
pub record Entry : Type 0 where
  pub key : Ptr
  pub carrier : Ptr
  pub color : Color

pub data Tree : Type 0 where
  leaf : Tree
  branch : Tree → Ptr → Entry → Tree → Tree

abbrev pub count : Tree → ℕ
count leaf = 0
count (branch l p e r) = suc (count l + count r)

abbrev pub node : (parent left right : Ptr) → Entry → Rnode
node parent left right e = record {
  parent = parent;
  left = left;
  right = right;
  key = e.key;
  carrier = e.carrier;
  color = e.color;
}

-- The tree `t` hangs at `p`, below `parent`.
pub data Rep (s : Store Rnode) (nil : Ptr) : Ptr → Ptr → Tree → Type 0 where
  empty : {parent p : Ptr} → p ≡ nil → Rep s nil parent p leaf
  full :
      {parent p q a b : Ptr} {e : Entry} {l r : Tree}
      → p ≡ q
      → Holds s q (node parent a b e)
      → q ≢ nil
      → Rep s nil q a l
      → Rep s nil q b r
      → Rep s nil parent p (branch l q e r)

-- The tree of `rbt` is `t`.
pub record IsTree (s : Store Rnode) (rbt : Rbt) (t : Tree) : Type 0 where
  pub tree : Rep s rbt.nil rbt.nil rbt.root t
  pub sized : rbt.size ≡ count t

-- The nodes with their keys, in the order of the keys.
abbrev pub in_order : Tree → List (Ptr × Ptr)
in_order leaf = []
in_order (branch l p e r) = in_order l ++ ((p, e.key) ∷ in_order r)

abbrev pub pre_order : Tree → List (Ptr × Ptr)
pre_order leaf = []
pre_order (branch l p e r) = (p, e.key) ∷ (pre_order l ++ pre_order r)

abbrev pub post_order : Tree → List (Ptr × Ptr)
post_order leaf = []
post_order (branch l p e r) = post_order l ++ (post_order r ++ ((p, e.key) ∷ []))

pub append_assoc : (xs ys zs : List (Ptr × Ptr)) → (xs ++ ys) ++ zs ≡ xs ++ (ys ++ zs)
append_assoc [] ys zs = refl
append_assoc (x ∷ xs) ys zs = ap (λ t. x ∷ t) (append_assoc xs ys zs)

pub ne-nil : {p nil : Ptr} → p ≢ nil → (p == nil) ≡ false
ne-nil n = ground arith

abbrev pub has : Ptr → Tree → Bool
has a leaf = false
has a (branch l p e r) = (a == p) || (has a l || has a r)

module _ {s : Store Rnode} {nil : Ptr} where
  -- A tree survives any change that spares its own nodes.
  pub Rep-frame :
      {g : Store Rnode} {parent p : Ptr} {t : Tree}
      → Rep s nil parent p t
      → ((a : Ptr) → has a t ≡ true → g.heap a ≡ s.heap a)
      → Rep g nil parent p t
  Rep-frame (empty e) same = empty e
  Rep-frame (full {q} at h n l r) same =
      full at (record { nonnull = h.nonnull; holds = same q (ground arith) ∙ h.holds }) n
        (Rep-frame l (λ a i. same a (ground arith))) (Rep-frame r (λ a i. same a (ground arith)))

-- What the comparison has to be like: a total preorder, by the sign of its result.
pub record Preorder (key_cmp : Ptr → Ptr → ℤ) : Type 0 where
  pub upwards :
      (x y k : Ptr)
      → positive (key_cmp x y) ≡ false
      → positive (key_cmp x k) ≡ true
      → positive (key_cmp y k) ≡ true
  pub downwards :
      (x y k : Ptr)
      → positive (key_cmp x y) ≡ false
      → negative (key_cmp y k) ≡ true
      → negative (key_cmp x k) ≡ true

module _ (key_cmp : Ptr → Ptr → ℤ) where
  abbrev pub AllBelow : Ptr → List (Ptr × Ptr) → Type 0
  AllBelow k xs = All (λ (x : Ptr × Ptr). positive (key_cmp x.1 k) ≡ false) xs

  abbrev pub AllAbove : Ptr → List (Ptr × Ptr) → Type 0
  AllAbove k xs = All (λ (x : Ptr × Ptr). positive (key_cmp k x.1) ≡ false) xs

  abbrev pub IsOrdered : Tree → Type 0
  IsOrdered leaf = Unit
  IsOrdered (branch l p e r) =
      AllBelow e.key (in_order l) × AllAbove e.key (in_order r) × IsOrdered l × IsOrdered r
