-- ===== src/Rbt/Link.antt =====
-- The node below which `smp_rnode_insert` hangs the new one, and what the path says about the whole
-- tree.
use smpcil.Base.{
  suc, ◌+◌, true, false, ◌||◌, ◌≡◌, ◌≢◌, refl, ◌∙◌, ap, some, List, [], ◌∷◌, ◌++◌, arith, Ptr, ◌==◌,
  length, length-append, ℤ,
}
use smpcil.Store.{Store}
use smpcil.Store.Returns.{Returns, returns, Holds}
use smpcil.Rbt.{Rnode, Rbt, Side, on_left, on_right}
use smpcil.Rbt.Ops.{link_below}
use smpcil.Rbt.Rep.{
  Tree, leaf, branch, Entry, count, in_order, Rep, empty, full, has, Rep-frame, ne-nil, Preorder,
}
use smpcil.Rbt.Place.{
  mk, linked, set_near-ok, Linked-poke, has-mk, Step, plug, on_path, ApartPath, Hole, top, under,
  Hole-frame,
}
use smpcil.Rbt.Steps.{poke-other, has-ne, on_path-ne}
use smpcil.Rbt.Descend.{ByKey, side_of-ok}

linked-key : (d : Side) (u a b : Ptr) (e : Entry) → (linked d u a b e).key ≡ e.key
linked-key on_left u a b e = refl
linked-key on_right u a b e = refl

module _ (key_cmp : Ptr → Ptr → ℤ) (laws : Preorder key_cmp) (key : Ptr) where
  -- The node is linked where the way down has ended.
  pub link_below-Hole :
      (t : Rbt) (s : Store Rnode) {c tmp nd : Ptr} {n : Rnode} (fs : List Step)
      → Hole s t.nil t.root c tmp fs
      → ApartPath fs
      → ByKey key_cmp laws key fs
      → Holds s nd n
      → n.key ≡ key
      → Returns
          (λ t' s'.
            (t'.nil ≡ t.nil)
            × (t'.size ≡ t.size)
            × Hole s' t.nil t'.root nd tmp fs
            × (s'.calls ≡ s.calls)
            × ((a : Ptr) → on_path a fs ≡ false → s'.heap a ≡ s.heap a))
          (link_below key_cmp t tmp nd s)
  unfolding link_below
  link_below-Hole t s {tmp} [] (top e e') apart by here is_key =
      let test : (tmp == t.nil) ≡ true = ground arith in
      rw test (returns (refl, refl, top refl e', refl, λ a o. refl))
  link_below-Hole t s {nd} (f ∷ fs) (under {up} {c} e h n sib above) (o1, o2, sep, asib, apath)
        (by, rest) here is_key =
      let m = some (linked f.side up nd c f.entry) in
      rw
        (
          e,
          ne-nil n,
          side_of-ok key_cmp laws key here is_key h.there,
          linked-key f.side up _ c f.entry,
          by,
          set_near-ok h nd,
        )
        (returns (
          refl,
          refl,
          under refl (Linked-poke h up nd c) n
              (Rep-frame sib (λ a i. poke-other s f.above a m (has-ne a f.above f.sibling i o1)))
              (Hole-frame above (λ a i. poke-other s f.above a m (on_path-ne a f.above fs i o2))),
          refl,
          λ a o. poke-other s f.above a m (ground arith),
        ))

-- The nodes of a path are nodes of the tree.
pub has-plug_path :
    (a : Ptr) (fs : List Step) (T : Tree)
    → (has a T || on_path a fs) ≡ true
    → has a (plug fs T) ≡ true
has-plug_path a [] T i = ground arith
has-plug_path a (f ∷ fs) T i =
    has-plug_path a fs (mk f.side T f.above f.entry f.sibling)
      (ground (arith, has-mk a f.side T f.sibling f.above f.entry))

-- The sentinel is no node of a tree.
pub has-nil :
    {s : Store Rnode} {nil parent p : Ptr} {t : Tree} → Rep s nil parent p t → has nil t ≡ false
has-nil (empty e) = refl
has-nil (full e h n l r) = ground (arith, has-nil l, has-nil r, n)

pub count-length : (T : Tree) → count T ≡ length (in_order T)
count-length leaf = refl
count-length (branch l p e r) =
    omega
      (arith, length-append (in_order l) ((p, e.key) ∷ in_order r), count-length l, count-length r)

pub nothing : (xs ys : List (Ptr × Ptr)) (x : Ptr × Ptr) → [] ≢ xs ++ (x ∷ ys)
nothing [] ys x e = cc
nothing (y ∷ xs) ys x e = cc

pub grows :
    (T T' : Tree) (xs ys : List (Ptr × Ptr)) (x : Ptr × Ptr)
    → in_order T ≡ xs ++ ys
    → in_order T' ≡ xs ++ (x ∷ ys)
    → count T' ≡ count T + 1
grows T T' xs ys x e e' =
    let more : count T' ≡ length xs + suc (length ys) =
      count-length T' ∙ (ap length e' ∙ length-append xs (x ∷ ys)) in
    let less : count T ≡ length xs + length ys =
      count-length T ∙ (ap length e ∙ length-append xs ys) in
    omega arith
