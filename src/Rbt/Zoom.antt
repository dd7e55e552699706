-- ===== src/Rbt/Zoom.antt =====
-- Moving the place up and down the path, reads around it, and stores of colors.
use smpcil.Base.{false, ◌≡◌, ◌≢◌, refl, some, List, ◌∷◌, arith, Ptr}
use smpcil.Store.{Store, ok, poke}
use smpcil.Store.Returns.{Holds, load-ok, modify-ok}
use smpcil.Rbt.{Rnode, Rbt, Side, on_left, on_right, Color, black, color_of, set_color}
use smpcil.Rbt.Rep.{Tree, leaf, branch, Entry, Rep, empty, full, has}
use smpcil.Rbt.Place.{
  mk, linked, Linked, has-mk, at, At-Rep, Apart-at, at-Apart, excludes, Step, on_path, Hole, under,
  Placed,
}
use smpcil.Rbt.Steps.{has-ne}

abbrev pub colored : Color → Entry → Entry
colored c e = record e { color = c }

-- The sentinel stands in the store and is black.
pub record Sentinel (s : Store Rnode) (nil : Ptr) : Type 0 where
  pub cell : Rnode
  pub there : Holds s nil cell
  pub is_black : cell.color ≡ black

abbrev pub root_color : Tree → Color
root_color leaf = black
root_color (branch l p e r) = e.color

pub color_of-Rep :
    {s : Store Rnode} {nil parent p : Ptr} (t : Tree)
    → Sentinel s nil
    → Rep s nil parent p t
    → color_of p s ≡ ok (root_color t) s
unfolding color_of
color_of-Rep leaf sen (empty e) = rw (e, load-ok sen.there, sen.is_black) refl
color_of-Rep (branch l q e r) sen (full at' h n rl rr) = rw (at', load-ok h) refl

module _ {s : Store Rnode} {side : Side} {p u a b : Ptr} {e : Entry}
    (h : Linked s side p u a b e) where
  pub color_of-Linked : color_of p s ≡ ok e.color s
  unfolding color_of
  color_of-Linked = rw (load-ok h.there) (go side)
    where
      go : (d : Side) → ok (linked d u a b e).color s ≡ ok e.color s
      go on_left = refl
      go on_right = refl

  pub set_color-ok :
      (c : Color) → set_color p c s ≡ ok tt (poke p (some (linked side u a b (colored c e))) s)
  unfolding set_color
  set_color-ok c = rw (modify-ok h.there) (go side)
    where
      go :
          (d : Side)
          → ok tt (poke p (some (record (linked d u a b e) { color = c })) s)
            ≡ ok tt (poke p (some (linked d u a b (colored c e))) s)
      go on_left = refl
      go on_right = refl

-- The same place, one step up.
pub data Out (s : Store Rnode) (t : Rbt) (q parent : Ptr) (T : Tree) (f : Step) (fs : List Step)
    : Type 0 where
  out :
      {up c : Ptr}
      → parent ≡ f.above
      → Linked s f.side f.above up q c f.entry
      → Rep s t.nil f.above c f.sibling
      → f.above ≢ t.nil
      → Placed s t f.above up (mk f.side T f.above f.entry f.sibling) fs
      → Out s t q parent T f fs

module _ {s : Store Rnode} {t : Rbt} where
  pub zoom-Out :
      {q parent : Ptr} {T : Tree} (f : Step) {fs : List Step}
      → Placed s t q parent T (f ∷ fs)
      → Out s t q parent T f fs
  zoom-Out {q} {parent} {T} f {fs} p = go p.hole
    where
      go : Hole s t.nil t.root q parent (f ∷ fs) → Out s t q parent T f fs
      go (under {up} {c} e h n sib above) =
          let (o1, o2, sep, asib, apath) = p.apart_path in
          let off : has f.above T ≡ false =
            excludes (has f.above T) (on_path f.above (f ∷ fs)) (p.separate f.above)
              (ground arith) in
          out e h sib n (record {
            tree = At-Rep f.side (at q c refl h n (rw e at p.tree) sib);
            hole = above;
            apart =
                at-Apart T f.sibling f.above f.entry f.side
                  (off, o1, (λ a i. ground (arith, p.separate a)), p.apart, asib);
            apart_path = apath;
            separate = λ a i.
                ground (arith, p.separate a, sep a, has-mk a f.side T f.sibling f.above f.entry);
          })

  -- The place of the child on a side.
  pub zoom_in :
      (side : Side) (near : Tree) (x : Ptr) (e : Entry) (far : Tree) {parent a b : Ptr}
      {fs : List Step}
      → Placed s t x parent (mk side near x e far) fs
      → Linked s side x parent a b e
      → x ≢ t.nil
      → Rep s t.nil x a near
      → Rep s t.nil x b far
      → Placed s t a x near (record { side = side; above = x; entry = e; sibling = far } ∷ fs)
  zoom_in side near x e far p h n rn rf =
      let (o1, o2, sep, an, af) = Apart-at near far x e side p.apart in
      let all = λ (d : Ptr). has-mk d side near far x e in
      record {
        tree = rn;
        hole = under refl h n rf p.hole;
        apart = an;
        apart_path = (
          o2,
          p.separate x (ground (arith, all x)),
          (λ d i. p.separate d (ground (arith, all d))),
          af,
          p.apart_path,
        );
        separate = λ d i. ground (arith, all d, p.separate d, sep d, has-ne d x near i o1);
      }
