-- ===== src/Rbt/Rotate.antt =====
-- `smp_left_rotate` and `smp_right_rotate` at a place of a tree.
use smpcil.Base.{true, false, ◌≡◌, ◌≢◌, refl, ◌∙◌, some, List, arith, Ptr, ◌==◌}
use smpcil.Store.{Store, pure, poke, ◌>>=◌}
use smpcil.Store.Returns
use smpcil.Store.Returns.{Returns, returns, Holds, modify-ok, Holds-poke_self}
use smpcil.Rbt.{Rnode, Rbt, Side, parent_of, set_child, set_parent, replace_child, rotate}
use smpcil.Rbt.Rep.{Tree, Entry, Rep, has, Rep-frame}
use smpcil.Rbt.Place.{
  mk, linked, Linked, near-ok, far-ok, parent-ok, set_near-ok, set_far-ok, set_parent-ok,
  Linked-poke, Linked-same, At, at, Rep-At, At-Rep, excludes, Step, on_path, Hole, Hole-frame,
  Placed,
}
use smpcil.Rbt.Steps.{poke-other, has-ne, adopt, replace_child-Hole}
use smpcil.Rbt.Turn.{
  Facts, before, after, has-before, has-after, Facts-before, Apart-after, or_false5,
}

module _ (side : Side) (x y : Ptr) (ex ey : Entry) (A B C : Tree) where
  abbrev tree_before : Tree
  tree_before = before side x y ex ey A B C

  abbrev tree_after : Tree
  tree_after = after side x y ex ey A B C

  module _ (t : Rbt) (s : Store Rnode) {par : Ptr} (fs : List Step)
      (placed : Placed s t x par tree_before fs) where
    -- A rotation does its work: the subtree is turned, its root hangs where the old root did, and
    -- no other node changes.
    pub record Turned (t' : Rbt) (s' : Store Rnode) : Type 0 where
      pub placed_after : Placed s' t' y par tree_after fs
      pub nil : t'.nil ≡ t.nil
      pub size : t'.size ≡ t.size
      pub calls : s'.calls ≡ s.calls
      pub same : (a : Ptr) → has a tree_before ≡ false → on_path a fs ≡ false → s'.heap a ≡ s.heap a

    facts : Facts x y A B C
    facts = Facts-before side x y ex ey A B C placed.apart

    -- A node of the path is none of the subtree.
    off_tree : (a : Ptr) → on_path a fs ≡ true → has a tree_before ≡ false
    off_tree a = excludes (has a tree_before) (on_path a fs) (placed.separate a)

    misses :
        (d : Ptr)
        → has d tree_before ≡ false
        → ((d == x) ≡ false)
          × (has d A ≡ false)
          × ((d == y) ≡ false)
          × (has d B ≡ false)
          × (has d C ≡ false)
    misses d out =
        or_false5 (d == x) (has d A) (d == y) (has d B) (has d C)
          (rw (has-before side x y ex ey A B C) at out)

    off_path :
        (d : Ptr)
        → on_path d fs ≡ true
        → ((d == x) ≡ false)
          × ((d == y) ≡ false)
          × (has d A ≡ false)
          × (has d B ≡ false)
          × (has d C ≡ false)
    off_path d i = let (dx, da, dy, db, dc) = misses d (off_tree d i) in (dx, dy, da, db, dc)

    in-A : (d : Ptr) → has d A ≡ true → has d tree_before ≡ true
    in-A d i = rw (has-before side x y ex ey A B C d, i) (ground arith)

    in-B : (d : Ptr) → has d B ≡ true → has d tree_before ≡ true
    in-B d i = rw (has-before side x y ex ey A B C d, i) (ground arith)

    in-C : (d : Ptr) → has d C ≡ true → has d tree_before ≡ true
    in-C d i = rw (has-before side x y ex ey A B C d, i) (ground arith)

    x_off : on_path x fs ≡ false
    x_off = placed.separate x (rw (has-before side x y ex ey A B C) (ground arith))

    y_off : on_path y fs ≡ false
    y_off = placed.separate y (rw (has-before side x y ex ey A B C) (ground arith))

    pub before_of_after : (d : Ptr) → has d tree_after ≡ true → has d tree_before ≡ true
    before_of_after d i =
        ground (arith, has-before side x y ex ey A B C d, has-after side x y ex ey A B C d)

    -- From the store after `smp_left_rotate` has moved the middle subtree.
    module _ (a b c : Ptr) (hx : Linked s side x par a y ex) (hy : Linked s side y x b c ey)
        (nx : x ≢ t.nil) (ny : y ≢ t.nil) (ra : Rep s t.nil x a A) (rb : Rep s t.nil y b B)
        (rc : Rep s t.nil y c C) where
      abbrev s1 : Store Rnode
      s1 = poke x (some (linked side par a b ex)) s

      hy1 : Linked s1 side y x b c ey
      hy1 = Linked-same hy (poke-other s x y (some (linked side par a b ex)) facts.y-x)

      rb1 : Rep s1 t.nil y b B
      rb1 =
          Rep-frame rb
            λ d i. poke-other s x d (some (linked side par a b ex)) (has-ne d x B i facts.x-out.1)

      -- The middle subtree hangs below `x`: the stores up to the link above.
      module _ (s2 : Store Rnode) (rb2 : Rep s2 t.nil x b B) (calls2 : s2.calls ≡ s.calls)
          (same2 : (d : Ptr) → has d B ≡ false → s2.heap d ≡ s1.heap d) where
        abbrev s3 : Store Rnode
        s3 = poke y (some (linked side par b c ey)) s2

        hx2 : Linked s2 side x par a b ex
        hx2 = Linked-same (Linked-poke hx par a b) (same2 x facts.x-out.1)

        hy2 : Linked s2 side y x b c ey
        hy2 = Linked-same hy1 (same2 y facts.y-out.1)

        hx3 : Linked s3 side x par a b ex
        hx3 = Linked-same hx2 (poke-other s2 y x (some (linked side par b c ey)) facts.x-y)

        hy3 : Linked s3 side y par b c ey
        hy3 = Linked-poke hy2 par b c

        same3 :
            (d : Ptr) → (d == x) ≡ false → (d == y) ≡ false → has d B ≡ false → s3.heap d ≡ s.heap d
        same3 d dx dy out =
            poke-other s2 y d (some (linked side par b c ey)) dy
            ∙ (same2 d out ∙ poke-other s x d (some (linked side par a b ex)) dx)

        hole3 : Hole s3 t.nil t.root x par fs
        hole3 =
            Hole-frame placed.hole
              λ d i. let (dx, dy, da, db, dc) = off_path d i in same3 d dx dy db

        -- The link above holds `y`: the last two stores.
        module _ (t' : Rbt) (s4 : Store Rnode) (nil' : t'.nil ≡ t.nil) (size' : t'.size ≡ t.size)
            (hole4 : Hole s4 t.nil t'.root y par fs) (calls4 : s4.calls ≡ s3.calls)
            (same4 : (d : Ptr) → on_path d fs ≡ false → s4.heap d ≡ s3.heap d) where
          abbrev s5 : Store Rnode
          s5 = poke y (some (linked side par x c ey)) s4

          abbrev s6 : Store Rnode
          s6 = poke x (some (linked side y a b ex)) s5

          hy4 : Linked s4 side y par b c ey
          hy4 = Linked-same hy3 (same4 y y_off)

          hx4 : Linked s4 side x par a b ex
          hx4 = Linked-same hx3 (same4 x x_off)

          hx5 : Linked s5 side x par a b ex
          hx5 = Linked-same hx4 (poke-other s4 y x (some (linked side par x c ey)) facts.x-y)

          hx6 : Linked s6 side x y a b ex
          hx6 = Linked-poke hx5 y a b

          hy6 : Linked s6 side y par x c ey
          hy6 =
              Linked-same (Linked-poke hy4 par x c)
                (poke-other s5 x y (some (linked side y a b ex)) facts.y-x)

          same6 : (d : Ptr) → (d == x) ≡ false → (d == y) ≡ false → s6.heap d ≡ s4.heap d
          same6 d dx dy =
              poke-other s5 x d (some (linked side y a b ex)) dx
              ∙ poke-other s4 y d (some (linked side par x c ey)) dy

          same_all :
              (d : Ptr)
              → (d == x) ≡ false
              → (d == y) ≡ false
              → has d B ≡ false
              → on_path d fs ≡ false
              → s6.heap d ≡ s.heap d
          same_all d dx dy db off = same6 d dx dy ∙ (same4 d off ∙ same3 d dx dy db)

          outer :
              (d : Ptr) (T : Tree)
              → has d T ≡ true
              → has x T ≡ false
              → has y T ≡ false
              → has d B ≡ false
              → has d tree_before ≡ true
              → s6.heap d ≡ s.heap d
          outer d T i ox oy db here =
              same_all d (has-ne d x T i ox) (has-ne d y T i oy) db (placed.separate d here)

          inner : (d : Ptr) → has d B ≡ true → s6.heap d ≡ s2.heap d
          inner d i =
              let dx = has-ne d x B i facts.x-out.1 in
              let dy = has-ne d y B i facts.y-out.1 in
              same6 d dx dy
              ∙ (same4 d (placed.separate d (in-B d i))
                  ∙ poke-other s2 y d (some (linked side par b c ey)) dy)

          tree6 : Rep s6 t.nil par y tree_after
          tree6 =
              let left : Rep s6 t.nil x a A =
                Rep-frame ra
                  λ d i. outer d A i facts.x-out.0 facts.y-out.0 (facts.a-b d i) (in-A d i) in
              let middle : Rep s6 t.nil x b B = Rep-frame rb2 inner in
              let right : Rep s6 t.nil y c C = Rep-frame rc λ d i.
                outer d C i facts.x-out.2 facts.y-out.2
                  (excludes (has d B) (has d C) (facts.b-c d) i) (in-C d i) in
              At-Rep side (at x c refl hy6 ny (At-Rep side (at a b refl hx6 nx left middle)) right)

          hole6 : Hole s6 t.nil t'.root y par fs
          hole6 = Hole-frame hole4 λ d i. let (dx, dy, da, db, dc) = off_path d i in same6 d dx dy

          turned6 : Turned t' s6
          turned6 = record {
            placed_after = record {
              tree = rw nil' tree6;
              hole = rw nil' hole6;
              apart = Apart-after side x y ex ey A B C facts;
              apart_path = placed.apart_path;
              separate = λ d i. placed.separate d (before_of_after d i);
            };
            nil = nil';
            size = size';
            calls = calls4 ∙ calls2;
            same = λ d out off. let (dx, da, dy, db, dc) = misses d out in same_all d dx dy db off;
          }

          last_stores :
              Returns Turned ((set_child side y x >>= λ _. set_parent x y >>= λ _. pure t') s4)
          last_stores = rw (set_near-ok hy4 x, set_parent-ok hx5 y) (returns turned6)

        finish : Returns Turned (
            (parent_of x >>= λ up. set_parent y up >>= λ _. parent_of x >>= λ up'.
            replace_child t up' x y >>= λ t'.
            set_child side y x >>= λ _. set_parent x y >>= λ _. pure t')
              s2)
        finish =
            rw (parent-ok hx2, set_parent-ok hy2 par, parent-ok hx3)
              (Returns.bind (replace_child-Hole t s3 {x = x} y fs hole3 placed.apart_path nx x_off)
                λ t' s4 (nil', size', hole4, calls4, same4).
                  last_stores t' s4 nil' size' hole4 calls4 same4)

      turned : Returns Turned (rotate side t x s)
      unfolding rotate
      turned =
          rw (far-ok hx, near-ok hy, set_far-ok hx b, near-ok hy1)
            (Returns.bind (adopt t s1 {x = x} {y = y} B rb1 facts.all.1)
              λ _ s2 (rb2, calls2, same2). finish s2 rb2 calls2 same2)

    -- At a place where a node `x` has a child `y` on the side that goes up, a rotation does its
    -- work.
    pub rotate-Turned : Returns Turned (rotate side t x s)
    rotate-Turned = go (Rep-At side placed.tree)
      where
        go : At s t.nil side par x A x ex (mk side B y ey C) → Returns Turned (rotate side t x s)
        go (at a q e hx nx ra rest) = below (Rep-At side rest)
          where
            below : At s t.nil side x q B y ey C → Returns Turned (rotate side t x s)
            below (at b c e' hy ny rb rc) = turned a b c (rw e' at hx) hy nx ny ra rb rc
