-- ===== src/Rbt/State.antt =====
-- What holds while smp_rbt.c works at a place: the tree stands, and only nodes of a given set have
-- changed since the start. The functions' steps, as lemmas about that.
use smpcil.Base.{
  Bool, true, false, ◌≡◌, refl, sym, ◌∙◌, some, List, ◌∷◌, arith, Ptr, ◌==◌, if◌then◌else◌,
}
use smpcil.Store.{Store, ok, poke}
use smpcil.Store.Returns
use smpcil.Store.Returns.{Returns, returns, Holds}
use smpcil.Rbt.{
  Rnode, Rbt, Side, on_left, on_right, other, Color, child_of, parent_of, set_color, rotate,
}
use smpcil.Rbt.Rep.{Tree, Entry, Rep, has, Rep-frame}
use smpcil.Rbt.Place.{
  mk, linked, Linked, near-ok, far-ok, parent-ok, has-mk, At, at, Rep-At, At-Rep, Linked-store,
  Apart-at, at-Apart, Step, on_path, Hole-frame, Placed,
}
use smpcil.Rbt.Steps.{poke-other, has-ne, on_path-ne, root-ne}
use smpcil.Rbt.Turn.{before, after}
use smpcil.Rbt.Rotate.{rotate-Turned, before_of_after}
use smpcil.Rbt.Zoom.{colored, Out, out, zoom-Out, zoom_in, set_color-ok}

pub misses_too : (x y : Bool) → (x ≡ true → y ≡ true) → y ≡ false → x ≡ false
misses_too false y f e = refl
misses_too true y f e = sym (f refl) ∙ e

module _ (owns : Ptr → Bool) (s0 : Store Rnode) (t0 : Rbt) where
  pub record State (s : Store Rnode) (t : Rbt) (q parent : Ptr) (T : Tree) (fs : List Step)
      : Type 0 where
    pub placed : Placed s t q parent T fs
    pub owns_tree : (a : Ptr) → has a T ≡ true → owns a ≡ true
    pub owns_path : (a : Ptr) → on_path a fs ≡ true → owns a ≡ true
    pub nil : t.nil ≡ t0.nil
    pub size : t.size ≡ t0.size
    pub calls : s.calls ≡ s0.calls
    pub same : (a : Ptr) → owns a ≡ false → s.heap a ≡ s0.heap a

  pub data Outer (s : Store Rnode) (t : Rbt) (parent : Ptr) (T : Tree) (f : Step) (fs : List Step)
      : Type 0 where
    outer :
        {up : Ptr}
        → parent ≡ f.above
        → State s t f.above up (mk f.side T f.above f.entry f.sibling) fs
        → Outer s t parent T f fs

  pub data Painted (c : Color) (side : Side) (s : Store Rnode) (t : Rbt) (x parent : Ptr)
      (near : Tree) (e : Entry) (far : Tree) (fs : List Step) : Type 0 where
    painted :
        (s' : Store Rnode)
        → set_color x c s ≡ ok tt s'
        → State s' t x parent (mk side near x (colored c e) far) fs
        → Painted c side s t x parent near e far fs

  -- What the reads of a node give, whose child on that side is `y`.
  pub data Read (side : Side) (s : Store Rnode) (t : Rbt) (x y : Ptr) (far : Tree) : Type 0 where
    read :
        (l c : Ptr)
        → child_of on_left x s ≡ ok l s
        → (if y == l then on_left else on_right) ≡ side
        → child_of side x s ≡ ok y s
        → child_of (other side) x s ≡ ok c s
        → (y == c) ≡ false
        → Rep s t.nil x c far
        → Read side s t x y far

  links :
      (side : Side) {s : Store Rnode} {t : Rbt} {x y u c : Ptr} {e : Entry} {far : Tree}
      → Linked s side x u y c e
      → (y == c) ≡ false
      → Rep s t.nil x c far
      → Read side s t x y far
  links on_left {y} {c} h ne rf =
      let same : (y == y) ≡ true = ground arith in
      read y c (near-ok h) (rw same refl) (near-ok h) (far-ok h) ne rf
  links on_right {y} {c} h ne rf = read c c (far-ok h) (rw ne refl) (near-ok h) (far-ok h) ne rf

  module _ {s : Store Rnode} {t : Rbt} where
    pub State-out :
        {q parent : Ptr} {T : Tree} (f : Step) {fs : List Step}
        → State s t q parent T (f ∷ fs)
        → Outer s t parent T f fs
    State-out {q} {parent} {T} f {fs} st = go (zoom-Out f st.placed)
      where
        go : Out s t q parent T f fs → Outer s t parent T f fs
        go (out e h sib n p) = outer e (record {
          placed = p;
          owns_tree = λ a i.
              ground (
                arith,
                st.owns_tree a,
                st.owns_path a,
                has-mk a f.side T f.sibling f.above f.entry,
              );
          owns_path = λ a i. st.owns_path a (ground arith);
          nil = st.nil;
          size = st.size;
          calls = st.calls;
          same = st.same;
        })

    module _ (side d : Side) (n f : Tree) (y x : Ptr) (e' e : Entry) (far : Tree) {parent : Ptr}
        {fs : List Step} (st : State s t x parent (mk side (mk d n y e' f) x e far) fs) where
      abbrev near : Tree
      near = mk d n y e' f

      abbrev step : Step
      step = record { side = side; above = x; entry = e; sibling = far }

      pub State-in : State s t y x near (step ∷ fs)
      State-in = go (Rep-At side st.placed.tree)
        where
          go : At s t.nil side parent x near x e far → State s t y x near (step ∷ fs)
          go (at a b e1 h ne rn rf) = below (Rep-At d rn)
            where
              below : At s t.nil d x a n y e' f → State s t y x near (step ∷ fs)
              below (at a' b' e2 h' ne' rn' rf') = record {
                placed = rw e2 at (zoom_in side near x e far st.placed h ne rn rf);
                owns_tree = λ a i. st.owns_tree a (ground (arith, has-mk a side near far x e));
                owns_path = λ a i.
                    ground (arith, st.owns_tree a, st.owns_path a, has-mk a side near far x e);
                nil = st.nil;
                size = st.size;
                calls = st.calls;
                same = st.same;
              }

      pub State-Read : Read side s t x y far
      State-Read = go (Rep-At side st.placed.tree)
        where
          go : At s t.nil side parent x near x e far → Read side s t x y far
          go (at a b e1 h ne rn rf) = below (Rep-At d rn)
            where
              below : At s t.nil d x a n y e' f → Read side s t x y far
              below (at a' b' e2 h' ne' rn' rf') =
                  let (o1, o2, sep, an, af) = Apart-at near far x e side st.placed.apart in
                  let out_far : has y far ≡ false = sep y (rw has-mk (ground arith)) in
                  links side (rw e2 at h) (root-ne y rf ne' out_far) rf

    pub parent_of-State :
        (side : Side) (near far : Tree) (x : Ptr) (e : Entry) {parent : Ptr} {fs : List Step}
        → State s t x parent (mk side near x e far) fs
        → parent_of x s ≡ ok parent s
    parent_of-State side near far x e {parent} st = go (Rep-At side st.placed.tree)
      where
        go : At s t.nil side parent x near x e far → parent_of x s ≡ ok parent s
        go (at a b e1 h ne rn rf) = parent-ok h

    pub set_color-State :
        (c : Color) (side : Side) (near far : Tree) (x : Ptr) (e : Entry) {parent : Ptr}
        {fs : List Step}
        → State s t x parent (mk side near x e far) fs
        → Painted c side s t x parent near e far fs
    set_color-State c side near far x e {parent} {fs} st = go (Rep-At side st.placed.tree)
      where
        go : At s t.nil side parent x near x e far → Painted c side s t x parent near e far fs
        go (at a b e1 h ne rn rf) =
            let e' = colored c e in
            let m = some (linked side parent a b e') in
            let (o1, o2, sep, an, af) = Apart-at near far x e side st.placed.apart in
            let same_has = λ (a : Ptr). has-mk a side near far x e' in
            let had = λ (a : Ptr). has-mk a side near far x e in
            let off : on_path x fs ≡ false = st.placed.separate x (rw has-mk (ground arith)) in
            painted (poke x m s) (set_color-ok h c) (record {
              placed = record {
                tree = At-Rep side (
                    at a b refl (Linked-store h e') ne
                      (Rep-frame rn λ d i. poke-other s x d m (has-ne d x near i o1))
                      (Rep-frame rf λ d i. poke-other s x d m (has-ne d x far i o2)));
                hole =
                    Hole-frame st.placed.hole λ d i. poke-other s x d m (on_path-ne d x fs i off);
                apart = at-Apart near far x e' side (o1, o2, sep, an, af);
                apart_path = st.placed.apart_path;
                separate = λ d i. st.placed.separate d (ground (arith, same_has d, had d));
              };
              owns_tree = λ d i. st.owns_tree d (ground (arith, same_has d, had d));
              owns_path = st.owns_path;
              nil = st.nil;
              size = st.size;
              calls = st.calls;
              same =
                  λ d o. poke-other s x d m (ground (arith, st.owns_tree x, had x)) ∙ st.same d o;
            })

    pub rotate-State :
        (side : Side) (x y : Ptr) (ex ey : Entry) (A B C : Tree) {parent : Ptr} {fs : List Step}
        → State s t x parent (before side x y ex ey A B C) fs
        → Returns
            (λ t' s'. State s' t' y parent (after side x y ex ey A B C) fs)
            (rotate side t x s)
    rotate-State side x y ex ey A B C {fs} st =
        Returns.mono (rotate-Turned side x y ex ey A B C t s fs st.placed) λ t' s' turned. record {
          placed = turned.placed_after;
          owns_tree =
              λ a i. st.owns_tree a (before_of_after side x y ex ey A B C t s fs st.placed a i);
          owns_path = st.owns_path;
          nil = turned.nil ∙ st.nil;
          size = turned.size ∙ st.size;
          calls = turned.calls ∙ st.calls;
          same = λ a o.
              turned.same a (misses_too _ _ (st.owns_tree a) o) (misses_too _ _ (st.owns_path a) o)
              ∙ st.same a o;
        }
