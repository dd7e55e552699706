-- ===== src/Rbt/Insert.antt =====
-- `smp_rnode_insert` as a whole.
use smpcil.Base.{
  ◌+◌, ◌≤◌, ◌<◌, Bool, true, false, ◌||◌, ◌≡◌, ◌≢◌, refl, sym, ◌∙◌, ap, some, List, [], ◌∷◌, ◌++◌,
  arith, Ptr, Status, smp_ok, ◌==◌, length, ℤ, size_mod, inc64, All-map,
}
use smpcil.Store.{Store, ok, poke, ◌>>=◌, ◌>>◌, pure}
use smpcil.Store.Returns
use smpcil.Store.Returns.{
  Returns, returns, Holds, load-ok, not_null, modify-ok, Holds-poke_self, Holds-poke_other,
}
use smpcil.Rbt.{Rnode, Rbt, on_left, on_right, red, black, set_parent, set_child, set_color}
use smpcil.Rbt.Fixup.{insert_fixup}
use smpcil.Rbt.Ops.{rnode_insert}
use smpcil.Rbt.Rep.{
  Tree, leaf, branch, Entry, count, in_order, Rep, empty, full, has, IsTree, Preorder, IsOrdered,
  node,
}
use smpcil.Rbt.Place.{Apart, Step, plug, on_path, Hole, top, Hole-frame, Placed}
use smpcil.Rbt.Steps.{poke-other, on_path-ne}
use smpcil.Rbt.Zoom.{colored, Sentinel, root_color}
use smpcil.Rbt.Colors.{NoRedRed, red-ne_black}
use smpcil.Rbt.State.{State, misses_too, painted, set_color-State}
use smpcil.Rbt.Loop.{Repaired, repaired, insert_loop-Repaired}
use smpcil.Rbt.Round.{State-Sentinel}
use smpcil.Rbt.Heights.{HasHeight, blackened-HasHeight, grown-HasHeight}
use smpcil.Rbt.Sorted.{Total, Sorted, IsOrdered-Sorted, Sorted-IsOrdered, Sorted-insert}
use smpcil.Rbt.Descend.{
  nodes_before, nodes_behind, in_order-split, AllUpTo, AllOver, Way, descended, descend-Descended,
}
use smpcil.Rbt.Link.{link_below-Hole, has-plug_path, has-nil, nothing, grows}

-- A tree of the store, without a red node below a red one, with as many black nodes on every way
-- down, a black root and a black sentinel.
pub record IsRedBlack (s : Store Rnode) (rbt : Rbt) (T : Tree) : Type 0 where
  pub tree : IsTree s rbt T
  pub apart : Apart T
  pub good : NoRedRed T
  pub balanced : HasHeight T
  pub top_black : root_color T ≡ black
  pub sentinel : Sentinel s rbt.nil

module _ (key_cmp : Ptr → Ptr → ℤ) (laws : Preorder key_cmp) where
  -- The node stands in the tree, behind the keys that are not above its own.
  pub data Inserted (s : Store Rnode) (rbt : Rbt) (T : Tree) (nd key : Ptr) (r : Status × Rbt)
      (s' : Store Rnode) : Type 0 where
    inserted :
        (T' : Tree) (before behind : List (Ptr × Ptr))
        → r.0 ≡ smp_ok
        → IsRedBlack s' r.1 T'
        → IsOrdered key_cmp T'
        → in_order T ≡ before ++ behind
        → in_order T' ≡ before ++ ((nd, key) ∷ behind)
        → AllUpTo key_cmp laws key before
        → AllOver key_cmp laws key behind
        → r.1.nil ≡ rbt.nil
        → s'.calls ≡ s.calls
        → ((a : Ptr) → has a T ≡ false → (a == nd) ≡ false → s'.heap a ≡ s.heap a)
        → Inserted s rbt T nd key r s'

  module _ (total : Total key_cmp) {s : Store Rnode} {T : Tree} (rbt : Rbt)
      (is : IsRedBlack s rbt T) (ordered : IsOrdered key_cmp T) {nd : Ptr} {n : Rnode}
      (here : Holds s nd n) (out : has nd T ≡ false) (apart_nil : nd ≢ rbt.nil)
      (small : count T + 1 < size_mod) where
    abbrev owns : Ptr → Bool
    owns a = (a == nd) || has a T

    free : owns rbt.nil ≡ false
    free = ground (arith, has-nil is.tree.tree, apart_nil)

    way : Way key_cmp laws n.key [] T
    way = record {
      by_key = tt;
      up_to = tt;
      over = tt;
      path = tt;
      top_black = tt;
      top_is = is.top_black;
      joint = λ c. is.top_black;
      good = is.good;
      ordered = ordered;
    }

    placed : Placed s rbt rbt.root rbt.nil T []
    placed = record {
      tree = is.tree.tree;
      hole = top refl refl;
      apart = is.apart;
      apart_path = tt;
      separate = λ a i. refl;
    }

    on_tree : (fs : List Step) → plug fs leaf ≡ T → (a : Ptr) → on_path a fs ≡ true → has a T ≡ true
    on_tree fs whole a i = rw whole at (has-plug_path a fs leaf (ground arith))

    off_path : (fs : List Step) → plug fs leaf ≡ T → on_path nd fs ≡ false
    off_path fs whole = misses_too (on_path nd fs) (has nd T) (on_tree fs whole nd) out

    -- The new node, red and without children, at the end of the way.
    attached :
        {s' : Store Rnode} {t : Rbt} {c tmp : Ptr} (e : Entry) (fs : List Step)
        → plug fs leaf ≡ T
        → Placed s rbt c tmp leaf fs
        → t.nil ≡ rbt.nil
        → t.size ≡ rbt.size
        → Hole s' rbt.nil t.root nd tmp fs
        → Holds s' nd (node tmp rbt.nil rbt.nil e)
        → s'.calls ≡ s.calls
        → ((a : Ptr) → owns a ≡ false → s'.heap a ≡ s.heap a)
        → State owns s rbt s' t nd tmp (branch leaf nd e leaf) fs
    attached e fs whole place same_nil same_size hole there calls same = record {
      placed = rw same_nil (record {
        tree = full refl there apart_nil (empty refl) (empty refl);
        hole = hole;
        apart = (refl, refl, (λ a i. refl), tt, tt);
        apart_path = place.apart_path;
        separate = λ a i. ground (arith, off_path fs whole);
      });
      owns_tree = λ a i. ground arith;
      owns_path = λ a i. ground (arith, on_tree fs whole a);
      nil = same_nil;
      size = same_size;
      calls = calls;
      same = same;
    }

    was : (fs : List Step) → plug fs leaf ≡ T → in_order T ≡ nodes_before fs ++ nodes_behind fs
    was fs whole = ap in_order (sym whole) ∙ in_order-split fs leaf

    -- The tree at the end gets a black root, and the size goes up.
    finish :
        {s' : Store Rnode} {t : Rbt} (fs : List Step) (e : Entry)
        → plug fs leaf ≡ T
        → Way key_cmp laws n.key fs leaf
        → e.key ≡ n.key
        → e.color ≡ red
        → Repaired owns s rbt is.sentinel free (plug fs (branch leaf nd e leaf)) s' t
        → Returns
            (λ (a : Rbt) s''.
              Inserted s rbt T nd n.key (smp_ok, record a { size = inc64 a.size }) s'')
            ((do set_color t.root black; pure t) s')
    finish {s'} {t} fs e whole way' is_key is_red (repaired leaf st alike good) = absurd (
        nothing (nodes_before fs) (nodes_behind fs) (nd, e.key)
          (alike.order ∙ in_order-split fs (branch leaf nd e leaf)))
    finish {s'} {t} fs e whole way' is_key is_red (repaired (branch l q eq r) st alike good) =
        go st.placed.tree
      where
        T' : Tree
        T' = branch l q (colored black eq) r

        ends : in_order (branch l q eq r) ≡ nodes_before fs ++ ((nd, n.key) ∷ nodes_behind fs)
        ends = rw (sym is_key) (alike.order ∙ in_order-split fs (branch leaf nd e leaf))

        grown : count T' ≡ count T + 1
        grown = grows T T' (nodes_before fs) (nodes_behind fs) (nd, n.key) (was fs whole) ends

        high : HasHeight (branch l q eq r)
        high =
            let before = grown-HasHeight fs nd e is_red (rw whole is.balanced) in
            record { height = before.height; balanced = alike.height before.height before.balanced }

        sorted : Sorted key_cmp laws (in_order T')
        sorted = rw ends (
            Sorted-insert key_cmp laws (nd, n.key) (nodes_before fs) (nodes_behind fs)
              (rw (was fs whole) at (IsOrdered-Sorted key_cmp laws T ordered)) way'.up_to
              (All-map (nodes_behind fs) (λ y gt. total.backwards y.1 n.key gt) way'.over))

        sized : inc64 t.size ≡ count T'
        sized = omega (arith, is.tree.sized, st.size, grown, small)

        go :
            Rep s' t.nil t.nil t.root (branch l q eq r)
            → Returns
                (λ (a : Rbt) s''.
                  Inserted s rbt T nd n.key (smp_ok, record a { size = inc64 a.size }) s'')
                ((do set_color t.root black; pure t) s')
        go (full at' h ne rl rr) =
            elim (set_color-State owns s rbt black on_left l r q eq (rw at' at st)) [
              | painted s1 e1 st1 ↦
                  let e2 : set_color t.root black s' ≡ ok tt s1 = rw at' e1 in
                  rw e2 (
                    returns (
                      inserted T' (nodes_before fs) (nodes_behind fs) refl
                        (record {
                          tree = record { tree = rw at' st1.placed.tree; sized = sized };
                          apart = st1.placed.apart;
                          good = ((λ c. absurd (red-ne_black (sym c))), good.1, good.2);
                          balanced = blackened-HasHeight l r q eq high;
                          top_black = refl;
                          sentinel = State-Sentinel owns s rbt is.sentinel free st1;
                        })
                        (Sorted-IsOrdered key_cmp laws T' sorted) (was fs whole) ends way'.up_to
                        way'.over st1.nil st1.calls (λ a o ne'. st1.same a (ground arith))))
            ]

    -- The stores to the new node, and the fixup.
    hang_on :
        {s' : Store Rnode} {t : Rbt} {c tmp : Ptr} (fs : List Step)
        → plug fs leaf ≡ T
        → Way key_cmp laws n.key fs leaf
        → length fs ≤ count T
        → Placed s rbt c tmp leaf fs
        → t.nil ≡ rbt.nil
        → t.size ≡ rbt.size
        → Hole s' rbt.nil t.root nd tmp fs
        → Holds s' nd (record n { parent = tmp })
        → s'.calls ≡ s.calls
        → ((a : Ptr) → owns a ≡ false → s'.heap a ≡ s.heap a)
        → Returns (Inserted s rbt T nd n.key) (
            (do
              set_child on_right nd rbt.nil
              set_child on_left nd rbt.nil
              set_color nd red
              t'' ← insert_fixup (rbt.size + 1) t nd
              pure (smp_ok, record t'' { size = inc64 t''.size }))
              s')
    unfolding set_child set_color insert_fixup
    hang_on {s'} {t} {tmp} fs whole way' len place same_nil same_size hole h2 calls same =
        let m : Rnode = record n { parent = tmp } in
        let e : Entry = record { key = m.key; carrier = m.carrier; color = red } in
        let n2 : Rnode = record m { right = rbt.nil } in
        let n3 : Rnode = record n2 { left = rbt.nil } in
        let n4 : Rnode = record n3 { color = red } in
        let h3 = Holds-poke_self h2 n2 in
        let h4 = Holds-poke_self h3 n3 in
        let h5 = Holds-poke_self h4 n4 in
        let s3 = poke nd (some n2) s' in
        let s4 = poke nd (some n3) s3 in
        let s5 = poke nd (some n4) s4 in
        let frame : (a : Ptr) → (a == nd) ≡ false → s5.heap a ≡ s'.heap a = λ a ne.
          poke-other s4 nd a (some n4) ne
          ∙ (poke-other s3 nd a (some n3) ne ∙ poke-other s' nd a (some n2) ne) in
        let st : State owns s rbt s5 t nd tmp (branch leaf nd e leaf) fs =
          attached e fs whole place same_nil same_size
            (Hole-frame hole (λ a i. frame a (on_path-ne a nd fs i (off_path fs whole)))) h5 calls
            (λ a o. frame a (ground arith) ∙ same a o) in
        rw (modify-ok h2, modify-ok h3, modify-ok h4)
          (Returns.bind
            (Returns.bind
              (insert_loop-Repaired owns s rbt is.sentinel free (rbt.size + 1) leaf leaf nd e fs s5
                t tmp st refl ((λ c. (refl, refl)), tt, tt) way'.path way'.top_black
                (omega (arith, is.tree.sized)))
              (λ t' s6 rep. finish fs e whole way' refl refl rep))
            (λ t' s7 ins. returns ins))

    -- `smp_rnode_insert` of a node outside a red-black tree ends with `smp_ok` and leaves a
    -- red-black tree: keys in order, a black root, no red node below a red one, and as many black
    -- nodes on every way down. The node stands in it behind the nodes whose keys are not above its
    -- own, and before all others, whose order is kept; the size goes up by one, and no cell but the
    -- tree's and the node's changes. The comparison is a total preorder, and the size stays below
    -- 2^64.
    pub rnode_insert-Inserted : Returns (Inserted s rbt T nd n.key) (rnode_insert key_cmp rbt nd s)
    unfolding rnode_insert set_parent
    rnode_insert-Inserted =
        elim (descend-Descended key_cmp laws n.key here refl (rbt.size + 1) {t = rbt} T placed way
          (omega (arith, is.tree.sized))) [
            | descended c tmp fs e place whole way' len ↦
                let m : Rnode = record n { parent = tmp } in
                let s1 = poke nd (some m) s in
                let h1 = Holds-poke_self here m in
                let frame : (a : Ptr) → (a == nd) ≡ false → s1.heap a ≡ s.heap a =
                  λ a ne. poke-other s nd a (some m) ne in
                let hole1 =
                  Hole-frame place.hole
                    (λ a i. frame a (on_path-ne a nd fs i (off_path fs whole))) in
                rw (not_null here, e, modify-ok here)
                  (Returns.bind
                    (link_below-Hole key_cmp laws n.key rbt s1 fs hole1 place.apart_path way'.by_key
                      h1 refl)
                    λ t' s2 (same_nil, same_size, hole2, calls, same).
                      hang_on fs whole way' len place same_nil same_size hole2
                        (record {
                          nonnull = here.nonnull;
                          holds = same nd (off_path fs whole) ∙ h1.holds;
                        })
                        calls
                        (λ a o.
                          same a (
                            misses_too (on_path a fs) (owns a)
                              (λ i. ground (arith, on_tree fs whole a i)) o)
                          ∙ frame a (ground arith)))
          ]
