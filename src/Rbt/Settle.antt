-- ===== src/Rbt/Settle.antt =====
-- The rotations of `smp_insert_fixup`: the uncle is black, and afterwards no red node is below a
-- red one.
use smpcil.Base.{Bool, true, ◌≡◌, refl, sym, ◌∙◌, ap, List, [], ◌∷◌, arith, Ptr, ◌==◌}
use smpcil.Store.{Store, ok, ◌>>=◌, pure}
use smpcil.Store.Returns
use smpcil.Store.Returns.{Returns, returns}
use smpcil.Rbt.{
  Rnode, Rbt, Side, on_left, on_right, other, Color, red, black, color_of, parent_of, set_color,
  rotate,
}
use smpcil.Rbt.Fixup.{insert_rotate}
use smpcil.Rbt.Rep.{Tree, branch, Entry, in_order}
use smpcil.Rbt.Place.{mk, Step, in_order-mk, At, at, Rep-At}
use smpcil.Rbt.Turn.{after, in_order-after}
use smpcil.Rbt.Zoom.{colored, root_color, color_of-Linked}
use smpcil.Rbt.Colors.{NoRedRedAt, NoRedRed, at-NoRedRed, root_color-mk, red-ne_black}
use smpcil.Rbt.Heights.{Alike, Alike-trans, Alike-plug, Balanced-turned, Balanced-middle}
use smpcil.Rbt.State.{
  State, outer, painted, read, State-out, State-in, State-Read, parent_of-State, set_color-State,
  rotate-State,
}
use smpcil.Rbt.Repair.{mk-other, Somewhere, somewhere}

pub in_order-colored :
    (side : Side) (near far : Tree) (p : Ptr) (c : Color) (e : Entry)
    → in_order (mk side near p (colored c e) far) ≡ in_order (mk side near p e far)
in_order-colored on_left near far p c e = refl
in_order-colored on_right near far p c e = refl

module _ (owns : Ptr → Bool) (s0 : Store Rnode) (t0 : Rbt) where
  pub color_of-State :
      (side : Side) (near far : Tree) (x : Ptr) (e : Entry) {s : Store Rnode} {t : Rbt}
      {parent : Ptr} {fs : List Step}
      → State owns s0 t0 s t x parent (mk side near x e far) fs
      → color_of x s ≡ ok e.color s
  color_of-State side near far x e {s} {t} {parent} st = go (Rep-At side st.placed.tree)
    where
      go : At s t.nil side parent x near x e far → color_of x s ≡ ok e.color s
      go (at a b e1 h ne rn rf) = color_of-Linked h

  -- The loop is about to end at `nd`: the subtree is good, and the node above `nd` is black.
  pub data Settled (fs : List Step) (T : Tree) (nd : Ptr) (s : Store Rnode) (t : Rbt) : Type 0 where
    settled :
        (x : Ptr) (V : Tree) (p : Ptr)
        → Somewhere owns s0 t0 s t x V fs
        → Alike V T
        → NoRedRed V
        → root_color V ≡ black
        → parent_of nd s ≡ ok p s
        → color_of p s ≡ ok black s
        → Settled fs T nd s t

  pub Settled-order :
      (fs : List Step) (T T' : Tree) (nd : Ptr) (s : Store Rnode) (t : Rbt)
      → Alike T T'
      → Settled fs T nd s t
      → Settled fs T' nd s t
  Settled-order fs T T' nd s t same (settled x V p place order good is_black up color) =
      settled x V p place (Alike-trans V T T' order same) good is_black up color

  module _ (d side : Side) (l r : Tree) (q : Ptr) (e : Entry) (p : Ptr) (fe : Entry) (sib : Tree)
      (g : Ptr) (ge : Entry) (U : Tree) (fs : List Step) where
    abbrev T : Tree
    T = mk side l q e r

    abbrev origin : Tree
    origin = mk d (mk d T p fe sib) g ge U

    abbrev turned : Tree
    turned = after (other d) g p (colored red ge) (colored black fe) U sib T

    in_order-turned : in_order turned ≡ in_order origin
    in_order-turned =
        in_order-after (other d) g p (colored red ge) (colored black fe) U sib T
        ∙ (ap in_order (mk-other d (mk (other d) sib p (colored black fe) T) U g (colored red ge))
            ∙ (in_order-colored d (mk (other d) sib p (colored black fe) T) U g red ge
                ∙ in_order-mk d (mk (other d) sib p (colored black fe) T) (mk d T p fe sib) U g ge (
                    ap in_order (mk-other d T sib p (colored black fe))
                    ∙ in_order-colored d T sib p black fe)))

    module _ (goodT : NoRedRed T) (good_sib : NoRedRed sib) (sib_black : root_color sib ≡ black)
        (goodU : NoRedRed U) (u_black : root_color U ≡ black) (f_red : fe.color ≡ red)
        (g_black : ge.color ≡ black) where
      Alike-turned : Alike turned origin
      Alike-turned = record {
        order = in_order-turned;
        height = λ h b. Balanced-turned d T p fe sib g ge U h f_red g_black b;
      }

      NoRedRed-turned : NoRedRed turned
      NoRedRed-turned =
          at-NoRedRed (mk (other d) U g (colored red ge) sib) T p (colored black fe) (other d) (
            (λ c. absurd (red-ne_black (sym c))),
            at-NoRedRed U sib g (colored red ge) (other d)
                ((λ c. (u_black, sib_black)), goodU, good_sib),
            goodT,
          )

      -- The child is on the outer side: the colors, and one rotation.
      settle_outer :
          {s : Store Rnode} {t : Rbt} {up : Ptr}
          → State owns s0 t0 s t g up origin fs
          → Returns
              (λ (a : Rbt × Ptr) s'. Settled fs origin a.1 s' a.0)
              ((parent_of q >>= λ p'. set_color p' black >>= λ _. parent_of p' >>= λ g'.
                  set_color g' red >>= λ _. rotate (other d) t g' >>= λ t''. pure (t'', q))
                s)
      settle_outer {s} {t} st =
          let st1 = State-in owns s0 t0 d d T sib p g fe ge U st in
          let st2 = State-in owns s0 t0 d side l r q p e fe sib st1 in
          let p_of = parent_of-State owns s0 t0 side l r q e st2 in
          elim (set_color-State owns s0 t0 black d T sib p fe st1) [
            | painted s1 e1 st3 ↦
                let g_of = parent_of-State owns s0 t0 d T sib p (colored black fe) st3 in
                elim (State-out owns s0 t0 _ st3) [
                  | outer eq st4 ↦
                      elim (set_color-State owns s0 t0 red d (mk d T p (colored black fe) sib) U g
                        ge st4) [
                          | painted s2 e2 st5 ↦
                              let st6 =
                                rw
                                  (
                                    sym (
                                        mk-other d (mk d T p (colored black fe) sib) U g
                                          (colored red ge)),
                                    sym (mk-other d T sib p (colored black fe)),
                                  )
                                  at st5 in
                              rw (p_of, e1, g_of, e2)
                                (Returns.bind
                                  (rotate-State owns s0 t0 (other d) g p (colored red ge)
                                    (colored black fe) U sib T st6)
                                  λ t' s' st7. returns (ending st7))
                        ]
                ]
          ]
        where
          ending :
              {s' : Store Rnode} {t' : Rbt} {up : Ptr}
              → State owns s0 t0 s' t' p up turned fs
              → Settled fs origin q s' t'
          ending {s'} {t'} st7 =
              let X = mk (other d) U g (colored red ge) sib in
              let st8 = rw (sym (mk-other (other d) X T p (colored black fe))) at st7 in
              let st9 =
                State-in owns s0 t0 (other (other d)) side l r q p e (colored black fe) X st8 in
              settled p turned p (somewhere st7) Alike-turned NoRedRed-turned
                (root_color-mk (other d) X T p (colored black fe))
                (parent_of-State owns s0 t0 side l r q e st9)
                (color_of-State (other d) X T p (colored black fe) st7)

abbrev pub near_of : Side → Tree → Tree → Tree
near_of on_left l r = l
near_of on_right l r = r

as_mk :
    (d : Side) (l r : Tree) (q : Ptr) (e : Entry)
    → branch l q e r ≡ mk d (near_of d l r) q e (near_of (other d) l r)
as_mk on_left l r q e = refl
as_mk on_right l r q e = refl

NoRedRed-sides :
    (d : Side) (l r : Tree) (q : Ptr) (e : Entry)
    → NoRedRed (branch l q e r)
    → NoRedRedAt (near_of d l r) e (near_of (other d) l r)
NoRedRed-sides on_left l r q e h = h
NoRedRed-sides on_right l r q e (h, gl, gr) = ((λ c. ((h c).1, (h c).0)), gr, gl)

module _ (owns : Ptr → Bool) (s0 : Store Rnode) (t0 : Rbt) (d : Side) (l r : Tree) (q : Ptr)
    (e : Entry) (p : Ptr) (fe : Entry) (sib : Tree) (g : Ptr) (ge : Entry) (U : Tree)
    (fs : List Step) (good : NoRedRed (branch l q e r)) (is_red : e.color ≡ red)
    (good_sib : NoRedRed sib) (sib_black : root_color sib ≡ black) (goodU : NoRedRed U)
    (u_black : root_color U ≡ black) (f_red : fe.color ≡ red) (g_black : ge.color ≡ black) where
  -- `nd` is the outer child.
  pub insert_rotate-outer :
      {s : Store Rnode} {t : Rbt} {up : Ptr}
      → State owns s0 t0 s t g up (mk d (mk d (branch l q e r) p fe sib) g ge U) fs
      → Returns
          (λ (a : Rbt × Ptr) s'.
            Settled owns s0 t0 fs (mk d (mk d (branch l q e r) p fe sib) g ge U) a.1 s' a.0)
          (insert_rotate d t q s)
  unfolding insert_rotate
  insert_rotate-outer {s} {t} st =
      let st1 = State-in owns s0 t0 d d (branch l q e r) sib p g fe ge U st in
      let st2 = State-in owns s0 t0 d on_left l r q p e fe sib st1 in
      let p_of = parent_of-State owns s0 t0 on_left l r q e st2 in
      elim (State-Read owns s0 t0 d on_left l r q p e fe sib st1) [
        | read x c e1 e2 e3 e4 ne rep ↦
            rw (p_of, e4, ne)
              (settle_outer owns s0 t0 d on_left l r q e p fe sib g ge U fs good good_sib sib_black
                goodU u_black f_red g_black st)
      ]

  abbrev B : Tree
  B = near_of d l r

  abbrev C : Tree
  C = near_of (other d) l r

  abbrev step : Step
  step = record { side = d; above = g; entry = ge; sibling = U }

  abbrev middle : Tree
  middle = after d p q fe e sib B C

  parts : NoRedRedAt B e C
  parts = NoRedRed-sides d l r q e good

  order : in_order middle ≡ in_order (mk (other d) (branch l q e r) p fe sib)
  order =
      in_order-after d p q fe e sib B C
      ∙ ap in_order (
          ap (λ X. mk d sib p fe X) (sym (as_mk d l r q e))
          ∙ sym (mk-other d sib (branch l q e r) p fe))

  Alike-middle : Alike middle (mk (other d) (branch l q e r) p fe sib)
  Alike-middle = record {
    order = order;
    height = λ h b. Balanced-middle d B C q e p fe sib h f_red is_red (rw (as_mk d l r q e) at b);
  }

  -- `nd` is the inner child.
  pub insert_rotate-inner :
      {s : Store Rnode} {t : Rbt} {up : Ptr}
      → State owns s0 t0 s t g up (mk d (mk (other d) (branch l q e r) p fe sib) g ge U) fs
      → Returns
          (λ (a : Rbt × Ptr) s'.
            Settled owns s0 t0 fs (mk d (mk (other d) (branch l q e r) p fe sib) g ge U) a.1 s' a.0)
          (insert_rotate d t q s)
  unfolding insert_rotate
  insert_rotate-inner {s} {t} st =
      let st1 = State-in owns s0 t0 d (other d) (branch l q e r) sib p g fe ge U st in
      let st2 = State-in owns s0 t0 (other d) on_left l r q p e fe sib st1 in
      let p_of = parent_of-State owns s0 t0 on_left l r q e st2 in
      let same : (q == q) ≡ true = ground arith in
      elim (State-Read owns s0 t0 (other d) on_left l r q p e fe sib st1) [
        | read x c e1 e2 e3 e4 ne rep ↦
            rw (p_of, e3, same)
              (Returns.bind
                {P = λ (a : Rbt × Ptr) s'.
                  (a.1 ≡ p) × Somewhere owns s0 t0 s' a.0 q middle (step ∷ fs)}
                (Returns.bind
                  (rotate-State owns s0 t0 d p q fe e sib B C
                    (rw (as_mk d l r q e) at (rw (mk-other d sib (branch l q e r) p fe) at st1)))
                  λ t' s' st'. returns (refl, somewhere st'))
                λ a s' (at_p, place). elim place [
                  | somewhere st3 ↦ elim (State-out owns s0 t0 step st3) [
                    | outer eq st4 ↦ rw at_p (
                        Returns.mono
                          (settle_outer owns s0 t0 d d sib B p fe q e C g ge U fs
                            (at-NoRedRed sib B p fe d
                              ((λ c. (sib_black, (parts.0 is_red).0)), good_sib, parts.1))
                            parts.2 ((parts.0 is_red).1) goodU u_black is_red g_black st4)
                          λ a' s'' done.
                            Settled-order owns s0 t0 fs _ _ a'.1 s'' a'.0
                              (Alike-plug (step ∷ []) middle
                                (mk (other d) (branch l q e r) p fe sib) Alike-middle)
                              done)
                  ]
                ])
      ]
