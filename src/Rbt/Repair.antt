-- ===== src/Rbt/Repair.antt =====
-- `smp_insert_fixup` at a place with a red node.
use smpcil.Base.{Bool, ◌≡◌, refl, sym, List, Ptr}
use smpcil.Store.{Store}
use smpcil.Store.Returns.{Returns, returns}
use smpcil.Rbt.{Rnode, Rbt, Side, on_left, on_right, other, Color, red, black}
use smpcil.Rbt.Fixup.{recolor}
use smpcil.Rbt.Rep.{Tree, branch, Entry}
use smpcil.Rbt.Place.{mk, Step}
use smpcil.Rbt.Zoom.{colored}
use smpcil.Rbt.State.{State, outer, painted, State-out, State-in, parent_of-State, set_color-State}

pub mk-other :
    (side : Side) (near far : Tree) (p : Ptr) (e : Entry)
    → mk (other side) far p e near ≡ mk side near p e far
mk-other on_left near far p e = refl
mk-other on_right near far p e = refl

other-other : (side : Side) → other (other side) ≡ side
other-other on_left = refl
other-other on_right = refl

module _ (owns : Ptr → Bool) (s0 : Store Rnode) (t0 : Rbt) where
  -- The place, below some node.
  pub data Somewhere (s : Store Rnode) (t : Rbt) (q : Ptr) (T : Tree) (fs : List Step)
      : Type 0 where
    somewhere : {parent : Ptr} → State owns s0 t0 s t q parent T fs → Somewhere s t q T fs

  -- The parent and the uncle are red: both get black, the grandparent red.
  module _ (f g : Step) (fs : List Step) (l r : Tree) (q : Ptr) (e : Entry) (lu ru : Tree) (u : Ptr)
      (eu : Entry) where
    abbrev node : Tree
    node = branch l q e r

    -- the uncle, the parent and the grandparent, in colors
    abbrev uncle : Color → Tree
    uncle c = branch lu u (colored c eu) ru

    abbrev parent : Color → Tree
    parent c = mk f.side node f.above (colored c f.entry) f.sibling

    abbrev grand : Tree → Color → Tree → Tree
    grand p c t = mk g.side p g.above (colored c g.entry) t

    pub recolor-State :
        {s : Store Rnode} {t : Rbt} {up : Ptr}
        → State owns s0 t0 s t g.above up
            (mk g.side
              (mk f.side node f.above f.entry f.sibling)
              g.above
              g.entry
              (branch lu u eu ru))
            fs
        → Returns
            (λ a s'.
              (a.1 ≡ g.above)
              × Somewhere s' a.0 g.above (grand (parent black) red (uncle black)) fs)
            (recolor t q u s)
    unfolding recolor
    recolor-State {s} {t} st =
        let F = mk f.side node f.above f.entry f.sibling in
        let st1 =
          State-in owns s0 t0 g.side f.side node f.sibling f.above g.above f.entry g.entry
            (branch lu u eu ru) st in
        let st2 = State-in owns s0 t0 f.side on_left l r q f.above e f.entry f.sibling st1 in
        let p_of = parent_of-State owns s0 t0 on_left l r q e st2 in
        let turned = rw (sym (mk-other g.side F (branch lu u eu ru) g.above g.entry)) at st in
        let st3 = State-in owns s0 t0 (other g.side) on_left lu ru u g.above eu g.entry F turned in
        elim (set_color-State owns s0 t0 black on_left lu ru u eu st3) [
          | painted s1 e1 st4 ↦ elim (State-out owns s0 t0 _ st4) [
            | outer eq st5 ↦
                let st6 = rw (mk-other g.side F (uncle black) g.above g.entry) at st5 in
                let st7 =
                  State-in owns s0 t0 g.side f.side node f.sibling f.above g.above f.entry g.entry
                    (uncle black) st6 in
                elim (set_color-State owns s0 t0 black f.side node f.sibling f.above f.entry st7) [
                  | painted s2 e2 st8 ↦
                      let g_of =
                        parent_of-State owns s0 t0 f.side node f.sibling f.above
                          (colored black f.entry) st8 in
                      elim (State-out owns s0 t0 _ st8) [
                        | outer eq' st9 ↦
                            elim (set_color-State owns s0 t0 red g.side (parent black) (uncle black)
                              g.above g.entry st9) [
                                | painted s3 e3 st10 ↦
                                    rw (p_of, e1, e2, g_of, e3) (returns (refl, somewhere st10))
                              ]
                      ]
                ]
          ]
        ]
