-- ===== src/Rbt/Round.antt =====
-- A round of the loop of `smp_insert_fixup`, below a red node: a red node two steps up, or the end.
use mathlib.Core.Path.{subst}
use smpcil.Base.{
  ◌++◌, Bool, true, false, ◌≡◌, refl, sym, ◌∙◌, ap, ◌⊎◌, inl, inr, List, [], ◌∷◌, Ptr,
  if◌then◌else◌,
}
use smpcil.Store.{Store, ◌>>=◌}
use smpcil.Store.Returns
use smpcil.Store.Returns.{Returns, returns}
use smpcil.Rbt.{Rnode, Rbt, Side, on_left, on_right, other, red, black, red?, color_of}
use smpcil.Rbt.Fixup.{recolor, insert_rotate, insert_fix, insert_round}
use smpcil.Rbt.Rep.{Tree, leaf, branch, Entry, in_order, Rep, full}
use smpcil.Rbt.Place.{mk, Step, plug, in_order-mk, Hole, top}
use smpcil.Rbt.Zoom.{colored, Sentinel, root_color, color_of-Rep}
use smpcil.Rbt.Colors.{NoRedRed, at-NoRedRed, red_or_black, red-ne_black, root_color-mk}
use smpcil.Rbt.State.{State, outer, read, State-out, State-in, State-Read, parent_of-State}
use smpcil.Rbt.Heights.{Alike, Balanced, Balanced-recolored}
use smpcil.Rbt.Repair.{Somewhere, recolor-State}
use smpcil.Rbt.Settle.{Settled, insert_rotate-outer, insert_rotate-inner, near_of, in_order-colored}

same_or_other : (f g : Side) → (f ≡ g) ⊎ (f ≡ other g)
same_or_other on_left on_left = inl refl
same_or_other on_left on_right = inr refl
same_or_other on_right on_left = inr refl
same_or_other on_right on_right = inl refl

in_order-far :
    (side : Side) (near t t' : Tree) (p : Ptr) (e : Entry)
    → in_order t ≡ in_order t'
    → in_order (mk side near p e t) ≡ in_order (mk side near p e t')
in_order-far on_left near t t' p e same = ap (λ xs. in_order near ++ ((p, e.key) ∷ xs)) same
in_order-far on_right near t t' p e same = ap (λ xs. xs ++ ((p, e.key) ∷ in_order near)) same

mk_as :
    (d : Side) (A B : Tree) (q : Ptr) (e : Entry)
    → mk d A q e B ≡ branch (near_of d A B) q e (near_of (other d) A B)
mk_as on_left A B q e = refl
mk_as on_right A B q e = refl

module _ (owns : Ptr → Bool) (s0 : Store Rnode) (t0 : Rbt) (sentinel : Sentinel s0 t0.nil)
    (free : owns t0.nil ≡ false) where
  pub State-Sentinel :
      {s : Store Rnode} {t : Rbt} {q parent : Ptr} {T : Tree} {fs : List Step}
      → State owns s0 t0 s t q parent T fs
      → Sentinel s t.nil
  State-Sentinel {s} {t} st = rw st.nil (record {
    cell = sentinel.cell;
    there = record {
      nonnull = sentinel.there.nonnull;
      holds = st.same t0.nil free ∙ sentinel.there.holds;
    };
    is_black = sentinel.is_black;
  })

  pub State-root :
      {s : Store Rnode} {t : Rbt} {q parent : Ptr} (T : Tree) (fs : List Step)
      → State owns s0 t0 s t q parent T fs
      → State owns s0 t0 s t t.root t.nil (plug fs T) []
  State-root {s} {t} {q} {parent} T [] st = go st.placed.hole
    where
      go : Hole s t.nil t.root q parent [] → State owns s0 t0 s t t.root t.nil T []
      go (top e e') = rw e at (rw e' at st)
  State-root T (f ∷ fs) st = elim (State-out owns s0 t0 f st) [
    | outer eq st' ↦ State-root (mk f.side T f.above f.entry f.sibling) fs st'
  ]

  -- What a round leaves: a red node two steps up, or the end.
  pub data Next (fs : List Step) (T : Tree) (s : Store Rnode) (t : Rbt) (nd : Ptr) : Type 0 where
    climbed :
        (l r : Tree) (q : Ptr) (e : Entry)
        → Somewhere owns s0 t0 s t q (branch l q e r) fs
        → nd ≡ q
        → e.color ≡ red
        → NoRedRed (branch l q e r)
        → Alike (branch l q e r) T
        → Next fs T s t nd
    done : Settled owns s0 t0 fs T nd s t → Next fs T s t nd

  module _ (f g : Step) (fs : List Step) (l r : Tree) (q : Ptr) (e : Entry) (is_red : e.color ≡ red)
      (good : NoRedRed (branch l q e r)) (f_red : f.entry.color ≡ red)
      (g_black : g.entry.color ≡ black) (sib_black : root_color f.sibling ≡ black)
      (good_sib : NoRedRed f.sibling) where
    abbrev F : Tree
    F = mk f.side (branch l q e r) f.above f.entry f.sibling

    abbrev G : Tree → Tree
    G U = mk g.side F g.above g.entry U

    -- The uncle is red.
    climb_up :
        (lu ru : Tree) (u : Ptr) (eu : Entry)
        → NoRedRed (branch lu u eu ru)
        → eu.color ≡ red
        → {s : Store Rnode} {t : Rbt} {up : Ptr}
        → State owns s0 t0 s t g.above up (G (branch lu u eu ru)) fs
        → Returns
            (λ (a : Rbt × Ptr) s'. Next fs (G (branch lu u eu ru)) s' a.0 a.1)
            (recolor t q u s)
    climb_up lu ru u eu good_u u_red {s} {t} st =
        Returns.mono (recolor-State owns s0 t0 f g fs l r q e lu ru u eu st) λ a s' (at_g, place).
          let P = mk f.side (branch l q e r) f.above (colored black f.entry) f.sibling in
          let V = branch lu u (colored black eu) ru in
          let shape = mk_as g.side P V g.above (colored red g.entry) in
          let goodP : NoRedRed P =
            at-NoRedRed (branch l q e r) f.sibling f.above (colored black f.entry) f.side
              ((λ c. absurd (red-ne_black (sym c))), good, good_sib) in
          let goodV : NoRedRed V = ((λ c. absurd (red-ne_black (sym c))), good_u.1, good_u.2) in
          climbed (near_of g.side P V) (near_of (other g.side) P V) g.above (colored red g.entry)
            (rw shape at place) at_g refl
            (subst NoRedRed shape (
              at-NoRedRed P V g.above (colored red g.entry) g.side (
                (λ c. (
                  root_color-mk f.side (branch l q e r) f.sibling f.above (colored black f.entry),
                  refl,
                )),
                goodP,
                goodV,
              )))
            (record {
              order =
                  sym (ap in_order shape)
                  ∙ (in_order-colored g.side P V g.above red g.entry
                      ∙ (in_order-mk g.side P F V g.above g.entry (
                            in_order-colored f.side (branch l q e r) f.sibling f.above black
                              f.entry)
                          ∙ in_order-far g.side F V (branch lu u eu ru) g.above g.entry refl));
              height = λ h b.
                  subst (λ X. Balanced X h) shape
                    (Balanced-recolored g.side f.side (branch l q e r) f.sibling f.above f.entry
                      g.above g.entry lu ru u eu h f_red g_black u_red b);
            })

    -- The uncle is black.
    turn :
        (U : Tree)
        → NoRedRed U
        → root_color U ≡ black
        → {s : Store Rnode} {t : Rbt} {up : Ptr} → State owns s0 t0 s t g.above up (G U) fs
        → Returns (λ (a : Rbt × Ptr) s'. Next fs (G U) s' a.0 a.1) (insert_rotate g.side t q s)
    turn U goodU u_black st = elim (same_or_other f.side g.side) [
      | inl same ↦ rw same (
          Returns.mono
            (insert_rotate-outer owns s0 t0 g.side l r q e f.above f.entry f.sibling g.above g.entry
              U fs good is_red good_sib sib_black goodU u_black f_red g_black (rw same at st))
            λ a s' d. done d)
      | inr apart ↦ rw apart (
          Returns.mono
            (insert_rotate-inner owns s0 t0 g.side l r q e f.above f.entry f.sibling g.above g.entry
              U fs good is_red good_sib sib_black goodU u_black f_red g_black (rw apart at st))
            λ a s' d. done d)
    ]

    by_uncle :
        (U : Tree)
        → NoRedRed U
        → (c : Ptr) {s : Store Rnode} {t : Rbt} {up : Ptr}
        → State owns s0 t0 s t g.above up (G U) fs
        → Rep s t.nil g.above c U
        → Returns
            (λ (a : Rbt × Ptr) s'. Next fs (G U) s' a.0 a.1)
            ((color_of c >>= λ col. if red? col then recolor t q c else insert_rotate g.side t q) s)
    unfolding red?
    by_uncle leaf goodU c st rep =
        rw (color_of-Rep leaf (State-Sentinel st) rep) (turn leaf goodU refl st)
    by_uncle (branch lu u eu ru) goodU c st (full eq h n rl rr) =
        rw (color_of-Rep (branch lu u eu ru) (State-Sentinel st) (full eq h n rl rr))
          (elim (red_or_black eu.color) [
            | inl r ↦
                let test : red? eu.color ≡ true = rw r refl in
                rw (test, eq) (climb_up lu ru u eu goodU r st)
            | inr b ↦
                let test : red? eu.color ≡ false = rw b refl in
                rw test (turn (branch lu u eu ru) goodU b st)
          ])

    -- A round, from the parent and the grandparent on.
    pub fix-Next :
        NoRedRed g.sibling
        → {s : Store Rnode} {t : Rbt} {up : Ptr} → State owns s0 t0 s t g.above up (G g.sibling) fs
        → Returns (λ (a : Rbt × Ptr) s'. Next fs (G g.sibling) s' a.0 a.1) (insert_round t q s)
    unfolding insert_round insert_fix
    fix-Next goodU {s} {t} st =
        let st1 =
          State-in owns s0 t0 g.side f.side (branch l q e r) f.sibling f.above g.above f.entry
            g.entry g.sibling st in
        let st2 = State-in owns s0 t0 f.side on_left l r q f.above e f.entry f.sibling st1 in
        let p_of = parent_of-State owns s0 t0 on_left l r q e st2 in
        let g_of =
          parent_of-State owns s0 t0 f.side (branch l q e r) f.sibling f.above f.entry st1 in
        elim (State-Read owns s0 t0 g.side f.side (branch l q e r) f.sibling f.above g.above f.entry
          g.entry g.sibling st) [
            | read x c e1 e2 e3 e4 ne rep ↦
                rw (p_of, g_of, e1, e2, p_of, g_of, e4) (by_uncle g.sibling goodU c st rep)
          ]
