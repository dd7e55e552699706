-- ===== src/Rbt/Loop.antt =====
-- The loop of `smp_insert_fixup`: it ends, and leaves a tree in the same order where no red node is
-- below a red one.
use smpcil.Base.{
  ◌+◌, ℕ, zero, suc, ◌<◌, Bool, true, false, ◌≡◌, refl, sym, ◌∙◌, inl, inr, List, [], ◌∷◌, arith,
  Ptr, length,
}
use smpcil.Store.{Store, ◌>>=◌}
use smpcil.Store.Returns
use smpcil.Store.Returns.{Returns, returns}
use smpcil.Rbt.{Rnode, Rbt, on_left, Color, red, red?}
use smpcil.Rbt.Fixup.{insert_round, insert_loop}
use smpcil.Rbt.Rep.{Tree, leaf, branch, Entry, empty}
use smpcil.Rbt.Place.{mk, Step, plug, Hole, top}
use smpcil.Rbt.Zoom.{Sentinel, color_of-Rep}
use smpcil.Rbt.Colors.{NoRedRed, GoodPath, TopBlack, red_or_black, red-ne_black, NoRedRed-plug}
use smpcil.Rbt.State.{State, outer, State-out, parent_of-State}
use smpcil.Rbt.Heights.{Alike, Alike-refl, Alike-trans, Alike-plug}
use smpcil.Rbt.Repair.{somewhere}
use smpcil.Rbt.Settle.{Settled, settled, color_of-State}
use smpcil.Rbt.Round.{State-root, Next, climbed, done, fix-Next, State-Sentinel}

module _ (owns : Ptr → Bool) (s0 : Store Rnode) (t0 : Rbt) (sentinel : Sentinel s0 t0.nil)
    (free : owns t0.nil ≡ false) where
  -- The tree at the end: all of it stands, and it is like `whole`.
  pub data Repaired (whole : Tree) (s : Store Rnode) (t : Rbt) : Type 0 where
    repaired :
        (T : Tree)
        → State owns s0 t0 s t t.root t.nil T []
        → Alike T whole
        → NoRedRed T
        → Repaired whole s t

  Repaired-trans :
      (T T' : Tree) (s : Store Rnode) (t : Rbt) → Alike T T' → Repaired T s t → Repaired T' s t
  Repaired-trans T T' s t same (repaired V st order good) =
      repaired V st (Alike-trans V T T' order same) good

  -- The end, from where a round has settled.
  Settled-ends :
      (k : ℕ) (fs : List Step) (T : Tree) (nd : Ptr) (s : Store Rnode) (t : Rbt)
      → 0 < k
      → GoodPath fs
      → Settled owns s0 t0 fs T nd s t
      → Returns (λ t' s'. Repaired (plug fs T) s' t') (insert_loop k t nd s)
  unfolding insert_loop red?
  Settled-ends zero fs T nd s t more path st = absurd (omega arith)
  Settled-ends (suc k) fs T nd s t more path
        (settled x V p (somewhere st) order good is_black up color) =
      rw (up, color)
        (returns (
          repaired (plug fs V) (State-root owns s0 t0 sentinel free V fs st)
            (Alike-plug fs V T order) (NoRedRed-plug fs V path good (λ c. is_black))))

  path_color-red : (c : Color) → (c ≡ red) → red? c ≡ true
  unfolding red?
  path_color-red c r = rw r refl

  -- What the loop does on `k` rounds from a red node `q`.
  abbrev LoopRepairs : ℕ → Type 0
  LoopRepairs k =
      (l r : Tree) (q : Ptr) (e : Entry) (fs : List Step) (s : Store Rnode) (t : Rbt) (parent : Ptr)
      → State owns s0 t0 s t q parent (branch l q e r) fs
      → e.color ≡ red
      → NoRedRed (branch l q e r)
      → GoodPath fs
      → TopBlack fs
      → length fs < k
      → Returns (λ t' s'. Repaired (plug fs (branch l q e r)) s' t') (insert_loop k t q s)

  TopBlack-skip : (f g : Step) (fs : List Step) → TopBlack (f ∷ g ∷ fs) → TopBlack fs
  TopBlack-skip f g [] h = tt
  TopBlack-skip f g (x ∷ fs) h = h

  -- A round, and those that follow.
  loop_after :
      (k : ℕ)
      → LoopRepairs k
      → (f g : Step) (fs : List Step) (T : Tree) (s : Store Rnode) (t : Rbt) (nd : Ptr)
      → GoodPath fs
      → TopBlack fs
      → length fs + 1 < k
      → Next owns s0 t0 sentinel free fs T s t nd
      → Returns (λ t' s'. Repaired (plug fs T) s' t') (insert_loop k t nd s)
  loop_after k loop f g fs T s t nd path top_black fuel (done d) =
      Settled-ends k fs T nd s t (omega arith) path d
  loop_after k loop f g fs T s t nd path top_black fuel
        (climbed l r q e (somewhere st) at_q is_red good order) =
      rw at_q (
        Returns.mono (loop l r q e fs s t _ st is_red good path top_black (omega arith))
          λ t' s' rep.
            Repaired-trans (plug fs (branch l q e r)) (plug fs T) s' t'
              (Alike-plug fs (branch l q e r) T order) rep)

  red_parent :
      (k : ℕ)
      → LoopRepairs k
      → (l r : Tree) (q : Ptr) (e : Entry) (f : Step) (fs : List Step) {s : Store Rnode} {t : Rbt}
        {up : Ptr}
      → State owns s0 t0 s t f.above up (mk f.side (branch l q e r) f.above f.entry f.sibling) fs
      → e.color ≡ red
      → NoRedRed (branch l q e r)
      → f.entry.color ≡ red
      → GoodPath (f ∷ fs)
      → TopBlack (f ∷ fs)
      → length fs < k
      → Returns
          (λ t' s'. Repaired (plug (f ∷ fs) (branch l q e r)) s' t')
          ((insert_round t q >>= λ (t', nd'). insert_loop k t' nd') s)
  red_parent k loop l r q e f [] st is_red good f_red path top_black fuel =
      absurd (red-ne_black (sym f_red ∙ top_black))
  red_parent k loop l r q e f (g ∷ fs) st is_red good f_red (cond, good_sib, (_, goodU, path))
        top_black fuel =
      elim (State-out owns s0 t0 g st) [
        | outer eq st2 ↦
            Returns.bind
              (fix-Next owns s0 t0 sentinel free f g fs l r q e is_red good f_red ((cond f_red).1)
                ((cond f_red).0) good_sib goodU st2)
              λ a s' next.
                loop_after k loop f g fs
                  (mk g.side (mk f.side (branch l q e r) f.above f.entry f.sibling) g.above g.entry
                    g.sibling)
                  s' a.0 a.1 path (TopBlack-skip f g fs top_black) (omega arith) next
      ]

  -- The loop from a red node `q`.
  pub insert_loop-Repaired : (k : ℕ) → LoopRepairs k
  unfolding insert_loop red?
  insert_loop-Repaired zero l r q e fs s t parent st is_red good path top_black fuel =
      absurd (omega arith)
  insert_loop-Repaired (suc k) l r q e [] s t parent st is_red good path top_black fuel =
      go st.placed.hole
    where
      go :
          Hole s t.nil t.root q parent []
          → Returns (λ t' s'. Repaired (branch l q e r) s' t') (insert_loop (suc k) t q s)
      go (top e1 e2) =
          rw
            (
              parent_of-State owns s0 t0 on_left l r q e st,
              e2,
              color_of-Rep {parent = q} leaf (State-Sentinel owns s0 t0 sentinel free st)
                  (empty refl),
            )
            (returns (
              repaired (branch l q e r) (State-root owns s0 t0 sentinel free (branch l q e r) [] st)
                (Alike-refl (branch l q e r)) good))
  insert_loop-Repaired (suc k) l r q e (f ∷ fs) s t parent st is_red good (cond, good_sib, path)
        top_black fuel =
      elim (State-out owns s0 t0 f st) [
        | outer eq st1 ↦
            let p_of = parent_of-State owns s0 t0 on_left l r q e st in
            let p_color =
              color_of-State owns s0 t0 f.side (branch l q e r) f.sibling f.above f.entry st1 in
            elim (red_or_black f.entry.color) [
              | inr b ↦
                  let test : red? f.entry.color ≡ false = rw b refl in
                  rw (p_of, eq, p_color, test)
                    (returns (
                      repaired (plug (f ∷ fs) (branch l q e r))
                        (State-root owns s0 t0 sentinel free (branch l q e r) (f ∷ fs) st)
                        (Alike-refl (plug (f ∷ fs) (branch l q e r)))
                        (NoRedRed-plug (f ∷ fs) (branch l q e r) (cond, good_sib, path) good
                          (λ c. absurd (red-ne_black (sym c ∙ b))))))
              | inl f_red ↦
                  let test : red? f.entry.color ≡ true = rw f_red refl in
                  rw (p_of, eq, p_color, test)
                    (red_parent k (insert_loop-Repaired k) l r q e f fs st1 is_red good f_red
                      (cond, good_sib, path) top_black (omega arith))
            ]
      ]
