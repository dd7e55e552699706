-- ===== src/Rbt/Walk.antt =====
-- The traversals of smp_rbt.c: the order in which `print` gets the keys.
use smpcil.Base.{
  ℕ, zero, suc, ◌+◌, ◌<◌, ◌≡◌, refl, true, some, List, [], ◌∷◌, ◌++◌, arith, Ptr, ◌==◌,
}
use smpcil.Store.{Store, Call, visit, ok}
use smpcil.Store.Returns.{load-ok, not_null, Holds-calls}
use smpcil.Rbt.{Rnode, Rbt}
use smpcil.Rbt.Ops.{inorder, preorder, postorder, rbt_inorder, rbt_preorder, rbt_postorder}
use smpcil.Rbt.Rep.{
  Tree, count, in_order, pre_order, post_order, Rep, empty, full, IsTree, ne-nil, Rep-frame,
}

-- the visits of the keys, first to last, so the last is on top
abbrev pub printed : List (Ptr × Ptr) → List Call → List Call
printed [] cs = cs
printed ((p, k) ∷ xs) cs = printed xs (visit k ∷ cs)

printed-append :
    (xs ys : List (Ptr × Ptr)) (cs : List Call) → printed (xs ++ ys) cs ≡ printed ys (printed xs cs)
printed-append [] ys cs = refl
printed-append (x ∷ xs) ys cs = printed-append xs ys _

module _ {nil : Ptr} where
  inorder-printed :
      (k : ℕ) {s : Store Rnode} {parent p : Ptr} {t : Tree}
      → Rep s nil parent p t
      → count t < k
      → inorder k nil p s ≡ ok tt (record s { calls = printed (in_order t) s.calls })
  unfolding inorder
  inorder-printed zero rep fuel = absurd (omega arith)
  inorder-printed (suc k) {p} (empty e) fuel =
      let test : (p == nil) ≡ true = ground arith in rw test (ground arith)
  inorder-printed (suc k) {s} (full {q} {e} {l} {r} at h n rl rr) fuel =
      let s1 = printed (in_order l) s.calls in
      let right : Rep (record s { calls = visit e.key ∷ s1 }) nil q _ r =
        Rep-frame rr (λ a i. refl) in
      rw
        (
          at,
          not_null h,
          ne-nil n,
          load-ok h,
          inorder-printed k rl (omega arith),
          load-ok (Holds-calls h s1),
          inorder-printed k right (omega arith),
          printed-append (in_order l) ((q, e.key) ∷ in_order r) s.calls,
        )
        refl

  preorder-printed :
      (k : ℕ) {s : Store Rnode} {parent p : Ptr} {t : Tree}
      → Rep s nil parent p t
      → count t < k
      → preorder k nil p s ≡ ok tt (record s { calls = printed (pre_order t) s.calls })
  unfolding preorder
  preorder-printed zero rep fuel = absurd (omega arith)
  preorder-printed (suc k) {p} (empty e) fuel =
      let test : (p == nil) ≡ true = ground arith in rw test (ground arith)
  preorder-printed (suc k) {s} (full {q} {e} {l} {r} at h n rl rr) fuel =
      let s1 = visit e.key ∷ s.calls in
      let s2 = printed (pre_order l) s1 in
      let left : Rep (record s { calls = s1 }) nil q _ l = Rep-frame rl (λ a i. refl) in
      let right : Rep (record s { calls = s2 }) nil q _ r = Rep-frame rr (λ a i. refl) in
      rw
        (
          at,
          not_null h,
          ne-nil n,
          load-ok h,
          preorder-printed k left (omega arith),
          load-ok (Holds-calls h s2),
          preorder-printed k right (omega arith),
          printed-append (pre_order l) (pre_order r) s1,
        )
        refl

  postorder-printed :
      (k : ℕ) {s : Store Rnode} {parent p : Ptr} {t : Tree}
      → Rep s nil parent p t
      → count t < k
      → postorder k nil p s ≡ ok tt (record s { calls = printed (post_order t) s.calls })
  unfolding postorder
  postorder-printed zero rep fuel = absurd (omega arith)
  postorder-printed (suc k) {p} (empty e) fuel =
      let test : (p == nil) ≡ true = ground arith in rw test (ground arith)
  postorder-printed (suc k) {s} (full {q} {e} {l} {r} at h n rl rr) fuel =
      let s1 = printed (post_order l) s.calls in
      let s2 = printed (post_order r) s1 in
      let right : Rep (record s { calls = s1 }) nil q _ r = Rep-frame rr (λ a i. refl) in
      rw
        (
          at,
          not_null h,
          ne-nil n,
          load-ok h,
          postorder-printed k rl (omega arith),
          load-ok (Holds-calls h s1),
          postorder-printed k right (omega arith),
          load-ok (Holds-calls h s2),
          printed-append (post_order l) (post_order r ++ ((q, e.key) ∷ [])) s.calls,
          printed-append (post_order r) ((q, e.key) ∷ []) s1,
        )
        refl

-- The three traversals of a tree end, hand each key to `print` once, before, between or after the
-- keys of the two subtrees, and change nothing.
pub traversals-printed :
    {s : Store Rnode} {t : Tree} (rbt : Rbt)
    → IsTree s rbt t
    → (rbt_preorder (some rbt) s ≡ ok tt (record s { calls = printed (pre_order t) s.calls }))
      × (rbt_inorder (some rbt) s ≡ ok tt (record s { calls = printed (in_order t) s.calls }))
      × (rbt_postorder (some rbt) s ≡ ok tt (record s { calls = printed (post_order t) s.calls }))
unfolding rbt_preorder rbt_inorder rbt_postorder
traversals-printed {t} rbt is =
    let enough : count t < rbt.size + 1 = omega (arith, is.sized) in
    (
      preorder-printed (rbt.size + 1) is.tree enough,
      inorder-printed (rbt.size + 1) is.tree enough,
      postorder-printed (rbt.size + 1) is.tree enough,
    )
