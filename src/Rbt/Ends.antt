-- ===== src/Rbt/Ends.antt =====
-- `smp_rnode_min` and `smp_rnode_max` give the first and the last node in order.
use smpcil.Base.{
  ℕ, zero, suc, ◌+◌, ◌<◌, ◌≡◌, ◌≢◌, refl, true, false, List, [], ◌∷◌, ◌++◌, arith, Ptr, null, ◌==◌,
}
use smpcil.Store.{Store, ok}
use smpcil.Store.Returns.{load-ok}
use smpcil.Rbt.{Rnode, Rbt, on_left, on_right, child_of}
use smpcil.Rbt.Ops.{end_loop, end_of, rnode_min, rnode_max}
use smpcil.Rbt.Rep.{Tree, leaf, branch, count, in_order, Rep, empty, full, IsTree, ne-nil, Entry}

-- The first and the last node of a list, or `d` when it is empty.
abbrev pub first_of : Ptr → List (Ptr × Ptr) → Ptr
first_of d [] = d
first_of d (x ∷ xs) = x.0

abbrev pub last_of : Ptr → List (Ptr × Ptr) → Ptr
last_of d [] = d
last_of d (x ∷ xs) = last_of x.0 xs

first_of-append :
    (d : Ptr) (xs : List (Ptr × Ptr)) (y : Ptr × Ptr) (ys : List (Ptr × Ptr))
    → first_of d (xs ++ (y ∷ ys)) ≡ first_of y.0 xs
first_of-append d [] y ys = refl
first_of-append d (x ∷ xs) y ys = refl

last_of-append :
    (d : Ptr) (xs : List (Ptr × Ptr)) (y : Ptr × Ptr) (ys : List (Ptr × Ptr))
    → last_of d (xs ++ (y ∷ ys)) ≡ last_of y.0 ys
last_of-append d [] y ys = refl
last_of-append d (x ∷ xs) y ys = last_of-append x.0 xs y ys

module _ {s : Store Rnode} {nil : Ptr} where
  leftmost :
      (k : ℕ) {parent p q : Ptr} {l r : Tree} {e : Entry}
      → Rep s nil parent p (branch l q e r)
      → count l < k
      → (end_loop k on_left nil p s ≡ ok (first_of q (in_order l)) s)
        × (first_of q (in_order l) ≢ nil)
  unfolding end_loop child_of
  leftmost zero rep fuel = absurd (omega arith)
  leftmost (suc k) (full {a} at h n (empty e) r) fuel =
      let test : (a == nil) ≡ true = ground arith in (rw (at, load-ok h, test) refl, n)
  leftmost (suc k) (full {q} {a} at h n (full {q = q'} {e} {l} {r} at' h' n' l' r') rr) fuel =
      let (loop, out) = leftmost k (full at' h' n' l' r') (omega arith) in
      let more : (a == nil) ≡ false = rw at' (ne-nil n') in
      let same = first_of-append q (in_order l) (q', e.key) (in_order r) in
      (rw (at, load-ok h, more, same) loop, rw same out)

  rightmost :
      (k : ℕ) {parent p q : Ptr} {l r : Tree} {e : Entry}
      → Rep s nil parent p (branch l q e r)
      → count r < k
      → (end_loop k on_right nil p s ≡ ok (last_of q (in_order r)) s)
        × (last_of q (in_order r) ≢ nil)
  unfolding end_loop child_of
  rightmost zero rep fuel = absurd (omega arith)
  rightmost (suc k) (full {b} at h n l (empty e)) fuel =
      let test : (b == nil) ≡ true = ground arith in (rw (at, load-ok h, test) refl, n)
  rightmost (suc k) (full {q} {b} at h n ll (full {q = q'} {e} {l} {r} at' h' n' l' r')) fuel =
      let (loop, out) = rightmost k (full at' h' n' l' r') (omega arith) in
      let more : (b == nil) ≡ false = rw at' (ne-nil n') in
      let same = last_of-append q (in_order l) (q', e.key) (in_order r) in
      (rw (at, load-ok h, more, same) loop, rw same out)

root-ne_nil :
    {s : Store Rnode} {nil parent p q : Ptr} {l r : Tree} {e : Entry}
    → Rep s nil parent p (branch l q e r)
    → (p == nil) ≡ false
root-ne_nil (full at h n l r) = rw at (ne-nil n)

module _ {s : Store Rnode} {t : Tree} (rbt : Rbt) (is : IsTree s rbt t) where
  -- On a tree, `smp_rnode_min` ends without a change and gives the first node in order, or NULL
  -- when there is none, and `smp_rnode_max` the last.
  pub rnode_min-max :
      (rnode_min rbt s ≡ ok (first_of null (in_order t)) s)
      × (rnode_max rbt s ≡ ok (last_of null (in_order t)) s)
  unfolding rnode_min rnode_max end_of
  rnode_min-max = go t is.tree (omega (arith, is.sized))
    where
      go :
          (u : Tree)
          → Rep s rbt.nil rbt.nil rbt.root u
          → count u < rbt.size + 1
          → (rnode_min rbt s ≡ ok (first_of null (in_order u)) s)
            × (rnode_max rbt s ≡ ok (last_of null (in_order u)) s)
      go leaf (empty e) fuel =
          let test : (rbt.root == rbt.nil) ≡ true = ground arith in (rw test refl, rw test refl)
      go (branch l q e r) rep fuel =
          let (least, in_least) = leftmost (rbt.size + 1) rep (omega arith) in
          let (most, in_most) = rightmost (rbt.size + 1) rep (omega arith) in
          let test = root-ne_nil rep in
          (
            rw
                (
                  test,
                  least,
                  ne-nil in_least,
                  first_of-append null (in_order l) (q, e.key) (in_order r),
                )
                refl,
            rw
                (
                  test,
                  most,
                  ne-nil in_most,
                  last_of-append null (in_order l) (q, e.key) (in_order r),
                )
                refl,
          )
