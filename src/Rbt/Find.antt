-- ===== src/Rbt/Find.antt =====
-- `smp_rnode_find` against a search of the keys in order.
use smpcil.Base.{
  ℕ, zero, suc, ◌+◌, ◌<◌, ◌≡◌, ◌≢◌, refl, ap, ◌∙◌, true, false, List, [], ◌∷◌, ◌++◌, arith, Ptr,
  null, ◌==◌, ℤ, positive, negative, All, All-append, All-map, Bool-cases, inl, inr,
}
use smpcil.Store.{Store}
use smpcil.Store.Returns
use smpcil.Store.Returns.{Returns, returns, Holds, load-ok}
use smpcil.Rbt.{Rnode, Rbt}
use smpcil.Rbt.Ops.{find_loop, rnode_find}
use smpcil.Rbt.Rep.{
  append_assoc, Tree, count, in_order, Rep, empty, full, IsTree, ne-nil, Preorder, AllBelow,
  AllAbove, IsOrdered,
}

module _ (key_cmp : Ptr → Ptr → ℤ) where
  -- The key compares unequal, or equal.
  pub data Differs (x key : Ptr) : Type 0 where
    above : positive (key_cmp x key) ≡ true → Differs x key
    below : negative (key_cmp x key) ≡ true → Differs x key

  abbrev pub Same : Ptr → Ptr → Type 0
  Same x key = (positive (key_cmp x key) ≡ false) × (negative (key_cmp x key) ≡ false)

  -- The result of a search for `key` in nodes with keys.
  pub data Found (xs : List (Ptr × Ptr)) (key r : Ptr) : Type 0 where
    absent : r ≡ null → All (λ (x : Ptr × Ptr). Differs x.1 key) xs → Found xs key r
    present :
        (before behind : List (Ptr × Ptr)) (k : Ptr)
        → r ≢ null
        → xs ≡ before ++ ((r, k) ∷ behind)
        → Same k key
        → Found xs key r

  Found-before :
      {xs : List (Ptr × Ptr)} {key r : Ptr} (ys : List (Ptr × Ptr))
      → All (λ (x : Ptr × Ptr). Differs x.1 key) ys
      → Found xs key r
      → Found (xs ++ ys) key r
  Found-before {xs} ys all (absent e none) = absent e (All-append _ xs ys none all)
  Found-before {xs} ys all (present before behind k n e same) =
      present before (behind ++ ys) k n (ap (λ t. t ++ ys) e ∙ append_assoc before _ ys) same

  Found-behind :
      (xs : List (Ptr × Ptr)) {ys : List (Ptr × Ptr)} {key r : Ptr}
      → All (λ (x : Ptr × Ptr). Differs x.1 key) xs
      → Found ys key r
      → Found (xs ++ ys) key r
  Found-behind [] all f = f
  Found-behind (x ∷ xs) {ys} {key} {r} all f = go (Found-behind xs all.1 f)
    where
      go : {zs : List (Ptr × Ptr)} → Found zs key r → Found (x ∷ zs) key r
      go (absent e none) = absent e (all.0, none)
      go (present before behind k n e same) =
          present (x ∷ before) behind k n (ap (λ t. x ∷ t) e) same

  larger :
      (laws : Preorder key_cmp) (key x : Ptr) (xs : List (Ptr × Ptr))
      → AllAbove key_cmp x xs
      → positive (key_cmp x key) ≡ true
      → All (λ (y : Ptr × Ptr). Differs y.1 key) xs
  larger laws key x xs all gt = All-map xs (λ y le. above (laws.upwards x y.1 key le gt)) all

  smaller :
      (laws : Preorder key_cmp) (key x : Ptr) (xs : List (Ptr × Ptr))
      → AllBelow key_cmp x xs
      → negative (key_cmp x key) ≡ true
      → All (λ (y : Ptr × Ptr). Differs y.1 key) xs
  smaller laws key x xs all lt = All-map xs (λ y le. below (laws.downwards y.1 x key le lt)) all

  module _ (laws : Preorder key_cmp) {s : Store Rnode} {nil : Ptr} (key : Ptr) where
    find_loop-Found :
        (k : ℕ) {parent p : Ptr} {t : Tree}
        → Rep s nil parent p t
        → IsOrdered key_cmp t
        → count t < k
        → Returns (λ r s'. (s' ≡ s) × Found (in_order t) key r) (find_loop key_cmp k nil p key s)
    unfolding find_loop
    find_loop-Found zero rep ordered fuel = absurd (omega arith)
    find_loop-Found (suc k) {p} (empty e) ordered fuel =
        let here : (p == nil) ≡ true = ground arith in rw here (returns (refl, absent refl tt))
    find_loop-Found (suc k) (full {e} {l} {r} at h n rl rr) ordered fuel =
        rw (at, ne-nil n, load-ok h)
          (elim (Bool-cases (positive (key_cmp e.key key))) [
            | inl gt ↦ rw gt (
                Returns.mono (find_loop-Found k rl ordered.2 (omega arith)) λ x s' (kept, f). (
                  kept,
                  Found-before _ (above gt, larger laws key e.key (in_order r) ordered.1 gt) f,
                ))
            | inr le ↦ rw le (elim (Bool-cases (negative (key_cmp e.key key))) [
              | inl lt ↦ rw lt (
                  Returns.mono (find_loop-Found k rr ordered.3 (omega arith)) λ x s' (kept, f). (
                    kept,
                    Found-behind (in_order l) (smaller laws key e.key (in_order l) ordered.0 lt)
                        (Found-behind (_ ∷ []) (below lt, tt) f),
                  ))
              | inr ge ↦
                  rw ge (
                    returns (refl, present (in_order l) (in_order r) e.key h.nonnull refl (le, ge)))
            ])
          ])

  -- For a comparison that is a total preorder and a tree whose keys are in order, `smp_rnode_find`
  -- ends without a fault or a change, and gives a node of the tree with an equal key, or NULL when
  -- every key compares unequal.
  pub rnode_find-Found :
      Preorder key_cmp
      → {s : Store Rnode} {t : Tree} (rbt : Rbt) (key : Ptr) → IsTree s rbt t
      → IsOrdered key_cmp t
      → Returns (λ r s'. (s' ≡ s) × Found (in_order t) key r) (rnode_find key_cmp rbt key s)
  unfolding rnode_find
  rnode_find-Found laws rbt key is ordered =
      find_loop-Found laws key (rbt.size + 1) is.tree ordered (omega (arith, is.sized))
