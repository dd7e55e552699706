-- ===== src/Dll/Seg.antt =====
-- Chains in the heap: from `p` the `next` pointers lead through the distinct nodes `xs`, each with
-- its predecessor in `prev`; the first has `before`, and `last` is the last, or `before` if none
-- is.
use smpcil.Base.{
  ◌≡◌, refl, Bool, true, false, ◌||◌, Option, some, List, [], ◌∷◌, ◌++◌, arith, Ptr, null, ◌==◌,
}
use smpcil.Store.{Store, poke, write}
use smpcil.Store.Returns.{Holds}
use smpcil.Dll.{Node}

module _ {E : Type 0} where
  abbrev pub has : Ptr → List (Ptr × E) → Bool
  has a [] = false
  has a ((p, _) ∷ xs) = (a == p) || has a xs

  pub data Seg (h : Store (Node E)) (last : Ptr) : Ptr → Ptr → List (Ptr × E) → Type 0 where
    nil : {before p : Ptr} → p ≡ null → last ≡ before → Seg h last before p []
    cons :
        {before p q : Ptr} {e : E} {xs : List (Ptr × E)}
        → Holds h p (record { prev = before; next = q; item = e })
        → has p xs ≡ false
        → Seg h last p q xs
        → Seg h last before p ((p, e) ∷ xs)

  -- A chain that is not empty, at its first node.
  pub data Front (h : Store (Node E)) (last before p : Ptr) (x : Ptr × E) (xs : List (Ptr × E))
      : Type 0 where
    front :
        (q : Ptr)
        → p ≡ x.0
        → Holds h p (record { prev = before; next = q; item = x.1 })
        → has p xs ≡ false
        → Seg h last p q xs
        → Front h last before p x xs

  pub Seg-Front :
      {h : Store (Node E)} {last before p : Ptr} {x : Ptr × E} {xs : List (Ptr × E)}
      → Seg h last before p (x ∷ xs)
      → Front h last before p x xs
  Seg-Front (cons {q} n out s) = front q refl n out s

  pub ends_of_nil :
      {h : Store (Node E)} {last before p : Ptr}
      → Seg h last before p []
      → (p ≡ null) × (last ≡ before)
  ends_of_nil (nil e f) = (e, f)

  pub ne_of_has :
      (a b : Ptr) (xs : List (Ptr × E)) → has a xs ≡ true → has b xs ≡ false → (b == a) ≡ false
  ne_of_has a b [] h k = cc
  ne_of_has a b (x ∷ xs) h k = ground (arith, ne_of_has a b xs)

  -- A chain survives any change that spares its own nodes.
  pub frame :
      {h g : Store (Node E)} {last before p : Ptr} {xs : List (Ptr × E)}
      → Seg h last before p xs
      → ((a : Ptr) → has a xs ≡ true → g.heap a ≡ h.heap a)
      → Seg g last before p xs
  frame (nil e f) same = nil e f
  frame (cons {p} n out s) same =
      cons (record { nonnull = n.nonnull; holds = ground (arith, same p, n.holds) }) out
        (frame s λ a i. same a (ground arith))

  pub frame-poke :
      {h : Store (Node E)} {last before p : Ptr} {xs : List (Ptr × E)} (a : Ptr)
      (c : Option (Node E))
      → Seg h last before p xs
      → has a xs ≡ false
      → Seg (poke a c h) last before p xs
  unfolding write
  frame-poke a c s out = frame s (ground arith)

  -- The last node of a chain that has one, and its place in it.
  pub data Last (h : Store (Node E)) (last : Ptr) (xs : List (Ptr × E)) : Type 0 where
    found : (n : Node E) → Holds h last n → n.next ≡ null → has last xs ≡ true → Last h last xs

  pub Seg-Last :
      {h : Store (Node E)} {last before p : Ptr} {x : Ptr × E} {xs : List (Ptr × E)}
      → Seg h last before p (x ∷ xs)
      → Last h last (x ∷ xs)
  Seg-Last (cons {before} {p} {q} {e = i} n out (nil e f)) =
      found (record { prev = before; next = q; item = i }) (rw f n) e (rw f (ground arith))
  Seg-Last {h} {last} {x} (cons {xs = y ∷ ys} n out (cons n' out' s)) =
      behind (Seg-Last (cons n' out' s))
    where
      behind : Last h last (y ∷ ys) → Last h last (x ∷ y ∷ ys)
      behind (found m k e i) = found m k e (ground arith)

  pub has-append : (a : Ptr) (xs ys : List (Ptr × E)) → has a (xs ++ ys) ≡ (has a xs || has a ys)
  has-append a [] ys = refl
  has-append a (x ∷ xs) ys = ground (arith, has-append a xs ys)

  -- What `tail->next = node` and the stores to `node` do to the heap.
  pub record Appended (h g : Store (Node E)) (last node : Ptr) (e : E) : Type 0 where
    pub fresh : Holds g node (record { prev = last; next = null; item = e })
    pub linked : (n : Node E) → h.heap last ≡ some n → g.heap last ≡ some (record n { next = node })
    pub same : (a : Ptr) → (a == last) ≡ false → (a == node) ≡ false → g.heap a ≡ h.heap a

  pub Seg-snoc :
      {h g : Store (Node E)} {last before p : Ptr} {x : Ptr × E} {xs : List (Ptr × E)} (node : Ptr)
      (e : E)
      → Seg h last before p (x ∷ xs)
      → has node (x ∷ xs) ≡ false
      → Appended h g last node e
      → Seg g node before p ((x ∷ xs) ++ (node, e) ∷ [])
  Seg-snoc {h} {last} node e (cons {before} {p} {q} {e = i} n out (nil e' f)) o k =
      let there : h.heap last ≡ some (record { prev = before; next = q; item = i }) =
        rw f n.holds in
      cons (record { nonnull = n.nonnull; holds = rw f at (k.linked _ there) }) (ground arith)
        (cons (rw f at k.fresh) refl (nil refl refl))
  Seg-snoc {h} {g} {last} {before} {x} node e (cons {p} {xs = y ∷ ys} n out (cons n' out' s)) o k =
      behind (Seg-Last (cons n' out' s)) (Seg-snoc node e (cons n' out' s) (ground arith) k)
    where
      behind :
          Last h last (y ∷ ys)
          → Seg g node p y.0 ((y ∷ ys) ++ (node, e) ∷ [])
          → Seg g node before p ((x ∷ y ∷ ys) ++ (node, e) ∷ [])
      behind (found m there e' i) rest =
          cons (record { nonnull = n.nonnull; holds = ground (arith, k.same p) })
            (rw has-append (ground arith)) rest

  -- A chain that gets another predecessor.
  pub Seg-set_prev :
      {h g : Store (Node E)} {last before p : Ptr} {x : Ptr × E} {xs : List (Ptr × E)}
      (before' : Ptr)
      → Seg h last before p (x ∷ xs)
      → ((n : Node E) → h.heap p ≡ some n → g.heap p ≡ some (record n { prev = before' }))
      → ((a : Ptr) → has a xs ≡ true → g.heap a ≡ h.heap a)
      → Seg g last before' p (x ∷ xs)
  Seg-set_prev before' (cons {p} n out s) moved same =
      cons (record { nonnull = n.nonnull; holds = moved _ n.holds }) out (frame s same)
