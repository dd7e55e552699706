-- ===== src/Stack/Chain.antt =====
-- The two chains of nodes that a stack has, and when a stack is well-formed.
use smpcil.Base.{◌≡◌, refl, true, false, Option, List, [], ◌∷◌, All, arith, Ptr, null, length}
use smpcil.Store.{Store, poke}
use smpcil.Store.Returns
use smpcil.Store.Returns.{Holds}
use smpcil.Dll.Seg.{has}
use smpcil.Stack.{StackNode, Stack}

module _ {D : Type 0} where
  -- From `p` the `below` pointers lead through the distinct nodes `xs` to NULL.
  pub data Chain (s : Store (StackNode D)) : Ptr → List (Ptr × D) → Type 0 where
    bottom : {p : Ptr} → p ≡ null → Chain s p []
    above :
        {p q : Ptr} {d : D} {xs : List (Ptr × D)}
        → Holds s p (record { below = q; bytes = d })
        → has p xs ≡ false
        → Chain s q xs
        → Chain s p ((p, d) ∷ xs)

  -- a chain that is not empty, at its first node
  pub data Top (s : Store (StackNode D)) (p : Ptr) (x : Ptr × D) (xs : List (Ptr × D))
      : Type 0 where
    top :
        (q : Ptr)
        → p ≡ x.0
        → Holds s p (record { below = q; bytes = x.1 })
        → has p xs ≡ false
        → Chain s q xs
        → Top s p x xs

  pub Chain-Top :
      {s : Store (StackNode D)} {p : Ptr} {x : Ptr × D} {xs : List (Ptr × D)}
      → Chain s p (x ∷ xs)
      → Top s p x xs
  Chain-Top (above {q} n out c) = top q refl n out c

  pub null_of_bottom : {s : Store (StackNode D)} {p : Ptr} → Chain s p [] → p ≡ null
  null_of_bottom (bottom e) = e

  -- A chain survives a write to a node that is not on it.
  pub Chain-poke :
      {s : Store (StackNode D)} {p : Ptr} {xs : List (Ptr × D)} (a : Ptr) (c : Option (StackNode D))
      → Chain s p xs
      → has a xs ≡ false
      → Chain (poke a c s) p xs
  Chain-poke a c (bottom e) out = bottom e
  Chain-poke a c (above {p} n o rest) out =
      above (Returns.Holds-poke_other n a c (ground arith)) o (Chain-poke a c rest (ground arith))

  -- The nodes of the stack, from the top, are `xs`; those for reuse are `ys`.
  pub record IsStack {Pool : Type 0} (s : Store (StackNode D)) (stack : Stack D Pool)
      (xs ys : List (Ptr × D)) : Type 0 where
    pub nodes : Chain s stack.top xs
    pub spare : Chain s stack.idel ys
    pub apart : All (λ (x : Ptr × D). has x.0 ys ≡ false) xs
    pub count : stack.curr_size ≡ length xs
    pub end : stack.bottom ≡ null

  pub has-apart :
      (a : Ptr) (xs ys : List (Ptr × D))
      → All (λ (x : Ptr × D). has x.0 ys ≡ false) xs
      → has a ys ≡ true
      → has a xs ≡ false
  has-apart a [] ys h i = refl
  has-apart a (x ∷ xs) ys h i = ground (arith, h, has-apart a xs ys h.1 i)
