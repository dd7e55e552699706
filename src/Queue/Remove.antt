-- ===== src/Queue/Remove.antt =====
-- `smp_qnode_remove`: the first node leaves the queue.
use smpcil.Base.{◌≡◌, refl, true, false, ◌||◌, some, List, [], ◌∷◌, arith, Ptr, null, ◌==◌}
use smpcil.Store.{Store, write, poke, ok}
use smpcil.Store.Returns.{Returns, returns, Holds, load-ok, Holds-poke_self, Holds-poke_other}
use smpcil.Dll.{Node}
use smpcil.Dll.Links.{set_prev-ok, set_next-ok}
use smpcil.Dll.Seg.{
  nil, has, Last, found, Seg-Last, Front, front, Seg-Front, Seg-set_prev, ne_of_has, ends_of_nil,
}
use smpcil.Queue.{Queue, Item, qnode_remove, unlink_front}
use smpcil.Queue.Enter.{IsQueue, Kept, kept}

-- The queue has lost its first node `x`, which stands alone.
pub record Removed (s : Store (Node Item)) (q : Queue) (x : Ptr × Item) (xs : List (Ptr × Item))
    (q' : Queue) (s' : Store (Node Item)) : Type 0 where
  pub queue : IsQueue s' q' xs
  pub first : q.elems ≡ x.0
  pub alone : Holds s' q.elems (record { prev = null; next = null; item = x.1 })
  pub outside : has q.elems xs ≡ false
  pub calls : s'.calls ≡ s.calls
  pub quotes : q'.quotes ≡ q.quotes
  pub free_qnode : q'.free_qnode ≡ q.free_qnode
  pub same : (a : Ptr) → has a (x ∷ xs) ≡ false → s'.heap a ≡ s.heap a

module _ {s : Store (Node Item)} (q : Queue) (x : Ptr × Item) where
  remove_only :
      IsQueue s q (x ∷ [])
      → Returns (λ r s'. Kept q.elems (λ q'. Removed s q x [] q' s') r) (qnode_remove (some q) s)
  unfolding qnode_remove unlink_front write
  remove_only is = go (Seg-Front is.chain)
    where
      go :
          Front s q.tail null q.elems x []
          → Returns
              (λ r s'. Kept q.elems (λ q'. Removed s q x [] q' s') r)
              (qnode_remove (some q) s)
      go (front next at here out rest) =
          let only : (q.tail == q.elems) ≡ true = ground (arith, ends_of_nil rest) in
          let test : ((q.elems == null) || (q.qlen == 0)) ≡ false = ground (arith, here.nonnull) in
          let n1 : Node Item = record { prev = null; next = null; item = x.1 } in
          let here' = Holds-poke_self here n1 in
          rw (test, only, set_next-ok here null, set_prev-ok here' null)
            (returns (
              kept (record {
                queue = record { chain = nil refl refl; count = omega arith; small = omega arith };
                first = at;
                alone = Holds-poke_self here' n1;
                outside = refl;
                calls = refl;
                quotes = refl;
                free_qnode = refl;
                same = λ a o. ground arith;
              })))

  remove_front :
      {y : Ptr × Item} {ys : List (Ptr × Item)}
      → IsQueue s q (x ∷ y ∷ ys)
      → Returns
          (λ r s'. Kept q.elems (λ q'. Removed s q x (y ∷ ys) q' s') r)
          (qnode_remove (some q) s)
  unfolding qnode_remove unlink_front write
  remove_front {y} {ys} is = go (Seg-Front is.chain)
    where
      go :
          Front s q.tail null q.elems x (y ∷ ys)
          → Returns
              (λ r s'. Kept q.elems (λ q'. Removed s q x (y ∷ ys) q' s') r)
              (qnode_remove (some q) s)
      go (front next at here out rest) = at_second (Seg-Front rest)
        where
          at_second :
              Front s q.tail q.elems next y ys
              → Returns
                  (λ r s'. Kept q.elems (λ q'. Removed s q x (y ∷ ys) q' s') r)
                  (qnode_remove (some q) s)
          at_second (front after at' second out' rest') = at_last (Seg-Last rest)
            where
              n1 : Node Item
              n1 = record { prev = null; next = after; item = y.1 }

              n2 : Node Item
              n2 = record { prev = null; next = null; item = x.1 }

              ne : (q.elems == next) ≡ false
              ne = ground arith

              here' :
                  Holds
                    (poke next (some n1) s)
                    q.elems
                    (record { prev = null; next = next; item = x.1 })
              here' = Holds-poke_other here next (some n1) ne

              here2 : Holds (poke q.elems (some n2) (poke next (some n1) s)) q.elems n2
              here2 = Holds-poke_self here' n2

              at_last :
                  Last s q.tail (y ∷ ys)
                  → Returns
                      (λ r s'. Kept q.elems (λ q'. Removed s q x (y ∷ ys) q' s') r)
                      (qnode_remove (some q) s)
              at_last (found t there end i) =
                  let more : (q.tail == q.elems) ≡ false =
                    ground (arith, ne_of_has q.tail q.elems (y ∷ ys) i out) in
                  let test : ((q.elems == null) || (q.qlen == 0)) ≡ false =
                    ground (arith, here.nonnull) in
                  rw
                    (
                      test,
                      more,
                      load-ok here,
                      set_prev-ok second null,
                      set_next-ok here' null,
                      set_prev-ok here2 null,
                    )
                    (returns (
                      kept (record {
                        queue = record {
                          chain =
                              Seg-set_prev null rest (λ n e. ground arith)
                                (λ a j.
                                  ground (arith, ne_of_has a q.elems ys j, ne_of_has a next ys j));
                          count = omega arith;
                          small = omega arith;
                        };
                        first = at;
                        alone = Holds-poke_self here2 n2;
                        outside = out;
                        calls = refl;
                        quotes = refl;
                        free_qnode = refl;
                        same = λ a o. ground arith;
                      })))

  -- `smp_qnode_remove` of a queue with a node returns the first, cut from its neighbours, and
  -- leaves the queue of the others; no other node changes.
  pub qnode_remove-cons :
      (xs : List (Ptr × Item))
      → IsQueue s q (x ∷ xs)
      → Returns (λ r s'. Kept q.elems (λ q'. Removed s q x xs q' s') r) (qnode_remove (some q) s)
  qnode_remove-cons [] is = remove_only is
  qnode_remove-cons (y ∷ ys) is = remove_front is

-- An empty queue gives NULL and is left as it is.
pub qnode_remove-nil :
    {s : Store (Node Item)} {q : Queue}
    → IsQueue s q []
    → qnode_remove (some q) s ≡ ok (null, some q) s
unfolding qnode_remove
qnode_remove-nil is = ground (arith, ends_of_nil is.chain)
