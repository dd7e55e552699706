-- ===== src/Queue/Enter.antt =====
-- What a queue stands for, and `smp_qenter`: the node goes behind the others.
use smpcil.Base.{
  ◌+◌, ◌<◌, ◌≡◌, refl, true, false, ◌&&◌, Option, some, List, [], ◌∷◌, ◌++◌, arith, length,
  length-append, if◌then◌else◌, Ptr, null, smp_ok, size_mod, ◌==◌,
}
use smpcil.Store.{Store, write}
use smpcil.Store.Returns
use smpcil.Store.Returns.{Returns, returns, Holds, Holds-poke_self, Holds-poke_other}
use smpcil.Dll.{Node}
use smpcil.Dll.Links.{set_prev-ok, set_next-ok}
use smpcil.Dll.Seg.{
  Seg, nil, cons, has, Last, found, Seg-Last, Seg-snoc, has-append, ne_of_has, ends_of_nil,
}
use smpcil.Queue.{Queue, Item, qenter, enter_first, enter_behind}

-- The nodes of the queue, first to last, with what each carries.
pub record IsQueue (s : Store (Node Item)) (q : Queue) (xs : List (Ptr × Item)) : Type 0 where
  pub chain : Seg s q.tail null q.elems xs
  pub count : q.qlen ≡ length xs
  pub small : length xs < size_mod

pub record Entered (s : Store (Node Item)) (q : Queue) (xs : List (Ptr × Item)) (q' : Queue)
    (s' : Store (Node Item)) : Type 0 where
  pub queue : IsQueue s' q' xs
  pub calls : s'.calls ≡ s.calls
  pub quotes : q'.quotes ≡ q.quotes
  pub free_qnode : q'.free_qnode ≡ q.free_qnode
  pub same : (a : Ptr) → has a xs ≡ false → s'.heap a ≡ s.heap a

module _ {s : Store (Node Item)} {node : Ptr} {n : Node Item} (there : Holds s node n) where
  enter_first-Entered :
      (q : Queue) → q.qlen ≡ 0 → Returns (Entered s q ((node, n.item) ∷ [])) (enter_first q node s)
  unfolding enter_first write
  enter_first-Entered q empty =
      let first : Node Item = record n { next = null } in
      let second : Node Item = record first { prev = null } in
      let there' = Holds-poke_self there first in
      rw (set_next-ok there null, set_prev-ok there' null)
        (returns (record {
          queue = record {
            chain = cons (Holds-poke_self there' second) refl (nil refl refl);
            count = omega arith;
            small = omega arith;
          };
          calls = refl;
          quotes = refl;
          free_qnode = refl;
          same = λ a o. ground arith;
        }))

  enter_behind-Entered :
      (q : Queue) {x : Ptr × Item} {xs : List (Ptr × Item)}
      → IsQueue s q (x ∷ xs)
      → has node (x ∷ xs) ≡ false
      → length (x ∷ xs) + 1 < size_mod
      → Returns (Entered s q ((x ∷ xs) ++ (node, n.item) ∷ [])) (enter_behind q node s)
  unfolding enter_behind write
  enter_behind-Entered q {x} {xs} is out room = behind (Seg-Last is.chain)
    where
      behind :
          Last s q.tail (x ∷ xs)
          → Returns (Entered s q ((x ∷ xs) ++ (node, n.item) ∷ [])) (enter_behind q node s)
      behind (found t at_tail end i) =
          let apart : (node == q.tail) ≡ false = ne_of_has q.tail node (x ∷ xs) i out in
          let linked : Node Item = record t { next = node } in
          let n1 : Node Item = record n { prev = q.tail } in
          let n2 : Node Item = record n1 { next = null } in
          let node1 = Holds-poke_other there q.tail (some linked) apart in
          let node2 = Holds-poke_self node1 n1 in
          rw (set_next-ok at_tail node, set_prev-ok node1 q.tail, set_next-ok node2 null)
            (returns (record {
              queue = record {
                chain = Seg-snoc node n.item is.chain out (record {
                  fresh = Holds-poke_self node2 n2;
                  linked = λ m e. ground arith;
                  same = λ a f g. ground arith;
                });
                count = omega (arith, length-append xs ((node, n.item) ∷ []));
                small = omega (arith, length-append xs ((node, n.item) ∷ []));
              };
              calls = refl;
              quotes = refl;
              free_qnode = refl;
              same = λ a o. ground (
                arith,
                has-append a (x ∷ xs) ((node, n.item) ∷ []),
                ne_of_has q.tail a (x ∷ xs) i,
              );
            }))

module _ {s : Store (Node Item)} {q : Queue} where
  pub empty_test : IsQueue s q [] → ((q.qlen == 0) && (q.elems == null)) ≡ true
  empty_test is = ground (arith, ends_of_nil is.chain)

  pub full_test :
      {x : Ptr × Item} {xs : List (Ptr × Item)}
      → IsQueue s q (x ∷ xs)
      → ((q.qlen == 0) && (q.elems == null)) ≡ false
  full_test is = ground arith

-- The answer of a call that keeps the queue: its status, and the queue that is left.
pub data Kept {A : Type 0} (a : A) (P : Queue → Type 0) : A × Option Queue → Type 0 where
  kept : {q : Queue} → P q → Kept a P (a, some q)

module _ {s : Store (Node Item)} {node : Ptr} {n : Node Item} (there : Holds s node n)
    (q : Queue) where
  enter_branch :
      (xs : List (Ptr × Item))
      → IsQueue s q xs
      → has node xs ≡ false
      → length xs + 1 < size_mod
      → Returns (Entered s q (xs ++ (node, n.item) ∷ [])) (
          (if (q.qlen == 0) && (q.elems == null) then enter_first q node else enter_behind q node)
            s)
  enter_branch [] is out room = rw (empty_test is) (enter_first-Entered there q is.count)
  enter_branch (x ∷ xs) is out room = rw (full_test is) (enter_behind-Entered there q is out room)

  -- `smp_qenter` of a node outside a queue of fewer than 2^64 - 1 nodes succeeds, makes no call,
  -- and puts the node behind the others, with what it carries; no other node changes.
  pub qenter-append :
      (xs : List (Ptr × Item))
      → IsQueue s q xs
      → has node xs ≡ false
      → length xs + 1 < size_mod
      → Returns
          (λ r s'. Kept smp_ok (λ q'. Entered s q (xs ++ (node, n.item) ∷ []) q' s') r)
          (qenter (some q) node s)
  unfolding qenter
  qenter-append xs is out room =
      rw (Returns.not_null there)
        (Returns.bind (enter_branch xs is out room) λ q' s' e. returns (kept e))
