-- ===== src/Queue/Clean.antt =====
-- `smp_qclean` and `smp_qdestory` of a queue whose nodes are freed by `smp_qnode_destory`.
use smpcil.Base.{
  ℕ, zero, suc, ◌+◌, ◌<◌, ◌≡◌, refl, ◌∙◌, ap, true, false, ◌&&◌, not, Option, some, none, List, [],
  ◌∷◌, arith, length, Ptr, null, Status, smp_ok, smp_failure, ◌==◌, if◌then◌else◌, dec32, uint_mod,
  ◌-◌, Bool-cases, inl, inr,
}
use smpcil.Store.{Store, Call, free_data, set_error, write, ok, pure, ◌>>=◌}
use smpcil.Store.Returns
use smpcil.Store.Returns.{Returns, returns, Holds, load-ok, free-ok, not_null, Holds-calls}
use smpcil.Dll.{Node}
use smpcil.Dll.Seg.{has, frame, Front, front, Seg-Front, ends_of_nil}
use smpcil.Error.Texts.{queue_quoted}
use smpcil.Queue.{
  Queue, Item, Cmd, qnode_destory, clean_loop, clean_next, free_removed, qclean, qdestory, emptied,
}
use smpcil.Queue.Enter.{IsQueue, Kept, kept}
use smpcil.Queue.Remove.{Removed, qnode_remove-cons, qnode_remove-nil}

-- the call that a node's end makes
abbrev pub freed : Item → List Call → List Call
freed i cs = if i.free_qdata && not (i.qdata == null) then free_data i.qdata ∷ cs else cs

-- the calls of all of them, the last node's on top
abbrev pub freed_all : List (Ptr × Item) → List Call → List Call
freed_all [] cs = cs
freed_all ((p, i) ∷ xs) cs = freed_all xs (freed i cs)

-- `(smp_qnode_free *) smp_qnode_destory`
pub destory_node : Ptr → Cmd (Unit {0})
destory_node node = qnode_destory node >>= λ _. pure tt

module _ {s : Store (Node Item)} {p : Ptr} {n : Node Item} (e : Holds s p n) where
  qnode_destory-ok :
      qnode_destory p s
      ≡ ok smp_ok (record s { heap = write s.heap p none; calls = freed n.item s.calls })
  unfolding qnode_destory
  qnode_destory-ok =
      rw (not_null e, load-ok e)
        (elim (Bool-cases (n.item.free_qdata && not (n.item.qdata == null))) [
          | inl t ↦ rw (t, free-ok (Holds-calls e (free_data n.item.qdata ∷ s.calls)))
          | inr f ↦ rw (f, free-ok e)
        ])

-- Everything in the queue is gone: the nodes, and the data that they owned, in order.
pub record Cleaned (s : Store (Node Item)) (q : Queue) (xs : List (Ptr × Item)) (oq : Option Queue)
    (s' : Store (Node Item)) : Type 0 where
  pub emptied_to : oq ≡ some (record q { qlen = 0; elems = null; tail = null })
  pub gone : (a : Ptr) → has a xs ≡ true → s'.heap a ≡ none
  pub same : (a : Ptr) → has a xs ≡ false → s'.heap a ≡ s.heap a
  pub calls : s'.calls ≡ freed_all xs s.calls

module _ (s : Store (Node Item)) (q : Queue) (frees : q.free_qnode ≡ some destory_node) where
  free_removed-ok :
      {p : Ptr} {n : Node Item}
      → Holds s p n
      → free_removed q p s
        ≡ ok true (record s { heap = write s.heap p none; calls = freed n.item s.calls })
  unfolding free_removed destory_node
  free_removed-ok e = rw (frees, qnode_destory-ok e)

IsQueue-freed :
    {s : Store (Node Item)} {q : Queue} {xs : List (Ptr × Item)} (p : Ptr) (cs : List Call)
    → IsQueue s q xs
    → has p xs ≡ false
    → IsQueue (record s { heap = write s.heap p none; calls = cs }) q xs
unfolding write
IsQueue-freed p cs is out = record {
  chain = frame is.chain (ground arith);
  count = is.count;
  small = is.small;
}

-- The first node's end, and then the others'.
Cleaned-cons :
    (s s' s'' : Store (Node Item)) (q q' : Queue) (x : Ptr × Item) (xs : List (Ptr × Item))
    (oq : Option Queue)
    → Removed s q x xs q' s'
    → Cleaned
        (record s' { heap = write s'.heap q.elems none; calls = freed x.1 s'.calls })
        q'
        xs
        oq
        s''
    → Cleaned s q (x ∷ xs) oq s''
unfolding write
Cleaned-cons s s' s'' q q' x xs oq rem c = record {
  emptied_to = ground (arith, c.emptied_to, rem.quotes, rem.free_qnode);
  gone = λ a i. ground (arith, c.gone a, c.same a);
  same = λ a o. ground (arith, c.same a, rem.same a);
  calls = c.calls ∙ ap (λ cs. freed_all xs (freed x.1 cs)) rem.calls;
}

-- What a round of the loop does once the node is out.
clean_after :
    (k : ℕ) (s : Store (Node Item)) (q : Queue) (x : Ptr × Item) (xs : List (Ptr × Item))
    → q.free_qnode ≡ some destory_node
    → ((q' : Queue) (s'' : Store (Node Item))
        → q'.free_qnode ≡ some destory_node
        → IsQueue s'' q' xs
        → Returns (λ oq s'. Cleaned s'' q' xs (emptied oq) s') (clean_loop k q' s''))
    → (r : Ptr × Option Queue) (s' : Store (Node Item))
    → Kept q.elems (λ q'. Removed s q x xs q' s') r
    → Returns
        (λ oq s''. Cleaned s q (x ∷ xs) (emptied oq) s'')
        (clean_next (clean_loop k) r.0 r.1 s')
unfolding clean_next
clean_after k s q x xs frees loop r s' (kept {q = q'} rem) =
    let frees' = rem.free_qnode ∙ frees in
    rw (not_null rem.alone, free_removed-ok s' q' frees' rem.alone)
      (Returns.mono
        (loop q' _ frees' (IsQueue-freed q.elems (freed x.1 s'.calls) rem.queue rem.outside))
        λ oq s'' c. Cleaned-cons s s' s'' q q' x xs (emptied oq) rem c)

pub elems-not_null :
    {s : Store (Node Item)} {q : Queue} {x : Ptr × Item} {xs : List (Ptr × Item)}
    → IsQueue s q (x ∷ xs)
    → (q.elems == null) ≡ false
elems-not_null {s} {q} {x} {xs} is = go (Seg-Front is.chain)
  where
    go : Front s q.tail null q.elems x xs → (q.elems == null) ≡ false
    go (front next at here out rest) = not_null here

clean_loop-Cleaned :
    (k : ℕ) (s : Store (Node Item)) (q : Queue) (xs : List (Ptr × Item))
    → q.free_qnode ≡ some destory_node
    → IsQueue s q xs
    → length xs < k
    → Returns (λ oq s'. Cleaned s q xs (emptied oq) s') (clean_loop k q s)
unfolding clean_loop clean_next emptied
clean_loop-Cleaned zero s q xs frees is fuel = absurd (omega arith)
clean_loop-Cleaned (suc k) s q [] frees is fuel =
    rw (qnode_remove-nil is)
      (returns (record { emptied_to = refl; gone = λ a i. cc; same = λ a o. refl; calls = refl }))
clean_loop-Cleaned (suc k) s q (x ∷ xs) frees is fuel = Returns.bind (qnode_remove-cons q x xs is) (
    clean_after k s q x xs frees
      λ q' s'' frees' is'. clean_loop-Cleaned k s'' q' xs frees' is' (omega arith))

module _ {s : Store (Node Item)} (q : Queue) (xs : List (Ptr × Item))
    (frees : q.free_qnode ≡ some destory_node) (is : IsQueue s q xs) where
  -- `smp_qclean` of a queue whose `free_qnode` is `smp_qnode_destory` succeeds, frees every node
  -- and the data that the nodes own, in order, each once, and leaves the queue empty; nothing else
  -- changes.
  pub qclean-frees : Returns (λ r s'. (r.0 ≡ smp_ok) × Cleaned s q xs r.1 s') (qclean (some q) s)
  unfolding qclean
  qclean-frees = go xs is
    where
      go :
          (ys : List (Ptr × Item))
          → IsQueue s q ys
          → Returns (λ r s'. (r.0 ≡ smp_ok) × Cleaned s q ys r.1 s') (qclean (some q) s)
      go [] empty =
          let none_left : (q.elems == null) ≡ true = ground (arith, ends_of_nil empty.chain) in
          rw none_left (
            returns (
              refl,
              record {
                emptied_to = ground (arith, ends_of_nil empty.chain);
                gone = λ a i. cc;
                same = λ a o. refl;
                calls = refl;
              },
            ))
      go (y ∷ ys) full = rw (elems-not_null full) (
          Returns.bind (clean_loop-Cleaned (q.qlen + 1) s q (y ∷ ys) frees full (omega arith))
            λ oq s' c. returns (refl, c))

-- What a client of `smp_qdestory` sees: the last reference ends the queue, an earlier one is
-- counted off and refused, with the error set and no node touched.
pub data Destroyed (s : Store (Node Item)) (q : Queue) (xs : List (Ptr × Item))
    (r : Status × Option Queue) (s' : Store (Node Item)) : Type 0 where
  last :
      q.quotes ≡ 1
      → r ≡ (smp_ok, none)
      → ((a : Ptr) → s'.heap a ≡ (if has a xs then none else s.heap a))
      → s'.calls ≡ freed_all xs s.calls
      → Destroyed s q xs r s'
  shared :
      1 < q.quotes
      → r ≡ (smp_failure, some (record q { quotes = q.quotes - 1 }))
      → s' ≡ record s { calls = set_error queue_quoted ∷ s.calls }
      → Destroyed s q xs r s'

-- For a queue that is referred to and whose `free_qnode` is `smp_qnode_destory`, `smp_qdestory`
-- with one reference left returns SMP_OK, frees the queue, all its nodes and the data that they
-- own, and changes no other node; with more it returns SMP_FAILURE, counts one reference off, sets
-- the error and touches no node.
pub qdestory-Destroyed :
    {s : Store (Node Item)} (q : Queue) (xs : List (Ptr × Item))
    → q.free_qnode ≡ some destory_node
    → IsQueue s q xs
    → 0 < q.quotes
    → q.quotes < uint_mod
    → Returns (Destroyed s q xs) (qdestory (some q) s)
unfolding qdestory
qdestory-Destroyed {s} q xs frees is low high = elim (Bool-cases (dec32 q.quotes == 0)) [
  | inl one ↦ rw one (
      Returns.bind
        (qclean-frees {s = s} (record q { quotes = dec32 q.quotes }) xs frees
          (record { chain = is.chain; count = is.count; small = is.small }))
        λ r s' (st, c).
          returns (last (ground arith) refl (λ a. ground (arith, c.gone a, c.same a)) c.calls))
  | inr more ↦ rw more (returns (shared (ground arith) (ground arith) refl))
]
