-- ===== src/Queue/Visit.antt =====
-- `smp_queue_traversal` and `smp_qnode_traversal`: the order of the visits.
use smpcil.Base.{
  ℕ, zero, suc, ◌+◌, ◌<◌, ◌≡◌, refl, false, ◌||◌, List, [], ◌∷◌, arith, length, Ptr, null, smp_ok,
  some, ◌==◌,
}
use smpcil.Store.{Store, Call, visit, ok}
use smpcil.Store.Returns.{not_null, load-ok, Holds-calls}
use smpcil.Dll.{Node}
use smpcil.Dll.Seg.{Seg, nil, cons, frame, ends_of_nil}
use smpcil.Queue.{Queue, Item, traversal, visit_loop}
use smpcil.Queue.Enter.{IsQueue}
use smpcil.Queue.Clean.{elems-not_null}

-- the visits of the nodes, first to last, so the last is on top
abbrev pub visits : List (Ptr × Item) → List Call → List Call
visits [] cs = cs
visits ((p, _) ∷ xs) cs = visits xs (visit p ∷ cs)

visit_loop-visits :
    (k : ℕ) {s : Store (Node Item)} {last before p : Ptr} {xs : List (Ptr × Item)}
    → Seg s last before p xs
    → length xs < k
    → visit_loop k p s ≡ ok tt (record s { calls = visits xs s.calls })
unfolding visit_loop
visit_loop-visits zero c fuel = absurd (omega arith)
visit_loop-visits (suc k) (nil e f) fuel = rw e
visit_loop-visits (suc k) {s} (cons {p} e out c) fuel =
    rw (not_null e, load-ok (Holds-calls e (visit p ∷ s.calls)))
      (visit_loop-visits k (frame c (λ a i. refl)) (omega arith))

-- A traversal of a queue ends, calls `visit` with every node, first to last, and changes nothing.
pub traversal-visits :
    {s : Store (Node Item)} {q : Queue} {xs : List (Ptr × Item)}
    → IsQueue s q xs
    → traversal (some q) s ≡ ok smp_ok (record s { calls = visits xs s.calls })
unfolding traversal
traversal-visits {q} {xs = []} is = ground (arith, ends_of_nil is.chain)
traversal-visits {q} {xs = x ∷ xs} is =
    let test : ((q.elems == null) || (q.qlen == 0)) ≡ false = ground (arith, elems-not_null is) in
    rw (test, visit_loop-visits (q.qlen + 1) is.chain (omega arith))
