-- ===== src/Queue/Tests.antt =====
-- A queue of two nodes, and a third that stands alone.
use smpcil.Base.{
  ◌≡◌, refl, true, none, some, List, [], ◌∷◌, ◌++◌, arith, Ptr, smp_ok, ◌==◌, if◌then◌else◌,
}
use smpcil.Store.{Store, Heap, ok}
use smpcil.Store.Returns.{Returns, Holds}
use smpcil.Dll.{Node}
use smpcil.Dll.Seg.{nil, cons}
use smpcil.Queue.{Queue, Item, qenter, qnode_remove, qclean, qdestory, traversal}
use smpcil.Queue.Enter.{IsQueue, Kept, Entered, qenter-append}
use smpcil.Queue.Remove.{Removed, qnode_remove-cons}
use smpcil.Queue.Clean.{Cleaned, Destroyed, destory_node, qclean-frees, qdestory-Destroyed}
use smpcil.Queue.Visit.{visits, traversal-visits}

abbrev first : Item
first = record { qdata = 100; free_qdata = true }

abbrev second : Item
second = record { qdata = 0; free_qdata = true }

abbrev cells : List (Ptr × Item)
cells = (8, first) ∷ (16, second) ∷ []

abbrev nodes : Heap (Node Item)
nodes a =
    if a == 8
    then some (record { prev = 0; next = 16; item = first })
    else if a == 16
    then some (record { prev = 8; next = 0; item = second })
    else if a == 24
    then some (record { prev = 0; next = 0; item = first })
    else none

abbrev store : Store (Node Item)
store = record { heap = nodes; calls = [] }

abbrev queue : Queue
queue = record { qlen = 2; elems = 8; tail = 16; free_qnode = some destory_node; quotes = 1 }

queue-IsQueue : IsQueue store queue cells
queue-IsQueue = record {
  chain =
      cons (record { nonnull = omega arith; holds = refl }) refl
        (cons (record { nonnull = omega arith; holds = refl }) refl (nil refl refl));
  count = refl;
  small = omega arith;
}

third : Holds store 24 (record { prev = 0; next = 0; item = first })
third = record { nonnull = omega arith; holds = refl }

qenter-append_example :
    Returns
      (λ r s'. Kept smp_ok (λ q'. Entered store queue (cells ++ (24, first) ∷ []) q' s') r)
      (qenter (some queue) 24 store)
qenter-append_example = qenter-append third queue cells queue-IsQueue refl (omega arith)

qnode_remove-cons_example :
    Returns
      (λ r s'. Kept 8 (λ q'. Removed store queue (8, first) ((16, second) ∷ []) q' s') r)
      (qnode_remove (some queue) store)
qnode_remove-cons_example = qnode_remove-cons queue (8, first) ((16, second) ∷ []) queue-IsQueue

qclean-frees_example :
    Returns (λ r s'. (r.0 ≡ smp_ok) × Cleaned store queue cells r.1 s') (qclean (some queue) store)
qclean-frees_example = qclean-frees queue cells refl queue-IsQueue

qdestory-Destroyed_example : Returns (Destroyed store queue cells) (qdestory (some queue) store)
qdestory-Destroyed_example =
    qdestory-Destroyed queue cells refl queue-IsQueue (omega arith) (omega arith)

traversal-visits_example :
    traversal (some queue) store ≡ ok smp_ok (record store { calls = visits cells [] })
traversal-visits_example = traversal-visits queue-IsQueue
