-- ===== src/Link/Tests.antt =====
-- Runs from an empty link: nodes that were taken out come again.
use smpcil.Base.{arith, ◌≡◌, refl, none, some, List, [], ◌∷◌, Ptr, if◌then◌else◌, ◌==◌, ℤ, pos}
use smpcil.Store.{
  Store, Heap, Call, Run, ok, fault, out_of_fuel, visit, pure, ◌>>=◌, ◌>>◌, call, write,
}
use smpcil.Store.Returns.{Returns}
use smpcil.Dll.{Node}
use smpcil.Dll.Seg.{nil, cons}
use smpcil.Link.Valid.{IsLink, done, more}
use smpcil.Link.Insert.{Entered, link_insert-appends}
use smpcil.Link.Remove.{Taken, rm_athead-takes}
use smpcil.Link.{
  Link, Cmd, link_insert, rm_athead, rm_attail, link_node_rm, link_traversal, cmp_equal,
}

abbrev link : Link
link = record { size = 0; node = 0; tail = 0; data_free = none; recover = 0; quotes = 1 }

abbrev show : Ptr → Cmd (Unit {0})
show p = call (visit p)

abbrev calls_of : Run (Node Ptr) (Unit {0}) → List Call
calls_of (ok a s) = s.calls
calls_of fault = []
calls_of out_of_fuel = []

abbrev other_than : Ptr → Ptr → ℤ
other_than a b = if a == b then pos 0 else pos 1

-- Four go in, the first, the last and the second go out, and one goes in.
abbrev run : Cmd (Unit {0})
run = do
  (n1, l1) ← link_insert (some link) 10 100
  (n2, l2) ← link_insert l1 20 108
  (n3, l3) ← link_insert l2 30 116
  (n4, l4) ← link_insert l3 40 124
  (d1, l5) ← rm_athead l4
  show d1
  (d2, l6) ← rm_attail l5
  show d2
  (d3, l7) ← link_node_rm other_than l6 30
  show d3
  (n5, l8) ← link_insert l7 50 132
  show n5
  st ← link_traversal l8 (some show)
  pure tt

runs :
    calls_of (run (record { heap = λ a. none; calls = [] }))
    ≡ visit 50 ∷ visit 20 ∷ visit 116 ∷ visit 30 ∷ visit 40 ∷ visit 10 ∷ []
unfolding link_insert rm_athead rm_attail link_node_rm link_traversal cmp_equal write
runs = refl

-- A link of two nodes, and one that is kept.
abbrev nodes : Heap (Node Ptr)
nodes a =
    if a == 8
    then some (record { prev = 0; next = 16; item = 10 })
    else if a == 16
    then some (record { prev = 8; next = 0; item = 20 })
    else if a == 24
    then some (record { prev = 0; next = 0; item = 0 })
    else none

abbrev store : Store (Node Ptr)
store = record { heap = nodes; calls = [] }

abbrev two : Link
two = record { size = 2; node = 8; tail = 16; data_free = none; recover = 24; quotes = 1 }

abbrev cells : List (Ptr × Ptr)
cells = (8, 10) ∷ (16, 20) ∷ []

two-IsLink : IsLink store two cells (24 ∷ [])
two-IsLink = record {
  chain =
      cons (record { nonnull = omega arith; holds = refl }) refl
        (cons (record { nonnull = omega arith; holds = refl }) refl (nil refl refl));
  count = refl;
  small = omega arith;
  spare = more (record { nonnull = omega arith; holds = refl }) refl (done refl);
  apart = λ a i. ground arith;
}

link_insert-appends_example :
    Returns (Entered store two cells [] 24 30) (link_insert (some two) 30 32 store)
link_insert-appends_example =
    link_insert-appends two cells (24 ∷ []) 30 32 two-IsLink (omega arith) (omega arith)
      (omega arith) refl

rm_athead-takes_example :
    Returns (Taken store (8, 10) ((16, 20) ∷ []) (24 ∷ [])) (rm_athead (some two) store)
rm_athead-takes_example = rm_athead-takes two (8, 10) (24 ∷ []) ((16, 20) ∷ []) two-IsLink
