-- ===== src/Stack/Tests.antt =====
-- A stack of one node with another for reuse, and the theorems at it.
use smpcil.Base.{ℕ, ◌≡◌, refl, inr, none, some, [], ◌∷◌, arith, null, ◌==◌, if◌then◌else◌}
use smpcil.Store.{Store, Heap}
use smpcil.Store.Returns.{Returns}
use smpcil.Stack.{Stack, StackNode, data_of, push, pop, recover}
use smpcil.Stack.Chain.{bottom, above, IsStack}
use smpcil.Stack.Push.{Loose, push-pushes, recover-spares}
use smpcil.Stack.Pop.{pop-pops}

abbrev nodes : Heap (StackNode ℕ)
nodes a =
    if a == 8
    then some (record { below = null; bytes = 5 })
    else if a == 16
    then some (record { below = null; bytes = 0 })
    else if a == 24
    then some (record { below = null; bytes = 7 })
    else none

abbrev store : Store (StackNode ℕ)
store = record { heap = nodes; calls = [] }

-- at most three elements, which are numbers; `appoint` stores the address of the data
abbrev one_node : Stack ℕ (Unit {0})
one_node = record {
  size = 3;
  curr_size = 1;
  appoint = some (λ d p. p);
  top = 8;
  bottom = null;
  idel = 16;
  pool = tt;
  elem_size = 8;
}

abbrev one_node-IsStack : IsStack store one_node ((8, 5) ∷ []) ((16, 0) ∷ [])
one_node-IsStack = record {
  nodes = above (record { nonnull = λ e. omega (arith, e); holds = refl }) refl (bottom refl);
  spare = above (record { nonnull = λ e. omega (arith, e); holds = refl }) refl (bottom refl);
  apart = (refl, tt);
  count = refl;
  end = refl;
}

push-pushes_example :
    Returns
      (λ r s'. (r.0 ≡ data_of 16) × IsStack s' r.1 ((16, 40) ∷ (8, 5) ∷ []) [])
      (push 0 32 9 one_node 40 store)
push-pushes_example =
    push-pushes one_node 0 9 32 40 ((16, 0) ∷ []) one_node-IsStack (inr (omega arith)) (omega arith)
      (omega arith) (omega arith) (omega arith) refl refl

pop-pops_example :
    Returns (λ r s'. (r.0 ≡ 8) × Loose s' r.1 [] ((16, 0) ∷ []) r.0 5) (pop one_node store)
pop-pops_example = pop-pops one_node (8, 5) [] ((16, 0) ∷ []) one_node-IsStack (omega arith)

recover-spares_example :
    Returns
      (λ stack' s'. IsStack s' stack' ((8, 5) ∷ []) ((24, 7) ∷ (16, 0) ∷ []))
      (recover one_node 24 store)
recover-spares_example = recover-spares one_node 24 7 (record {
  is = one_node-IsStack;
  here = record { nonnull = λ e. omega (arith, e); holds = refl };
  off = refl;
  unused = refl;
})
