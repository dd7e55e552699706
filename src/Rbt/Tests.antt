-- ===== src/Rbt/Tests.antt =====
-- A tree of three nodes with the keys 1, 2 and 3, and runs from an empty tree.
use smpcil.Base.{
  false, ℕ, ◌+◌, ◌≡◌, ◌≢◌, refl, none, some, Option, List, [], ◌∷◌, arith, Ptr, ℤ, pos, negsuc, ltb,
  ◌==◌, if◌then◌else◌,
}
use smpcil.Store.{write, Store, Heap, Run, Call, ok, fault, out_of_fuel, visit, pure, ◌>>=◌}
use smpcil.Store.Returns.{Returns}
use smpcil.Rbt.{red?, black?, Cmd, Rbt, Rnode, Color, red, black}
use smpcil.Rbt.Ops.{
  rnode_create, rbt_create, rnode_insert, rnode_find, rnode_min, rnode_max, rbt_preorder,
  rbt_inorder, rbt_postorder,
}
use smpcil.Rbt.Remove.{rnode_find_remove}
use smpcil.Rbt.Rep.{Tree, leaf, branch, in_order, empty, full, IsTree, Entry, node, Preorder}
use smpcil.Rbt.Sorted.{Total}
use smpcil.Rbt.Insert.{IsRedBlack, Inserted, rnode_insert-Inserted}
use smpcil.Rbt.Find.{Found, rnode_find-Found}
use smpcil.Rbt.Ends.{rnode_min-max}
use smpcil.Rbt.Walk.{traversals-printed}

abbrev cmp : Ptr → Ptr → ℤ
cmp a b = if ltb a b then negsuc 0 else if a == b then pos 0 else pos 1

cmp-Preorder : Preorder cmp
cmp-Preorder = record {
  upwards = λ x y k le gt. ground arith;
  downwards = λ x y k le lt. ground arith;
}

abbrev entry : Ptr → Color → Entry
entry k c = record { key = k; carrier = 0; color = c }

abbrev nodes : Heap Rnode
nodes a =
    if a == 8
    then some (node 1024 16 24 (entry 2 black))
    else if a == 16
    then some (node 8 1024 1024 (entry 1 red))
    else if a == 24
    then some (node 8 1024 1024 (entry 3 red))
    else none

abbrev store : Store Rnode
store = record { heap = nodes; calls = [] }

abbrev tree : Tree
tree =
    branch (branch leaf 16 (entry 1 red) leaf) 8 (entry 2 black) (branch leaf 24 (entry 3 red) leaf)

abbrev rbt : Rbt
rbt = record { root = 8; nil = 1024; size = 3 }

apart : (p q : ℕ) → (p == q) ≡ false → p ≢ q
apart p q e = ground arith

rbt-IsTree : IsTree store rbt tree
rbt-IsTree = record {
  tree =
      full refl (record { nonnull = omega arith; holds = refl }) (apart 8 1024 refl)
        (full refl (record { nonnull = omega arith; holds = refl }) (apart 16 1024 refl)
          (empty refl) (empty refl))
        (full refl (record { nonnull = omega arith; holds = refl }) (apart 24 1024 refl)
          (empty refl) (empty refl));
  sized = refl;
}

rnode_find-Found_example :
    Returns (λ r s'. (s' ≡ store) × Found cmp (in_order tree) 3 r) (rnode_find cmp rbt 3 store)
rnode_find-Found_example =
    rnode_find-Found cmp cmp-Preorder rbt 3 rbt-IsTree
      ((refl, tt), (refl, tt), (tt, tt, tt, tt), (tt, tt, tt, tt))

rnode_min-max_example : (rnode_min rbt store ≡ ok 16 store) × (rnode_max rbt store ≡ ok 24 store)
rnode_min-max_example = rnode_min-max rbt rbt-IsTree

traversals-printed_example :
    (rbt_preorder (some rbt) store
      ≡ ok tt (record store { calls = visit 3 ∷ visit 1 ∷ visit 2 ∷ [] }))
    × (rbt_inorder (some rbt) store
        ≡ ok tt (record store { calls = visit 3 ∷ visit 2 ∷ visit 1 ∷ [] }))
    × (rbt_postorder (some rbt) store
        ≡ ok tt (record store { calls = visit 2 ∷ visit 3 ∷ visit 1 ∷ [] }))
traversals-printed_example = traversals-printed rbt rbt-IsTree

-- The sentinel, and a node with the key 4 that is not in the tree yet.
abbrev more : Heap Rnode
more a =
    if a == 1024
    then some (node 1024 1024 1024 (entry 0 black))
    else if a == 32
    then some (node 0 0 0 (entry 4 black))
    else nodes a

abbrev wider : Store Rnode
wider = record { heap = more; calls = [] }

cmp-Total : Total cmp
cmp-Total = record { backwards = λ x y gt. ground arith }

wider-IsRedBlack : IsRedBlack wider rbt tree
wider-IsRedBlack = record {
  tree = record {
    tree =
        full refl (record { nonnull = omega arith; holds = refl }) (apart 8 1024 refl)
          (full refl (record { nonnull = omega arith; holds = refl }) (apart 16 1024 refl)
            (empty refl) (empty refl))
          (full refl (record { nonnull = omega arith; holds = refl }) (apart 24 1024 refl)
            (empty refl) (empty refl));
    sized = refl;
  };
  apart = (
    refl,
    refl,
    (λ a i. ground arith),
    (refl, refl, (λ a i. refl), tt, tt),
    (refl, refl, (λ a i. refl), tt, tt),
  );
  good = ((λ c. (cc, cc)), ((λ c. (refl, refl)), tt, tt), ((λ c. (refl, refl)), tt, tt));
  balanced = record { height = 1; balanced = ((refl, refl), (refl, refl)) };
  top_black = refl;
  sentinel = record {
    cell = node 1024 1024 1024 (entry 0 black);
    there = record { nonnull = omega arith; holds = refl };
    is_black = refl;
  };
}

rnode_insert-Inserted_example :
    Returns (Inserted cmp cmp-Preorder wider rbt tree 32 4) (rnode_insert cmp rbt 32 wider)
rnode_insert-Inserted_example =
    rnode_insert-Inserted cmp cmp-Preorder cmp-Total rbt wider-IsRedBlack
      ((refl, tt), (refl, tt), (tt, tt, tt, tt), (tt, tt, tt, tt)) {n = node 0 0 0 (entry 4 black)}
      (record { nonnull = omega arith; holds = refl }) refl (apart 32 1024 refl) (omega arith)

-- The keys are put in, some taken out, and the rest printed.
abbrev insert_all : List Ptr → Rbt → Cmd Rbt
insert_all [] t = pure t
insert_all (k ∷ ks) t = do
  nd ← rnode_create (8 + k) k
  (st, t') ← rnode_insert cmp t nd
  insert_all ks t'

abbrev remove_all : List Ptr → Option Rbt → Cmd (Option Rbt)
remove_all [] t = pure t
remove_all (k ∷ ks) t = do (nd, t') ← rnode_find_remove cmp t k; remove_all ks t'

abbrev insert_into : List Ptr → Option Rbt → Cmd (Option Rbt)
insert_into ks none = pure none
insert_into ks (some t) = do t' ← insert_all ks t; pure (some t')

abbrev walk_of : List Ptr → List Ptr → (Option Rbt → Cmd (Unit {0})) → Cmd (Unit {0})
walk_of ks rs walk = do ot ← rbt_create 1000; ot' ← insert_into ks ot; t ← remove_all rs ot'; walk t

abbrev calls_of : Run Rnode (Unit {0}) → List Call
calls_of (ok a s) = s.calls
calls_of fault = []
calls_of out_of_fuel = []

abbrev nothing : Store Rnode
nothing = record { heap = λ a. none; calls = [] }

ascending :
    calls_of (walk_of (1 ∷ 2 ∷ 3 ∷ 4 ∷ 5 ∷ 6 ∷ []) [] rbt_preorder nothing)
    ≡ visit 6 ∷ visit 5 ∷ visit 3 ∷ visit 4 ∷ visit 1 ∷ visit 2 ∷ []
unfolding rnode_create rbt_create rnode_insert rbt_preorder write red?
ascending = refl

removed :
    calls_of (walk_of (5 ∷ 2 ∷ 8 ∷ 1 ∷ 3 ∷ 4 ∷ []) (2 ∷ 5 ∷ []) rbt_inorder nothing)
    ≡ visit 8 ∷ visit 4 ∷ visit 3 ∷ visit 1 ∷ []
unfolding rnode_create rbt_create rnode_insert rbt_inorder rnode_find_remove write red? black?
removed = refl
