-- ===== src/Rbt/Ops.antt =====
-- The operations of smp_rbt.c that make, insert and look for nodes, and the traversals. `none` is a
-- NULL tree; the address that an allocation gives is an argument, `null` when it fails. Loops go
-- down the tree, so `size + 1` rounds are enough.
use smpcil.Base.{
  ℕ, zero, suc, ◌+◌, Option, none, some, Ptr, null, Status, smp_ok, smp_failure, ℤ, ◌==◌,
  if◌then◌else◌, inc64, positive, negative,
}
use smpcil.Store.{out_of_fuel, ok, pure, ◌>>=◌, ◌>>◌, load, calloc, call, visit, set_os_error, poke}
use smpcil.Rbt.{
  Cmd, Rnode, Rbt, Side, on_left, on_right, red, black, child_of, set_parent, set_child, set_color,
}
use smpcil.Rbt.Fixup.{insert_fixup}

-- `smp_rnode_create`
unfoldable pub rnode_create : (fresh key : Ptr) → Cmd Ptr
unfolding calloc
rnode_create fresh key =
    calloc fresh (record {
      parent = null;
      left = null;
      right = null;
      key = key;
      carrier = null;
      color = black;
    })

-- `smp_rbt_create`: `nil` is 24 bytes into the tree.
unfoldable pub rbt_create : Ptr → Cmd (Option Rbt)
rbt_create fresh s =
    if fresh == null
    then (do call set_os_error; call set_os_error; pure none) s
    else let nil = fresh + 24 in
      let sentinel : Rnode = record {
        parent = nil;
        left = nil;
        right = nil;
        key = null;
        carrier = null;
        color = black;
      } in
      ok (some (record { root = nil; nil = nil; size = 0 })) (poke nil (some sentinel) s)

-- The loop of `smp_rnode_min` with `on_left`, of `smp_rnode_max` with `on_right`, and of
-- `smp_rbt_successor`.
unfoldable pub end_loop : ℕ → Side → (nil tmp : Ptr) → Cmd Ptr
unfolding child_of
end_loop zero side nil tmp = λ _. out_of_fuel
end_loop (suc k) side nil tmp = do
  q ← child_of side tmp
  if q == nil then pure tmp else end_loop k side nil q

-- The test that follows the loop.
unfoldable pub end_of : Side → Rbt → Cmd Ptr
unfolding end_loop
end_of side t = if t.root == t.nil then pure null else do
  tmp ← end_loop (t.size + 1) side t.nil t.root
  if tmp == t.nil then pure null else pure tmp

unfoldable pub rnode_min : Rbt → Cmd Ptr
unfolding end_of
rnode_min t = end_of on_left t

unfoldable pub rnode_max : Rbt → Cmd Ptr
unfolding end_of
rnode_max t = end_of on_right t

module _ (key_cmp : Ptr → Ptr → ℤ) where
  -- `smp_rnode_find`
  unfoldable pub find_loop : ℕ → (nil nd key : Ptr) → Cmd Ptr
  unfolding load
  find_loop zero nil nd key = λ _. out_of_fuel
  find_loop (suc k) nil nd key = if nd == nil then pure null else do
    n ← load nd
    if positive (key_cmp n.key key)
        then find_loop k nil n.left key
        else if negative (key_cmp n.key key)
        then find_loop k nil n.right key
        else pure nd

  unfoldable pub rnode_find : Rbt → Ptr → Cmd Ptr
  unfolding find_loop
  rnode_find t key = find_loop (t.size + 1) t.nil t.root key

  -- The side on which `nd` goes below `itor`, and the loop of `smp_rnode_insert`.
  unfoldable pub side_of : (itor nd : Ptr) → Cmd Side
  unfolding load
  side_of itor nd = do
    i ← load itor
    n ← load nd
    if positive (key_cmp i.key n.key) then pure on_left else pure on_right

  unfoldable pub descend : ℕ → (nil tmp itor nd : Ptr) → Cmd Ptr
  unfolding side_of child_of
  descend zero nil tmp itor nd = λ _. out_of_fuel
  descend (suc k) nil tmp itor nd =
      if itor == nil
      then pure tmp
      else do side ← side_of itor nd; q ← child_of side itor; descend k nil itor q nd

  unfoldable pub link_below : Rbt → (tmp nd : Ptr) → Cmd Rbt
  unfolding side_of set_child
  link_below t tmp nd =
      if tmp == t.nil
      then pure (record t { root = nd })
      else do side ← side_of tmp nd; set_child side tmp nd; pure t

  unfoldable pub rnode_insert : Rbt → Ptr → Cmd (Status × Rbt)
  unfolding descend link_below set_parent set_child set_color insert_fixup
  rnode_insert t nd = if nd == null then pure (smp_failure, t) else do
    tmp ← descend (t.size + 1) t.nil t.nil t.root nd
    set_parent nd tmp
    t' ← link_below t tmp nd
    set_child on_right nd t.nil
    set_child on_left nd t.nil
    set_color nd red
    t'' ← insert_fixup (t.size + 1) t' nd
    pure (smp_ok, record t'' { size = inc64 t''.size })

-- `smp_preorder`, `smp_inorder`, `smp_postorder`: `print` gets each key. The functions call
-- themselves on both children; the fuel is for the height.
unfoldable pub preorder : ℕ → (nil tree : Ptr) → Cmd (Unit {0})
unfolding load
preorder zero nil tree = λ _. out_of_fuel
preorder (suc k) nil tree = if tree == null then pure tt else if tree == nil then pure tt else do
  n ← load tree
  call (visit n.key)
  preorder k nil n.left
  m ← load tree
  preorder k nil m.right

unfoldable pub inorder : ℕ → (nil tree : Ptr) → Cmd (Unit {0})
unfolding load
inorder zero nil tree = λ _. out_of_fuel
inorder (suc k) nil tree = if tree == null then pure tt else if tree == nil then pure tt else do
  n ← load tree
  inorder k nil n.left
  m ← load tree
  call (visit m.key)
  inorder k nil m.right

unfoldable pub postorder : ℕ → (nil tree : Ptr) → Cmd (Unit {0})
unfolding load
postorder zero nil tree = λ _. out_of_fuel
postorder (suc k) nil tree = if tree == null then pure tt else if tree == nil then pure tt else do
  n ← load tree
  postorder k nil n.left
  m ← load tree
  postorder k nil m.right
  o ← load tree
  call (visit o.key)

-- `smp_rbt_preorder`, `smp_rbt_inorder`, `smp_rbt_postorder`
unfoldable pub rbt_preorder : Option Rbt → Cmd (Unit {0})
unfolding preorder
rbt_preorder none = pure tt
rbt_preorder (some t) = preorder (t.size + 1) t.nil t.root

unfoldable pub rbt_inorder : Option Rbt → Cmd (Unit {0})
unfolding inorder
rbt_inorder none = pure tt
rbt_inorder (some t) = inorder (t.size + 1) t.nil t.root

unfoldable pub rbt_postorder : Option Rbt → Cmd (Unit {0})
unfolding postorder
rbt_postorder none = pure tt
rbt_postorder (some t) = postorder (t.size + 1) t.nil t.root
