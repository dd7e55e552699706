-- ===== src/Rbt/Remove.antt =====
-- The operations of smp_rbt.c that take nodes out of a tree and free them.
use smpcil.Base.{
  ℕ, zero, suc, ◌+◌, Option, none, some, ◌||◌, Ptr, null, Status, smp_ok, ℤ, ◌==◌, if◌then◌else◌,
  dec64,
}
use smpcil.Store.{out_of_fuel, pure, ◌>>=◌, ◌>>◌, load, free, call, free_data}
use smpcil.Rbt.{
  Cmd, Rbt, on_left, on_right, black?, parent_of, child_of, color_of, set_parent, set_child,
  set_key, replace_child,
}
use smpcil.Rbt.Fixup.{delete_fixup}
use smpcil.Rbt.Ops.{end_loop, rnode_find}

-- The second loop of `smp_rbt_successor`, up the tree.
unfoldable pub climb : ℕ → (nil min nd : Ptr) → Cmd Ptr
unfolding parent_of child_of
climb zero nil min nd = λ _. out_of_fuel
climb (suc k) nil min nd = if min == nil then pure min else do
  q ← child_of on_right min
  if nd == q then (do up ← parent_of min; climb k nil up min) else pure min

unfoldable pub rbt_successor : Rbt → Ptr → Cmd Ptr
unfolding parent_of child_of end_loop climb
rbt_successor t nd = do
  q ← child_of on_right nd
  if q == t.nil
      then (do min ← parent_of nd; climb (t.size + 1) t.nil min nd)
      else end_loop (t.size + 1) on_left t.nil q

-- `smp_rnode_remove`: the node that leaves the tree, and the child that takes its place
unfoldable pub unlinked : Rbt → Ptr → Cmd Ptr
unfolding load rbt_successor
unlinked t nd = do
  n ← load nd
  if (n.left == t.nil) || (n.right == t.nil) then pure nd else rbt_successor t nd

unfoldable pub only_child : Rbt → Ptr → Cmd Ptr
unfolding child_of
only_child t tmp = do l ← child_of on_left tmp; if l == t.nil then child_of on_right tmp else pure l

-- From the test of `tmp->color` on.
unfoldable pub rebalance : Rbt → (tmp itor : Ptr) → Cmd Rbt
unfolding color_of delete_fixup
rebalance t tmp itor = do
  c ← color_of tmp
  if black? c then delete_fixup (t.size + 1) t itor else pure t

unfoldable pub remove_node : Rbt → Ptr → Cmd (Ptr × Rbt)
unfolding load parent_of set_parent set_child set_key replace_child unlinked only_child rebalance
remove_node t nd = do
  n ← load nd
  tmp ← unlinked t nd
  itor ← only_child t tmp
  up ← parent_of tmp
  set_parent itor up
  t' ← replace_child t up tmp itor
  m ← load tmp
  if tmp == itor then pure tt else set_key nd m.key
  t'' ← rebalance t' tmp itor
  set_key tmp n.key
  set_parent tmp null
  set_child on_right tmp null
  set_child on_left tmp null
  pure (tmp, record t'' { size = dec64 t''.size })

unfoldable pub rnode_remove : Option Rbt → Ptr → Cmd (Ptr × Option Rbt)
unfolding remove_node
rnode_remove none nd = pure (null, none)
rnode_remove (some t) nd =
    if nd == null then pure (null, some t) else do (tmp, t') ← remove_node t nd; pure (tmp, some t')

-- `smp_rnode_destory`
unfoldable pub rnode_destory : Ptr → Cmd Status
unfolding load free
rnode_destory node = if node == null then pure smp_ok else do
  n ← load node
  if n.key == null then pure tt else call (free_data n.key)
  free node
  pure smp_ok

unfoldable pub rnode_delete : Option Rbt → Ptr → Cmd (Status × Option Rbt)
unfolding rnode_remove rnode_destory
rnode_delete t nd = do
  (node, t') ← rnode_remove t nd
  if node == null then pure (smp_ok, t') else (do rnode_destory node; pure (smp_ok, t'))

module _ (key_cmp : Ptr → Ptr → ℤ) where
  unfoldable pub rnode_find_remove : Option Rbt → Ptr → Cmd (Ptr × Option Rbt)
  unfolding rnode_find rnode_remove
  rnode_find_remove none key = pure (null, none)
  rnode_find_remove (some t) key = if key == null then pure (null, some t) else do
    node ← rnode_find key_cmp t key
    if node == null then pure (null, some t) else rnode_remove (some t) node

  unfoldable pub rnode_delete_bykey : Option Rbt → Ptr → Cmd (Status × Option Rbt)
  unfolding rnode_find_remove rnode_destory
  rnode_delete_bykey t key = do
    (node, t') ← rnode_find_remove t key
    if node == null then pure (smp_ok, t') else (do rnode_destory node; pure (smp_ok, t'))
