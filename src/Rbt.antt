-- ===== src/Rbt.antt =====
-- smp_stl/smp_tree/smp_rbt.c: red-black trees of linked nodes. The sentinel `rbt->nil` is a node of
-- the store like any other, at the address `nil`.
pub mod Fixup
pub mod Ops
pub mod Remove
pub mod Rep
pub mod Find
pub mod Ends
pub mod Walk
pub mod Place
pub mod Steps
pub mod Turn
pub mod Rotate
pub mod Zoom
pub mod State
pub mod Colors
pub mod Heights
pub mod Repair
pub mod Settle
pub mod Round
pub mod Loop
pub mod Descend
pub mod Sorted
pub mod Link
pub mod Insert
mod Tests
use smpcil.Base.{ℕ, Bool, true, false, Ptr, ◌==◌, if◌then◌else◌}
use smpcil.Store
use smpcil.Store.{pure, ◌>>=◌, ◌>>◌, load, modify}

pub data Color : Type 0 where
  red black : Color

unfoldable pub red? : Color → Bool
red? red = true
red? black = false

unfoldable pub black? : Color → Bool
black? red = false
black? black = true

-- `smp_rbt_node_s`
pub record Rnode : Type 0 where
  pub parent : Ptr
  pub left : Ptr
  pub right : Ptr
  pub key : Ptr
  pub carrier : Ptr
  pub color : Color

abbrev pub Cmd : Type 0 → Type 0
Cmd A = Store.Cmd Rnode A

-- `smp_rbt_s`, less its mutex, condition variable and `quotes`, which no function uses, and its
-- function pointers, which are arguments.
pub record Rbt : Type 0 where
  pub root : Ptr
  pub nil : Ptr
  pub size : ℕ

-- A child, by its side: the functions treat the two sides alike.
pub data Side : Type 0 where
  on_left on_right : Side

abbrev pub other : Side → Side
other on_left = on_right
other on_right = on_left

abbrev pub child : Side → Rnode → Ptr
child on_left n = n.left
child on_right n = n.right

abbrev pub with_child : Side → Ptr → Rnode → Rnode
with_child on_left q n = record n { left = q }
with_child on_right q n = record n { right = q }

-- `p->parent`, `p->left` or `p->right`, `p->color`, and the stores to them
unfoldable pub parent_of : Ptr → Cmd Ptr
unfolding load
parent_of p = do n ← load p; pure n.parent

unfoldable pub child_of : Side → Ptr → Cmd Ptr
unfolding load
child_of side p = do n ← load p; pure (child side n)

unfoldable pub color_of : Ptr → Cmd Color
unfolding load
color_of p = do n ← load p; pure n.color

unfoldable pub set_parent : Ptr → Ptr → Cmd (Unit {0})
unfolding modify
set_parent p q = modify p (λ n. record n { parent = q })

unfoldable pub set_child : Side → Ptr → Ptr → Cmd (Unit {0})
unfolding modify
set_child side p q = modify p (with_child side q)

unfoldable pub set_color : Ptr → Color → Cmd (Unit {0})
unfolding modify
set_color p c = modify p (λ n. record n { color = c })

unfoldable pub set_key : Ptr → Ptr → Cmd (Unit {0})
unfolding modify
set_key p k = modify p (λ n. record n { key = k })

-- `new` takes the place of `old` below `parent`: the test and the stores that the rotations and
-- `smp_rnode_remove` share.
unfoldable pub replace_child : Rbt → (parent old new : Ptr) → Cmd Rbt
unfolding child_of set_child
replace_child t parent old new = if parent == t.nil then pure (record t { root = new }) else do
  l ← child_of on_left parent
  set_child (if old == l then on_left else on_right) parent new
  pure t

-- `smp_left_rotate` with `on_left`, its mirror image `smp_right_rotate` with `on_right`: the child
-- on the other side goes up.
unfoldable pub rotate : Side → Rbt → Ptr → Cmd Rbt
unfolding parent_of child_of set_parent set_child replace_child
rotate side t node = do
  tmp ← child_of (other side) node
  inner ← child_of side tmp
  set_child (other side) node inner
  inner' ← child_of side tmp
  if inner' == t.nil then pure tt else set_parent inner' node
  up ← parent_of node
  set_parent tmp up
  up' ← parent_of node
  t' ← replace_child t up' node tmp
  set_child side tmp node
  set_parent node tmp
  pure t'

unfoldable pub left_rotate : Rbt → Ptr → Cmd Rbt
unfolding rotate
left_rotate t node = rotate on_left t node

unfoldable pub right_rotate : Rbt → Ptr → Cmd Rbt
unfolding rotate
right_rotate t node = rotate on_right t node

-- `smp_rbt_size`
pub rbt_size : Rbt → ℕ
rbt_size t = t.size
