-- ===== src/Link.antt =====
-- smp_stl/smp_link/smp_link.c: a list of doubly linked nodes that carry pointers, with the nodes
-- that were taken out kept for reuse. `none` is a NULL link; the address that the pool gives is an
-- argument, `null` when it has none.
pub mod Valid
pub mod Insert
pub mod Remove
mod Tests
use smpcil.Base.{
  ℕ, zero, suc, ◌+◌, Option, none, some, Ptr, null, Status, smp_ok, ℤ, pos, negsuc, Bool, true,
  false, ◌==◌, if◌then◌else◌, inc32, dec32, inc64, dec64, to_int,
}
use smpcil.Store
use smpcil.Store.{ok, out_of_fuel, pure, ◌>>=◌, ◌>>◌, load, poke}
use smpcil.Dll.{Node, set_prev, set_next, set_item}

-- A node's item is its `data`.
abbrev pub Cmd : Type 0 → Type 0
Cmd A = Store.Cmd (Node Ptr) A

-- `smp_link_s`, less its mutex and condition variable, which no operation uses, and its pool.
pub record Link : Type 0 where
  pub size : ℕ
  pub node : Ptr
  pub tail : Ptr
  pub data_free : Option (Ptr → Cmd (Unit {0}))
  pub recover : Ptr
  pub quotes : ℕ

-- `__smp_link_init`: `recover` keeps what the memory held.
pub set_up : Link → Option (Ptr → Cmd (Unit {0})) → Link
set_up link free_func = record link {
  node = null;
  tail = null;
  quotes = 1;
  size = 0;
  data_free = free_func;
}

-- `smp_mpalloc` of a node, and the stores that follow it.
unfoldable pub new_node : Link → (fresh : Ptr) → Cmd (Ptr × Link)
new_node link fresh s =
    if fresh == null
    then ok (null, link) s
    else ok (fresh, link) (poke fresh (some (record { prev = null; next = null; item = null })) s)

-- `smp_lnode_create`
unfoldable pub lnode_create : Link → (fresh : Ptr) → Cmd (Ptr × Link)
unfolding load set_next new_node
lnode_create link fresh = if link.recover == null then new_node link fresh else do
  n ← load link.recover
  set_next link.recover null
  pure (link.recover, record link { recover = n.next })

-- `__smp_link_insert`
unfoldable pub enter : Link → Ptr → Cmd Link
unfolding set_prev set_next
enter link node =
    if link.node == null
    then pure (record link { node = node; tail = node; size = inc64 link.size })
    else do
      set_next link.tail node
      set_prev node link.tail
      pure (record link { tail = node; size = inc64 link.size })

-- `smp_link_insert`
unfoldable pub link_insert : Option Link → (data_ptr fresh : Ptr) → Cmd (Ptr × Option Link)
unfolding lnode_create enter set_item
link_insert none data_ptr fresh = pure (null, none)
link_insert (some link) data_ptr fresh = if data_ptr == null then pure (null, some link) else do
  (node, link') ← lnode_create link fresh
  if node == null
      then pure (null, some link')
      else (do link'' ← enter link' node; set_item node data_ptr; pure (node, some link''))

-- `smp_link_node_recover`
unfoldable pub node_recover : Link → Ptr → Cmd Link
unfolding set_item set_prev set_next
node_recover link node = do
  set_next node null
  set_prev node null
  set_item node null
  if link.recover == null then pure tt else set_next node link.recover
  pure (record link { recover = node })

-- The branches of `smp_link_rm_node`, and the stores at the end of each.
rm_first : Link → Cmd Link
unfolding load set_prev
rm_first link = do
  n ← load link.node
  if n.next == null
      then pure (record link { node = null; tail = null })
      else (do set_prev n.next null; pure (record link { node = n.next }))

rm_last : Link → Cmd Link
unfolding load set_next
rm_last link =
    if link.tail == link.node
    then pure (record link { node = null; tail = null })
    else do n ← load link.tail; set_next n.prev null; pure (record link { tail = n.prev })

rm_middle : Link → Ptr → Cmd Link
unfolding load set_prev set_next
rm_middle link node = do
  n ← load node
  set_next n.prev n.next
  m ← load node
  set_prev m.next m.prev
  pure link

unfoldable pub rm_node : Link → Ptr → Cmd Link
unfolding rm_first rm_last rm_middle set_prev set_next
rm_node link node =
    if node == link.node
    then (do link' ← rm_first link; detached link' node)
    else if node == link.tail
    then (do link' ← rm_last link; detached link' node)
    else (do
      link' ← rm_middle link node
      set_prev node null
      set_next node null
      pure (record link' { size = dec64 link'.size }))
  where
    detached : Link → Ptr → Cmd Link
    detached link' p = do
      set_next p null
      set_prev p null
      pure (record link' { size = dec64 link'.size })

-- The end of the three functions that take a node out.
unfoldable pub take_out : Link → Ptr → Cmd (Ptr × Option Link)
unfolding load rm_node node_recover
take_out link node = if node == null then pure (null, some link) else do
  link' ← rm_node link node
  n ← load node
  link'' ← node_recover link' node
  pure (n.item, some link'')

-- `smp_link_node_rm_athead`, `smp_link_node_rm_attail`
unfoldable pub rm_athead : Option Link → Cmd (Ptr × Option Link)
unfolding take_out
rm_athead none = pure (null, none)
rm_athead (some link) = take_out link link.node

unfoldable pub rm_attail : Option Link → Cmd (Ptr × Option Link)
unfolding take_out
rm_attail none = pure (null, none)
rm_attail (some link) = take_out link link.tail

-- `== SMP_CMP_EQUAL`
unfoldable pub cmp_equal : ℤ → Bool
cmp_equal (pos zero) = true
cmp_equal (pos (suc n)) = false
cmp_equal (negsuc n) = false

-- `smp_link_node_rm`
module _ (cmp_func : Ptr → Ptr → ℤ) where
  unfoldable pub find_data : ℕ → (node data_ptr : Ptr) → Cmd Ptr
  unfolding load cmp_equal
  find_data zero node data_ptr = λ _. out_of_fuel
  find_data (suc k) node data_ptr = if node == null then pure null else do
    n ← load node
    if cmp_equal (cmp_func n.item data_ptr) then pure node else find_data k n.next data_ptr

  unfoldable pub link_node_rm : Option Link → Ptr → Cmd (Ptr × Option Link)
  unfolding find_data take_out
  link_node_rm none data_ptr = pure (null, none)
  link_node_rm (some link) data_ptr =
      if data_ptr == null
      then pure (null, some link)
      else do node ← find_data (link.size + 1) link.node data_ptr; take_out link node

-- `smp_link_size`, `smp_link_quote_inc`, `smp_link_quote_dec`: the count of references as an `int`.
pub link_size : Option Link → ℕ
link_size none = 0
link_size (some link) = link.size

pub link_quote_inc : Option Link → ℤ × Option Link
unfolding to_int
link_quote_inc none = (pos 0, none)
link_quote_inc (some link) =
    (to_int (inc32 link.quotes), some (record link { quotes = inc32 link.quotes }))

pub link_quote_dec : Option Link → ℤ × Option Link
unfolding to_int
link_quote_dec none = (pos 0, none)
link_quote_dec (some link) =
    (to_int (dec32 link.quotes), some (record link { quotes = dec32 link.quotes }))

-- `smp_link_traversal`: `none` is a NULL function; `visit` gets the data of each node.
unfoldable pub visit_data : ℕ → (Ptr → Cmd (Unit {0})) → Ptr → Cmd (Unit {0})
unfolding load
visit_data zero visit node = λ _. out_of_fuel
visit_data (suc k) visit node =
    if node == null
    then pure tt
    else do n ← load node; visit n.item; m ← load node; visit_data k visit m.next

unfoldable pub link_traversal : Option Link → Option (Ptr → Cmd (Unit {0})) → Cmd Status
unfolding visit_data
link_traversal none visit = pure smp_ok
link_traversal (some link) none = pure smp_ok
link_traversal (some link) (some visit) = do visit_data (link.size + 1) visit link.node; pure smp_ok
