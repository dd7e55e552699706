-- ===== src/Queue.antt =====
-- smp_stl/smp_queue/smp_queue.c: a queue of doubly linked nodes. The node's `link` is its first
-- member, so a container and its node have one address. `none` is a NULL queue; the address that an
-- allocation gives is an argument, `null` when it fails.
pub mod Enter
pub mod Remove
pub mod Clean
pub mod Visit
mod Tests
use smpcil.Base.{
  ℕ, zero, suc, ◌+◌, Bool, true, false, not, ◌&&◌, ◌||◌, Option, none, some, Ptr, null, Status,
  smp_ok, smp_failure, ℤ, pos, ltb, ◌==◌, if◌then◌else◌, inc32, dec32, inc64, dec64, to_int,
}
use smpcil.Store
use smpcil.Store.{
  out_of_fuel, pure, ◌>>=◌, ◌>>◌, load, free, calloc, call, free_data, visit, set_error,
  set_os_error,
}
use smpcil.Error.Texts.{queue_node_failed, queue_quoted}
use smpcil.Dll.{Node, set_prev, set_next, set_item}

-- The rest of `smp_qnode_t`; `free_qdata` is whether the function pointer is set.
pub record Item : Type 0 where
  pub qdata : Ptr
  pub free_qdata : Bool

abbrev pub Cmd : Type 0 → Type 0
Cmd A = Store.Cmd (Node Item) A

-- `smp_queue_t`, less its mutex and condition variable, which no operation uses.
pub record Queue : Type 0 where
  pub qlen : ℕ
  pub elems : Ptr
  pub tail : Ptr
  pub free_qnode : Option (Ptr → Cmd (Unit {0}))
  pub quotes : ℕ

-- `smp_queue_quote_dec`, `smp_queue_quote_inc`: the result is the count as an `int`.
unfoldable pub quote_dec : Option Queue → ℤ × Option Queue
quote_dec none = (pos 0, none)
quote_dec (some q) = (to_int (dec32 q.quotes), some (record q { quotes = dec32 q.quotes }))

unfoldable pub quote_inc : Option Queue → ℤ × Option Queue
quote_inc none = (pos 0, none)
quote_inc (some q) = (to_int (inc32 q.quotes), some (record q { quotes = inc32 q.quotes }))

pub qlen : Option Queue → ℤ
unfolding to_int
qlen none = pos 0
qlen (some q) = to_int q.qlen

pub qempty : Option Queue → Bool
qempty none = true
qempty (some q) = if ltb 0 q.qlen then false else true

-- `smp_qinit` on the zeroed memory of `smp_queue_create`: the reference that the creator holds is
-- counted from 0.
qinit : Option (Ptr → Cmd (Unit {0})) → Queue
qinit free_node = record {
  qlen = 0;
  elems = null;
  tail = null;
  free_qnode = free_node;
  quotes = inc32 0;
}

-- `smp_queue_create`
pub create : Ptr → Option (Ptr → Cmd (Unit {0})) → Cmd (Option Queue)
unfolding qinit
create fresh free_node =
    if fresh == null
    then (do call set_os_error; call set_os_error; call set_os_error; pure none)
    else pure (some (qinit free_node))

-- `smp_qnode_create` and `smp_qnode_init`
pub qnode_create : Ptr → Bool → Ptr → Cmd Ptr
unfolding calloc
qnode_create fresh free_qdata data_ptr = do
  node ← calloc fresh (record {
    prev = null;
    next = null;
    item = record { qdata = data_ptr; free_qdata = free_qdata };
  })
  if node == null then (do call set_os_error; pure null) else pure node

-- `smp_qfront`, `smp_qrear`, through `smp_cnt_qnode`
pub qfront : Option Queue → Ptr
qfront none = null
qfront (some q) = q.elems

pub qrear : Option Queue → Ptr
qrear none = null
qrear (some q) = q.tail

-- `smp_qnode_prev`, `smp_qnode_next`: round the ends.
pub qnode_prev : Option Queue → Ptr → Cmd Ptr
unfolding load qrear
qnode_prev none node = pure null
qnode_prev (some q) node =
    if node == null
    then pure null
    else do n ← load node; if n.prev == null then pure (qrear (some q)) else pure n.prev

pub qnode_next : Option Queue → Ptr → Cmd Ptr
unfolding load qfront
qnode_next none node = pure null
qnode_next (some q) node =
    if node == null
    then pure null
    else do n ← load node; if n.next == null then pure (qfront (some q)) else pure n.next

-- The two branches of `smp_qenter`.
enter_first : Queue → Ptr → Cmd Queue
unfolding set_prev set_next
enter_first q node = do
  set_next node null
  set_prev node null
  pure (record q { elems = node; tail = node; qlen = inc64 q.qlen })

enter_behind : Queue → Ptr → Cmd Queue
unfolding set_prev set_next
enter_behind q node = do
  set_next q.tail node
  set_prev node q.tail
  set_next node null
  pure (record q { tail = node; qlen = inc64 q.qlen })

pub qenter : Option Queue → Ptr → Cmd (Status × Option Queue)
unfolding enter_first enter_behind
qenter none node = pure (smp_failure, none)
qenter (some q) node = if node == null then pure (smp_failure, some q) else do
  q' ← (if (q.qlen == 0) && (q.elems == null) then enter_first q node else enter_behind q node)
  pure (smp_ok, some q')

pub qnode_destory : Ptr → Cmd Status
unfolding load free
qnode_destory node = if node == null then pure smp_ok else do
  n ← load node
  if n.item.free_qdata && not (n.item.qdata == null) then call (free_data n.item.qdata) else pure tt
  free node
  pure smp_ok

-- `smp_qinsert`
insert_done : Ptr → Status × Option Queue → Cmd (Ptr × Option Queue)
unfolding qnode_destory
insert_done node (smp_ok, q) = pure (node, q)
insert_done node (smp_failure, q) = qnode_destory node >>= λ _. pure (null, q)

pub qinsert : Option Queue → Ptr → Bool → Ptr → Cmd (Ptr × Option Queue)
unfolding qnode_create qenter insert_done
qinsert none data_ptr free_qdata fresh = pure (null, none)
qinsert (some q) data_ptr free_qdata fresh = if data_ptr == null then pure (null, some q) else do
  node ← qnode_create fresh free_qdata data_ptr
  if node == null
      then (do call (set_error queue_node_failed); pure (null, some q))
      else (qenter (some q) node >>= insert_done node)

-- The links of the queue without its first node.
unlink_front : Queue → Cmd Queue
unfolding load set_prev
unlink_front q =
    if q.tail == q.elems
    then pure (record q { elems = null; tail = null })
    else do n ← load q.elems; set_prev n.next null; pure (record q { elems = n.next })

pub qnode_remove : Option Queue → Cmd (Ptr × Option Queue)
unfolding unlink_front set_prev set_next
qnode_remove none = pure (null, none)
qnode_remove (some q) = if (q.elems == null) || (q.qlen == 0) then pure (null, some q) else do
  q' ← unlink_front q
  set_next q.elems null
  set_prev q.elems null
  pure (q.elems, some (record q' { qlen = dec64 q.qlen }))

pub qnode_delete : Option Queue → Cmd (Status × Option Queue)
unfolding qnode_remove qnode_destory
qnode_delete none = pure (smp_ok, none)
qnode_delete (some q) = if (q.elems == null) || (q.qlen == 0) then pure (smp_ok, some q) else do
  (node, q') ← qnode_remove (some q)
  if node == null then pure (smp_failure, q') else (do st ← qnode_destory node; pure (st, q'))

-- The `while` loop of `smp_qclean`, which takes a node each round; a queue without `free_qnode`
-- leaves it after the first.
free_removed : Queue → Ptr → Cmd Bool
free_removed q node = elim q.free_qnode [
  | none ↦ pure false
  | some free_node ↦ free_node node >> pure true
]

clean_next : (Queue → Cmd (Option Queue)) → Ptr → Option Queue → Cmd (Option Queue)
unfolding free_removed
clean_next loop node none = pure none
clean_next loop node (some q) =
    if node == null
    then pure (some q)
    else do again ← free_removed q node; if again then loop q else pure (some q)

clean_loop : ℕ → Queue → Cmd (Option Queue)
unfolding qnode_remove clean_next
clean_loop zero q = λ _. out_of_fuel
clean_loop (suc k) q = qnode_remove (some q) >>= λ (node, q'). clean_next (clean_loop k) node q'

emptied : Option Queue → Option Queue
emptied none = none
emptied (some q) = some (record q { elems = null; tail = null; qlen = 0 })

-- `smp_qclean`: each round takes a node, so `qlen + 1` rounds are enough.
pub qclean : Option Queue → Cmd (Status × Option Queue)
unfolding clean_loop emptied
qclean none = pure (smp_ok, none)
qclean (some q) =
    if q.elems == null
    then pure (smp_ok, some q)
    else do q' ← clean_loop (q.qlen + 1) q; pure (smp_ok, emptied q')

-- `smp_qdestory`: the last reference cleans the queue and frees it, which leaves `none`.
pub qdestory : Option Queue → Cmd (Status × Option Queue)
unfolding qclean
qdestory none = pure (smp_ok, none)
qdestory (some q) =
    let q' = record q { quotes = dec32 q.quotes } in
    if dec32 q.quotes == 0
    then (do (st, q'') ← qclean (some q'); pure (smp_ok, none))
    else (do call (set_error queue_quoted); pure (smp_failure, some q'))

-- The loop of `smp_queue_traversal` and `smp_qnode_traversal`: `visit` gets each node.
visit_loop : ℕ → Ptr → Cmd (Unit {0})
unfolding load
visit_loop zero node = λ _. out_of_fuel
visit_loop (suc k) node =
    if node == null then pure tt else do call (visit node); n ← load node; visit_loop k n.next

pub traversal : Option Queue → Cmd Status
unfolding visit_loop
traversal none = pure smp_ok
traversal (some q) =
    if (q.elems == null) || (q.qlen == 0)
    then pure smp_ok
    else do visit_loop (q.qlen + 1) q.elems; pure smp_ok
