-- ===== src/Dll/Links.antt =====
-- The stores to the links of a node that is there.
use smpcil.Base.{◌≡◌, some, Ptr}
use smpcil.Store.{Store, ok, poke}
use smpcil.Store.Returns.{Holds, modify-ok}
use smpcil.Dll.{Node, set_prev, set_next, set_item}

module _ {E : Type 0} {s : Store (Node E)} {p : Ptr} {n : Node E} (e : Holds s p n) where
  pub set_prev-ok : (q : Ptr) → set_prev p q s ≡ ok tt (poke p (some (record n { prev = q })) s)
  unfolding set_prev
  set_prev-ok q = modify-ok e _

  pub set_next-ok : (q : Ptr) → set_next p q s ≡ ok tt (poke p (some (record n { next = q })) s)
  unfolding set_next
  set_next-ok q = modify-ok e _

  pub set_item-ok : (i : E) → set_item p i s ≡ ok tt (poke p (some (record n { item = i })) s)
  unfolding set_item
  set_item-ok i = modify-ok e _
