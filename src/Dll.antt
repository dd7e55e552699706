-- ===== src/Dll.antt =====
-- Doubly linked nodes, as smp_queue and smp_link have them, and the chains that they form.
pub mod Links
pub mod Seg
use smpcil.Base.{Ptr}
use smpcil.Store.{Cmd, modify}

-- `item` is what the node carries besides its links.
pub record Node (E : Type 0) : Type 0 where
  pub prev : Ptr
  pub next : Ptr
  pub item : E

module _ {E : Type 0} where
  unfoldable pub set_prev : Ptr → Ptr → Cmd (Node E) (Unit {0})
  unfolding modify
  set_prev p q = modify p (λ n. record n { prev = q })

  unfoldable pub set_next : Ptr → Ptr → Cmd (Node E) (Unit {0})
  unfolding modify
  set_next p q = modify p (λ n. record n { next = q })

  unfoldable pub set_item : Ptr → E → Cmd (Node E) (Unit {0})
  unfolding modify
  set_item p e = modify p (λ n. record n { item = e })
