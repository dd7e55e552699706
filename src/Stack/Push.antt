-- ===== src/Stack/Push.antt =====
-- `smp_stack_push` and `smp_stack_recover` on a well-formed stack.
use smpcil.Base.{
  ◌+◌, ◌^◌, ◌<◌, ◌≡◌, refl, sym, ◌⊎◌, true, false, some, List, [], ◌∷◌, All, All-map, arith, Ptr,
  null, ◌==◌, leb, if◌then◌else◌, length, to_int, size_mod,
}
use smpcil.Store.{Store, write}
use smpcil.Store.Returns.{Returns, returns, bind, Holds, load-ok, modify-ok, Holds-poke_self}
use smpcil.Dll.Seg.{has}
use smpcil.Stack.{
  Stack, StackNode, data_of, node_create, reuse_node, push_node, push, recover, appoint_bytes,
  stack_filled?, stack_size, stack_length,
}
use smpcil.Stack.Chain.{
  Chain, above, Chain-Top, Top, top, null_of_bottom, Chain-poke, IsStack, has-apart,
}

-- Where the next node comes from: the first for reuse, or the new chunk.
abbrev pub node_of : {D : Type 0} → Ptr → List (Ptr × D) → Ptr
node_of chunk [] = chunk
node_of chunk (y ∷ ys) = y.0

abbrev pub bytes_of : {D : Type 0} → D → D → List (Ptr × D) → D
bytes_of zeroed found [] = found
bytes_of zeroed found (y ∷ ys) = zeroed

abbrev pub rest_of : {D : Type 0} → List (Ptr × D) → List (Ptr × D)
rest_of [] = []
rest_of (y ∷ ys) = ys

-- A node that is on neither chain.
pub record Loose {D Pool : Type 0} (s : Store (StackNode D)) (stack : Stack D Pool)
    (xs ys : List (Ptr × D)) (node : Ptr) (d : D) : Type 0 where
  pub is : IsStack s stack xs ys
  pub here : Holds s node (record { below = null; bytes = d })
  pub off : has node xs ≡ false
  pub unused : has node ys ≡ false

module _ {D Pool : Type 0} {s : Store (StackNode D)} (stack : Stack D Pool) (zeroed found : D)
    (chunk : Ptr) {xs : List (Ptr × D)} where
  reused :
      (y : Ptr × D) (ys : List (Ptr × D))
      → IsStack s stack xs (y ∷ ys)
      → Top s stack.idel y ys
      → Returns
          (λ r s'. (r.0 ≡ y.0) × (r.1.appoint ≡ stack.appoint) × Loose s' r.1 xs ys r.0 zeroed)
          (node_create zeroed chunk found stack s)
  unfolding node_create reuse_node
  reused y ys is (top q at here out rest) =
      let test : (stack.idel == null) ≡ false = ground (arith, here.nonnull) in
      let off : has stack.idel xs ≡ false =
        has-apart stack.idel xs (y ∷ ys) is.apart (ground arith) in
      let blank : StackNode D = record { below = null; bytes = zeroed } in
      rw (test, load-ok here, modify-ok here)
        (returns (
          at,
          refl,
          record {
            is = record {
              nodes = Chain-poke stack.idel (some blank) is.nodes off;
              spare = Chain-poke stack.idel (some blank) rest out;
              apart = All-map xs (λ x h. ground (arith, h)) is.apart;
              count = is.count;
              end = is.end;
            };
            here = Holds-poke_self here blank;
            off = off;
            unused = out;
          },
        ))

  node_create-Loose :
      (ys : List (Ptr × D))
      → IsStack s stack xs ys
      → 0 < chunk
      → has chunk xs ≡ false
      → has chunk ys ≡ false
      → Returns
          (λ r s'.
            (r.0 ≡ node_of chunk ys)
            × (r.1.appoint ≡ stack.appoint)
            × Loose s' r.1 xs (rest_of ys) r.0 (bytes_of zeroed found ys))
          (node_create zeroed chunk found stack s)
  unfolding node_create write
  node_create-Loose [] is pos off unused =
      let none_spare : (stack.idel == null) ≡ true = ground (arith, null_of_bottom is.spare) in
      let test : (chunk == null) ≡ false = ground (arith, pos) in
      let fresh : StackNode D = record { below = null; bytes = found } in
      rw (none_spare, test)
        (returns (
          refl,
          refl,
          record {
            is = record {
              nodes = Chain-poke chunk (some fresh) is.nodes off;
              spare = Chain-poke chunk (some fresh) is.spare refl;
              apart = is.apart;
              count = is.count;
              end = is.end;
            };
            here = record { nonnull = ground (arith, pos); holds = ground arith };
            off = off;
            unused = refl;
          },
        ))
  node_create-Loose (y ∷ ys) is pos off unused = reused y ys is (Chain-Top is.spare)

apart-cons :
    {D : Type 0} (node : Ptr) (d : D) (xs ys : List (Ptr × D))
    → has node xs ≡ false
    → All (λ (x : Ptr × D). has x.0 ys ≡ false) xs
    → All (λ (x : Ptr × D). has x.0 ((node, d) ∷ ys) ≡ false) xs
apart-cons node d [] ys off h = tt
apart-cons node d (x ∷ xs) ys off h =
    (ground (arith, off, h), apart-cons node d xs ys (ground (arith, off)) h.1)

module _ {D Pool : Type 0} where
  -- The links of a loose node that goes on top.
  push_node-pushes :
      (s : Store (StackNode D)) (stack : Stack D Pool) (elem_data : Ptr) (xs ys : List (Ptr × D))
      (node : Ptr) (d : D)
      → Loose s stack xs ys node d
      → length xs + 1 < size_mod
      → Returns
          (λ r s'.
            (r.0 ≡ data_of node)
            × IsStack s' r.1 ((node, appoint_bytes stack.appoint elem_data d) ∷ xs) ys)
          (push_node elem_data (node, stack) s)
  unfolding push_node
  push_node-pushes s stack elem_data xs ys node d l bound =
      let test : (node == null) ≡ false = ground (arith, l.here.nonnull) in
      let below : (if stack.top == null then stack.bottom else stack.top) ≡ stack.top =
        ground (arith, l.is.end) in
      let set : StackNode D = record {
        below = null;
        bytes = appoint_bytes stack.appoint elem_data d;
      } in
      let linked : StackNode D = record {
        below = stack.top;
        bytes = appoint_bytes stack.appoint elem_data d;
      } in
      let here = Holds-poke_self l.here set in
      let keep = λ (p : Ptr) (zs : List (Ptr × D)) (c : Chain s p zs) (o : has node zs ≡ false).
        Chain-poke node (some linked) (Chain-poke node (some set) c o) o in
      rw (test, modify-ok l.here, below, modify-ok here)
        (returns (
          refl,
          record {
            nodes = above (Holds-poke_self here linked) l.off (keep stack.top xs l.is.nodes l.off);
            spare = keep stack.idel ys l.is.spare l.unused;
            apart = (l.unused, l.is.apart);
            count = omega (arith, l.is.count, bound);
            end = l.is.end;
          },
        ))

  stack_filled?-eq :
      (stack : Stack D Pool)
      → stack.size < 2 ^ 31
      → stack.curr_size < 2 ^ 31
      → stack_filled? stack ≡ (if stack.size == 0 then false else leb stack.size stack.curr_size)
  unfolding stack_filled? stack_size stack_length to_int
  stack_filled?-eq stack small short = ground (arith, small, short)

  -- On a stack that is not full, whose size and count are below 2^31, with data that are not NULL,
  -- and with an address for a node that is not in the stack,
  -- `smp_stack_push` puts a node on top and returns the address of its bytes. It is the first node
  -- for reuse, wiped, or else the new one; `appoint` makes its bytes.
  pub push-pushes :
      {s : Store (StackNode D)} (stack : Stack D Pool) (zeroed found : D) (chunk elem_data : Ptr)
      {xs : List (Ptr × D)} (ys : List (Ptr × D))
      → IsStack s stack xs ys
      → ((stack.size ≡ 0) ⊎ (length xs < stack.size))
      → stack.size < 2 ^ 31
      → length xs < 2 ^ 31
      → 0 < elem_data
      → 0 < chunk
      → has chunk xs ≡ false
      → has chunk ys ≡ false
      → Returns
          (λ r s'.
            (r.0 ≡ data_of (node_of chunk ys))
            × IsStack s' r.1
                ((
                  node_of chunk ys,
                  appoint_bytes stack.appoint elem_data (bytes_of zeroed found ys),
                )
                  ∷ xs)
                (rest_of ys))
          (push zeroed chunk found stack elem_data s)
  unfolding push
  push-pushes {s} stack zeroed found chunk elem_data {xs} ys is free small short given pos off
        unused =
      let test : (elem_data == null) ≡ false = ground (arith, given) in
      let count : stack.curr_size < 2 ^ 31 = omega (arith, is.count, short) in
      let room : (if stack.size == 0 then false else leb stack.size stack.curr_size) ≡ false =
        ground (arith, free, is.count) in
      rw (test, stack_filled?-eq stack small count, room)
        (bind (node_create-Loose stack zeroed found chunk ys is pos off unused)
          λ r s' (at, same, l).
            let bytes = bytes_of zeroed found ys in
            rw (sym at, sym same)
              (push_node-pushes s' r.1 elem_data xs (rest_of ys) r.0 bytes l
                (omega (arith, short))))

  -- `smp_stack_recover` puts a node that is on neither chain in front of those for reuse.
  pub recover-spares :
      {s : Store (StackNode D)} (stack : Stack D Pool) (node : Ptr) (d : D) {xs ys : List (Ptr × D)}
      → Loose s stack xs ys node d
      → Returns (λ stack' s'. IsStack s' stack' xs ((node, d) ∷ ys)) (recover stack node s)
  unfolding recover
  recover-spares {s} stack node d {xs} {ys} l =
      let test : (node == null) ≡ false = ground (arith, l.here.nonnull) in
      let linked : StackNode D = record { below = stack.idel; bytes = d } in
      rw (test, modify-ok l.here)
        (returns (record {
          nodes = Chain-poke node (some linked) l.is.nodes l.off;
          spare =
              above (Holds-poke_self l.here linked) l.unused
                (Chain-poke node (some linked) l.is.spare l.unused);
          apart = apart-cons node d xs ys l.off l.is.apart;
          count = l.is.count;
          end = l.is.end;
        }))
