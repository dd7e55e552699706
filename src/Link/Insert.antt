-- ===== src/Link/Insert.antt =====
-- `smp_link_insert`: a node, one kept for reuse if there is any, goes behind the others.
use smpcil.Base.{
  ◌+◌, ◌<◌, ◌≡◌, ◌≢◌, refl, ◌∙◌, true, false, some, Option, List, [], ◌∷◌, ◌++◌, arith, length,
  length-append, if◌then◌else◌, Ptr, null, size_mod, inc64, ◌==◌,
}
use smpcil.Store.{Store, write, ◌>>=◌, ◌>>◌, pure}
use smpcil.Store.Returns
use smpcil.Store.Returns.{Returns, returns, Holds, load-ok, Holds-poke_self, Holds-poke_other}
use smpcil.Dll.{Node, set_item}
use smpcil.Dll.Links.{set_prev-ok, set_next-ok, set_item-ok}
use smpcil.Dll.Seg.{
  nil, cons, has, Last, found, Seg-Last, Seg-snoc, has-append, ne_of_has, ends_of_nil, frame, Front,
  front, Seg-Front,
}
use smpcil.Link.{Link, lnode_create, new_node, enter, link_insert}
use smpcil.Link.Valid.{
  spares, Spare, done, Spare-frame, IsLink, First, first, Spare-First, not_of_spares,
}

-- Where the new node comes from, and what is left for reuse.
abbrev pub chosen : Ptr → List Ptr → Ptr
chosen fresh [] = fresh
chosen fresh (p ∷ ps) = p

abbrev pub left_over : List Ptr → List Ptr
left_over [] = []
left_over (p ∷ ps) = ps

abbrev blank : Node Ptr
blank = record { prev = null; next = null; item = null }

-- The node stands alone, and the link is as it was.
record Made (s : Store (Node Ptr)) (link : Link) (xs : List (Ptr × Ptr)) (ps : List Ptr)
    (node : Ptr) (r : Ptr × Link) (s' : Store (Node Ptr)) : Type 0 where
  pub is_node : r.0 ≡ node
  pub alone : Holds s' node blank
  pub outside : has node xs ≡ false
  pub not_spare : spares node (left_over ps) ≡ false
  pub valid : IsLink s' r.1 xs (left_over ps)
  pub calls : s'.calls ≡ s.calls

module _ {s : Store (Node Ptr)} (link : Link) (xs : List (Ptr × Ptr)) (fresh : Ptr) where
  lnode_create-Made :
      (ps : List Ptr)
      → IsLink s link xs ps
      → fresh ≢ null
      → has fresh xs ≡ false
      → Returns (Made s link xs ps (chosen fresh ps)) (lnode_create link fresh s)
  unfolding lnode_create new_node write
  lnode_create-Made [] is nonnull out = go is.spare
    where
      go : Spare s link.recover [] → Returns (Made s link xs [] fresh) (lnode_create link fresh s)
      go (done e) =
          let test : (link.recover == null) ≡ true = ground arith in
          let test' : (fresh == null) ≡ false = ground arith in
          rw (test, test')
            (returns (record {
              is_node = refl;
              alone = record { nonnull = nonnull; holds = ground arith };
              outside = out;
              not_spare = refl;
              valid = record {
                chain = frame is.chain (λ a i. ground (arith, ne_of_has a fresh xs i out));
                count = is.count;
                small = is.small;
                spare = done e;
                apart = λ a i. refl;
              };
              calls = refl;
            }))
  lnode_create-Made (p ∷ ps) is nonnull out = go (Spare-First is.spare)
    where
      go :
          First s link.recover p ps
          → Returns (Made s link xs (p ∷ ps) p) (lnode_create link fresh s)
      go (first q at here not_in rest) =
          let here' : Holds s link.recover (record { prev = null; next = q; item = null }) =
            rw at here in
          let test : (link.recover == null) ≡ false = ground (arith, here'.nonnull) in
          let off : has p xs ≡ false = ground (arith, is.apart p) in
          rw (test, load-ok here', set_next-ok here' null)
            (returns (record {
              is_node = at;
              alone = record { nonnull = here.nonnull; holds = ground (arith, at) };
              outside = off;
              not_spare = not_in;
              valid = record {
                chain = frame is.chain (λ a i. ground (arith, ne_of_has a p xs i off, at));
                count = is.count;
                small = is.small;
                spare = Spare-frame rest (λ a i. ground (arith, not_of_spares a p ps i not_in, at));
                apart = λ a i. ground (arith, is.apart a i);
              };
              calls = refl;
            }))

-- The link with the node at its end.
pub record Entered (s : Store (Node Ptr)) (link : Link) (xs : List (Ptr × Ptr)) (ps : List Ptr)
    (node data_ptr : Ptr) (r : Ptr × Option Link) (s' : Store (Node Ptr)) : Type 0 where
  pub answer : r.0 ≡ node
  pub after : Link
  pub kept : r.1 ≡ some after
  pub valid : IsLink s' after (xs ++ ((node, data_ptr) ∷ [])) ps
  pub calls : s'.calls ≡ s.calls

module _ {s : Store (Node Ptr)} (link : Link) {node : Ptr} (data_ptr : Ptr) (ps : List Ptr)
    (there : Holds s node blank) (not_spare : spares node ps ≡ false) where
  enter-first :
      IsLink s link [] ps
      → Returns
          (Entered s link [] ps node data_ptr)
          ((do link'' ← enter link node; set_item node data_ptr; pure (node, some link'')) s)
  unfolding enter write
  enter-first is =
      let test : (link.node == null) ≡ true = ground (arith, ends_of_nil is.chain) in
      let n1 : Node Ptr = record { prev = null; next = null; item = data_ptr } in
      rw (test, set_item-ok there data_ptr)
        (returns (record {
          answer = refl;
          after = record link { node = node; tail = node; size = inc64 link.size };
          kept = refl;
          valid = record {
            chain = cons (Holds-poke_self there n1) refl (nil refl refl);
            count = omega (arith, is.count);
            small = omega arith;
            spare =
                Spare-frame is.spare (λ a i. ground (arith, not_of_spares a node ps i not_spare));
            apart = λ a i. ground arith;
          };
          calls = refl;
        }))

  enter-behind :
      {x : Ptr × Ptr} {xs : List (Ptr × Ptr)}
      → IsLink s link (x ∷ xs) ps
      → has node (x ∷ xs) ≡ false
      → length (x ∷ xs) + 1 < size_mod
      → Returns
          (Entered s link (x ∷ xs) ps node data_ptr)
          ((do link'' ← enter link node; set_item node data_ptr; pure (node, some link'')) s)
  unfolding enter write
  enter-behind {x} {xs} is out room = behind (Seg-Front is.chain) (Seg-Last is.chain)
    where
      behind :
          Front s link.tail null link.node x xs
          → Last s link.tail (x ∷ xs)
          → Returns
              (Entered s link (x ∷ xs) ps node data_ptr)
              ((do link'' ← enter link node; set_item node data_ptr; pure (node, some link'')) s)
      behind (front q at here' o rest) (found t at_tail end i) =
          let apart : (node == link.tail) ≡ false = ne_of_has link.tail node (x ∷ xs) i out in
          let test : (link.node == null) ≡ false = ground (arith, here'.nonnull) in
          let linked : Node Ptr = record t { next = node } in
          let n1 : Node Ptr = record { prev = link.tail; next = null; item = null } in
          let n2 : Node Ptr = record { prev = link.tail; next = null; item = data_ptr } in
          let node1 = Holds-poke_other there link.tail (some linked) apart in
          let node2 = Holds-poke_self node1 n1 in
          let tail_out : spares link.tail ps ≡ false = is.apart link.tail i in
          rw
            (
              test,
              set_next-ok at_tail node,
              set_prev-ok node1 link.tail,
              set_item-ok node2 data_ptr,
            )
            (returns (record {
              answer = refl;
              after = record link { tail = node; size = inc64 link.size };
              kept = refl;
              valid = record {
                chain = Seg-snoc node data_ptr is.chain out (record {
                  fresh = Holds-poke_self node2 n2;
                  linked = λ m e. ground arith;
                  same = λ a f g. ground arith;
                });
                count = omega (arith, is.count, length-append xs ((node, data_ptr) ∷ []));
                small = omega (arith, length-append xs ((node, data_ptr) ∷ []));
                spare = Spare-frame is.spare (λ a j. ground (
                  arith,
                  not_of_spares a node ps j not_spare,
                  not_of_spares a link.tail ps j tail_out,
                ));
                apart = λ a j.
                    ground (arith, is.apart a, has-append a (x ∷ xs) ((node, data_ptr) ∷ []));
              };
              calls = refl;
            }))

  enter-Entered :
      (xs : List (Ptr × Ptr))
      → IsLink s link xs ps
      → has node xs ≡ false
      → length xs + 1 < size_mod
      → Returns
          (Entered s link xs ps node data_ptr)
          ((do link'' ← enter link node; set_item node data_ptr; pure (node, some link'')) s)
  enter-Entered [] is out room = enter-first is
  enter-Entered (x ∷ xs) is out room = enter-behind is out room

-- `smp_link_insert` of data into a link, with an address from the pool for a node that is not in
-- the link, returns a node that is now the last of the chain, with the data: a kept node when there
-- is one, or else the pool's. The nodes before it keep their order and their data, and the other
-- kept nodes stay for reuse.
pub link_insert-appends :
    {s : Store (Node Ptr)} (link : Link) (xs : List (Ptr × Ptr)) (ps : List Ptr)
    (data_ptr fresh : Ptr)
    → IsLink s link xs ps
    → length xs + 1 < size_mod
    → data_ptr ≢ null
    → fresh ≢ null
    → has fresh xs ≡ false
    → Returns
        (Entered s link xs (left_over ps) (chosen fresh ps) data_ptr)
        (link_insert (some link) data_ptr fresh s)
unfolding link_insert
link_insert-appends {s} link xs ps data_ptr fresh is room some_data some_node out =
    let test : (data_ptr == null) ≡ false = ground arith in
    rw test (Returns.bind (lnode_create-Made link xs fresh ps is some_node out) go)
  where
    go :
        (a : Ptr × Link) (s' : Store (Node Ptr))
        → Made s link xs ps (chosen fresh ps) a s'
        → Returns (Entered s link xs (left_over ps) (chosen fresh ps) data_ptr) (
            (if a.0 == null
                then pure (null, some a.1)
                else (do link'' ← enter a.1 a.0; set_item a.0 data_ptr; pure (a.0, some link'')))
              s')
    go a s' made =
        let test : (chosen fresh ps == null) ≡ false = ground (arith, made.alone.nonnull) in
        rw (made.is_node, test)
          (Returns.mono
            (enter-Entered a.1 data_ptr (left_over ps) made.alone made.not_spare xs made.valid
              made.outside room)
            λ r s'' e. record {
              answer = e.answer;
              after = e.after;
              kept = e.kept;
              valid = e.valid;
              calls = e.calls ∙ made.calls;
            })
