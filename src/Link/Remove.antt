-- ===== src/Link/Remove.antt =====
-- `smp_link_node_rm_athead`: the first node goes, and is kept for reuse.
use smpcil.Base.{
  ◌≡◌, refl, ◌∙◌, true, false, some, Option, List, [], ◌∷◌, arith, Ptr, null, Bool-cases, inl, inr,
  ◌==◌,
}
use smpcil.Store.{Store, write, poke}
use smpcil.Store.Returns
use smpcil.Store.Returns.{Returns, returns, Holds, load-ok, Holds-poke_self, Holds-poke_other}
use smpcil.Dll.{Node}
use smpcil.Dll.Links.{set_prev-ok, set_next-ok, set_item-ok}
use smpcil.Dll.Seg.{nil, has, ne_of_has, ends_of_nil, frame, Front, front, Seg-Front, Seg-set_prev}
use smpcil.Link.{Link, rm_node, rm_first, node_recover, take_out, rm_athead}
use smpcil.Link.Valid.{spares, more, Spare-frame, IsLink, not_of_spares}

-- The node `p` stands alone, outside the link.
record Detached (xs : List (Ptr × Ptr)) (ps : List Ptr) (p data_ptr : Ptr) (link : Link)
    (s : Store (Node Ptr)) : Type 0 where
  pub alone : Holds s p (record { prev = null; next = null; item = data_ptr })
  pub outside : has p xs ≡ false
  pub not_spare : spares p ps ≡ false
  pub valid : IsLink s link xs ps

module _ {s : Store (Node Ptr)} (link : Link) (x : Ptr × Ptr) (ps : List Ptr) where
  rm_node-only :
      IsLink s link (x ∷ []) ps
      → Returns
          (λ link' s'. Detached [] ps link.node x.1 link' s' × (s'.calls ≡ s.calls))
          (rm_node link link.node s)
  unfolding rm_node rm_first write
  rm_node-only is = go (Seg-Front is.chain)
    where
      go :
          Front s link.tail null link.node x []
          → Returns
              (λ link' s'. Detached [] ps link.node x.1 link' s' × (s'.calls ≡ s.calls))
              (rm_node link link.node s)
      go (front q at here out rest) =
          let same : (link.node == link.node) ≡ true = ground arith in
          let end : (q == null) ≡ true = ground (arith, ends_of_nil rest) in
          let n1 : Node Ptr = record { prev = null; next = null; item = x.1 } in
          let here1 = Holds-poke_self here n1 in
          let not_in : spares link.node ps ≡ false = is.apart link.node (ground arith) in
          rw (same, load-ok here, end, set_next-ok here null, set_prev-ok here1 null)
            (returns (
              record {
                alone = Holds-poke_self here1 n1;
                outside = refl;
                not_spare = not_in;
                valid = record {
                  chain = nil refl refl;
                  count = omega (arith, is.count);
                  small = omega arith;
                  spare =
                      Spare-frame is.spare
                        (λ a i. ground (arith, not_of_spares a link.node ps i not_in));
                  apart = λ a i. ground arith;
                };
              },
              refl,
            ))

  rm_node-front :
      {y : Ptr × Ptr} {ys : List (Ptr × Ptr)}
      → IsLink s link (x ∷ y ∷ ys) ps
      → Returns
          (λ link' s'. Detached (y ∷ ys) ps link.node x.1 link' s' × (s'.calls ≡ s.calls))
          (rm_node link link.node s)
  unfolding rm_node rm_first write
  rm_node-front {y} {ys} is = go (Seg-Front is.chain)
    where
      go :
          Front s link.tail null link.node x (y ∷ ys)
          → Returns
              (λ link' s'. Detached (y ∷ ys) ps link.node x.1 link' s' × (s'.calls ≡ s.calls))
              (rm_node link link.node s)
      go (front q at here out rest) = second (Seg-Front rest)
        where
          second :
              Front s link.tail link.node q y ys
              → Returns
                  (λ link' s'. Detached (y ∷ ys) ps link.node x.1 link' s' × (s'.calls ≡ s.calls))
                  (rm_node link link.node s)
          second (front q' at' there out' rest') =
              let same : (link.node == link.node) ≡ true = ground arith in
              let there' : Holds s q (record { prev = link.node; next = q'; item = y.1 }) = there in
              let end : (q == null) ≡ false = ground (arith, there'.nonnull) in
              let apart : (link.node == q) ≡ false = ground arith in
              let m : Node Ptr = record { prev = null; next = q'; item = y.1 } in
              let n1 : Node Ptr = record { prev = null; next = null; item = x.1 } in
              let here1 = Holds-poke_other here q (some m) apart in
              let here2 = Holds-poke_self here1 n1 in
              let not_in : spares link.node ps ≡ false = is.apart link.node (ground arith) in
              let not_in' : spares q ps ≡ false = is.apart q (ground arith) in
              rw
                (
                  same,
                  load-ok here,
                  end,
                  set_prev-ok there' null,
                  set_next-ok here1 null,
                  set_prev-ok here2 null,
                )
                (returns (
                  record {
                    alone = Holds-poke_self here2 n1;
                    outside = out;
                    not_spare = not_in;
                    valid = record {
                      chain =
                          Seg-set_prev null rest (λ n e. ground arith)
                            (λ a j. ground (arith, ne_of_has a link.node ys j, ne_of_has a q ys j));
                      count = omega (arith, is.count, is.small);
                      small = omega (arith, is.small);
                      spare = Spare-frame is.spare (λ a i. ground (
                        arith,
                        not_of_spares a link.node ps i not_in,
                        not_of_spares a q ps i not_in',
                      ));
                      apart = λ a i. is.apart a (ground arith);
                    };
                  },
                  refl,
                ))

-- The node is kept.
node_recover-kept :
    {s : Store (Node Ptr)} (link : Link) (xs : List (Ptr × Ptr)) (ps : List Ptr) (p data_ptr : Ptr)
    → Detached xs ps p data_ptr link s
    → Returns
        (λ link' s'. IsLink s' link' xs (p ∷ ps) × (s'.calls ≡ s.calls))
        (node_recover link p s)
unfolding node_recover write
node_recover-kept {s} link xs ps p data_ptr d = elim (Bool-cases (link.recover == null)) [
  | inl none_kept ↦
      rw (set_next-ok h null, set_prev-ok h1 null, set_item-ok h2 null, none_kept)
        (returns (
          keep _ (record { nonnull = h.nonnull; holds = ground (arith, none_kept) })
              (λ a ne. ground arith),
          refl,
        ))
  | inr some_kept ↦
      rw
        (
          set_next-ok h null,
          set_prev-ok h1 null,
          set_item-ok h2 null,
          some_kept,
          set_next-ok h3 link.recover,
        )
        (returns (
          keep _ (record { nonnull = h.nonnull; holds = ground arith }) (λ a ne. ground arith),
          refl,
        ))
]
  where
    h : Holds s p (record { prev = null; next = null; item = data_ptr })
    h = d.alone

    n1 : Node Ptr
    n1 = record { prev = null; next = null; item = data_ptr }

    blank : Node Ptr
    blank = record { prev = null; next = null; item = null }

    h1 : Holds (poke p (some n1) s) p n1
    h1 = Holds-poke_self h n1

    h2 : Holds (poke p (some n1) (poke p (some n1) s)) p n1
    h2 = Holds-poke_self h1 n1

    h3 : Holds (poke p (some blank) (poke p (some n1) (poke p (some n1) s))) p blank
    h3 = Holds-poke_self h2 blank

    keep :
        (g : Store (Node Ptr))
        → Holds g p (record { prev = null; next = link.recover; item = null })
        → ((a : Ptr) → (a == p) ≡ false → g.heap a ≡ s.heap a)
        → IsLink g (record link { recover = p }) xs (p ∷ ps)
    keep g at same = record {
      chain = frame d.valid.chain (λ a i. same a (ground (arith, ne_of_has a p xs i d.outside)));
      count = d.valid.count;
      small = d.valid.small;
      spare =
          more at d.not_spare
            (Spare-frame d.valid.spare (λ a i. same a (not_of_spares a p ps i d.not_spare)));
      apart = λ a i. ground (arith, d.valid.apart a i, ne_of_has a p xs i d.outside);
    }

-- The link without its first node, which is kept.
pub record Taken (s : Store (Node Ptr)) (x : Ptr × Ptr) (xs : List (Ptr × Ptr)) (ps : List Ptr)
    (r : Ptr × Option Link) (s' : Store (Node Ptr)) : Type 0 where
  pub answer : r.0 ≡ x.1
  pub after : Link
  pub kept : r.1 ≡ some after
  pub valid : IsLink s' after xs (x.0 ∷ ps)
  pub calls : s'.calls ≡ s.calls

module _ {s : Store (Node Ptr)} (link : Link) (x : Ptr × Ptr) (ps : List Ptr) where
  rm_node-Detached :
      (xs : List (Ptr × Ptr))
      → IsLink s link (x ∷ xs) ps
      → Returns
          (λ link' s'. Detached xs ps link.node x.1 link' s' × (s'.calls ≡ s.calls))
          (rm_node link link.node s)
  rm_node-Detached [] is = rm_node-only link x ps is
  rm_node-Detached (y ∷ ys) is = rm_node-front link x ps is

  -- `smp_link_node_rm_athead` of a link with a node returns the data of the first and leaves the
  -- link of the others; the node is the first that is kept for reuse.
  pub rm_athead-takes :
      (xs : List (Ptr × Ptr))
      → IsLink s link (x ∷ xs) ps
      → Returns (Taken s x xs ps) (rm_athead (some link) s)
  unfolding rm_athead take_out
  rm_athead-takes xs is = go (Seg-Front is.chain)
    where
      go :
          Front s link.tail null link.node x xs
          → Returns (Taken s x xs ps) (rm_athead (some link) s)
      go (front q at here out rest) =
          let test : (link.node == null) ≡ false = ground (arith, here.nonnull) in
          rw test (
            Returns.bind (rm_node-Detached xs is) λ link' s' (d, same). rw (load-ok d.alone) (
              Returns.bind (node_recover-kept link' xs ps link.node x.1 d)
                λ link'' s'' (valid, same'). returns (record {
                  answer = refl;
                  after = link'';
                  kept = refl;
                  valid = rw at at valid;
                  calls = same' ∙ same;
                })))
