-- ===== src/Rbt/Steps.antt =====
-- The stores of smp_rbt.c that hang a subtree elsewhere: below another parent, and at the link
-- above.
use smpcil.Base.{
  true, false, ◌≡◌, ◌≢◌, refl, some, List, [], ◌∷◌, arith, Ptr, ◌==◌, if◌then◌else◌, Option,
  Bool-cases, inl, inr,
}
use smpcil.Store.{Store, ok, pure, poke, write}
use smpcil.Store.Returns.{Returns, returns, modify-ok, Holds-poke_self}
use smpcil.Rbt.{Rnode, Rbt, Side, on_left, on_right, set_parent, replace_child}
use smpcil.Rbt.Rep.{Tree, leaf, branch, Entry, Rep, empty, full, has, Rep-frame, ne-nil, node}
use smpcil.Rbt.Place.{
  linked, Linked, near-ok, far-ok, set_near-ok, Linked-poke, Apart, Step, on_path, ApartPath, Hole,
  top, under, Hole-frame,
}

-- A store leaves the other addresses as they are.
pub poke-other :
    (s : Store Rnode) (p a : Ptr) (c : Option Rnode)
    → (a == p) ≡ false
    → (poke p c s).heap a ≡ s.heap a
unfolding write
poke-other s p a c ne = rw ne refl

pub has-ne : (a b : Ptr) (t : Tree) → has a t ≡ true → has b t ≡ false → (a == b) ≡ false
has-ne a b t i o = elim (Bool-cases (a == b)) [
  | inl e ↦ let same : a ≡ b = ground arith in cc
  | inr n ↦ n
]

pub on_path-ne :
    (a b : Ptr) (fs : List Step) → on_path a fs ≡ true → on_path b fs ≡ false → (a == b) ≡ false
on_path-ne a b fs i o = elim (Bool-cases (a == b)) [
  | inl e ↦ let same : a ≡ b = ground arith in cc
  | inr n ↦ n
]

-- `if (tmp->left != &rbt->nil) tmp->left->parent = node`: the subtree gets another parent.
pub adopt :
    (t : Rbt) (s : Store Rnode) {x y b : Ptr} (B : Tree)
    → Rep s t.nil y b B
    → Apart B
    → Returns
        (λ _ s'.
          Rep s' t.nil x b B
          × (s'.calls ≡ s.calls)
          × ((a : Ptr) → has a B ≡ false → s'.heap a ≡ s.heap a))
        ((if b == t.nil then pure tt else set_parent b x) s)
unfolding set_parent
adopt t s {b} leaf (empty e) apart =
    let test : (b == t.nil) ≡ true = ground arith in rw test (returns (empty e, refl, λ a o. refl))
adopt t s {x} (branch l q e r) (full {a = c} {b = d} at' h n rl rr) (out, out', sep, al, ar) =
    let m : Rnode = node x c d e in
    rw (at', ne-nil n, modify-ok h (λ n. record n { parent = x }))
      (returns (
        full refl (Holds-poke_self h m) n
            (Rep-frame rl (λ a i. poke-other s q a (some m) (has-ne a q l i out)))
            (Rep-frame rr (λ a i. poke-other s q a (some m) (has-ne a q r i out'))),
        refl,
        λ a o. poke-other s q a (some m) (ground arith),
      ))

-- The link that holds `x` is the one that the test of `replace_child` finds.
pub root-ne :
    {s : Store Rnode} {nil up c : Ptr} {t : Tree} (x : Ptr)
    → Rep s nil up c t
    → x ≢ nil
    → has x t ≡ false
    → (x == c) ≡ false
root-ne x (empty e) n out = ground arith
root-ne x (full e h n' l r) n out = ground arith

replace-ok :
    (side : Side) (t : Rbt) {s : Store Rnode} {p u x c : Ptr} {e : Entry} (y : Ptr)
    → Linked s side p u x c e
    → (x == c) ≡ false
    → (p == t.nil) ≡ false
    → replace_child t p x y s ≡ ok t (poke p (some (linked side u y c e)) s)
unfolding replace_child
replace-ok on_left t {x} y h ne n =
    let same : (x == x) ≡ true = ground arith in rw (n, near-ok h, same, set_near-ok h y) refl
replace-ok on_right t {x} y h ne n = rw (n, far-ok h, ne, set_near-ok h y) refl

pub replace_child-Hole :
    (t : Rbt) (s : Store Rnode) {x par : Ptr} (y : Ptr) (fs : List Step)
    → Hole s t.nil t.root x par fs
    → ApartPath fs
    → x ≢ t.nil
    → on_path x fs ≡ false
    → Returns
        (λ t' s'.
          (t'.nil ≡ t.nil)
          × (t'.size ≡ t.size)
          × Hole s' t.nil t'.root y par fs
          × (s'.calls ≡ s.calls)
          × ((a : Ptr) → on_path a fs ≡ false → s'.heap a ≡ s.heap a))
        (replace_child t par x y s)
unfolding replace_child
replace_child-Hole t s {par} y [] (top e e') apart n out =
    let test : (par == t.nil) ≡ true = ground arith in
    rw test (returns (refl, refl, top refl e', refl, λ a o. refl))
replace_child-Hole t s {x} y (f ∷ fs) (under {up} {c} e h n' sib above) (o1, o2, sep, asib, apath) n
      out =
    let m : Option Rnode = some (linked f.side up y c f.entry) in
    let other_link : (x == c) ≡ false = root-ne x sib n (ground arith) in
    rw (e, replace-ok f.side t y h other_link (ne-nil n'))
      (returns (
        refl,
        refl,
        under refl (Linked-poke h up y c) n'
            (Rep-frame sib (λ a i. poke-other s f.above a m (has-ne a f.above f.sibling i o1)))
            (Hole-frame above (λ a i. poke-other s f.above a m (on_path-ne a f.above fs i o2))),
        refl,
        λ a o. poke-other s f.above a m (ground arith),
      ))
