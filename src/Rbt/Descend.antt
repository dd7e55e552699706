-- ===== src/Rbt/Descend.antt =====
-- The first loop of `smp_rnode_insert`: the way down to the place of a key.
use smpcil.Base.{
  ℕ, zero, suc, ◌+◌, ◌≤◌, ◌<◌, Bool, true, false, ◌≡◌, ◌≢◌, refl, sym, ◌∙◌, ap, List, [], ◌∷◌, ◌++◌,
  arith, Ptr, ◌==◌, if◌then◌else◌, length, ℤ, positive, All, All-append, All-map, Bool-cases, inl,
  inr,
}
use smpcil.Store.{Store, Run, ok}
use smpcil.Store.Returns.{Holds, load-ok}
use smpcil.Rbt.{Rnode, Rbt, Side, on_left, on_right, Color, red, black, child_of}
use smpcil.Rbt.Ops.{side_of, descend}
use smpcil.Rbt.Rep.{
  Tree, leaf, branch, Entry, count, in_order, append_assoc, Rep, empty, full, ne-nil, Preorder,
  AllBelow, AllAbove, IsOrdered,
}
use smpcil.Rbt.Place.{mk, Step, plug, Placed}
use smpcil.Rbt.Zoom.{root_color, zoom_in}
use smpcil.Rbt.Colors.{red_or_black, red-ne_black, NoRedRed, GoodPath, TopBlack, path_color}

-- The nodes before and behind the end of a path.
abbrev before_step : Side → List (Ptr × Ptr) → (Ptr × Ptr) → List (Ptr × Ptr) → List (Ptr × Ptr)
before_step on_left xs x sib = xs
before_step on_right xs x sib = xs ++ (sib ++ (x ∷ []))

abbrev behind_step : Side → List (Ptr × Ptr) → (Ptr × Ptr) → List (Ptr × Ptr) → List (Ptr × Ptr)
behind_step on_left xs x sib = x ∷ (sib ++ xs)
behind_step on_right xs x sib = xs

abbrev pub nodes_before : List Step → List (Ptr × Ptr)
nodes_before [] = []
nodes_before (f ∷ fs) =
    before_step f.side (nodes_before fs) (f.above, f.entry.key) (in_order f.sibling)

abbrev pub nodes_behind : List Step → List (Ptr × Ptr)
nodes_behind [] = []
nodes_behind (f ∷ fs) =
    behind_step f.side (nodes_behind fs) (f.above, f.entry.key) (in_order f.sibling)

in_order-step :
    (side : Side) (bs : List (Ptr × Ptr)) (t far : Tree) (p : Ptr) (e : Entry)
    (cs : List (Ptr × Ptr))
    → bs ++ (in_order (mk side t p e far) ++ cs)
      ≡ before_step side bs (p, e.key) (in_order far)
        ++ (in_order t ++ behind_step side cs (p, e.key) (in_order far))
in_order-step on_left bs t far p e cs =
    ap (λ xs. bs ++ xs) (append_assoc (in_order t) ((p, e.key) ∷ in_order far) cs)
in_order-step on_right bs t far p e cs =
    ap (λ xs. bs ++ xs) (append_assoc (in_order far) ((p, e.key) ∷ in_order t) cs)
    ∙ (ap (λ xs. bs ++ xs) (sym (append_assoc (in_order far) ((p, e.key) ∷ []) (in_order t ++ cs)))
        ∙ sym (append_assoc bs (in_order far ++ ((p, e.key) ∷ [])) (in_order t ++ cs)))

pub in_order-split :
    (fs : List Step) (t : Tree)
    → in_order (plug fs t) ≡ nodes_before fs ++ (in_order t ++ nodes_behind fs)
in_order-split [] t = sym (append_nil (in_order t))
  where
    append_nil : (xs : List (Ptr × Ptr)) → xs ++ [] ≡ xs
    append_nil [] = refl
    append_nil (x ∷ xs) = ap (λ t. x ∷ t) (append_nil xs)
in_order-split (f ∷ fs) t =
    in_order-split fs (mk f.side t f.above f.entry f.sibling)
    ∙ in_order-step f.side (nodes_before fs) t f.sibling f.above f.entry (nodes_behind fs)

-- The root is black, when the path has not begun.
abbrev pub TopIsBlack : List Step → Tree → Type 0
TopIsBlack [] T = root_color T ≡ black
TopIsBlack (f ∷ fs) T = Unit

TopBlack-cons :
    (f : Step) (fs : List Step) (T : Tree)
    → TopBlack fs
    → TopIsBlack fs T
    → root_color T ≡ f.entry.color
    → TopBlack (f ∷ fs)
TopBlack-cons f [] T h top same = sym same ∙ top
TopBlack-cons f (g ∷ fs) T h top same = h

module _ (key_cmp : Ptr → Ptr → ℤ) (laws : Preorder key_cmp) (key : Ptr) where
  abbrev pub side_by : Bool → Side
  side_by b = if b then on_left else on_right

  -- The path went by the comparison.
  abbrev pub ByKey : List Step → Type 0
  ByKey [] = Unit
  ByKey (f ∷ fs) = (side_by (positive (key_cmp f.entry.key key)) ≡ f.side) × ByKey fs

  -- The keys are not above the key, or above it.
  abbrev pub AllUpTo : List (Ptr × Ptr) → Type 0
  AllUpTo xs = AllBelow key_cmp key xs

  abbrev pub AllOver : List (Ptr × Ptr) → Type 0
  AllOver xs = All (λ (x : Ptr × Ptr). positive (key_cmp x.1 key) ≡ true) xs

  -- What holds on the way down, above a subtree `T`.
  pub record Way (fs : List Step) (T : Tree) : Type 0 where
    pub by_key : ByKey fs
    pub up_to : AllUpTo (nodes_before fs)
    pub over : AllOver (nodes_behind fs)
    pub path : GoodPath fs
    pub top_black : TopBlack fs
    pub top_is : TopIsBlack fs T
    pub joint : path_color fs ≡ red → root_color T ≡ black
    pub good : NoRedRed T
    pub ordered : IsOrdered key_cmp T

  up_to_trans :
      (x : Ptr) (xs : List (Ptr × Ptr))
      → AllBelow key_cmp x xs
      → positive (key_cmp x key) ≡ false
      → AllUpTo xs
  up_to_trans x xs all le = All-map xs (λ y b. lower y.1 b) all
    where
      lower : (y : Ptr) → positive (key_cmp y x) ≡ false → positive (key_cmp y key) ≡ false
      lower y b = elim (Bool-cases (positive (key_cmp y key))) [
        | inl gt ↦ absurd (clash (sym (laws.upwards y x key b gt) ∙ le))
        | inr ng ↦ ng
      ]
        where
          clash : true ≢ false
          clash e = cc

  over_trans :
      (x : Ptr) (xs : List (Ptr × Ptr))
      → AllAbove key_cmp x xs
      → positive (key_cmp x key) ≡ true
      → AllOver xs
  over_trans x xs all gt = All-map xs (λ y le. laws.upwards x y.1 key le gt) all

  black_above : (a b : Color) → (a ≡ red → b ≡ black) → b ≡ red → a ≡ black
  black_above a b joint r = elim (red_or_black a) [
    | inl c ↦ absurd (red-ne_black (sym r ∙ joint c))
    | inr c ↦ c
  ]

  module _ (fs : List Step) (l : Tree) (p : Ptr) (e : Entry) (r : Tree)
      (way : Way fs (branch l p e r)) where
    abbrev pub step_left : Step
    step_left = record { side = on_left; above = p; entry = e; sibling = r }

    abbrev pub step_right : Step
    step_right = record { side = on_right; above = p; entry = e; sibling = l }

    Way-left : positive (key_cmp e.key key) ≡ true → Way (step_left ∷ fs) l
    Way-left gt =
        let (cond, gl, gr) = way.good in
        let (ob, oa, ol, orr) = way.ordered in
        record {
          by_key = (rw gt refl, way.by_key);
          up_to = way.up_to;
          over = (
            gt,
            All-append _ (in_order r) (nodes_behind fs) (over_trans e.key (in_order r) oa gt)
                way.over,
          );
          path =
              ((λ c. ((cond c).1, black_above (path_color fs) e.color way.joint c)), gr, way.path);
          top_black = TopBlack-cons step_left fs (branch l p e r) way.top_black way.top_is refl;
          top_is = tt;
          joint = λ c. (cond c).0;
          good = gl;
          ordered = ol;
        }

    Way-right : positive (key_cmp e.key key) ≡ false → Way (step_right ∷ fs) r
    Way-right le =
        let (cond, gl, gr) = way.good in
        let (ob, oa, ol, orr) = way.ordered in
        record {
          by_key = (rw le refl, way.by_key);
          up_to = All-append _ (nodes_before fs) (in_order l ++ ((p, e.key) ∷ [])) way.up_to (
              All-append _ (in_order l) ((p, e.key) ∷ []) (up_to_trans e.key (in_order l) ob le)
                (le, tt));
          over = way.over;
          path =
              ((λ c. ((cond c).0, black_above (path_color fs) e.color way.joint c)), gl, way.path);
          top_black = TopBlack-cons step_right fs (branch l p e r) way.top_black way.top_is refl;
          top_is = tt;
          joint = λ c. (cond c).1;
          good = gr;
          ordered = orr;
        }

  -- The loop ends at a free place.
  pub data Descended (s : Store Rnode) (t : Rbt) (whole : Tree) (r : Run Rnode Ptr) : Type 0 where
    descended :
        (c tmp : Ptr) (fs : List Step)
        → r ≡ ok tmp s
        → Placed s t c tmp leaf fs
        → plug fs leaf ≡ whole
        → Way fs leaf
        → length fs ≤ count whole
        → Descended s t whole r

  module _ {s : Store Rnode} {nd : Ptr} {n : Rnode} (here : Holds s nd n)
      (is_key : n.key ≡ key) where
    pub side_of-ok :
        {p : Ptr} {m : Rnode}
        → Holds s p m
        → side_of key_cmp p nd s ≡ ok (side_by (positive (key_cmp m.key key))) s
    unfolding side_of
    side_of-ok {m} h = elim (Bool-cases (positive (key_cmp m.key key))) [
      | inl gt ↦ rw (load-ok h, load-ok here, is_key, gt) refl
      | inr le ↦ rw (load-ok h, load-ok here, is_key, le) refl
    ]

    descend_from :
        (k : ℕ) {t : Rbt} (T : Tree) (fs : List Step) {itor tmp : Ptr}
        → Rep s t.nil tmp itor T
        → Placed s t itor tmp T fs
        → Way fs T
        → count T < k
        → length fs + count T ≤ count (plug fs T)
        → Descended s t (plug fs T) (descend key_cmp k t.nil tmp itor nd s)
    unfolding descend child_of
    descend_from zero T fs rep placed way fuel short = absurd (omega arith)
    descend_from (suc k) {t} leaf fs {itor} {tmp} (empty e) placed way fuel short =
        let test : (itor == t.nil) ≡ true = ground arith in
        descended itor tmp fs (rw test refl) placed refl way (omega arith)
    descend_from (suc k) (branch l p e r) fs (full at' h ne rl rr) placed way fuel short =
        elim (Bool-cases (positive (key_cmp e.key key))) [
          | inl gt ↦
              rw (at', ne-nil ne, side_of-ok h, gt, load-ok h)
                (descend_from k l (step_left fs l p e r way ∷ fs) rl
                  (zoom_in on_left l p e r (rw at' at placed) (record { there = h }) ne rl rr)
                  (Way-left fs l p e r way gt) (omega arith) (omega arith))
          | inr le ↦
              rw (at', ne-nil ne, side_of-ok h, le, load-ok h)
                (descend_from k r (step_right fs l p e r way ∷ fs) rr
                  (zoom_in on_right r p e l (rw at' at placed) (record { there = h }) ne rr rl)
                  (Way-right fs l p e r way le) (omega arith) (omega arith))
        ]

    -- On a tree whose keys are in order the loop ends at a free place, where the key belongs.
    pub descend-Descended :
        (k : ℕ) {t : Rbt} (T : Tree)
        → Placed s t t.root t.nil T []
        → Way [] T
        → count T < k
        → Descended s t T (descend key_cmp k t.nil t.nil t.root nd s)
    descend-Descended k T placed way fuel =
        descend_from k T [] placed.tree placed way fuel (omega arith)
