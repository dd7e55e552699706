-- ===== src/Rbt/Turn.antt =====
-- The tree before and after a rotation: which nodes it has, and that they stay apart.
use smpcil.Base.{
  Bool, true, false, ◌||◌, ◌≡◌, refl, sym, ◌∷◌, arith, Ptr, ◌==◌, Bool-cases, inl, inr,
}
use smpcil.Rbt.{Side, on_left, on_right}
use smpcil.Rbt.Rep.{in_order, append_assoc, Tree, Entry, has}
use smpcil.Rbt.Place.{mk, has-mk, Apart, Apart-at, at-Apart}

pub or_false5 :
    (a b c d e : Bool)
    → (a || (b || (c || (d || e)))) ≡ false
    → (a ≡ false) × (b ≡ false) × (c ≡ false) × (d ≡ false) × (e ≡ false)
or_false5 a b c d e h = (ground arith, ground arith, ground arith, ground arith, ground arith)

-- The trees and nodes of a rotation, all different.
pub record Facts (x y : Ptr) (A B C : Tree) : Type 0 where
  pub x-y : (x == y) ≡ false
  pub y-x : (y == x) ≡ false
  pub x-out : (has x A ≡ false) × (has x B ≡ false) × (has x C ≡ false)
  pub y-out : (has y A ≡ false) × (has y B ≡ false) × (has y C ≡ false)
  pub a-b : (a : Ptr) → has a A ≡ true → has a B ≡ false
  pub a-c : (a : Ptr) → has a A ≡ true → has a C ≡ false
  pub b-c : (a : Ptr) → has a B ≡ true → has a C ≡ false
  pub all : Apart A × Apart B × Apart C

module _ (side : Side) (x y : Ptr) (ex ey : Entry) (A B C : Tree) where
  abbrev pub before : Tree
  before = mk side A x ex (mk side B y ey C)

  abbrev pub after : Tree
  after = mk side (mk side A x ex B) y ey C

  pub has-before :
      (a : Ptr) → has a before ≡ ((a == x) || (has a A || ((a == y) || (has a B || has a C))))
  has-before a = rw (has-mk a side A (mk side B y ey C) x ex, has-mk a side B C y ey) refl

  pub has-after :
      (a : Ptr) → has a after ≡ ((a == y) || (((a == x) || (has a A || has a B)) || has a C))
  has-after a = rw (has-mk a side (mk side A x ex B) C y ey, has-mk a side A B x ex) refl

  y_out_A :
      has y (mk side B y ey C) ≡ ((y == y) || (has y B || has y C))
      → (has y A ≡ true → has y (mk side B y ey C) ≡ false)
      → has y A ≡ false
  y_out_A right sep = elim (Bool-cases (has y A)) [ inl i ↦ ground (arith, sep i) | inr o ↦ o ]

  pub Facts-before : Apart before → Facts x y A B C
  Facts-before apart =
      let (xa, xr, sep, aa, ar) = Apart-at A (mk side B y ey C) x ex side apart in
      let (yb, yc, bc, ab, ac) = Apart-at B C y ey side ar in
      let right : (a : Ptr) → has a (mk side B y ey C) ≡ ((a == y) || (has a B || has a C)) =
        λ a. has-mk a side B C y ey in
      record {
        x-y = ground (arith, right x);
        y-x = ground (arith, right x);
        x-out = (xa, ground (arith, right x), ground (arith, right x));
        y-out = (y_out_A (right y) (sep y), yb, yc);
        a-b = λ a i. ground (arith, right a, sep a);
        a-c = λ a i. ground (arith, right a, sep a);
        b-c = bc;
        all = (aa, ab, ac);
      }

  pub Apart-after : Facts x y A B C → Apart after
  Apart-after f =
      let (xa, xb, xc) = f.x-out in
      let (ya, yb, yc) = f.y-out in
      let (aa, ab, ac) = f.all in
      let inner = λ (a : Ptr). has-mk a side A B x ex in
      at-Apart (mk side A x ex B) C y ey side (
        rw (inner y) (ground arith),
        yc,
        (λ a i. ground (arith, inner a, f.a-c a, f.b-c a)),
        at-Apart A B x ex side (xa, xb, f.a-b, aa, ab),
        ac,
      )

  pub in_order-after : in_order after ≡ in_order before
  in_order-after = go side
    where
      go :
          (d : Side)
          → in_order (mk d (mk d A x ex B) y ey C) ≡ in_order (mk d A x ex (mk d B y ey C))
      go on_left = append_assoc (in_order A) ((x, ex.key) ∷ in_order B) ((y, ey.key) ∷ in_order C)
      go on_right =
          sym (append_assoc (in_order C) ((y, ey.key) ∷ in_order B) ((x, ex.key) ∷ in_order A))
