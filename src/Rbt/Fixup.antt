-- ===== src/Rbt/Fixup.antt =====
-- `smp_insert_fixup` and `smp_delete_fixup` of smp_rbt.c. A branch for the left is written once,
-- with the side, and stands for the branch for the right as well.
use smpcil.Base.{ℕ, zero, suc, Bool, false, Ptr, ◌==◌, if◌then◌else◌}
use smpcil.Store.{out_of_fuel, pure, ◌>>=◌, ◌>>◌}
use smpcil.Rbt.{
  Cmd, Rbt, Side, on_left, on_right, other, red, black, red?, black?, parent_of, child_of, color_of,
  set_color, rotate,
}

-- The parent of `nd` is the child of its own parent on that side: red uncle, or rotations.
unfoldable pub recolor : Rbt → (nd tmp : Ptr) → Cmd (Rbt × Ptr)
unfolding parent_of set_color
recolor t nd tmp = do
  p ← parent_of nd
  set_color tmp black
  set_color p black
  g ← parent_of p
  set_color g red
  pure (t, g)

unfoldable pub insert_rotate : Side → Rbt → Ptr → Cmd (Rbt × Ptr)
unfolding parent_of child_of set_color rotate
insert_rotate side t nd = do
  p ← parent_of nd
  inner ← child_of (other side) p
  (t', nd') ← (if nd == inner then (do t' ← rotate side t p; pure (t', p)) else pure (t, nd))
  p' ← parent_of nd'
  set_color p' black
  g ← parent_of p'
  set_color g red
  t'' ← rotate (other side) t' g
  pure (t'', nd')

unfoldable pub insert_fix : Side → Rbt → Ptr → Cmd (Rbt × Ptr)
unfolding parent_of child_of color_of recolor insert_rotate
insert_fix side t nd = do
  p ← parent_of nd
  g ← parent_of p
  tmp ← child_of (other side) g
  c ← color_of tmp
  if red? c then recolor t nd tmp else insert_rotate side t nd

unfoldable pub insert_round : Rbt → Ptr → Cmd (Rbt × Ptr)
unfolding parent_of child_of insert_fix
insert_round t nd = do
  p ← parent_of nd
  g ← parent_of p
  l ← child_of on_left g
  insert_fix (if p == l then on_left else on_right) t nd

unfoldable pub insert_loop : ℕ → Rbt → Ptr → Cmd Rbt
unfolding parent_of color_of insert_round
insert_loop zero t nd = λ _. out_of_fuel
insert_loop (suc k) t nd = do
  p ← parent_of nd
  c ← color_of p
  if red? c then (insert_round t nd >>= λ (t', nd'). insert_loop k t' nd') else pure t

unfoldable pub insert_fixup : ℕ → Rbt → Ptr → Cmd Rbt
unfolding insert_loop set_color
insert_fixup fuel t nd = do t' ← insert_loop fuel t nd; set_color t'.root black; pure t'

-- `tmp` is the sibling of `nd`, which is on that side: a red one is rotated away first.
red_sibling : Side → Rbt → (nd tmp : Ptr) → Cmd (Rbt × Ptr)
unfolding parent_of child_of color_of set_color rotate
red_sibling side t nd tmp = do
  c ← color_of tmp
  if red? c
      then (do
        set_color tmp black
        p ← parent_of nd
        set_color p red
        t' ← rotate side t p
        p' ← parent_of nd
        tmp' ← child_of (other side) p'
        pure (t', tmp'))
      else pure (t, tmp)

black_child : Side → Ptr → Cmd Bool
unfolding child_of color_of
black_child side tmp = do p ← child_of side tmp; c ← color_of p; pure (black? c)

-- The far child of the sibling gets red, and the rotation ends the loop.
near_red : Side → Rbt → (nd tmp : Ptr) → Cmd (Rbt × Ptr)
unfolding parent_of child_of set_color rotate black_child
near_red side t nd tmp = do
  b ← black_child (other side) tmp
  if b
      then (do
        near ← child_of side tmp
        set_color near black
        set_color tmp red
        t' ← rotate (other side) t tmp
        p ← parent_of nd
        tmp' ← child_of (other side) p
        pure (t', tmp'))
      else pure (t, tmp)

delete_rotate : Side → Rbt → (nd tmp : Ptr) → Cmd (Rbt × Ptr)
unfolding parent_of child_of color_of set_color rotate near_red
delete_rotate side t nd tmp = do
  (t', tmp') ← near_red side t nd tmp
  p ← parent_of nd
  c ← color_of p
  set_color tmp' c
  set_color p black
  far ← child_of (other side) tmp'
  set_color far black
  t'' ← rotate side t' p
  pure (t'', t''.root)

delete_black : Side → Rbt → (nd tmp : Ptr) → Cmd (Rbt × Ptr)
unfolding parent_of set_color black_child delete_rotate
delete_black side t nd tmp = do
  near ← black_child side tmp
  both ← (if near then black_child (other side) tmp else pure false)
  if both
      then (do set_color tmp red; p ← parent_of nd; pure (t, p))
      else delete_rotate side t nd tmp

delete_fix : Side → Rbt → Ptr → Cmd (Rbt × Ptr)
unfolding parent_of child_of red_sibling delete_black
delete_fix side t nd = do
  p ← parent_of nd
  tmp ← child_of (other side) p
  (t', tmp') ← red_sibling side t nd tmp
  delete_black side t' nd tmp'

delete_round : Rbt → Ptr → Cmd (Rbt × Ptr)
unfolding parent_of child_of delete_fix
delete_round t nd = do
  p ← parent_of nd
  l ← child_of on_left p
  delete_fix (if nd == l then on_left else on_right) t nd

pub delete_loop : ℕ → Rbt → Ptr → Cmd (Rbt × Ptr)
unfolding color_of delete_round
delete_loop zero t nd = λ _. out_of_fuel
delete_loop (suc k) t nd = if nd == t.root then pure (t, nd) else do
  c ← color_of nd
  if black? c then (delete_round t nd >>= λ (t', nd'). delete_loop k t' nd') else pure (t, nd)

unfoldable pub delete_fixup : ℕ → Rbt → Ptr → Cmd Rbt
unfolding delete_loop set_color
delete_fixup fuel t nd = do (t', nd') ← delete_loop fuel t nd; set_color nd' black; pure t'
