-- ===== src/Strings/Tests.antt =====
-- Short texts, and the theorems at them.
use smpcil.Base.{ℕ, ◌≡◌, refl, none, some, List, [], ◌∷◌, map, arith}
use smpcil.Strings.{split, trim, is_space}
use smpcil.Strings.Join.{content, join, end, point, split-joins}
use smpcil.Strings.Trim.{trim-tight, trim-overruns}

-- "a,,b" and ","
abbrev text : List ℕ
text = 97 ∷ 44 ∷ 44 ∷ 98 ∷ []

abbrev comma : List ℕ
comma = 44 ∷ []

split-joins_example : join comma (map (content text) (split 1 4 (1 ∷ 2 ∷ []))) ≡ text
split-joins_example =
    split-joins comma text (1 ∷ 2 ∷ [])
      (point (omega arith) refl (point (omega arith) refl (end (omega arith)))) (omega arith)

trim-tight_example :
    trim is_space (32 ∷ 97 ∷ 32 ∷ 98 ∷ 0 ∷ 7 ∷ []) ≡ some (1, 32 ∷ 97 ∷ 32 ∷ 98 ∷ 0 ∷ 7 ∷ [])
trim-tight_example =
    trim-tight is_space refl (32 ∷ []) (97 ∷ 32 ∷ 98 ∷ []) (7 ∷ []) (refl, tt) refl
      (refl, (refl, (refl, tt))) refl

trim-overruns_example : trim is_space (97 ∷ 32 ∷ 0 ∷ []) ≡ none
trim-overruns_example = trim-overruns is_space refl [] 97 [] 32 [] tt refl (refl, tt) (refl, tt)

-- A blank before the terminator is cut where something stands behind it.
trim_cuts : trim is_space (97 ∷ 32 ∷ 0 ∷ 0 ∷ []) ≡ some (0, 97 ∷ 0 ∷ 0 ∷ 0 ∷ [])
unfolding trim
trim_cuts = refl
