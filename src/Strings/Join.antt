-- ===== src/Strings/Join.antt =====
-- `__smp_str_split`: the strings, joined by the delimiter, are the text again.
use smpcil.Base.{
  ℕ, zero, suc, ◌+◌, ◌-◌, ◌%◌, ◌^◌, ◌≤◌, ◌<◌, ◌≡◌, refl, sym, ap, ◌∙◌, true, false, none, some,
  List, [], ◌∷◌, ◌++◌, map, take, length, leb, lt-or-ge, inl, inr, ◌==◌, arith, size_mod,
}
use smpcil.Strings.{Str, split, first_str, middle_str, last_str, strs_behind}

abbrev pub drop : ℕ → List ℕ → List ℕ
drop zero xs = xs
drop (suc n) [] = []
drop (suc n) (x ∷ xs) = drop n xs

-- the bytes that a `Str` stands for, in the text that it points into
abbrev pub content : List ℕ → Str → List ℕ
content text str = elim str.start [ none ↦ [] | some start ↦ take str.len (drop start text) ]

abbrev pub join : List ℕ → List (List ℕ) → List ℕ
join delim [] = []
join delim (x ∷ []) = x
join delim (x ∷ y ∷ xs) = x ++ (delim ++ join delim (y ∷ xs))

-- Places where `delim` stands in `text`, from `from` on, that do not overlap.
pub data Points (delim text : List ℕ) : ℕ → List ℕ → Type 0 where
  end : {from : ℕ} → from ≤ length text → Points delim text from []
  point :
      {from p : ℕ} {ps : List ℕ}
      → from ≤ p
      → take (length delim) (drop p text) ≡ delim
      → Points delim text (p + length delim) ps
      → Points delim text from (p ∷ ps)

Points-le :
    {delim text : List ℕ} {from : ℕ} {ps : List ℕ} → Points delim text from ps → from ≤ length text
Points-le (end le) = le
Points-le (point le at rest) = omega (arith, le, Points-le rest)

length-drop : (n : ℕ) (xs : List ℕ) → length (drop n xs) ≡ length xs - n
length-drop zero xs = omega arith
length-drop (suc n) [] = omega arith
length-drop (suc n) (x ∷ xs) = length-drop n xs ∙ omega arith

take-drop : (n : ℕ) (xs : List ℕ) → take n xs ++ drop n xs ≡ xs
take-drop zero xs = refl
take-drop (suc n) [] = refl
take-drop (suc n) (x ∷ xs) = cc (take-drop n xs)

drop-nil : (n : ℕ) → drop n [] ≡ []
drop-nil zero = refl
drop-nil (suc n) = refl

drop-drop : (m n : ℕ) (xs : List ℕ) → drop m (drop n xs) ≡ drop (n + m) xs
drop-drop m zero xs = ap (λ k. drop k xs) (omega arith)
drop-drop m (suc n) [] = drop-nil m ∙ sym (drop-nil (suc n + m))
drop-drop m (suc n) (x ∷ xs) =
    let next : suc (n + m) ≡ suc n + m = omega arith in
    drop-drop m n xs ∙ ap (λ k. drop k (x ∷ xs)) next

nil_of_zero : (xs : List ℕ) → length xs ≡ 0 → xs ≡ []
nil_of_zero [] e = refl
nil_of_zero (x ∷ xs) e = absurd (omega (arith, e))

take-all : (xs : List ℕ) → take (length xs) xs ≡ xs
take-all [] = refl
take-all (x ∷ xs) = cc (take-all xs)

module _ (delim text : List ℕ) where
  cut-at :
      (from p : ℕ)
      → from ≤ p
      → take (length delim) (drop p text) ≡ delim
      → take (p - from) (drop from text) ++ (delim ++ drop (p + length delim) text) ≡ drop from text
  cut-at from p le at =
      let here : from + (p - from) ≡ p = omega (arith, le) in
      let rest = take-drop (length delim) (drop p text) in
      let whole = take-drop (p - from) (drop from text) in
      let found : delim ++ drop (p + length delim) text ≡ drop p text =
        ap (λ xs. xs ++ drop (p + length delim) text) (sym at)
        ∙ (ap (λ xs. take (length delim) (drop p text) ++ xs)
              (sym (drop-drop (length delim) p text))
            ∙ rest) in
      ap (λ xs. take (p - from) (drop from text) ++ xs)
        (found ∙ (ap (λ k. drop k text) (sym here) ∙ sym (drop-drop (p - from) from text)))
      ∙ whole

  content-first : (p : ℕ) → content text (first_str p) ≡ take (p - 0) (drop 0 text)
  unfolding first_str
  content-first zero = refl
  content-first (suc p) =
      let no : (suc p == 0) ≡ false = ground arith in
      let same : suc p - 0 ≡ suc p = omega arith in rw (no, same) refl

  content-middle :
      (last p : ℕ)
      → content text (middle_str (length delim) last p)
        ≡ take (p - (last + length delim)) (drop (last + length delim) text)
  unfolding middle_str
  content-middle last p = elim (lt-or-ge (last + length delim) p) [
    | inl l ↦ let no : leb p (last + length delim) ≡ false = ground arith in rw no refl
    | inr g ↦
        let yes : leb p (last + length delim) ≡ true = ground arith in
        let zero_len : p - (last + length delim) ≡ 0 = omega arith in rw (yes, zero_len) refl
  ]

  content-last :
      (last : ℕ)
      → last + length delim ≤ length text
      → length text < 2 ^ 31
      → content text (last_str (length delim) (length text) last) ≡ drop (last + length delim) text
  unfolding last_str
  content-last last le small =
      let from = last + length delim in
      let len : (length text + size_mod - from) % size_mod ≡ length text - from =
        omega (arith, le, small) in
      let rest = length-drop from text in
      elim (lt-or-ge from (length text)) [
        | inl l ↦
            let no : (length text - from == 0) ≡ false = ground (arith, l) in
            rw (len, no) (rw (sym rest) (take-all (drop from text)))
        | inr g ↦
            let yes : (length text - from == 0) ≡ true = ground (arith, g) in
            rw (len, yes) (sym (nil_of_zero (drop from text) (omega (arith, rest, g))))
      ]

  join-behind :
      (x : List ℕ) (n last : ℕ) (ps : List ℕ)
      → join delim (x ∷ map (content text) (strs_behind (length delim) n last ps))
        ≡ x ++ (delim ++ join delim (map (content text) (strs_behind (length delim) n last ps)))
  unfolding strs_behind
  join-behind x n last [] = refl
  join-behind x n last (p ∷ ps) = refl

  strs_behind-join :
      (last : ℕ) (ps : List ℕ)
      → Points delim text (last + length delim) ps
      → length text < 2 ^ 31
      → join delim (map (content text) (strs_behind (length delim) (length text) last ps))
        ≡ drop (last + length delim) text
  unfolding strs_behind
  strs_behind-join last [] points small = content-last last (Points-le points) small
  strs_behind-join last (p ∷ ps) (point le at rest) small =
      join-behind (content text (middle_str (length delim) last p)) (length text) p ps
      ∙ rw (content-middle last p, strs_behind-join p ps rest small)
          (cut-at (last + length delim) p le at)

  -- Where the points are places of the delimiter, in order and without overlap, in a text shorter
  -- than 2^31 bytes, the strings that
  -- `__smp_str_split` makes, joined by the delimiter, are the text.
  pub split-joins :
      (ps : List ℕ)
      → Points delim text 0 ps
      → length text < 2 ^ 31
      → join delim (map (content text) (split (length delim) (length text) ps)) ≡ text
  unfolding split
  split-joins [] points small = take-all text
  split-joins (p ∷ ps) (point le at rest) small =
      join-behind (content text (first_str p)) (length text) p ps
      ∙ rw (content-first p, strs_behind-join p ps rest small) (cut-at 0 p le at)
