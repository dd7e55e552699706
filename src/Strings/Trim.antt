-- ===== src/Strings/Trim.antt =====
-- `smp_str_trim` and `smp_str_trimLF`, on texts with and without blanks at the end.
use smpcil.Base.{
  ℕ, suc, ◌+◌, ◌≡◌, refl, sym, ◌<◌, inl, inr, Bool, true, false, Option, none, some, List, [], ◌∷◌,
  ◌++◌, All, length, ◌==◌, arith, Bool-cases, ==_iff,
}
use smpcil.Strings.{skip, scan, cut, trim_from, trim}

-- The first byte is no blank, and the last is none.
abbrev pub Starts : (ℕ → Bool) → List ℕ → Type 0
Starts is_blank [] = Unit {0}
Starts is_blank (c ∷ cs) = is_blank c ≡ false

abbrev pub Ends : (ℕ → Bool) → List ℕ → Type 0
Ends is_blank [] = Unit {0}
Ends is_blank (c ∷ []) = is_blank c ≡ false
Ends is_blank (c ∷ d ∷ cs) = Ends is_blank (d ∷ cs)

abbrev pub Blank : (ℕ → Bool) → List ℕ → Type 0
Blank is_blank cs = All (λ c. is_blank c ≡ true) cs

abbrev pub NoZero : List ℕ → Type 0
NoZero cs = All (λ c. (c == 0) ≡ false) cs

module _ (is_blank : ℕ → Bool) (stop : is_blank 0 ≡ false) where
  skip-blanks :
      (blanks rest : List ℕ) (c str : ℕ)
      → Blank is_blank blanks
      → is_blank c ≡ false
      → skip is_blank str (blanks ++ c ∷ rest) ≡ some (str + length blanks, c ∷ rest)
  unfolding skip
  skip-blanks [] rest c str h isnt = let same : str + 0 ≡ str = omega arith in rw (isnt, same) refl
  skip-blanks (b ∷ blanks) rest c str h isnt =
      let next : str + 1 + length blanks ≡ str + suc (length blanks) = omega arith in
      rw (h.0, sym next) (skip-blanks blanks rest c (str + 1) h.1 isnt)

  nonzero : (b : ℕ) → is_blank b ≡ true → (b == 0) ≡ false
  nonzero b is = elim (Bool-cases (b == 0)) [
    | inl e ↦ absurd (true_ne (rw ((==_iff b 0).0 e) at is))
    | inr e ↦ e
  ]
    where
      true_ne : is_blank 0 ≡ true → ⊥
      true_ne is = cc

  Ends-tail : (c : ℕ) (cs : List ℕ) → Ends is_blank (c ∷ cs) → Ends is_blank cs
  Ends-tail c [] e = tt
  Ends-tail c (d ∷ cs) e = e

  more : (c : ℕ) (cs : List ℕ) → Ends is_blank (c ∷ cs) → is_blank c ≡ true → 0 < length cs
  more c [] e is = absurd cc
  more c (d ∷ cs) e is = omega arith

  -- Without a blank at its end a text gets no cut, whatever stands behind the terminator.
  scan-tight :
      (core rest : List ℕ)
      → NoZero core
      → Ends is_blank core
      → ((str : ℕ) → scan is_blank false str none (core ++ 0 ∷ rest) ≡ some none)
        × ((str : ℕ) (end : Option ℕ)
            → 0 < length core
            → scan is_blank true str end (core ++ 0 ∷ rest) ≡ some none)
  unfolding scan
  scan-tight [] rest nz e = (λ str. refl, λ str end pos. absurd (omega (arith, pos)))
  scan-tight (c ∷ cs) rest nz e =
      let (plain, inner) = scan-tight cs rest nz.1 (Ends-tail c cs e) in
      elim (Bool-cases (is_blank c)) [
        | inl is ↦ (
          λ str. rw (nz.0, is) (inner (str + 1) (some str) (more c cs e is)),
          λ str end pos. rw (nz.0, is) (inner (str + 1) end (more c cs e is)),
        )
        | inr isnt ↦ (
          λ str. rw (nz.0, isnt) (plain (str + 1)),
          λ str end pos. rw (nz.0, isnt) (plain (str + 1)),
        )
      ]

  -- Behind blanks at the end the terminator is passed over, and the byte behind it is read.
  scan-past :
      (blanks : List ℕ) (str : ℕ) (end : Option ℕ)
      → Blank is_blank blanks
      → scan is_blank true str end (blanks ++ 0 ∷ []) ≡ none
  unfolding scan
  scan-past [] str end h = rw stop refl
  scan-past (b ∷ blanks) str end h = rw h.0 (scan-past blanks (str + 1) end h.1)

  scan-overruns :
      (core : List ℕ) (b : ℕ) (blanks : List ℕ) (inner : Bool) (str : ℕ) (end : Option ℕ)
      → NoZero core
      → Blank is_blank (b ∷ blanks)
      → (b == 0) ≡ false
      → scan is_blank inner str end (core ++ (b ∷ blanks ++ 0 ∷ [])) ≡ none
  unfolding scan
  scan-overruns [] b blanks false str end nz h nb =
      rw (nb, h.0) (scan-past blanks (str + 1) (some str) h.1)
  scan-overruns [] b blanks true str end nz h nb = rw h.0 (scan-past blanks (str + 1) end h.1)
  scan-overruns (c ∷ cs) b blanks false str end nz h nb = elim (Bool-cases (is_blank c)) [
    | inl is ↦ rw (nz.0, is) (scan-overruns cs b blanks true (str + 1) (some str) nz.1 h nb)
    | inr isnt ↦ rw (nz.0, isnt) (scan-overruns cs b blanks false (str + 1) end nz.1 h nb)
  ]
  scan-overruns (c ∷ cs) b blanks true str end nz h nb = elim (Bool-cases (is_blank c)) [
    | inl is ↦ rw is (scan-overruns cs b blanks true (str + 1) end nz.1 h nb)
    | inr isnt ↦ rw (nz.0, isnt) (scan-overruns cs b blanks false (str + 1) none nz.1 h nb)
  ]

  -- A text without a blank at its end is trimmed: the result points behind the blanks at its start,
  -- and no byte of the buffer changes, whatever stands behind the terminator.
  pub trim-tight :
      (blanks core rest : List ℕ)
      → Blank is_blank blanks
      → Starts is_blank core
      → NoZero core
      → Ends is_blank core
      → trim is_blank (blanks ++ (core ++ 0 ∷ rest))
        ≡ some (length blanks, blanks ++ (core ++ 0 ∷ rest))
  unfolding trim trim_from cut
  trim-tight blanks [] rest h starts nz ends =
      let same : 0 + length blanks ≡ length blanks = omega arith in
      rw (skip-blanks blanks rest 0 0 h stop, same) refl
  trim-tight blanks (c ∷ cs) rest h starts nz ends =
      let same : 0 + length blanks ≡ length blanks = omega arith in
      let (plain, _) = scan-tight (c ∷ cs) rest nz ends in
      rw
        (
          skip-blanks blanks (cs ++ 0 ∷ rest) c 0 h starts,
          trim_from,
          plain (0 + length blanks),
          same,
        )
        refl

  -- Where the terminator is the last byte of the buffer and blanks stand before it, behind some
  -- other text, the trimming reads behind the buffer.
  pub trim-overruns :
      (blanks : List ℕ) (c : ℕ) (core : List ℕ) (b : ℕ) (blanks' : List ℕ)
      → Blank is_blank blanks
      → is_blank c ≡ false
      → NoZero (c ∷ core)
      → Blank is_blank (b ∷ blanks')
      → trim is_blank (blanks ++ (c ∷ core ++ (b ∷ blanks' ++ 0 ∷ []))) ≡ none
  unfolding trim trim_from cut
  trim-overruns blanks c core b blanks' h starts nz ends =
      let past =
        scan-overruns (c ∷ core) b blanks' false (0 + length blanks) none nz ends
          (nonzero b ends.0) in
      rw (skip-blanks blanks (core ++ (b ∷ blanks' ++ 0 ∷ [])) c 0 h starts)
        (rw (trim_from, past) refl)
