-- ===== src/Strings.antt =====
-- smp_linux/smp_string/smp_string.c: comparing, trimming and splitting. A byte is a number; a C
-- string in a buffer ends at its first 0.
pub mod Join
pub mod Trim
mod Tests
use smpcil.Base.{
  ℕ, zero, suc, ◌+◌, ◌-◌, ◌%◌, Bool, true, false, ◌||◌, Option, none, some, List, [], ◌∷◌, set,
  length, leb, ◌==◌, if◌then◌else◌, size_mod,
}

-- `smp_str_s` that points into a text: `start` is the offset, `none` is NULL.
pub record Str : Type 0 where
  pub start : Option ℕ
  pub len : ℕ

-- `__smp_str_split`, from the points that the search found, by the lengths of the delimiter and of
-- the text. The entries of `split->strs` in order: before the first point, between two, behind the
-- last.
pub first_str : ℕ → Str
first_str p = record { start = if p == 0 then none else some 0; len = p }

pub middle_str : (delim_len last p : ℕ) → Str
middle_str delim_len last p =
    if leb p (last + delim_len)
    then record { start = none; len = 0 }
    else record { start = some (last + delim_len); len = p - (last + delim_len) }

pub last_str : (delim_len text_len last : ℕ) → Str
last_str delim_len text_len last =
    let len = (text_len + size_mod - (last + delim_len)) % size_mod in
    record { start = if len == 0 then none else some (last + delim_len); len = len }

pub strs_behind : (delim_len text_len last : ℕ) → List ℕ → List Str
unfolding middle_str last_str
strs_behind delim_len text_len last [] = last_str delim_len text_len last ∷ []
strs_behind delim_len text_len last (p ∷ ps) =
    middle_str delim_len last p ∷ strs_behind delim_len text_len p ps

pub split : (delim_len text_len : ℕ) → List ℕ → List Str
unfolding first_str strs_behind
split delim_len text_len [] = record { start = some 0; len = text_len } ∷ []
split delim_len text_len (p ∷ ps) = first_str p ∷ strs_behind delim_len text_len p ps

-- SMP_IS_SPACE and SMP_IS_CRLF
abbrev pub is_space : ℕ → Bool
is_space c = (c == 32) || (c == 9)

abbrev pub is_crlf : ℕ → Bool
is_crlf c = (c == 10) || (c == 13)

-- `smp_str_trim` and `smp_str_trimLF`, which differ in what they take for blank. `none` is a read
-- behind the end of the buffer.
module _ (is_blank : ℕ → Bool) where
  -- the first `while`: where the text starts, and the bytes from there
  skip : (str : ℕ) → List ℕ → Option (ℕ × List ℕ)
  skip str [] = none
  skip str (c ∷ rest) = if is_blank c then skip (str + 1) rest else some (str, c ∷ rest)

  -- The `for` with the `while` inside it, which is `inner`; its result is the last `end`. Behind
  -- the inner loop the `str++` of the outer one is done without another test.
  scan : (inner : Bool) → (str : ℕ) → (end : Option ℕ) → List ℕ → Option (Option ℕ)
  scan inner str end [] = none
  scan false str end (c ∷ rest) =
      let blank = scan true (str + 1) (some str) rest in
      let next = scan false (str + 1) end rest in
      if c == 0 then some end else if is_blank c then blank else next
  scan true str end (c ∷ rest) =
      let blank = scan true (str + 1) end rest in
      let next = scan false (str + 1) (if c == 0 then end else none) rest in
      if is_blank c then blank else next

  cut : List ℕ → Option ℕ → List ℕ
  cut buffer none = buffer
  cut buffer (some end) = set buffer end 0

  trim_from : List ℕ → Option (ℕ × List ℕ) → Option (ℕ × List ℕ)
  unfolding scan cut
  trim_from buffer none = none
  trim_from buffer (some (start, rest)) = elim (scan false start none rest) [
    | none ↦ none
    | some end ↦ some (start, cut buffer end)
  ]

  -- the offset that is returned, and the buffer that is left
  pub trim : List ℕ → Option (ℕ × List ℕ)
  unfolding skip trim_from
  trim buffer = trim_from buffer (skip 0 buffer)
