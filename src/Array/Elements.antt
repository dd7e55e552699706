-- ===== src/Array/Elements.antt =====
-- The elements that an array of smp_array.c holds, in order: what its operations are specified by.
use smpcil.Base.{
  ℕ, zero, suc, ◌+◌, ◌*◌, ◌≤◌, ◌≡◌, refl, sym, ◌⊎◌, Option, some, none, List, [], ◌∷◌, ◌++◌, All,
  All-append, Ptr, arith,
}

-- the addresses of `n` elements of a block, from the `i`th
abbrev pub stride : ℕ → Ptr → (i n : ℕ) → List Ptr
stride elem_size block i zero = []
stride elem_size block i (suc n) = (block + elem_size * i) ∷ stride elem_size block (i + 1) n

-- All blocks hold `unit` elements, but for the last, which holds `curr`.
abbrev pub elems_of : (elem_size unit curr : ℕ) → List Ptr → List Ptr
elems_of elem_size unit curr [] = []
elems_of elem_size unit curr (p ∷ []) = stride elem_size p 0 curr
elems_of elem_size unit curr (p ∷ q ∷ ps) =
    stride elem_size p 0 unit ++ elems_of elem_size unit curr (q ∷ ps)

-- the last block, if there is one
abbrev pub last_of : Ptr → List Ptr → Ptr
last_of p [] = p
last_of p (q ∷ ps) = last_of q ps

abbrev pub answer : Option Ptr → List Ptr
answer none = []
answer (some p) = p ∷ []

-- `n` bytes at `p` and `n` bytes at `q` do not meet.
abbrev pub Apart : ℕ → Ptr → Ptr → Type 0
Apart n p q = (p + n ≤ q) ⊎ (q + n ≤ p)

abbrev pub AllApart : ℕ → List Ptr → Type 0
AllApart n [] = Unit {0}
AllApart n (p ∷ ps) = All (Apart n p) ps × AllApart n ps

pub append_nil : (xs : List Ptr) → xs ++ [] ≡ xs
append_nil [] = refl
append_nil (x ∷ xs) = cc (append_nil xs)

pub append_assoc : (xs ys zs : List Ptr) → (xs ++ ys) ++ zs ≡ xs ++ (ys ++ zs)
append_assoc [] ys zs = refl
append_assoc (x ∷ xs) ys zs = cc (append_assoc xs ys zs)

pub stride-snoc :
    (e : ℕ) (p : Ptr) (i n : ℕ) → stride e p i (suc n) ≡ stride e p i n ++ (p + e * (i + n)) ∷ []
stride-snoc e p i zero = let same : i + 0 ≡ i = omega arith in rw same refl
stride-snoc e p i (suc n) =
    let rest = stride-snoc e p (i + 1) n in
    let same : i + 1 + n ≡ i + suc n = omega arith in rw (rest, same) refl

-- One more element in the last block.
pub elems_of-push :
    (e unit curr : ℕ) (p : Ptr) (ps : List Ptr)
    → elems_of e unit (suc curr) (p ∷ ps)
      ≡ elems_of e unit curr (p ∷ ps) ++ (last_of p ps + e * curr) ∷ []
elems_of-push e unit curr p [] =
    let same : 0 + curr ≡ curr = omega arith in rw same at (stride-snoc e p 0 curr)
elems_of-push e unit curr p (q ∷ ps) =
    rw (elems_of-push e unit curr q ps)
      (sym (append_assoc (stride e p 0 unit) (elems_of e unit curr (q ∷ ps)) _))

-- An empty block behind a full one adds no element.
pub elems_of-block :
    (e unit : ℕ) (p : Ptr) (ps : List Ptr) (fresh : Ptr)
    → elems_of e unit 0 (p ∷ ps ++ fresh ∷ []) ≡ elems_of e unit unit (p ∷ ps)
elems_of-block e unit p [] fresh = append_nil (stride e p 0 unit)
elems_of-block e unit p (q ∷ ps) fresh = rw (elems_of-block e unit q ps fresh) refl

pub AllApart-snoc :
    (n : ℕ) (ps : List Ptr) (q : Ptr)
    → AllApart n ps
    → All (λ p. Apart n p q) ps
    → AllApart n (ps ++ q ∷ [])
AllApart-snoc n [] q h k = (tt, tt)
AllApart-snoc n (p ∷ ps) q h k =
    (All-append (Apart n p) ps (q ∷ []) h.0 (k.0, tt), AllApart-snoc n ps q h.1 k.1)
