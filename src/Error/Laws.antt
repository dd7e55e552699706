-- ===== src/Error/Laws.antt =====
-- What a call of `smp_set_error` leaves behind.
use smpcil.Base.{
  ℕ, zero, suc, ◌≤◌, ◌≡◌, refl, Option, none, some, Ptr, inl, inr, [], ◌∷◌, arith, length,
  Option-cases,
}
use smpcil.Libc.{Libc, malloc_keeps}
use smpcil.Libc
use smpcil.Error.{Text, World, take, store_error, first_error, set_error, error_size}

pub length-take : (n : ℕ) (t : Text) → length (take n t) ≤ n
length-take zero t = omega arith
length-take (suc n) [] = omega arith
length-take (suc n) (c ∷ t) = omega (arith, length-take n t)

module _ {os : Libc} where
  -- Once the buffer exists, `smp_set_error` stores the text cut to 2047 bytes and allocates
  -- nothing.
  pub set_error-again :
      (error old : Text) (w : World os)
      → w.smp_errno ≡ some old
      → set_error error w ≡ record w { smp_errno = some (take 2047 error) }
  unfolding set_error
  set_error-again error old w e = ground arith

  set_error-first :
      (error : Text) (w : World os)
      → w.smp_errno ≡ none
      → set_error error w ≡ first_error error w (os.malloc error_size w.mem)
  unfolding set_error
  set_error-first error w e = ground arith

  mem-first_error :
      (error : Text) (w : World os) (r : Option Ptr × os.Mem) → (first_error error w r).mem ≡ r.1
  unfolding first_error store_error
  mem-first_error error w (none, m) = refl
  mem-first_error error w (some p, m) = refl

  -- The live memory only grows.
  pub set_error-keeps :
      (laws : Libc.Laws os) (error : Text) (w : World os) (a : ℕ)
      → laws.Live w.mem a
      → laws.Live (set_error error w).mem a
  set_error-keeps laws error w a live = elim (Option-cases w.smp_errno) [
    | inr (old, e) ↦ rw (set_error-again error old w e) live
    | inl e ↦
        rw (set_error-first error w e, mem-first_error) (malloc_keeps laws error_size w.mem a live)
  ]

  -- What `malloc` keeps true of the memory, `smp_set_error` keeps true.
  pub set_error-mem :
      {P : os.Mem → Type 0} (error : Text) (w : World os)
      → ((n : ℕ) (m : os.Mem) → P m → P (os.malloc n m).1)
      → P w.mem
      → P (set_error error w).mem
  set_error-mem error w keeps p = elim (Option-cases w.smp_errno) [
    | inr (old, e) ↦ rw (set_error-again error old w e) p
    | inl e ↦ rw (set_error-first error w e, mem-first_error) (keeps error_size w.mem p)
  ]
