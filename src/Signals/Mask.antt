-- ===== src/Signals/Mask.antt =====
-- Signal sets and the mask of the process, over calls that do what POSIX documents.
use mathlib.Core.Option.{some-injective}
use smpcil.Base.{
  is_error, is_one, negative, ◌≡◌, ◌≢◌, ap, sym, ◌↔◌, inl, inr, true, false, some, ℤ, pos, Status,
  ◌∙◌, smp_ok, smp_failure, Bool-cases,
}
use smpcil.Libc.{Libc}
use smpcil.Error.{World}
use smpcil.Signals.{
  Calls, changed, unavailable, sig_ismember, sig_remove_from_set, sig_setfill, sigprocmask,
  sig_set_procmask, mask_set, sig_mask_allset,
}

-- The other signals are in the one set just when they are in the other.
abbrev pub SameBut : {S : Type 0} → (S → ℤ → Type 0) → ℤ → S → S → Type 0
SameBut Member sig s s' = (n : ℤ) → n ≢ sig → (Member s n ↔ Member s' n)

pub record SetLaws {os : Libc} (calls : Calls os) : Type 1 where
  pub Member : calls.Set → ℤ → Type 0
  -- A signal of the process that may be blocked; SIGKILL and SIGSTOP may not.
  pub Maskable : ℤ → Type 0
  pub Blocked : os.Mem → ℤ → Type 0
  pub ismember_is : (s : calls.Set) (sig : ℤ) → Member s sig → calls.sigismember s sig ≡ pos 1
  pub delset_removes :
      (s : calls.Set) (sig : ℤ)
      → is_error (calls.sigdelset s sig).0 ≡ false
      → (¬ Member (calls.sigdelset s sig).1 sig) × SameBut Member sig s (calls.sigdelset s sig).1
  pub fillset_fills :
      (s : calls.Set)
      → is_error (calls.sigfillset s).0 ≡ false
      → (sig : ℤ) → Maskable sig
      → Member (calls.sigfillset s).1 sig
  pub setmask_blocks :
      (s : calls.Set) (m : os.Mem)
      → is_error (calls.sigprocmask calls.sig_setmask (some s) m).0 ≡ false
      → (sig : ℤ) → Maskable sig
      → Member s sig
      → Blocked (calls.sigprocmask calls.sig_setmask (some s) m).2 sig

failed : smp_failure ≢ smp_ok
failed e = cc

module _ {os : Libc} (calls : Calls os) (laws : SetLaws calls) where
  masks :
      (s : calls.Set) (w w' : World os)
      → sig_set_procmask calls s w ≡ (smp_ok, w')
      → (sig : ℤ) → laws.Maskable sig
      → laws.Member s sig
      → laws.Blocked w'.mem sig
  unfolding sig_set_procmask sigprocmask
  masks s w w' e sig may is =
      elim (Bool-cases (is_error (calls.sigprocmask calls.sig_setmask (some s) w.mem).0)) [
        | inl bad ↦ absurd (failed (ap (λ t. t.0) (rw bad at e)))
        | inr good ↦
            let left = ap (λ (t : Status × World os). t.1.mem) (rw good at e) in
            rw (sym left) (laws.setmask_blocks s w.mem good sig may is)
      ]

  -- If `smp_sig_mask_allset` succeeds, every signal that may be blocked is blocked.
  pub sig_mask_allset-blocks :
      (w w' : World os)
      → sig_mask_allset calls w ≡ (smp_ok, w')
      → (sig : ℤ) → laws.Maskable sig
      → laws.Blocked w'.mem sig
  unfolding sig_mask_allset sig_setfill changed mask_set
  sig_mask_allset-blocks w w' e sig may =
      elim (Bool-cases (is_error (calls.sigfillset calls.zeroed).0)) [
        | inl bad ↦ absurd (failed (ap (λ t. t.0) (rw bad at e)))
        | inr good ↦
            let filled = (calls.sigfillset calls.zeroed).1 in
            masks filled w w' (rw good at e) sig may (laws.fillset_fills calls.zeroed good sig may)
      ]

  not_in :
      (sig : ℤ) (s : calls.Set)
      → is_one (calls.sigismember s sig) ≡ false
      → (¬ laws.Member s sig) × SameBut laws.Member sig s s
  not_in sig s out = (
    λ is. true_ne (ap is_one (sym (laws.ismember_is s sig is)) ∙ out),
    λ n other. (λ is. is, λ is. is),
  )
    where
      true_ne : true ≢ false
      true_ne e = cc

  -- If `smp_sig_remove_from_set` succeeds, the signal is not in the set any more, and all others
  -- are as before.
  pub sig_remove_from_set-removes :
      (sig : ℤ) (s s' : calls.Set) (w w' : World os)
      → sig_remove_from_set calls sig (some s) w ≡ (smp_ok, some s', w')
      → (¬ laws.Member s' sig) × SameBut laws.Member sig s s'
  unfolding sig_remove_from_set sig_ismember changed unavailable
  sig_remove_from_set-removes sig s s' w w' e = elim (Bool-cases (negative sig)) [
    | inl bad ↦ absurd (failed (ap (λ t. t.0) (rw bad at e)))
    | inr good ↦ elim (Bool-cases (is_one (calls.sigismember s sig))) [
      | inr out ↦
          let same : s ≡ s' = some-injective _ _ (ap (λ t. t.1) (rw (good, out) at e)) in
          rw (sym same) (not_in sig s out)
      | inl is ↦ elim (Bool-cases (is_error (calls.sigdelset s sig).0)) [
        | inl bad ↦ absurd (failed (ap (λ t. t.0) (rw (good, is, bad) at e)))
        | inr fine ↦
            let left = (calls.sigdelset s sig).1 in
            let same : left ≡ s' = some-injective _ _ (ap (λ t. t.1) (rw (good, is, fine) at e)) in
            rw (sym same) (laws.delset_removes s sig fine)
      ]
    ]
  ]
