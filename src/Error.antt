-- ===== src/Error.antt =====
-- smp_linux/smp_error/smp_error.c: the buffer of the last error, and the state that it shares with
-- the C library.
pub mod Laws
pub mod Texts
use smpcil.Base.{
  ℤ, negsuc, Status, smp_ok, smp_failure, is_error, if◌then◌else◌, ℕ, Option, none, some, List,
  take, Ptr,
}
use smpcil.Libc.{Libc}

-- SMP_ERROR_SIZE
abbrev pub error_size : ℕ
error_size = 2048

abbrev pub Text : Type 0
Text = List ℕ

-- A text is its bytes without the terminator. `smp_errno` is the text in the buffer, `none` before
-- the first `malloc` of it.
pub record World (os : Libc) : Type 0 where
  pub mem : os.Mem
  pub smp_errno : Option Text

module _ {os : Libc} where
  -- The buffer is wiped and `error`'s first 2047 bytes are copied in, so a terminator is left.
  pub store_error : Text → World os → World os
  store_error error w = record w { smp_errno = some (take 2047 error) }

  -- The first error: the result of `malloc(SMP_ERROR_SIZE)` is tested.
  first_error : Text → World os → Option Ptr × os.Mem → World os
  first_error error w (none, m) = record w { mem = m }
  first_error error w (some buffer, m) = store_error error (record w { mem = m })

  unfoldable pub set_error : Text → World os → World os
  unfolding store_error first_error
  set_error error w = elim w.smp_errno [
    | some _ ↦ store_error error w
    | none ↦ first_error error w (os.malloc error_size w.mem)
  ]

  pub get_error : World os → Option Text
  get_error w = w.smp_errno

  -- `if (… == -1) { smp_set_error(strerror(errno)); return SMP_FAILURE; } return SMP_OK;`, with the
  -- value of a call
  abbrev pub checked : ℤ → World os → Status × World os
  checked ret w =
      if is_error ret then (smp_failure, set_error (os.error_text w.mem) w) else (smp_ok, w)

  -- the same, where the value itself is returned; SMP_FAILURE is -1
  abbrev pub checked_value : ℤ → World os → ℤ × World os
  checked_value ret w =
      if is_error ret then (negsuc 0, set_error (os.error_text w.mem) w) else (ret, w)
