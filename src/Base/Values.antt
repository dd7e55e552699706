-- ===== src/Base/Values.antt =====
-- The values that smpcil.h and smp_linux.h name: statuses, C integers, pointers.
use mathlib.Core.Bool.{Bool, true, false}
use Prim.Native.Nat.{ℕ, zero, suc, ◌+◌, ◌-◌, ◌%◌, ◌^◌}
use smpcil.Base.Tests.{ltb, ◌==◌, if◌then◌else◌}

-- `SMP_STATUS`: SMP_OK is 0, SMP_FAILURE is -1.
pub data Status : Type 0 where
  smp_ok smp_failure : Status

-- A C `int`: `negsuc n` is -(n + 1).
pub data ℤ : Type 0 where
  pos : ℕ → ℤ
  negsuc : ℕ → ℤ

abbrev pub Ptr : Type 0
Ptr = ℕ

abbrev pub null : Ptr
null = 0

abbrev pub size_mod : ℕ
size_mod = 2 ^ 64

abbrev pub uint_mod : ℕ
uint_mod = 2 ^ 32

-- `unsigned int` x++ and x--.
abbrev pub inc32 : ℕ → ℕ
inc32 n = (n + 1) % uint_mod

abbrev pub dec32 : ℕ → ℕ
dec32 n = (n + uint_mod - 1) % uint_mod

-- `size_t` x++ and x--.
abbrev pub inc64 : ℕ → ℕ
inc64 n = (n + 1) % size_mod

abbrev pub dec64 : ℕ → ℕ
dec64 n = (n + size_mod - 1) % size_mod

-- The conversion of an unsigned value to `int`, which keeps its low 32 bits.
unfoldable pub to_int : ℕ → ℤ
to_int n =
    let low = n % uint_mod in if ltb low (2 ^ 31) then pos low else negsuc (uint_mod - 1 - low)

-- Tests and negation of an `int`.
abbrev pub is_error : ℤ → Bool
is_error (pos n) = false
is_error (negsuc n) = n == 0

abbrev pub is_one : ℤ → Bool
is_one (pos n) = n == 1
is_one (negsuc n) = false

abbrev pub positive : ℤ → Bool
positive (pos n) = ltb 0 n
positive (negsuc n) = false

abbrev pub negative : ℤ → Bool
negative (pos n) = false
negative (negsuc n) = true

abbrev pub minus : ℤ → ℤ
minus (pos zero) = pos zero
minus (pos (suc n)) = negsuc n
minus (negsuc n) = pos (suc n)

-- The conversions of a `long` to `int` and to `size_t`.
unfoldable pub int_of : ℤ → ℤ
unfolding to_int
int_of (pos n) = to_int n
int_of (negsuc n) = to_int (size_mod - 1 - n % size_mod)

abbrev pub size_of : ℤ → ℕ
size_of (pos n) = n % size_mod
size_of (negsuc n) = size_mod - 1 - n % size_mod
