-- ===== src/PoolApi/Counter.antt =====
-- A pool that only counts, for tests of the containers: it never runs out, and never gives back.
use smpcil.Base.{ℕ, ◌+◌, ◌<◌, some, smp_ok, arith}
use smpcil.PoolApi.{PoolApi, PoolLaws}

-- The pool is the next address, the state the number of errors.
abbrev pub counter : PoolApi
counter = record {
  World = ℕ;
  Pool = ℕ;
  create = λ size w. (some 8, w);
  mpalloc = λ n pool w. (some (pool + 1), pool + 1 + n, w);
  destory = λ pool w. (smp_ok, w);
  set_error = λ error w. w + 1;
}

abbrev pub counter_laws : PoolLaws counter
counter_laws = record {
  IsValid = λ pool w. Unit {0};
  InUse = λ pool w a. a < pool + 1;
  create_valid = λ size w w' pool big even e. tt;
  mpalloc_valid = λ n pool w v. tt;
  mpalloc_keeps = λ n pool w v a u. omega (arith, u);
  mpalloc_grants = λ n pool w v. record {
    nonnull = omega arith;
    fresh = λ a lo hi u. omega (arith, lo, u);
    used = λ a lo hi. omega (arith, hi);
  };
  set_error_valid = λ error pool w v. tt;
  set_error_keeps = λ error pool w a u. u;
}
