-- ===== src/Gateway/RateLimit.antt =====
-- apps/gateway/internal/ratelimit/limiter.go: one token bucket for each key.
-- The bucket is golang.org/x/time/rate's, a parameter; the clock is an argument.
pub mod Isolation
use trade_bench.Common.{ℕ, String, Bool, true, false, Option, none, some, if◌then◌else◌, str_eq}
use trade_bench.Common.Int.{ℤ}
use trade_bench.Common.Dict.{Dict, find, put}
use mathlib.Core.List.{[]}
use trade_bench.Common.Float.{Float}

-- `rate.NewLimiter` and `Limiter.Allow`.
pub record Rate (F : Type 0) : Type 1 where
  pub Bucket : Type 0
  pub new_limiter : F → ℤ → Bucket
  pub allow : Bucket → ℤ → Bool × Bucket

pub record Limiter (Bucket : Type 0) : Type 0 where
  pub limiters : Dict Bucket
  pub rpm : ℤ

module _ (f : Float) (rate : Rate f.F) where
  open rate use {Bucket}

  unfoldable pub new_limiter : ℤ → Limiter Bucket
  new_limiter rpm = record { limiters = []; rpm = rpm }

  -- `getLimiter`: the bucket of a key, made on first use; the burst is the rate of a minute.
  unfoldable pub get_limiter : Limiter Bucket → String → Bucket
  get_limiter l key = elim (find key l.limiters) [
    | some bucket ↦ bucket
    | none ↦ rate.new_limiter (f.div (f.of_int l.rpm) (f.lit 60 0)) l.rpm
  ]

  -- `Allow`; the bucket is shared with the map, so its new state is in the map.
  unfoldable pub allow : Limiter Bucket → String → ℤ → Bool × Limiter Bucket
  allow l key now =
      let (ok, bucket) = rate.allow (get_limiter l key) now in
      (ok, record l { limiters = put key bucket l.limiters })

  -- The handler of `Middleware`, for a request of that key: whether the next handler serves it.
  unfoldable pub admit : Limiter Bucket → String → ℤ → Bool × Limiter Bucket
  admit l key now = if str_eq key "" then (true, l) else allow l key now
