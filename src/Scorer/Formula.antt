-- ===== src/Scorer/Formula.antt =====
-- apps/scorer/internal/scoring/formula.go. Constants are rounded literals; `raw` is computed in the
-- order of the source.
pub mod Rounding
pub mod Better
pub mod Hundredths
use trade_bench.Common.{false, ◌≡◌, inl, inr, arith, if◌then◌else◌, Bool-cases}
use trade_bench.Common.Int.{ℤ, pos, leb_ℤ}
use trade_bench.Common.Float.{Float}

module _ (f : Float) where
  unfoldable pub latency_component : f.F → f.F
  latency_component p99_ms =
      if f.le p99_ms (f.lit 0 0)
      then f.lit 1 0
      else if f.le (f.lit 500 0) p99_ms
      then f.lit 0 0
      else f.sub (f.lit 1 0) (f.div p99_ms (f.lit 500 0))

  unfoldable pub throughput_component : ℤ → f.F
  throughput_component max_tps =
      if leb_ℤ max_tps (pos 0)
      then f.lit 0 0
      else if leb_ℤ (pos 1000) max_tps
      then f.lit 1 0
      else f.div (f.of_int max_tps) (f.of_int (pos 1000))

  unfoldable pub clamp : f.F → f.F → f.F → f.F
  clamp val min max = if f.lt val min then min else if f.lt max val then max else val

  unfoldable pub calculate : f.F → ℤ → f.F → f.F
  calculate p99_ms max_tps correctness =
      let raw =
        f.add
          (f.add (f.mul (f.lit 35 2) (latency_component p99_ms))
            (f.mul (f.lit 35 2) (throughput_component max_tps)))
          (f.mul (f.lit 30 2) correctness) in
      clamp (f.mul raw (f.lit 100 0)) (f.lit 0 0) (f.lit 100 0)

  -- Where 0 and 100 are in order and neither is below itself, no score is below 0 or above 100,
  -- whatever the figures of the run are, NaN included.
  pub calculate_bounds :
      (f.lt (f.lit 0 0) (f.lit 0 0) ≡ false)
      → (f.lt (f.lit 100 0) (f.lit 100 0) ≡ false)
      → (f.lt (f.lit 100 0) (f.lit 0 0) ≡ false)
      → (p99_ms : f.F) (max_tps : ℤ) (correctness : f.F)
      → (f.lt (calculate p99_ms max_tps correctness) (f.lit 0 0) ≡ false)
        × (f.lt (f.lit 100 0) (calculate p99_ms max_tps correctness) ≡ false)
  unfolding calculate
  calculate_bounds z h o p99_ms max_tps correctness = clamp_bounds _
    where
      clamp_bounds :
          (v : f.F)
          → (f.lt (clamp v (f.lit 0 0) (f.lit 100 0)) (f.lit 0 0) ≡ false)
            × (f.lt (f.lit 100 0) (clamp v (f.lit 0 0) (f.lit 100 0)) ≡ false)
      clamp_bounds v =
          unfold clamp in
          elim (Bool-cases (f.lt v (f.lit 0 0))) [
            | inl a ↦ rw a (z, o)
            | inr a ↦ elim (Bool-cases (f.lt (f.lit 100 0) v)) [
              | inl b ↦ rw (a, b) (ground arith, h)
              | inr b ↦ rw (a, b) (a, b)
            ]
          ]
