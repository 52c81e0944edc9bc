-- ===== src/Ingester/Histogram.antt =====
-- apps/ingester/internal/histogram/hdr.go: the wrapper; the HDR histogram itself is a parameter.
use trade_bench.Common.{ℕ, if◌then◌else◌}
use trade_bench.Common.Int.{ℤ, pos, ltb_ℤ}
use trade_bench.Common.Float.{Float}

-- The calls of github.com/HdrHistogram/hdrhistogram-go. `RecordValue` drops a value out of range.
pub record Hdr (F : Type 0) : Type 1 where
  pub H : Type 0
  pub new : ℤ → ℤ → ℕ → H
  pub record_value : H → ℤ → H
  pub value_at_quantile : H → F → ℤ
  pub total_count : H → ℤ
  pub reset : H → H

module _ (f : Float) (hdr : Hdr f.F) where
  unfoldable pub new_histogram : hdr.H
  new_histogram = hdr.new (pos 1) (pos 10_000_000_000) 3

  unfoldable pub record_latency : hdr.H → ℤ → hdr.H
  record_latency h latency_ns =
      hdr.record_value h (if ltb_ℤ latency_ns (pos 1) then pos 1 else latency_ns)

  -- Nanoseconds to milliseconds.
  unfoldable pub percentile : hdr.H → f.F → f.F
  percentile h p = f.div (f.of_int (hdr.value_at_quantile h p)) (f.lit 1_000_000 0)

  unfoldable pub total_count : hdr.H → ℤ
  total_count h = hdr.total_count h

  unfoldable pub reset : hdr.H → hdr.H
  reset h = hdr.reset h
