-- ===== src/Scorer/Examples.antt =====
-- Two runs of one contestant.
use trade_bench.Common.{ℕ, true, ◌≡◌, refl, false, none, some, List, [], ◌∷◌}
use trade_bench.Common.Int.{pos}
use trade_bench.Common.Whole.{whole}
use trade_bench.Scorer.Formula.{calculate, calculate_bounds}
use trade_bench.Scorer.Formula.Hundredths.{hundredths, hundredths-Rounding}
use trade_bench.Scorer.Formula.Better.{calculate_better}
use trade_bench.Scorer.Board.{RunCompletedEvent, metrics_key, Fetched, event, consume_all}
use trade_bench.Scorer.Board.Best.{hash-consume_all, metrics_after}
use trade_bench.Scorer.Board.Store.{store, store-Laws, empty}

abbrev run : RunCompletedEvent ℕ
run = record {
  run_id = "r";
  contestant_id = "c";
  p50_ms = 1;
  p90_ms = 2;
  p99_ms = 3;
  max_tps = pos 2000;
  correctness = 1;
}

calculate_bounds_example :
    (whole.lt (calculate whole 3 (pos 2000) 1) (whole.lit 0 0) ≡ false)
    × (whole.lt (whole.lit 100 0) (calculate whole 3 (pos 2000) 1) ≡ false)
calculate_bounds_example = calculate_bounds whole refl refl refl 3 (pos 2000) 1

-- Another contestant's run, and two of c's.
abbrev runs : List (Fetched (RunCompletedEvent ℕ))
runs = event (record run { contestant_id = "d"; p50_ms = 7 }) ∷ event run ∷ event run ∷ []

hash-consume_all_example :
    store.hash (consume_all whole store empty runs) (metrics_key "c")
    ≡ metrics_after whole store none (some (1, 3)) none
hash-consume_all_example = hash-consume_all whole store store-Laws empty runs "c"

-- 90 ms, 500 orders a second and half of the fills against 10 ms, 800 and all.
calculate_better_example :
    hundredths.le (calculate hundredths 9000 (pos 500) 50) (calculate hundredths 1000 (pos 800) 100)
    ≡ true
calculate_better_example =
    calculate_better hundredths hundredths-Rounding 1000 9000 (pos 500) (pos 800) 50 100 refl refl
      refl refl
