-- ===== src/Leaderboard/Events.antt =====
-- What the loop of apps/leaderboard/internal/consumer/kafka.go decodes.
use trade_bench.Common.{Option, some}
use trade_bench.Common.Float.{Float}
use trade_bench.Common.Json.{Object, ◌>>=◌, read_text, read_real}
use trade_bench.Scorer.Board.{ScoreUpdatedEvent}

module _ (f : Float) where
  -- `ScoreUpdatedEvent`, with the fields of the scorer's.
  unfoldable pub decode_scored : Object f.F → Option (ScoreUpdatedEvent f.F)
  unfolding read_real read_text
  decode_scored o = do
    contestant_id ← read_text "contestant_id" o
    run_id ← read_text "run_id" o
    score ← read_real f "score" o
    p50_ms ← read_real f "p50_ms" o
    p99_ms ← read_real f "p99_ms" o
    some (record {
      contestant_id = contestant_id;
      run_id = run_id;
      score = score;
      p50_ms = p50_ms;
      p99_ms = p99_ms;
    })
