-- ===== src/Scorer/Events.antt =====
-- The messages of apps/scorer: what internal/consumer/kafka.go decodes, and `Publish` of
-- internal/publisher/kafka.go.
use trade_bench.Common.{Bool, Option, some, [], ◌∷◌}
use trade_bench.Common.Float.{Float}
use trade_bench.Common.Json.{
  Object, KafkaMessage, ◌>>=◌, text, real, read_text, read_int, read_real, publish_json,
}
use trade_bench.Scorer.Board.{RunCompletedEvent, ScoreUpdatedEvent}

module _ (f : Float) where
  -- `RunCompletedEvent` of internal/consumer/kafka.go.
  unfoldable pub decode_completed : Object f.F → Option (RunCompletedEvent f.F)
  unfolding read_int read_real read_text
  decode_completed o = do
    run_id ← read_text "run_id" o
    contestant_id ← read_text "contestant_id" o
    p50_ms ← read_real f "p50_ms" o
    p90_ms ← read_real f "p90_ms" o
    p99_ms ← read_real f "p99_ms" o
    max_tps ← read_int "max_tps" o
    correctness ← read_real f "correctness" o
    some (record {
      run_id = run_id;
      contestant_id = contestant_id;
      p50_ms = p50_ms;
      p90_ms = p90_ms;
      p99_ms = p99_ms;
      max_tps = max_tps;
      correctness = correctness;
    })

  -- `ScoreUpdatedEvent` of internal/publisher/kafka.go.
  unfoldable pub encode_scored : ScoreUpdatedEvent f.F → Object f.F
  encode_scored e =
      ("contestant_id", text e.contestant_id)
      ∷ ("run_id", text e.run_id)
      ∷ ("score", real e.score)
      ∷ ("p50_ms", real e.p50_ms)
      ∷ ("p99_ms", real e.p99_ms)
      ∷ []

  -- `KafkaPublisher.Publish`.
  unfoldable pub publish : (f.F → Bool) → Bool → ScoreUpdatedEvent f.F → Option (KafkaMessage f.F)
  unfolding publish_json encode_scored
  publish finite writes e = publish_json finite writes e.contestant_id (encode_scored e)
