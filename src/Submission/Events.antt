-- ===== src/Submission/Events.antt =====
-- The messages of apps/submission: `Publish` of internal/queue/kafka.go, and the events that the
-- listeners of internal/consumer/kafka.go decode.
use trade_bench.Common.{Bool, Option, some, [], ◌∷◌}
use trade_bench.Common.Float.{Float}
use trade_bench.Common.Json.{
  Object, KafkaMessage, ◌>>=◌, text, int, read_text, read_real, publish_json,
}
use trade_bench.Submission.Upload.{SubmissionEvent}
use trade_bench.Submission.Listener.{
  RunStartedEvent, RunCompletedEvent, SubmissionFailedEvent, ScoreUpdatedEvent,
}

module _ (f : Float) where
  -- `SubmissionEvent` of internal/queue/kafka.go.
  unfoldable pub encode_submission : SubmissionEvent → Object f.F
  encode_submission e =
      ("submission_id", text e.submission_id)
      ∷ ("contestant_id", text e.contestant_id)
      ∷ ("s3_key", text e.s3_key)
      ∷ ("language", text e.language)
      ∷ ("submitted_at", int e.submitted_at)
      ∷ []

  -- `KafkaProducer.Publish`; `writes`: whether Kafka takes the message.
  unfoldable pub publish : (f.F → Bool) → Bool → SubmissionEvent → Option (KafkaMessage f.F)
  unfolding publish_json encode_submission
  publish finite writes e = publish_json finite writes e.submission_id (encode_submission e)

  -- What the four listeners decode.
  unfoldable pub decode_started : Object f.F → Option RunStartedEvent
  unfolding read_text
  decode_started o = do
    run_id ← read_text "run_id" o
    submission_id ← read_text "submission_id" o
    some (record { run_id = run_id; submission_id = submission_id })

  unfoldable pub decode_completed : Object f.F → Option RunCompletedEvent
  unfolding read_text
  decode_completed o = do run_id ← read_text "run_id" o; some (record { run_id = run_id })

  unfoldable pub decode_failed : Object f.F → Option SubmissionFailedEvent
  unfolding read_text
  decode_failed o = do
    submission_id ← read_text "submission_id" o
    error ← read_text "error" o
    some (record { submission_id = submission_id; error = error })

  unfoldable pub decode_scored : Object f.F → Option (ScoreUpdatedEvent f.F)
  unfolding read_real read_text
  decode_scored o = do
    contestant_id ← read_text "contestant_id" o
    run_id ← read_text "run_id" o
    score ← read_real f "score" o
    some (record { contestant_id = contestant_id; run_id = run_id; score = score })
