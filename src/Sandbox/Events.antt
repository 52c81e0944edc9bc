-- ===== src/Sandbox/Events.antt =====
-- The messages of apps/sandbox: what internal/consumer/kafka.go decodes, and `Publish` of
-- internal/publisher/kafka.go.
use trade_bench.Common.{String, Bool, Option, some, [], ◌∷◌}
use trade_bench.Common.Float.{Float}
use trade_bench.Common.Json.{
  Object, KafkaMessage, ◌>>=◌, text, int, read_text, read_int, publish_json,
}
use trade_bench.Sandbox.Consumer.{SubmissionEvent, RunStartedEvent}

-- `SubmissionFailedEvent` of internal/publisher/kafka.go.
pub record SubmissionFailedEvent : Type 0 where
  pub submission_id : String
  pub error : String

module _ (f : Float) where
  -- `SubmissionEvent` of internal/consumer/kafka.go.
  unfoldable pub decode_submission : Object f.F → Option SubmissionEvent
  unfolding read_int read_text
  decode_submission o = do
    submission_id ← read_text "submission_id" o
    contestant_id ← read_text "contestant_id" o
    s3_key ← read_text "s3_key" o
    language ← read_text "language" o
    submitted_at ← read_int "submitted_at" o
    some (record {
      submission_id = submission_id;
      contestant_id = contestant_id;
      s3_key = s3_key;
      language = language;
      submitted_at = submitted_at;
    })

  -- `RunStartedEvent` of internal/publisher/kafka.go.
  unfoldable pub encode_started : RunStartedEvent → Object f.F
  encode_started e =
      ("run_id", text e.run_id)
      ∷ ("submission_id", text e.submission_id)
      ∷ ("contestant_id", text e.contestant_id)
      ∷ ("sandbox_address", text e.sandbox_address)
      ∷ ("target_rps", int e.target_rps)
      ∷ ("duration_secs", int e.duration_secs)
      ∷ ("protocol", text e.protocol)
      ∷ []

  -- `KafkaPublisher.Publish`.
  unfoldable pub publish : (f.F → Bool) → Bool → RunStartedEvent → Option (KafkaMessage f.F)
  unfolding publish_json encode_started
  publish finite writes e = publish_json finite writes e.run_id (encode_started e)

  unfoldable pub encode_failed : SubmissionFailedEvent → Object f.F
  encode_failed e = ("submission_id", text e.submission_id) ∷ ("error", text e.error) ∷ []
