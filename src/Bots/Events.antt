-- ===== src/Bots/Events.antt =====
-- The messages of apps/bots: what internal/consumer/kafka.go decodes, and the telemetry that
-- internal/publisher/kafka.go sends, one message for an event.
use trade_bench.Common.{if◌then◌else◌, Bool, Option, none, some, [], ◌∷◌}
use trade_bench.Common.Float.{Float}
use trade_bench.Common.Json.{
  Value, as_flag, Object, KafkaMessage, ◌>>=◌, text, int, real, flag, read_text, read_int,
  publish_json,
}
use trade_bench.Common.Dict.{find}
use trade_bench.Bots.Bot.{TelemetryEvent, Body}
use trade_bench.Bots.Orchestrator.{RunStartedEvent}

module _ (f : Float) where
  -- `RunStartedEvent` of internal/consumer/kafka.go.
  unfoldable pub decode_started : Object f.F → Option RunStartedEvent
  unfolding read_int read_text
  decode_started o = do
    run_id ← read_text "run_id" o
    submission_id ← read_text "submission_id" o
    contestant_id ← read_text "contestant_id" o
    sandbox_address ← read_text "sandbox_address" o
    target_rps ← read_int "target_rps" o
    duration_secs ← read_int "duration_secs" o
    protocol ← read_text "protocol" o
    some (record {
      run_id = run_id;
      submission_id = submission_id;
      contestant_id = contestant_id;
      sandbox_address = sandbox_address;
      target_rps = target_rps;
      duration_secs = duration_secs;
      protocol = protocol;
    })

  -- `TelemetryEvent` of internal/consumer/kafka.go; `is_zero`: whether a float64 equals 0. A price of 0 is
  -- omitted.
  unfoldable pub encode_telemetry : (f.F → Bool) → TelemetryEvent f.F → Object f.F
  encode_telemetry is_zero e =
      let quantity = ("quantity", int e.quantity) ∷ [] in
      ("run_id", text e.run_id)
      ∷ ("bot_id", text e.bot_id)
      ∷ ("order_id", text e.order_id)
      ∷ ("sent_at_ns", int e.sent_at_ns)
      ∷ ("ack_at_ns", int e.ack_at_ns)
      ∷ ("correct_fill", flag e.correct_fill)
      ∷ ("order_type", text e.order_type)
      ∷ ("rejected", flag e.rejected)
      ∷ ("symbol", text e.symbol)
      ∷ ("side", text e.side)
      ∷ (if is_zero e.price then quantity else ("price", real e.price) ∷ quantity)

  -- One round of `BatchPublisher.Start`.
  unfoldable pub publish :
      (f.F → Bool) → (f.F → Bool) → Bool → TelemetryEvent f.F → Option (KafkaMessage f.F)
  unfolding publish_json encode_telemetry
  publish is_zero finite writes e = publish_json finite writes e.run_id (encode_telemetry is_zero e)

  -- The pointer to `correct_fill` is nil where there is no such member.
  optional_flag : Option (Value f.F) → Option (Option Bool)
  optional_flag none = some none
  optional_flag (some v) = elim (as_flag v) [ none ↦ none | some b ↦ some (some b) ]

  -- What `SendOrder` of internal/bot/bot.go decodes of an answer.
  unfoldable pub decode_answer : Object f.F → Option Body
  unfolding optional_flag read_text find
  decode_answer o = do
    correct_fill ← optional_flag (find "correct_fill" o)
    status ← read_text "status" o
    some (record { correct_fill = correct_fill; status = status })
