-- ===== src/Ingester/Events.antt =====
-- The messages of apps/ingester: what the loops of internal/consumer/kafka.go decode, and `Publish`
-- of internal/publisher/kafka.go.
use trade_bench.Common.{Bool, Option, some, [], ◌∷◌}
use trade_bench.Common.Float.{Float}
use trade_bench.Common.Json.{
  Object, KafkaMessage, ◌>>=◌, text, int, real, read_text, read_int, read_flag, read_real,
  publish_json,
}
use trade_bench.Common.Int.{ℤ}
use trade_bench.Ingester.Window.{TelemetryEvent}
use trade_bench.Ingester.Consumer.{RunStartedEvent, RunCompletedEvent}

module _ (f : Float) where
  -- `TelemetryEvent` of internal/window/window.go; `units`: the price in units of the smallest one.
  unfoldable pub decode_telemetry : (f.F → ℤ) → Object f.F → Option TelemetryEvent
  unfolding read_flag read_int read_real read_text
  decode_telemetry units o = do
    run_id ← read_text "run_id" o
    bot_id ← read_text "bot_id" o
    order_id ← read_text "order_id" o
    sent_at_ns ← read_int "sent_at_ns" o
    ack_at_ns ← read_int "ack_at_ns" o
    correct_fill ← read_flag "correct_fill" o
    order_type ← read_text "order_type" o
    rejected ← read_flag "rejected" o
    symbol ← read_text "symbol" o
    side ← read_text "side" o
    price ← read_real f "price" o
    quantity ← read_int "quantity" o
    some (record {
      run_id = run_id;
      bot_id = bot_id;
      order_id = order_id;
      sent_at_ns = sent_at_ns;
      ack_at_ns = ack_at_ns;
      correct_fill = correct_fill;
      order_type = order_type;
      rejected = rejected;
      symbol = symbol;
      side = side;
      price = units price;
      quantity = quantity;
    })

  -- `RunStartedEvent` of internal/consumer/kafka.go.
  unfoldable pub decode_started : Object f.F → Option RunStartedEvent
  unfolding read_text
  decode_started o = do
    run_id ← read_text "run_id" o
    contestant_id ← read_text "contestant_id" o
    some (record { run_id = run_id; contestant_id = contestant_id })

  -- `RunCompletedEvent` of internal/publisher/kafka.go.
  unfoldable pub encode_completed : RunCompletedEvent f.F → Object f.F
  encode_completed e =
      ("run_id", text e.run_id)
      ∷ ("contestant_id", text e.contestant_id)
      ∷ ("p50_ms", real e.p50_ms)
      ∷ ("p90_ms", real e.p90_ms)
      ∷ ("p99_ms", real e.p99_ms)
      ∷ ("max_tps", int e.max_tps)
      ∷ ("correctness", real e.correctness)
      ∷ []

  -- `KafkaPublisher.Publish`.
  unfoldable pub publish : (f.F → Bool) → Bool → RunCompletedEvent f.F → Option (KafkaMessage f.F)
  unfolding publish_json encode_completed
  publish finite writes e = publish_json finite writes e.run_id (encode_completed e)
