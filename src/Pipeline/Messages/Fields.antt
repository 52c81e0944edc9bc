-- ===== src/Pipeline/Messages/Fields.antt =====
-- The events of one service with the fields of another's.
use trade_bench.Common.{Bool, ◌&&◌, Option, none, some, if◌then◌else◌}
use trade_bench.Common.Int.{ℤ}
use trade_bench.Common.Float.{Float}
use trade_bench.Common.Json.{Object, encodes}
use trade_bench.Submission.Upload as Upload
use trade_bench.Submission.Listener as Listener
use trade_bench.Sandbox.Consumer as SandboxConsumer
use trade_bench.Sandbox.Events as Sandbox
use trade_bench.Bots.Bot as Bot
use trade_bench.Bots.Orchestrator as Orchestrator
use trade_bench.Ingester.Window as Window
use trade_bench.Ingester.Consumer as IngesterConsumer
use trade_bench.Scorer.Board as Board

-- An event as another service has it: the fields of the same name.
abbrev pub to_sandbox : Upload.SubmissionEvent → SandboxConsumer.SubmissionEvent
to_sandbox e = record {
  submission_id = e.submission_id;
  contestant_id = e.contestant_id;
  s3_key = e.s3_key;
  language = e.language;
  submitted_at = e.submitted_at;
}

abbrev pub to_bots : SandboxConsumer.RunStartedEvent → Orchestrator.RunStartedEvent
to_bots e = record {
  run_id = e.run_id;
  submission_id = e.submission_id;
  contestant_id = e.contestant_id;
  sandbox_address = e.sandbox_address;
  target_rps = e.target_rps;
  duration_secs = e.duration_secs;
  protocol = e.protocol;
}

abbrev pub to_ingester : SandboxConsumer.RunStartedEvent → IngesterConsumer.RunStartedEvent
to_ingester e = record { run_id = e.run_id; contestant_id = e.contestant_id }

abbrev pub to_listener : SandboxConsumer.RunStartedEvent → Listener.RunStartedEvent
to_listener e = record { run_id = e.run_id; submission_id = e.submission_id }

abbrev pub failed_to_listener : Sandbox.SubmissionFailedEvent → Listener.SubmissionFailedEvent
failed_to_listener e = record { submission_id = e.submission_id; error = e.error }

abbrev pub to_scorer :
    {F : Type 0} → IngesterConsumer.RunCompletedEvent F → Board.RunCompletedEvent F
to_scorer e = record {
  run_id = e.run_id;
  contestant_id = e.contestant_id;
  p50_ms = e.p50_ms;
  p90_ms = e.p90_ms;
  p99_ms = e.p99_ms;
  max_tps = e.max_tps;
  correctness = e.correctness;
}

abbrev pub completed_to_listener :
    {F : Type 0} → IngesterConsumer.RunCompletedEvent F → Listener.RunCompletedEvent
completed_to_listener e = record { run_id = e.run_id }

abbrev pub scored_to_listener :
    {F : Type 0} → Board.ScoreUpdatedEvent F → Listener.ScoreUpdatedEvent F
scored_to_listener e = record {
  contestant_id = e.contestant_id;
  run_id = e.run_id;
  score = e.score;
}

-- A price of 0 is left out and read as 0 again.
abbrev pub to_window :
    (f : Float) → (f.F → Bool) → (f.F → ℤ) → Bot.TelemetryEvent f.F → Window.TelemetryEvent
to_window f is_zero units e = record {
  run_id = e.run_id;
  bot_id = e.bot_id;
  order_id = e.order_id;
  sent_at_ns = e.sent_at_ns;
  ack_at_ns = e.ack_at_ns;
  correct_fill = e.correct_fill;
  order_type = e.order_type;
  rejected = e.rejected;
  symbol = e.symbol;
  side = e.side;
  price = units (if is_zero e.price then f.lit 0 0 else e.price);
  quantity = e.quantity;
}

module _ (f : Float) (finite : f.F → Bool) (writes : Bool) where
  -- What a reader has of a message that a service tries to publish: nothing where it does not encode
  -- or Kafka refuses it, and else the event that it decodes.
  abbrev pub arriving : {A : Type 0} → Object f.F → A → Option A
  arriving o a = if encodes finite o && writes then some a else none
