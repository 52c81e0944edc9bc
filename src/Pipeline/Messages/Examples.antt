-- ===== src/Pipeline/Messages/Examples.antt =====
-- One message of each topic.
use trade_bench.Common.{ℕ, true, false, ◌==◌}
use trade_bench.Common.Int.{pos}
use trade_bench.Common.Whole.{whole}
use trade_bench.Submission.Upload as Upload
use trade_bench.Sandbox.Consumer as SandboxConsumer
use trade_bench.Sandbox.Events as Sandbox
use trade_bench.Bots.Bot as Bot
use trade_bench.Ingester.Consumer as IngesterConsumer
use trade_bench.Scorer.Board as Board
use trade_bench.Pipeline.Messages.{AreRead, messages_read}

abbrev submitted : Upload.SubmissionEvent
submitted = record {
  submission_id = "s1";
  contestant_id = "ann";
  s3_key = "submissions/s1/book";
  language = "go";
  submitted_at = pos 1000;
}

abbrev started : SandboxConsumer.RunStartedEvent
started = record {
  run_id = "r1";
  submission_id = "s1";
  contestant_id = "ann";
  sandbox_address = "10.0.0.2:8080";
  target_rps = pos 1000;
  duration_secs = pos 60;
  protocol = "rest";
}

abbrev failure : Sandbox.SubmissionFailedEvent
failure = record { submission_id = "s2"; error = "spawn sandbox" }

-- A market order, which has no price.
abbrev reported : Bot.TelemetryEvent ℕ
reported = record {
  run_id = "r1";
  bot_id = "bot-0";
  order_id = "o1";
  sent_at_ns = pos 5;
  ack_at_ns = pos 9;
  correct_fill = true;
  order_type = "market";
  rejected = false;
  symbol = "AAPL";
  side = "buy";
  price = 0;
  quantity = pos 3;
}

abbrev completed : IngesterConsumer.RunCompletedEvent ℕ
completed = record {
  run_id = "r1";
  contestant_id = "ann";
  p50_ms = 1;
  p90_ms = 2;
  p99_ms = 3;
  max_tps = pos 900;
  correctness = 1;
}

abbrev scored : Board.ScoreUpdatedEvent ℕ
scored = record { contestant_id = "ann"; run_id = "r1"; score = 90; p50_ms = 1; p99_ms = 3 }

messages_read_example :
    AreRead whole
      (λ x. true)
      (λ x. x == 0)
      pos
      true
      submitted
      started
      failure
      reported
      completed
      scored
messages_read_example =
    messages_read whole (λ x. true) (λ x. x == 0) pos true submitted started failure reported
      completed scored
