-- ===== src/Pipeline/Messages.antt =====
-- Whether a service understands what another one publishes.
pub mod Fields
mod Examples
use Fields.{
  to_sandbox, to_bots, to_ingester, to_listener, failed_to_listener, to_scorer,
  completed_to_listener, scored_to_listener, to_window, arriving,
}
use trade_bench.Common.{
  ◌≡◌, refl, Bool, true, false, ◌&&◌, Option, none, some, if◌then◌else◌, Bool-cases, inl, inr,
}
use trade_bench.Common.Int.{ℤ}
use trade_bench.Common.Float.{Float}
use trade_bench.Common.Json.{
  Object, ◌>>=◌, encodes, read_message, publish_json, publish_json-read, read_text, read_int,
  read_flag, read_real,
}
use trade_bench.Submission.Upload as Upload
use trade_bench.Submission.Listener as Listener
use trade_bench.Submission.Events as Submission
use trade_bench.Sandbox.Consumer as SandboxConsumer
use trade_bench.Sandbox.Events as Sandbox
use trade_bench.Bots.Bot as Bot
use trade_bench.Bots.Orchestrator as Orchestrator
use trade_bench.Bots.Events as Bots
use trade_bench.Ingester.Window as Window
use trade_bench.Ingester.Consumer as IngesterConsumer
use trade_bench.Ingester.Events as Ingester
use trade_bench.Scorer.Board as Board
use trade_bench.Scorer.Events as Scorer
use trade_bench.Leaderboard.Events as Leaderboard

module _ (f : Float) (finite : f.F → Bool) (writes : Bool) where
  submission_read :
      (e : Upload.SubmissionEvent)
      → (Submission.publish f finite writes e >>= read_message (Sandbox.decode_submission f))
        ≡ arriving f finite writes (Submission.encode_submission f e) (to_sandbox e)
  unfolding Submission.publish Submission.encode_submission Sandbox.decode_submission
  submission_read e =
      publish_json-read finite writes e.submission_id (Submission.encode_submission f e)
        (Sandbox.decode_submission f) (to_sandbox e) refl

  started_read_bots :
      (e : SandboxConsumer.RunStartedEvent)
      → (Sandbox.publish f finite writes e >>= read_message (Bots.decode_started f))
        ≡ arriving f finite writes (Sandbox.encode_started f e) (to_bots e)
  unfolding Sandbox.publish Sandbox.encode_started Bots.decode_started
  started_read_bots e =
      publish_json-read finite writes e.run_id (Sandbox.encode_started f e) (Bots.decode_started f)
        (to_bots e) refl

  started_read_ingester :
      (e : SandboxConsumer.RunStartedEvent)
      → (Sandbox.publish f finite writes e >>= read_message (Ingester.decode_started f))
        ≡ arriving f finite writes (Sandbox.encode_started f e) (to_ingester e)
  unfolding Sandbox.publish Sandbox.encode_started Ingester.decode_started
  started_read_ingester e =
      publish_json-read finite writes e.run_id (Sandbox.encode_started f e)
        (Ingester.decode_started f) (to_ingester e) refl

  started_read_listener :
      (e : SandboxConsumer.RunStartedEvent)
      → (Sandbox.publish f finite writes e >>= read_message (Submission.decode_started f))
        ≡ arriving f finite writes (Sandbox.encode_started f e) (to_listener e)
  unfolding Sandbox.publish Sandbox.encode_started Submission.decode_started
  started_read_listener e =
      publish_json-read finite writes e.run_id (Sandbox.encode_started f e)
        (Submission.decode_started f) (to_listener e) refl

  completed_read_scorer :
      (e : IngesterConsumer.RunCompletedEvent f.F)
      → (Ingester.publish f finite writes e >>= read_message (Scorer.decode_completed f))
        ≡ arriving f finite writes (Ingester.encode_completed f e) (to_scorer e)
  unfolding Ingester.publish Ingester.encode_completed Scorer.decode_completed
  completed_read_scorer e =
      publish_json-read finite writes e.run_id (Ingester.encode_completed f e)
        (Scorer.decode_completed f) (to_scorer e) refl

  completed_read_listener :
      (e : IngesterConsumer.RunCompletedEvent f.F)
      → (Ingester.publish f finite writes e >>= read_message (Submission.decode_completed f))
        ≡ arriving f finite writes (Ingester.encode_completed f e) (completed_to_listener e)
  unfolding Ingester.publish Ingester.encode_completed Submission.decode_completed
  completed_read_listener e =
      publish_json-read finite writes e.run_id (Ingester.encode_completed f e)
        (Submission.decode_completed f) (completed_to_listener e) refl

  scored_read_leaderboard :
      (e : Board.ScoreUpdatedEvent f.F)
      → (Scorer.publish f finite writes e >>= read_message (Leaderboard.decode_scored f))
        ≡ arriving f finite writes (Scorer.encode_scored f e) (e)
  unfolding Scorer.publish Scorer.encode_scored Leaderboard.decode_scored
  scored_read_leaderboard e =
      publish_json-read finite writes e.contestant_id (Scorer.encode_scored f e)
        (Leaderboard.decode_scored f) (e) refl

  scored_read_listener :
      (e : Board.ScoreUpdatedEvent f.F)
      → (Scorer.publish f finite writes e >>= read_message (Submission.decode_scored f))
        ≡ arriving f finite writes (Scorer.encode_scored f e) (scored_to_listener e)
  unfolding Scorer.publish Scorer.encode_scored Submission.decode_scored
  scored_read_listener e =
      publish_json-read finite writes e.contestant_id (Scorer.encode_scored f e)
        (Submission.decode_scored f) (scored_to_listener e) refl

  telemetry_decoded :
      (is_zero : f.F → Bool) (units : f.F → ℤ) (e : Bot.TelemetryEvent f.F)
      → Ingester.decode_telemetry f units (Bots.encode_telemetry f is_zero e)
        ≡ some (to_window f is_zero units e)
  unfolding Bots.encode_telemetry Ingester.decode_telemetry
  telemetry_decoded is_zero units e = elim (Bool-cases (is_zero e.price)) [
    | inl z ↦ rw z refl
    | inr z ↦ rw z refl
  ]

  pub telemetry_read :
      (is_zero : f.F → Bool) (units : f.F → ℤ) (e : Bot.TelemetryEvent f.F)
      → (Bots.publish f is_zero finite writes e
          >>= read_message (Ingester.decode_telemetry f units))
        ≡ arriving f finite writes (Bots.encode_telemetry f is_zero e) (to_window f is_zero units e)
  unfolding Bots.publish
  telemetry_read is_zero units e =
      publish_json-read finite writes e.run_id (Bots.encode_telemetry f is_zero e)
        (Ingester.decode_telemetry f units) (to_window f is_zero units e)
        (telemetry_decoded is_zero units e)

-- Of each message that a service tries to publish its readers have, where it encodes and Kafka takes
-- it, the event with the same fields, and else nothing; a reader with fewer fields has those.
pub record AreRead (f : Float) (finite is_zero : f.F → Bool) (units : f.F → ℤ) (writes : Bool)
    (q : Upload.SubmissionEvent) (r : SandboxConsumer.RunStartedEvent)
    (x : Sandbox.SubmissionFailedEvent) (t : Bot.TelemetryEvent f.F)
    (c : IngesterConsumer.RunCompletedEvent f.F) (s : Board.ScoreUpdatedEvent f.F) : Type 0 where
  pub queued :
      (Submission.publish f finite writes q >>= read_message (Sandbox.decode_submission f))
      ≡ arriving f finite writes (Submission.encode_submission f q) (to_sandbox q)
  pub started_bots :
      (Sandbox.publish f finite writes r >>= read_message (Bots.decode_started f))
      ≡ arriving f finite writes (Sandbox.encode_started f r) (to_bots r)
  pub started_ingester :
      (Sandbox.publish f finite writes r >>= read_message (Ingester.decode_started f))
      ≡ arriving f finite writes (Sandbox.encode_started f r) (to_ingester r)
  pub started_listener :
      (Sandbox.publish f finite writes r >>= read_message (Submission.decode_started f))
      ≡ arriving f finite writes (Sandbox.encode_started f r) (to_listener r)
  pub completed_scorer :
      (Ingester.publish f finite writes c >>= read_message (Scorer.decode_completed f))
      ≡ arriving f finite writes (Ingester.encode_completed f c) (to_scorer c)
  pub completed_listener :
      (Ingester.publish f finite writes c >>= read_message (Submission.decode_completed f))
      ≡ arriving f finite writes (Ingester.encode_completed f c) (completed_to_listener c)
  pub scored_leaderboard :
      (Scorer.publish f finite writes s >>= read_message (Leaderboard.decode_scored f))
      ≡ arriving f finite writes (Scorer.encode_scored f s) (s)
  pub scored_listener :
      (Scorer.publish f finite writes s >>= read_message (Submission.decode_scored f))
      ≡ arriving f finite writes (Scorer.encode_scored f s) (scored_to_listener s)
  pub failed : Submission.decode_failed f (Sandbox.encode_failed f x) ≡ some (failed_to_listener x)
  pub telemetry :
      (Bots.publish f is_zero finite writes t >>= read_message (Ingester.decode_telemetry f units))
      ≡ arriving f finite writes (Bots.encode_telemetry f is_zero t) (to_window f is_zero units t)

failed_read :
    (f : Float) (x : Sandbox.SubmissionFailedEvent)
    → Submission.decode_failed f (Sandbox.encode_failed f x) ≡ some (failed_to_listener x)
unfolding Submission.decode_failed Sandbox.encode_failed
failed_read f x = refl

-- Every service understands what it reads: of a submission, a started run, a failure, telemetry, a
-- completed run and a score, each reader decodes the event with the fields that were published, a
-- price of 0 being left out and read as 0; and where a figure is NaN or infinite, or Kafka refuses
-- the message, there is none.
pub messages_read :
    (f : Float) (finite is_zero : f.F → Bool) (units : f.F → ℤ) (writes : Bool)
    (q : Upload.SubmissionEvent) (r : SandboxConsumer.RunStartedEvent)
    (x : Sandbox.SubmissionFailedEvent) (t : Bot.TelemetryEvent f.F)
    (c : IngesterConsumer.RunCompletedEvent f.F) (s : Board.ScoreUpdatedEvent f.F)
    → AreRead f finite is_zero units writes q r x t c s
messages_read f finite is_zero units writes q r x t c s = record {
  queued = submission_read f finite writes q;
  started_bots = started_read_bots f finite writes r;
  started_ingester = started_read_ingester f finite writes r;
  started_listener = started_read_listener f finite writes r;
  completed_scorer = completed_read_scorer f finite writes c;
  completed_listener = completed_read_listener f finite writes c;
  scored_leaderboard = scored_read_leaderboard f finite writes s;
  scored_listener = scored_read_listener f finite writes s;
  failed = failed_read f x;
  telemetry = telemetry_read f finite writes is_zero units t;
}
