-- ===== src/Pipeline.antt =====
-- How the services under apps are joined: the Kafka topics that each end reads from its own
-- environment, or has fixed.
pub mod Topics
pub mod Clients
pub mod Routes
pub mod Mains
pub mod Messages
pub mod Load
pub mod Binary
mod Examples
use trade_bench.Common.{String, ◌≡◌}
use trade_bench.Common.Env.{Env}

-- The environment of each service.
pub record Environments : Type 0 where
  pub submission : Env
  pub sandbox : Env
  pub bots : Env
  pub ingester : Env
  pub scorer : Env
  pub leaderboard : Env

-- The two ends of each topic have the same value in their variables, which may be none.
pub record IsMatched (e : Environments) : Type 0 where
  pub queued : e.submission.get "KAFKA_TOPIC" ≡ e.sandbox.get "SANDBOX_CONSUME_TOPIC"
  pub failed : e.sandbox.get "SANDBOX_FAILED_TOPIC" ≡ e.submission.get "KAFKA_FAILED_TOPIC"
  pub started : e.sandbox.get "SANDBOX_PRODUCE_TOPIC" ≡ e.bots.get "BOTS_CONSUME_TOPIC"
  pub telemetry : e.bots.get "BOTS_PRODUCE_TOPIC" ≡ e.ingester.get "INGESTER_CONSUME_TOPIC"
  pub completed : e.ingester.get "INGESTER_PRODUCE_TOPIC" ≡ e.scorer.get "SCORER_CONSUME_TOPIC"
  pub scored : e.scorer.get "SCORER_PRODUCE_TOPIC" ≡ e.leaderboard.get "LEADERBOARD_CONSUME_TOPIC"

-- The topics that some reader has fixed are not set.
pub record IsPlain (e : Environments) : Type 0 where
  pub started : e.sandbox.get "SANDBOX_PRODUCE_TOPIC" ≡ ""
  pub completed : e.ingester.get "INGESTER_PRODUCE_TOPIC" ≡ ""
  pub scored : e.scorer.get "SCORER_PRODUCE_TOPIC" ≡ ""
