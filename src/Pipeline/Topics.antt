-- ===== src/Pipeline/Topics.antt =====
-- Whether a service reads what the service before it writes.
use trade_bench.Common.{String, ◌≡◌, refl}
use trade_bench.Common.Env.{Env, env_or}
use trade_bench.Pipeline.{Environments, IsMatched, IsPlain}
use trade_bench.Submission.Config as Submission
use trade_bench.Sandbox.Config as Sandbox
use trade_bench.Bots.Config as Bots
use trade_bench.Ingester.Config as Ingester
use trade_bench.Scorer.Config as Scorer
use trade_bench.Leaderboard.Config as Leaderboard

-- Every topic that is read is one that is written: by the variables of the two ends.
pub record IsJoined (e : Environments) : Type 0 where
  pub queued : (Submission.load e.submission).kafka_topic ≡ (Sandbox.load e.sandbox).consume_topic
  pub failed :
      (Sandbox.load e.sandbox).failed_topic
      ≡ (Submission.listener_topics (Submission.load e.submission)).failed
  pub started : (Sandbox.load e.sandbox).produce_topic ≡ (Bots.load e.bots).consume_topic
  pub telemetry : (Bots.load e.bots).produce_topic ≡ (Ingester.load e.ingester).consume_topic
  pub completed : (Ingester.load e.ingester).produce_topic ≡ (Scorer.load e.scorer).consume_topic
  pub scored : (Scorer.load e.scorer).produce_topic ≡ (Leaderboard.load e.leaderboard).consume_topic

-- The readers whose topic is fixed read what is written.
pub record IsHeard (e : Environments) : Type 0 where
  pub ingester_started : (Sandbox.load e.sandbox).produce_topic ≡ Ingester.run_started_topic
  pub started :
      (Sandbox.load e.sandbox).produce_topic
      ≡ (Submission.listener_topics (Submission.load e.submission)).started
  pub completed :
      (Ingester.load e.ingester).produce_topic
      ≡ (Submission.listener_topics (Submission.load e.submission)).completed
  pub scored :
      (Scorer.load e.scorer).produce_topic
      ≡ (Submission.listener_topics (Submission.load e.submission)).score

env_or-matched :
    (a b : Env) (k l fallback : String)
    → a.get k ≡ b.get l
    → env_or a k fallback ≡ env_or b l fallback
unfolding env_or
env_or-matched a b k l fallback h = rw h refl

pub env_or-unset : (a : Env) (k fallback : String) → a.get k ≡ "" → env_or a k fallback ≡ fallback
unfolding env_or
env_or-unset a k fallback h = rw h refl

-- Where the variables for the two ends of each topic have the same value, or are both not set, every
-- service reads the topic that the one before it writes; and where the topics of started, completed
-- and scored runs are not set, so do the readers whose topic is fixed.
pub topics-IsJoined : (e : Environments) → IsMatched e → IsPlain e → IsJoined e × IsHeard e
unfolding Submission.load Sandbox.load Bots.load Ingester.load Scorer.load Leaderboard.load
    Submission.listener_topics
topics-IsJoined e m p = (
  record {
    queued = env_or-matched _ _ _ _ _ m.queued;
    failed = env_or-matched _ _ _ _ _ m.failed;
    started = env_or-matched _ _ _ _ _ m.started;
    telemetry = env_or-matched _ _ _ _ _ m.telemetry;
    completed = env_or-matched _ _ _ _ _ m.completed;
    scored = env_or-matched _ _ _ _ _ m.scored;
  },
  record {
    ingester_started = env_or-unset _ _ _ p.started;
    started = env_or-unset _ _ _ p.started;
    completed = env_or-unset _ _ _ p.completed;
    scored = env_or-unset _ _ _ p.scored;
  },
)
