-- ===== src/Pipeline/Clients.antt =====
-- Whether the Kafka clients that the services make meet: brokers and topics.
use mathlib.Core.Bool.{false≢true}
use trade_bench.Common.{
  ◌≡◌, ◌≢◌, refl, sym, ap, ◌∙◌, String, Bool, false, Option, none, some, List, [], ◌∷◌, get_elem?,
  str_eq, str_ne, length,
}
use trade_bench.Common.Env.{Env, env_or}
use trade_bench.Common.Kafka.{WriterConfig, ReaderConfig, split_commas}
use trade_bench.Common.Process.{Client, kafka_writer, kafka_readers, Stmt, opens}
use trade_bench.Pipeline.{Environments, IsMatched, IsPlain}
use trade_bench.Pipeline.Topics.{topics-IsJoined, env_or-unset}
use trade_bench.Submission.Config as Submission
use trade_bench.Submission.Clients as SubmissionClients
use trade_bench.Submission.Main as SubmissionMain
use trade_bench.Sandbox.Config as Sandbox
use trade_bench.Sandbox.Clients as SandboxClients
use trade_bench.Sandbox.Main as SandboxMain
use trade_bench.Bots.Config as Bots
use trade_bench.Bots.Clients as BotsClients
use trade_bench.Bots.Main as BotsMain
use trade_bench.Ingester.Config as Ingester
use trade_bench.Ingester.Clients as IngesterClients
use trade_bench.Ingester.Main as IngesterMain
use trade_bench.Scorer.Config as Scorer
use trade_bench.Scorer.Clients as ScorerClients
use trade_bench.Scorer.Main as ScorerMain
use trade_bench.Leaderboard.Config as Leaderboard
use trade_bench.Leaderboard.Clients as LeaderboardClients
use trade_bench.Leaderboard.Main as LeaderboardMain

abbrev or_writer : Client → Option WriterConfig → Option WriterConfig
or_writer (kafka_writer w) other = some w
or_writer c other = other

-- The writer that `main` makes.
abbrev pub writer_of : List Stmt → Option WriterConfig
writer_of [] = none
writer_of (opens c deferring ∷ rest) = or_writer c (writer_of rest)
writer_of (stmt ∷ rest) = writer_of rest

abbrev or_readers : Client → List ReaderConfig → List ReaderConfig
or_readers (kafka_readers rs) others = rs
or_readers c others = others

-- The readers that it makes, all at one place.
abbrev pub readers_of : List Stmt → List ReaderConfig
readers_of [] = []
readers_of (opens c deferring ∷ rest) = or_readers c (readers_of rest)
readers_of (stmt ∷ rest) = readers_of rest

-- A reader that gets what a writer sends.
abbrev pub Meets : Option WriterConfig → Option ReaderConfig → Type 0
Meets none r = ⊥
Meets (some w) none = ⊥
Meets (some w) (some r) = (w.topic ≡ r.topic) × (w.addr ≡ r.brokers)

-- A reader of a topic, on the brokers to which a writer sends.
abbrev pub Reads : Option ReaderConfig → String → Option WriterConfig → Type 0
Reads none topic w = ⊥
Reads (some r) topic none = ⊥
Reads (some r) topic (some w) = (topic ≡ r.topic) × (w.addr ≡ r.brokers)

-- The variable for the brokers has one value, which is not empty, in each service.
pub record HaveBrokers (e : Environments) (brokers : String) : Type 0 where
  pub is_set : brokers ≢ ""
  pub submission : e.submission.get "KAFKA_BROKERS" ≡ brokers
  pub sandbox : e.sandbox.get "KAFKA_BROKERS" ≡ brokers
  pub bots : e.bots.get "KAFKA_BROKERS" ≡ brokers
  pub ingester : e.ingester.get "KAFKA_BROKERS" ≡ brokers
  pub scorer : e.scorer.get "KAFKA_BROKERS" ≡ brokers
  pub leaderboard : e.leaderboard.get "KAFKA_BROKERS" ≡ brokers

-- Each writer and each reader of its topic; the submission service's reader of failures, to whose
-- topic no writer of the services is bound, beside the topic that the sandbox sends them to; and how
-- many readers each `main` makes.
pub record AreMet (e : Environments) : Type 0 where
  pub queued :
      Meets
        (writer_of (SubmissionMain.main (Submission.load e.submission)).setup)
        (get_elem? (readers_of (SandboxMain.main (Sandbox.load e.sandbox)).setup) 0)
  pub started_bots :
      Meets
        (writer_of (SandboxMain.main (Sandbox.load e.sandbox)).setup)
        (get_elem? (readers_of (BotsMain.main (Bots.load e.bots)).setup) 0)
  pub started_ingester : Meets (writer_of (SandboxMain.main (Sandbox.load e.sandbox)).setup) (
      some (
        IngesterClients.run_started_reader
          (Ingester.load e.ingester).kafka_brokers
          (Ingester.load e.ingester).consumer_group))
  pub started_listener :
      Meets
        (writer_of (SandboxMain.main (Sandbox.load e.sandbox)).setup)
        (get_elem? (readers_of (SubmissionMain.main (Submission.load e.submission)).setup) 0)
  pub telemetry :
      Meets
        (writer_of (BotsMain.main (Bots.load e.bots)).setup)
        (get_elem? (readers_of (IngesterMain.main (Ingester.load e.ingester)).setup) 0)
  pub completed_scorer :
      Meets
        (writer_of (IngesterMain.main (Ingester.load e.ingester)).setup)
        (get_elem? (readers_of (ScorerMain.main (Scorer.load e.scorer)).setup) 0)
  pub completed_listener :
      Meets
        (writer_of (IngesterMain.main (Ingester.load e.ingester)).setup)
        (get_elem? (readers_of (SubmissionMain.main (Submission.load e.submission)).setup) 1)
  pub scored_leaderboard :
      Meets
        (writer_of (ScorerMain.main (Scorer.load e.scorer)).setup)
        (get_elem? (readers_of (LeaderboardMain.main (Leaderboard.load e.leaderboard)).setup) 0)
  pub scored_listener :
      Meets
        (writer_of (ScorerMain.main (Scorer.load e.scorer)).setup)
        (get_elem? (readers_of (SubmissionMain.main (Submission.load e.submission)).setup) 2)
  pub failed_listener :
      Reads
        (get_elem? (readers_of (SubmissionMain.main (Submission.load e.submission)).setup) 3)
        (Sandbox.load e.sandbox).failed_topic
        (writer_of (SandboxMain.main (Sandbox.load e.sandbox)).setup)
  pub counted :
      (length (readers_of (SubmissionMain.main (Submission.load e.submission)).setup) ≡ 4)
      × (length (readers_of (SandboxMain.main (Sandbox.load e.sandbox)).setup) ≡ 1)
      × (length (readers_of (BotsMain.main (Bots.load e.bots)).setup) ≡ 1)
      × (length (readers_of (IngesterMain.main (Ingester.load e.ingester)).setup) ≡ 1)
      × (length (readers_of (ScorerMain.main (Scorer.load e.scorer)).setup) ≡ 1)
      × (length (readers_of (LeaderboardMain.main (Leaderboard.load e.leaderboard)).setup) ≡ 1)

env_or-set : (a : Env) (k fallback v : String) → a.get k ≡ v → v ≢ "" → env_or a k fallback ≡ v
unfolding env_or
env_or-set a k fallback v h n = rw h (rw (str_ne v "" n) refl)

same_brokers :
    (a b : Env) (f g v : String)
    → a.get "KAFKA_BROKERS" ≡ v
    → b.get "KAFKA_BROKERS" ≡ v
    → v ≢ ""
    → split_commas (env_or a "KAFKA_BROKERS" f) ≡ split_commas (env_or b "KAFKA_BROKERS" g)
same_brokers a b f g v h k n =
    ap split_commas
      (env_or-set a "KAFKA_BROKERS" f v h n ∙ sym (env_or-set b "KAFKA_BROKERS" g v k n))

-- Where every service has the same brokers set, the variables for the two ends of each topic have
-- the same value, or are both not set, and the topics of started, completed and scored runs are not
-- set, each reader that a `main` makes, and the second one of the ingester, is on the brokers and
-- the topic of the writer that it is for; the submission service's reader of failures, for which
-- there is no writer, is on the sandbox's brokers and the topic that the sandbox sends failures to.
pub clients-AreMet :
    (e : Environments) (brokers : String)
    → HaveBrokers e brokers
    → IsMatched e
    → IsPlain e
    → AreMet e
unfolding Submission.load Sandbox.load Bots.load Ingester.load Scorer.load Leaderboard.load
    SubmissionMain.main SandboxMain.main BotsMain.main IngesterMain.main ScorerMain.main
    LeaderboardMain.main SubmissionClients.new_readers SubmissionClients.new_kafka_producer
    SandboxClients.new_reader SandboxClients.new_kafka_publisher BotsClients.new_reader
    BotsClients.new_publisher IngesterClients.new_reader IngesterClients.new_kafka_publisher
    IngesterClients.run_started_reader ScorerClients.new_reader ScorerClients.new_publisher
    LeaderboardClients.new_reader Submission.listener_topics
clients-AreMet e brokers h m p =
    let (joined, heard) = topics-IsJoined e m p in
    record {
      queued = (joined.queued, same_brokers _ _ _ _ _ h.submission h.sandbox h.is_set);
      started_bots = (joined.started, same_brokers _ _ _ _ _ h.sandbox h.bots h.is_set);
      started_ingester =
          (heard.ingester_started, same_brokers _ _ _ _ _ h.sandbox h.ingester h.is_set);
      started_listener = (heard.started, same_brokers _ _ _ _ _ h.sandbox h.submission h.is_set);
      telemetry = (joined.telemetry, same_brokers _ _ _ _ _ h.bots h.ingester h.is_set);
      completed_scorer = (joined.completed, same_brokers _ _ _ _ _ h.ingester h.scorer h.is_set);
      completed_listener =
          (heard.completed, same_brokers _ _ _ _ _ h.ingester h.submission h.is_set);
      scored_leaderboard = (joined.scored, same_brokers _ _ _ _ _ h.scorer h.leaderboard h.is_set);
      scored_listener = (heard.scored, same_brokers _ _ _ _ _ h.scorer h.submission h.is_set);
      failed_listener = (joined.failed, same_brokers _ _ _ _ _ h.sandbox h.submission h.is_set);
      counted = (refl, refl, refl, refl, refl, refl);
    }

abbrev first_is_kafka : List String → Bool
first_is_kafka [] = false
first_is_kafka (x ∷ xs) = str_eq "kafka:9092" x

defaults_apart : split_commas "redpanda:9092" ≢ split_commas "kafka:9092"
unfolding split_commas
defaults_apart e = false≢true (ap first_is_kafka e)

-- Where neither has its brokers set, the bots and the ingester use different ones.
pub brokers_apart :
    (e : Environments)
    → e.bots.get "KAFKA_BROKERS" ≡ ""
    → e.ingester.get "KAFKA_BROKERS" ≡ ""
    → ¬ Meets
        (writer_of (BotsMain.main (Bots.load e.bots)).setup)
        (get_elem? (readers_of (IngesterMain.main (Ingester.load e.ingester)).setup) 0)
unfolding Bots.load Ingester.load BotsMain.main IngesterMain.main BotsClients.new_publisher
    IngesterClients.new_reader
brokers_apart e b i met = defaults_apart (
    sym (ap split_commas (env_or-unset e.ingester "KAFKA_BROKERS" "redpanda:9092" i))
    ∙ sym met.1
    ∙ ap split_commas (env_or-unset e.bots "KAFKA_BROKERS" "kafka:9092" b))
