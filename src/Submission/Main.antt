-- ===== src/Submission/Main.antt =====
-- `main` of apps/submission/cmd/main.go. The listeners' readers are closed together.
use trade_bench.Common.{String, true, false, [], ◌∷◌}
use trade_bench.Common.Process.{
  Service, opens, tries, starts, whole, below, object_store, kafka_writer, kafka_readers,
  status_listeners,
}
use trade_bench.Submission.Clients.{new_kafka_producer, new_readers}
use trade_bench.Submission.Config.{Config, listener_topics}

abbrev pub status_group : String
status_group = "submission-status-tracker"

unfoldable pub main : Config → Service
main cfg = record {
  setup =
      tries (object_store cfg.minio_endpoint cfg.minio_bucket) false
      ∷ opens (kafka_writer (new_kafka_producer cfg.kafka_brokers cfg.kafka_topic)) true
      ∷ opens (kafka_readers (new_readers cfg.kafka_brokers (listener_topics cfg) status_group))
          true
      ∷ starts status_listeners
      ∷ [];
  port = cfg.port;
  routes = whole "/api/v1/submissions" ∷ below "/api/v1/submissions/" ∷ whole "/health" ∷ [];
  graceful = false;
}
