-- ===== src/Sandbox/Main.antt =====
-- `main` of apps/sandbox/cmd/main.go.
use trade_bench.Common.{true, false, [], ◌∷◌}
use trade_bench.Common.Process.{
  Service, opens, tries, starts, watches, whole, context, docker, object_store, kafka_writer,
  kafka_readers, consumer,
}
use trade_bench.Sandbox.Clients.{new_reader, new_kafka_publisher}
use trade_bench.Sandbox.Config.{Config}

unfoldable pub main : Config → Service
main cfg = record {
  setup =
      tries (object_store cfg.minio_endpoint cfg.minio_bucket) true
      ∷ tries docker false
      ∷ opens (kafka_writer (new_kafka_publisher cfg.kafka_brokers cfg.produce_topic)) true
      ∷ opens
          (kafka_readers (new_reader cfg.kafka_brokers cfg.consume_topic cfg.consumer_group ∷ []))
          true
      ∷ opens context true
      ∷ watches true
      ∷ starts consumer
      ∷ [];
  port = cfg.port;
  routes = whole "/health" ∷ [];
  graceful = true;
}
