-- ===== src/Ingester/Main.antt =====
-- `main` of apps/ingester/cmd/main.go. The loop over run.started makes and closes its own reader.
use trade_bench.Common.{true, [], ◌∷◌}
use trade_bench.Common.Process.{
  Service, opens, tries, starts, watches, whole, context, database, kafka_writer, kafka_readers,
  consumer, run_started_consumer,
}
use trade_bench.Ingester.Clients.{new_reader, new_kafka_publisher}
use trade_bench.Ingester.Config.{Config}

unfoldable pub main : Config → Service
main cfg = record {
  setup =
      opens context true
      ∷ tries (database cfg.timescale_dsn) true
      ∷ opens (kafka_writer (new_kafka_publisher cfg.kafka_brokers cfg.produce_topic)) true
      ∷ opens
          (kafka_readers (new_reader cfg.kafka_brokers cfg.consume_topic cfg.consumer_group ∷ []))
          true
      ∷ watches true
      ∷ starts consumer
      ∷ starts run_started_consumer
      ∷ [];
  port = cfg.port;
  routes = whole "/health" ∷ [];
  graceful = true;
}
