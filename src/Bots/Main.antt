-- ===== src/Bots/Main.antt =====
-- `main` of apps/bots/cmd/main.go.
use trade_bench.Common.{true, [], ◌∷◌}
use trade_bench.Common.Process.{
  Service, opens, starts, watches, whole, context, kafka_writer, kafka_readers, consumer,
}
use trade_bench.Bots.Clients.{new_reader, new_publisher}
use trade_bench.Bots.Config.{Config}

unfoldable pub main : Config → Service
main cfg = record {
  setup =
      opens (kafka_readers (new_reader cfg.kafka_brokers cfg.consume_topic cfg.consumer_group ∷ []))
        true
      ∷ opens (kafka_writer (new_publisher cfg.kafka_brokers cfg.produce_topic)) true
      ∷ opens context true
      ∷ watches true
      ∷ starts consumer
      ∷ [];
  port = cfg.port;
  routes = whole "/health" ∷ [];
  graceful = true;
}
