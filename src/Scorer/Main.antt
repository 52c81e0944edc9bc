-- ===== src/Scorer/Main.antt =====
-- `main` of apps/scorer/cmd/main.go.
use trade_bench.Common.{true, false, [], ◌∷◌}
use trade_bench.Common.Process.{
  Service, opens, starts, watches, whole, context, redis, kafka_writer, kafka_readers, consumer,
}
use trade_bench.Scorer.Clients.{new_reader, new_publisher}
use trade_bench.Scorer.Config.{Config}

unfoldable pub main : Config → Service
main cfg = record {
  setup =
      opens (redis cfg.redis_addr) true
      ∷ opens (kafka_writer (new_publisher cfg.kafka_brokers cfg.produce_topic)) true
      ∷ opens
          (kafka_readers (new_reader cfg.kafka_brokers cfg.consume_topic cfg.consumer_group ∷ []))
          true
      ∷ opens context true
      ∷ watches false
      ∷ starts consumer
      ∷ [];
  port = cfg.port;
  routes = whole "/health" ∷ [];
  graceful = false;
}
