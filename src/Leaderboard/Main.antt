-- ===== src/Leaderboard/Main.antt =====
-- `main` of apps/leaderboard/cmd/main.go.
use trade_bench.Common.{true, [], ◌∷◌}
use trade_bench.Common.Process.{
  Service, opens, waits_for_redis, seeds_demo_data, starts, watches, whole, context, redis,
  kafka_readers, consumer, hub_loop,
}
use trade_bench.Leaderboard.Clients.{new_reader}
use trade_bench.Leaderboard.Config.{Config}

unfoldable pub main : Config → Service
main cfg = record {
  setup =
      opens context true
      ∷ opens (redis cfg.redis_addr) true
      ∷ waits_for_redis
      ∷ seeds_demo_data
      ∷ starts hub_loop
      ∷ opens
          (kafka_readers (new_reader cfg.kafka_brokers cfg.consume_topic cfg.consumer_group ∷ []))
          true
      ∷ watches true
      ∷ starts consumer
      ∷ [];
  port = cfg.port;
  routes = whole "/health" ∷ whole "/ws/leaderboard" ∷ [];
  graceful = true;
}
