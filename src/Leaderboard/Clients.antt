-- ===== src/Leaderboard/Clients.antt =====
-- The Kafka clients of apps/leaderboard.
use trade_bench.Common.{String}
use trade_bench.Common.Kafka.{ReaderConfig, split_commas}

-- The reader of `New` in internal/consumer/kafka.go.
unfoldable pub new_reader : String → String → String → ReaderConfig
unfolding split_commas
new_reader brokers topic group = record {
  brokers = split_commas brokers;
  topic = topic;
  group_id = group;
  min_bytes = 1;
  max_bytes = 10_000_000;
  commit_interval = 1000;
}
