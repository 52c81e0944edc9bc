-- ===== src/Bots/Clients.antt =====
-- The Kafka clients of apps/bots.
use trade_bench.Common.{String, true}
use trade_bench.Common.Kafka.{ReaderConfig, WriterConfig, split_commas, require_none}

-- The reader of `New` in internal/consumer/kafka.go.
unfoldable pub new_reader : String → String → String → ReaderConfig
unfolding split_commas
new_reader brokers topic group = record {
  brokers = split_commas brokers;
  topic = topic;
  group_id = group;
  min_bytes = 1;
  max_bytes = 10_000_000;
  commit_interval = 0;
}

-- `New` of internal/publisher/kafka.go: telemetry is fire and forget.
unfoldable pub new_publisher : String → String → WriterConfig
unfolding split_commas
new_publisher brokers topic = record {
  addr = split_commas brokers;
  topic = topic;
  batch_timeout = 100;
  batch_size = 500;
  required_acks = require_none;
  async = true;
}
