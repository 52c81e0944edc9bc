-- ===== src/Sandbox/Clients.antt =====
-- The Kafka clients of apps/sandbox.
use trade_bench.Common.{String, false}
use trade_bench.Common.Kafka.{ReaderConfig, WriterConfig, split_commas, require_one}

-- The reader of `New` in internal/consumer/kafka.go.
unfoldable pub new_reader : String → String → String → ReaderConfig
unfolding split_commas
new_reader brokers topic group = record {
  brokers = split_commas brokers;
  topic = topic;
  group_id = group;
  min_bytes = 1;
  max_bytes = 10_000_000;
  commit_interval = 0;
}

-- `NewKafkaPublisher` of internal/publisher/kafka.go.
unfoldable pub new_kafka_publisher : String → String → WriterConfig
unfolding split_commas
new_kafka_publisher brokers topic = record {
  addr = split_commas brokers;
  topic = topic;
  batch_timeout = 10;
  batch_size = 0;
  required_acks = require_one;
  async = false;
}
