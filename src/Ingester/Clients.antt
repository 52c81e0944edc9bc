-- ===== src/Ingester/Clients.antt =====
-- The Kafka clients of apps/ingester.
use Prim.Native.String.{◌++◌ as append}
use trade_bench.Common.{String, false}
use trade_bench.Common.Kafka.{ReaderConfig, WriterConfig, split_commas, require_one}
use trade_bench.Ingester.Config.{run_started_topic}

-- The reader of `New` in internal/consumer/kafka.go.
unfoldable pub new_reader : String → String → String → ReaderConfig
unfolding split_commas
new_reader brokers topic group = record {
  brokers = split_commas brokers;
  topic = topic;
  group_id = group;
  min_bytes = 1;
  max_bytes = 10_000_000;
  commit_interval = 1000;
}

-- The reader of `RunStartedLoop`.
unfoldable pub run_started_reader : String → String → ReaderConfig
unfolding split_commas
run_started_reader brokers group = record {
  brokers = split_commas brokers;
  topic = run_started_topic;
  group_id = append group "-runstarted";
  min_bytes = 1;
  max_bytes = 10_000_000;
  commit_interval = 0;
}

-- `NewKafkaPublisher` of internal/publisher/kafka.go.
unfoldable pub new_kafka_publisher : String → String → WriterConfig
unfolding split_commas
new_kafka_publisher brokers topic = record {
  addr = split_commas brokers;
  topic = topic;
  batch_timeout = 10;
  batch_size = 0;
  required_acks = require_one;
  async = false;
}
