-- ===== src/Submission/Clients.antt =====
-- The Kafka clients of apps/submission: `NewKafkaProducer` of internal/queue/kafka.go and `New` of
-- internal/consumer/kafka.go.
use trade_bench.Common.{String, false, List, [], ◌∷◌}
use trade_bench.Common.Kafka.{ReaderConfig, WriterConfig, split_commas, require_one}
use trade_bench.Submission.Config.{ListenerTopics}

-- `NewKafkaProducer`.
unfoldable pub new_kafka_producer : String → String → WriterConfig
unfolding split_commas
new_kafka_producer brokers topic = record {
  addr = split_commas brokers;
  topic = topic;
  batch_timeout = 10;
  batch_size = 0;
  required_acks = require_one;
  async = false;
}

-- One of the four readers of `New`.
unfoldable pub listener_reader : String → String → String → ReaderConfig
unfolding split_commas
listener_reader brokers topic group = record {
  brokers = split_commas brokers;
  topic = topic;
  group_id = group;
  min_bytes = 1;
  max_bytes = 10_000_000;
  commit_interval = 1000;
}

-- `New`: the readers for started, completed, scored and failed runs.
unfoldable pub new_readers : String → ListenerTopics → String → List ReaderConfig
unfolding listener_reader
new_readers brokers topics group =
    listener_reader brokers topics.started group
    ∷ listener_reader brokers topics.completed group
    ∷ listener_reader brokers topics.score group
    ∷ listener_reader brokers topics.failed group
    ∷ []
