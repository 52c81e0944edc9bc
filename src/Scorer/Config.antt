-- ===== src/Scorer/Config.antt =====
-- apps/scorer/config/config.go: what the service reads from its environment.
use trade_bench.Common.{String}
use trade_bench.Common.Env.{Env, env_or}

pub record Config : Type 0 where
  pub port : String
  pub kafka_brokers : String
  pub consume_topic : String
  pub produce_topic : String
  pub consumer_group : String
  pub redis_addr : String
  pub redis_password : String

unfoldable pub load : Env → Config
load env = record {
  port = env_or env "SCORER_PORT" "8086";
  kafka_brokers = env_or env "KAFKA_BROKERS" "redpanda:9092";
  consume_topic = env_or env "SCORER_CONSUME_TOPIC" "run.completed";
  produce_topic = env_or env "SCORER_PRODUCE_TOPIC" "score.updated";
  consumer_group = env_or env "SCORER_CONSUMER_GROUP" "scorer-group";
  redis_addr = env_or env "REDIS_ADDR" "redis:6379";
  redis_password = env_or env "REDIS_PASSWORD" "";
}
