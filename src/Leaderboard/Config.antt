-- ===== src/Leaderboard/Config.antt =====
-- apps/leaderboard/config/config.go: what the service reads from its environment.
use trade_bench.Common.{String}
use trade_bench.Common.Env.{Env, env_or}

pub record Config : Type 0 where
  pub port : String
  pub kafka_brokers : String
  pub consume_topic : String
  pub consumer_group : String
  pub redis_addr : String
  pub redis_key : String

unfoldable pub load : Env → Config
load env = record {
  port = env_or env "LEADERBOARD_PORT" "8085";
  kafka_brokers = env_or env "KAFKA_BROKERS" "redpanda:9092";
  consume_topic = env_or env "LEADERBOARD_CONSUME_TOPIC" "score.updated";
  consumer_group = env_or env "LEADERBOARD_CONSUMER_GROUP" "leaderboard-group";
  redis_addr = env_or env "REDIS_ADDR" "redis:6379";
  redis_key = env_or env "LEADERBOARD_REDIS_KEY" "leaderboard:top";
}
