-- ===== src/Bots/Config.antt =====
-- apps/bots/config/config.go: what the service reads from its environment.
use trade_bench.Common.{String}
use trade_bench.Common.Int.{ℤ, pos}
use trade_bench.Common.Env.{Env, env_or, env_or_int}

pub record Config : Type 0 where
  pub port : String
  pub kafka_brokers : String
  pub consume_topic : String
  pub produce_topic : String
  pub consumer_group : String
  pub default_rps : ℤ
  pub default_duration_sec : ℤ
  pub max_concurrent_runs : ℤ

unfoldable pub load : Env → Config
load env = record {
  port = env_or env "BOTS_PORT" "8083";
  kafka_brokers = env_or env "KAFKA_BROKERS" "kafka:9092";
  consume_topic = env_or env "BOTS_CONSUME_TOPIC" "run.started";
  produce_topic = env_or env "BOTS_PRODUCE_TOPIC" "telemetry.raw";
  consumer_group = env_or env "BOTS_CONSUMER_GROUP" "bots-group";
  default_rps = env_or_int env "BOT_DEFAULT_RPS" (pos 1000);
  default_duration_sec = env_or_int env "BOT_DEFAULT_DURATION_SECS" (pos 60);
  max_concurrent_runs = env_or_int env "BOTS_MAX_CONCURRENT_RUNS" (pos 4);
}
