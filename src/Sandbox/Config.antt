-- ===== src/Sandbox/Config.antt =====
-- apps/sandbox/config/config.go: what the service reads from its environment.
use trade_bench.Common.{String, Bool, false, ◌*◌}
use trade_bench.Common.Int.{ℤ, pos}
use trade_bench.Common.Env.{Env, env_or, env_or_bool, env_or_int, env_or_int64}

pub record Config : Type 0 where
  pub port : String
  pub kafka_brokers : String
  pub consume_topic : String
  pub produce_topic : String
  pub failed_topic : String
  pub consumer_group : String
  pub minio_endpoint : String
  pub minio_access_key : String
  pub minio_secret_key : String
  pub minio_bucket : String
  pub minio_use_ssl : Bool
  pub sandbox_image : String
  pub sandbox_network : String
  pub sandbox_runtime : String
  pub max_concurrent : ℤ
  pub health_timeout_sec : ℤ
  pub cpu_quota : ℤ
  pub cpu_period : ℤ
  pub memory_bytes : ℤ
  pub pids_limit : ℤ
  pub default_target_rps : ℤ
  pub default_duration_sec : ℤ
  pub default_protocol : String

unfoldable pub load : Env → Config
load env = record {
  port = env_or env "SANDBOX_PORT" "8082";
  kafka_brokers = env_or env "KAFKA_BROKERS" "kafka:9092";
  consume_topic = env_or env "SANDBOX_CONSUME_TOPIC" "submission.queued";
  produce_topic = env_or env "SANDBOX_PRODUCE_TOPIC" "run.started";
  failed_topic = env_or env "SANDBOX_FAILED_TOPIC" "submission.failed";
  consumer_group = env_or env "SANDBOX_CONSUMER_GROUP" "sandbox-group";
  minio_endpoint = env_or env "MINIO_ENDPOINT" "minio:9000";
  minio_access_key = env_or env "MINIO_ACCESS_KEY" "minioadmin";
  minio_secret_key = env_or env "MINIO_SECRET_KEY" "minioadmin";
  minio_bucket = env_or env "MINIO_BUCKET" "tradebench";
  minio_use_ssl = env_or_bool env "MINIO_USE_SSL" false;
  sandbox_image = env_or env "SANDBOX_IMAGE" "tradebench/sandbox-base:latest";
  sandbox_network = env_or env "SANDBOX_NETWORK" "sandbox-net";
  sandbox_runtime = env_or env "SANDBOX_RUNTIME" "runsc";
  max_concurrent = env_or_int env "SANDBOX_MAX_CONCURRENT" (pos 4);
  health_timeout_sec = env_or_int env "SANDBOX_HEALTH_TIMEOUT_SEC" (pos 30);
  cpu_quota = env_or_int64 env "SANDBOX_CPU_QUOTA" (pos 200000);
  cpu_period = env_or_int64 env "SANDBOX_CPU_PERIOD" (pos 100000);
  memory_bytes = env_or_int64 env "SANDBOX_MEMORY_BYTES" (pos (512 * 1024 * 1024));
  pids_limit = env_or_int64 env "SANDBOX_PIDS_LIMIT" (pos 256);
  default_target_rps = env_or_int env "SANDBOX_DEFAULT_TARGET_RPS" (pos 1000);
  default_duration_sec = env_or_int env "SANDBOX_DEFAULT_DURATION_SEC" (pos 60);
  default_protocol = env_or env "SANDBOX_DEFAULT_PROTOCOL" "rest";
}
