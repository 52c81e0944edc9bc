-- ===== src/Submission/Config.antt =====
-- apps/submission/config/config.go: what the service reads from its environment.
use trade_bench.Common.{String, Bool, false}
use trade_bench.Common.Int.{ℤ, pos}
use trade_bench.Common.Env.{Env, env_or, env_or_bool, env_or_int}

pub record Config : Type 0 where
  pub port : String
  pub minio_endpoint : String
  pub minio_access_key : String
  pub minio_secret_key : String
  pub minio_bucket : String
  pub minio_use_ssl : Bool
  pub kafka_brokers : String
  pub kafka_topic : String
  pub failed_topic : String
  pub max_file_size_mb : ℤ

unfoldable pub load : Env → Config
load env = record {
  port = env_or env "SUBMISSION_PORT" "8081";
  minio_endpoint = env_or env "MINIO_ENDPOINT" "minio:9000";
  minio_access_key = env_or env "MINIO_ACCESS_KEY" "minioadmin";
  minio_secret_key = env_or env "MINIO_SECRET_KEY" "minioadmin";
  minio_bucket = env_or env "MINIO_BUCKET" "tradebench";
  minio_use_ssl = env_or_bool env "MINIO_USE_SSL" false;
  kafka_brokers = env_or env "KAFKA_BROKERS" "kafka:9092";
  kafka_topic = env_or env "KAFKA_TOPIC" "submission.queued";
  failed_topic = env_or env "KAFKA_FAILED_TOPIC" "submission.failed";
  max_file_size_mb = env_or_int env "MAX_FILE_SIZE_MB" (pos 50);
}

-- The topics of the listeners, as `main` gives them.
pub record ListenerTopics : Type 0 where
  pub started : String
  pub completed : String
  pub score : String
  pub failed : String

unfoldable pub listener_topics : Config → ListenerTopics
listener_topics cfg = record {
  started = "run.started";
  completed = "run.completed";
  score = "score.updated";
  failed = cfg.failed_topic;
}
