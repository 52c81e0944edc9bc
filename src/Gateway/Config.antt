-- ===== src/Gateway/Config.antt =====
-- apps/gateway/config/config.go: what the service reads from its environment.
use trade_bench.Common.{String, none, some}
use trade_bench.Common.Int.{ℤ, pos}
use trade_bench.Common.Env.{Env, env_or, env_or_int}

pub record Config : Type 0 where
  pub port : String
  pub jwt_secret : String
  pub submission_url : String
  pub sandbox_url : String
  pub bots_url : String
  pub ingester_url : String
  pub scorer_url : String
  pub leaderboard_url : String
  pub global_rpm : ℤ
  pub submission_rpm : ℤ
  -- In nanoseconds.
  pub jwt_expiry : ℤ

unfoldable pub load : Env → Config
load env = record {
  port = env_or env "GATEWAY_PORT" "8080";
  jwt_secret = env_or env "JWT_SECRET" "dev-secret-change-me";
  submission_url = env_or env "SUBMISSION_URL" "http://submission:8081";
  sandbox_url = env_or env "SANDBOX_URL" "http://sandbox:8082";
  bots_url = env_or env "BOTS_URL" "http://bots:8083";
  ingester_url = env_or env "INGESTER_URL" "http://ingester:8084";
  scorer_url = env_or env "SCORER_URL" "http://scorer:8085";
  leaderboard_url = env_or env "LEADERBOARD_URL" "http://leaderboard:8085";
  global_rpm = env_or_int env "GLOBAL_RPM" (pos 100);
  submission_rpm = env_or_int env "SUBMISSION_RPM" (pos 10);
  jwt_expiry = elim (env.parse_duration (env_or env "JWT_EXPIRY" "24h")) [
    | none ↦ pos 86_400_000_000_000
    | some d ↦ d
  ];
}
