-- ===== src/Gateway/Main.antt =====
-- `main` of apps/gateway/cmd/main.go. A URL that does not parse is fatal.
use trade_bench.Common.{false, [], ◌∷◌}
use trade_bench.Common.Process.{Service, tries, whole, below, proxy}
use trade_bench.Gateway.Config.{Config}

unfoldable pub main : Config → Service
main cfg = record {
  setup =
      tries (proxy cfg.submission_url) false
      ∷ tries (proxy cfg.leaderboard_url) false
      ∷ tries (proxy cfg.scorer_url) false
      ∷ tries (proxy cfg.ingester_url) false
      ∷ tries (proxy cfg.leaderboard_url) false
      ∷ [];
  port = cfg.port;
  routes =
      whole "/health"
      ∷ whole "/api/v1/auth/token"
      ∷ whole "/api/v1/submissions"
      ∷ below "/api/v1/submissions/"
      ∷ below "/api/v1/runs/"
      ∷ whole "/api/v1/leaderboard"
      ∷ whole "/ws/leaderboard"
      ∷ [];
  graceful = false;
}
