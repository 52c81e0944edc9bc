-- ===== src/DummyOrderbook/Main.antt =====
-- `main` of apps/dummy-orderbook/cmd/main.go.
use trade_bench.Common.{false, [], ◌∷◌}
use trade_bench.Common.Process.{Service, whole}

unfoldable pub main : Service
main = record {
  setup = [];
  port = "8080";
  routes = whole "/health" ∷ whole "/orders" ∷ [];
  graceful = false;
}
