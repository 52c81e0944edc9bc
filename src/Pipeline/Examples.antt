-- ===== src/Pipeline/Examples.antt =====
-- Runs of a deployment that renames the topic of the queue at both ends and sets nothing else, and of
-- one that sets the brokers.
use trade_bench.Common.{String, ◌≡◌, ap, sym, refl, none, true, [], if◌then◌else◌, str_eq}
use trade_bench.Common.Process.{
  Process, Reach, finds, begin, exited, on_signal, shut_down, on_served,
}
use trade_bench.Common.Process.Holds.{unwound}
use trade_bench.Common.Process.Serves.{executed_all, comes_to_serve}
use trade_bench.Gateway.Proxy.{Url, Forwarded, proxied, ws_proxied}
use trade_bench.Gateway.Server.{route}
use trade_bench.Scorer.Config as Scorer
use trade_bench.Scorer.Main as ScorerMain
use trade_bench.Pipeline.Mains.{bots, service, stops_on_signal}
use trade_bench.Pipeline.Routes.{served_by, has_handler, forwarded_found}
use trade_bench.Common.Env.{Env}
use trade_bench.Pipeline.{Environments, IsMatched, IsPlain}
use mathlib.Core.Bool.{false≢true}
use trade_bench.Pipeline.Clients.{HaveBrokers, AreMet, clients-AreMet}

abbrev setting : String → String → Env
setting key value = record {
  get = λ k. if str_eq k key then value else "";
  atoi = λ text. none;
  parse_int_64 = λ text. none;
  parse_bool = λ text. none;
  parse_duration = λ text. none;
}

abbrev deployment : Environments
deployment = record {
  submission = setting "KAFKA_TOPIC" "queue";
  sandbox = setting "SANDBOX_CONSUME_TOPIC" "queue";
  bots = setting "" "";
  ingester = setting "" "";
  scorer = setting "" "";
  leaderboard = setting "" "";
}

-- One that sets the brokers.
abbrev with_brokers : Environments
with_brokers = record {
  submission = setting "KAFKA_BROKERS" "redpanda:9092";
  sandbox = setting "KAFKA_BROKERS" "redpanda:9092";
  bots = setting "KAFKA_BROKERS" "redpanda:9092";
  ingester = setting "KAFKA_BROKERS" "redpanda:9092";
  scorer = setting "KAFKA_BROKERS" "redpanda:9092";
  leaderboard = setting "KAFKA_BROKERS" "redpanda:9092";
}

with_brokers-HaveBrokers : HaveBrokers with_brokers "redpanda:9092"
with_brokers-HaveBrokers = record {
  is_set = λ e. false≢true (ap (str_eq "redpanda:9092") (sym e));
  submission = refl;
  sandbox = refl;
  bots = refl;
  ingester = refl;
  scorer = refl;
  leaderboard = refl;
}

with_brokers-IsMatched : IsMatched with_brokers
with_brokers-IsMatched = record {
  queued = refl;
  failed = refl;
  started = refl;
  telemetry = refl;
  completed = refl;
  scored = refl;
}

with_brokers-IsPlain : IsPlain with_brokers
with_brokers-IsPlain = record { started = refl; completed = refl; scored = refl }

clients-AreMet_example : AreMet with_brokers
clients-AreMet_example =
    clients-AreMet with_brokers "redpanda:9092" with_brokers-HaveBrokers with_brokers-IsMatched
      with_brokers-IsPlain

abbrev bots_up : Process
bots_up = executed_all (service deployment bots).setup (begin (service deployment bots))

stops_on_signal_example :
    let q = on_served (service deployment bots) true (shut_down (on_signal bots_up)) in
    Reach (service deployment bots) q
    × (q.status ≡ exited 0)
    × (q.closed ≡ unwound [] (service deployment bots).setup)
stops_on_signal_example =
    stops_on_signal deployment bots (comes_to_serve (service deployment bots)).0
      (comes_to_serve (service deployment bots)).1 (comes_to_serve (service deployment bots)).2

abbrev scorer_up : Process
scorer_up =
    executed_all (ScorerMain.main (Scorer.load deployment.scorer)).setup
      (begin (ScorerMain.main (Scorer.load deployment.scorer)))

abbrev ingester_url : Url
ingester_url = record { scheme = "http"; host = "ingester:8084"; path = "" }

abbrev runs_request : Forwarded
runs_request = record {
  url = record { scheme = ""; host = ""; path = "/api/v1/runs/7" };
  host = "gateway:8080";
}

forwarded_found_example :
    ((proxied ingester_url runs_request).host ≡ ingester_url.host)
    × (ws_proxied ingester_url runs_request ≡ proxied ingester_url runs_request)
    × ((proxied ingester_url runs_request).url.path ≡ runs_request.url.path)
    × (finds
          (served_by deployment (setting "" "") (route runs_request.url.path)).routes
          (proxied ingester_url runs_request).url.path
        ≡ has_handler (route runs_request.url.path))
forwarded_found_example =
    forwarded_found deployment (setting "" "") ingester_url runs_request refl refl
