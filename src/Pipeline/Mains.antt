-- ===== src/Pipeline/Mains.antt =====
-- How the services under apps/ end.
use trade_bench.Common.{◌≡◌, refl, true, []}
use trade_bench.Common.Process.{
  Service, Process, Reach, up, exited, on_signal, shut_down, on_served,
}
use trade_bench.Common.Process.Holds.{unwound}
use trade_bench.Common.Process.Ends.{signal_ends}
use trade_bench.Pipeline.{Environments}
use trade_bench.Sandbox.Config as Sandbox
use trade_bench.Sandbox.Main as SandboxMain
use trade_bench.Bots.Config as Bots
use trade_bench.Bots.Main as BotsMain
use trade_bench.Ingester.Config as Ingester
use trade_bench.Ingester.Main as IngesterMain
use trade_bench.Leaderboard.Config as Leaderboard
use trade_bench.Leaderboard.Main as LeaderboardMain
use trade_bench.Scorer.Config as Scorer
use trade_bench.Scorer.Main as ScorerMain

-- The services that shut their server down on a signal.
pub data Stopping : Type 0 where
  sandbox bots ingester leaderboard : Stopping

abbrev pub service : Environments → Stopping → Service
service e sandbox = SandboxMain.main (Sandbox.load e.sandbox)
service e bots = BotsMain.main (Bots.load e.bots)
service e ingester = IngesterMain.main (Ingester.load e.ingester)
service e leaderboard = LeaderboardMain.main (Leaderboard.load e.leaderboard)

-- From a state of the sandbox, bots, ingester or leaderboard service in which it serves, whatever
-- happened before, a signal, the shutdown and the server's end lead to its end with status 0, with
-- everything closed that its `main` itself opened with a deferred close, the last one first; what its
-- goroutines hold, as the second reader of the ingester, is not among it.
pub stops_on_signal :
    (e : Environments) (which : Stopping) {p : Process}
    → Reach (service e which) p
    → p.status ≡ up
    → p.rest ≡ []
    → let q = on_served (service e which) true (shut_down (on_signal p)) in
      Reach (service e which) q
      × (q.status ≡ exited 0)
      × (q.closed ≡ unwound [] (service e which).setup)
unfolding SandboxMain.main BotsMain.main IngesterMain.main LeaderboardMain.main
stops_on_signal e sandbox r u d = signal_ends (service e sandbox) r u d refl refl
stops_on_signal e bots r u d = signal_ends (service e bots) r u d refl refl
stops_on_signal e ingester r u d = signal_ends (service e ingester) r u d refl refl
stops_on_signal e leaderboard r u d = signal_ends (service e leaderboard) r u d refl refl
