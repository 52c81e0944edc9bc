-- ===== src/Pipeline/Routes.antt =====
-- Whether what the gateway sends on finds a handler.
use text.Mathlib.Text.{starts_with}
use trade_bench.Common.{
  ◌≡◌, refl, ◌∙◌, ap, String, Bool, true, false, arith, str_iff, str_eq, Bool-cases, inl, inr,
}
use trade_bench.Common.Env.{Env}
use trade_bench.Common.Process.{Service, finds}
use trade_bench.Pipeline.{Environments}
use trade_bench.Gateway.Server.{
  Backend, health, issue_token, submission_service, ingester, leaderboard, leaderboard_socket,
  not_found, route,
}
use trade_bench.Gateway.Proxy.{Url, Forwarded, proxied, ws_proxied}
use trade_bench.Gateway.Proxy.Paths.{proxied-path, ws_proxied-proxied}
use trade_bench.Gateway.Config as Gateway
use trade_bench.Gateway.Main as GatewayMain
use trade_bench.Submission.Config as Submission
use trade_bench.Submission.Main as SubmissionMain
use trade_bench.Ingester.Config as Ingester
use trade_bench.Ingester.Main as IngesterMain
use trade_bench.Leaderboard.Config as Leaderboard
use trade_bench.Leaderboard.Main as LeaderboardMain

-- The service whose multiplexer gets a request that the gateway has routed; its own ones first.
abbrev pub served_by : Environments → Env → Backend → Service
served_by e gateway health = GatewayMain.main (Gateway.load gateway)
served_by e gateway issue_token = GatewayMain.main (Gateway.load gateway)
served_by e gateway not_found = GatewayMain.main (Gateway.load gateway)
served_by e gateway submission_service = SubmissionMain.main (Submission.load e.submission)
served_by e gateway ingester = IngesterMain.main (Ingester.load e.ingester)
served_by e gateway leaderboard = LeaderboardMain.main (Leaderboard.load e.leaderboard)
served_by e gateway leaderboard_socket = LeaderboardMain.main (Leaderboard.load e.leaderboard)

-- The REST routes to the ingester and to the leaderboard have none.
abbrev pub has_handler : Backend → Bool
has_handler health = true
has_handler issue_token = true
has_handler submission_service = true
has_handler leaderboard_socket = true
has_handler ingester = false
has_handler leaderboard = false
has_handler not_found = false

route-finds :
    (e : Environments) (gateway : Env) (path : String)
    → finds (served_by e gateway (route path)).routes path ≡ has_handler (route path)
unfolding route finds GatewayMain.main SubmissionMain.main IngesterMain.main LeaderboardMain.main
route-finds e gateway path = elim (Bool-cases (str_eq path "/health")) [
  | inl h0 ↦ rw h0 (ground arith)
  | inr h0 ↦ rw h0 (elim (Bool-cases (str_eq path "/api/v1/auth/token")) [
    | inl h1 ↦ rw h1 (ground arith)
    | inr h1 ↦ rw h1 (elim (Bool-cases (str_eq path "/api/v1/submissions")) [
      | inl h2 ↦ rw h2 (ground arith)
      | inr h2 ↦ rw h2 (elim (Bool-cases (starts_with path "/api/v1/submissions/")) [
        | inl h3 ↦ rw h3 (ground arith)
        | inr h3 ↦ rw h3 (elim (Bool-cases (starts_with path "/api/v1/runs/")) [
          | inl h4 ↦ rw h4 (ground arith)
          | inr h4 ↦ rw h4 (elim (Bool-cases (str_eq path "/api/v1/leaderboard")) [
            | inl h5 ↦ rw h5 (rw ((str_iff path "/api/v1/leaderboard").0 h5) refl)
            | inr h5 ↦ rw h5 (elim (Bool-cases (str_eq path "/ws/leaderboard")) [
              | inl h6 ↦ rw h6 (ground arith)
              | inr h6 ↦ rw h6 (ground arith)
            ])
          ])
        ])
      ])
    ])
  ])
]

-- What the gateway sends on to a service whose URL has no path of its own arrives under the path and
-- with the host of that URL, over either proxy alike, and it finds a handler there exactly where the
-- route is one of the gateway's own, a submission's or the WebSocket's: the routes of runs and of the
-- leaderboard's REST fallback find none.
pub forwarded_found :
    (e : Environments) (gateway : Env) (u : Url) (r : Forwarded)
    → u.path ≡ ""
    → starts_with r.url.path "/" ≡ true
    → ((proxied u r).host ≡ u.host)
      × (ws_proxied u r ≡ proxied u r)
      × ((proxied u r).url.path ≡ r.url.path)
      × (finds (served_by e gateway (route r.url.path)).routes (proxied u r).url.path
          ≡ has_handler (route r.url.path))
unfolding proxied
forwarded_found e gateway u r h s =
    let same = proxied-path u r h s in
    (
      refl,
      ws_proxied-proxied u r,
      same,
      ap (finds (served_by e gateway (route r.url.path)).routes) same
          ∙ route-finds e gateway r.url.path,
    )
