-- ===== src/Common/Process/Serves.antt =====
-- How a service comes to serve.
use mathlib.Core.Path.{◌≡◌, refl}
use mathlib.Core.Bool.{true}
use mathlib.Core.List.{List, [], ◌∷◌}
use native.Mathlib.Omega.{arith}
use trade_bench.Common.Process.{
  Stmt, opens, tries, waits_for_redis, seeds_demo_data, starts, watches, Service, up, Process,
  begin, execute, executed, Reach, start, next,
}

-- All statements, where what they try succeeds.
abbrev pub executed_all : List Stmt → Process → Process
executed_all [] p = p
executed_all (stmt ∷ rest) p = executed_all rest (execute stmt true (record p { rest = rest }))

execute-up :
    (stmt : Stmt) (p : Process)
    → p.status ≡ up
    → ((execute stmt true p).status ≡ up) × ((execute stmt true p).rest ≡ p.rest)
unfolding execute
execute-up (opens c deferring) p u = ground arith
execute-up (tries c deferring) p u = ground arith
execute-up waits_for_redis p u = (u, refl)
execute-up seeds_demo_data p u = (u, refl)
execute-up (starts t) p u = (u, refl)
execute-up (watches shuts) p u = (u, refl)

executed_all-up :
    (s : Service) (stmts : List Stmt) {p : Process}
    → Reach s p
    → p.status ≡ up
    → p.rest ≡ stmts
    → Reach s (executed_all stmts p)
      × ((executed_all stmts p).status ≡ up)
      × ((executed_all stmts p).rest ≡ [])
executed_all-up s [] r u e = (r, u, e)
executed_all-up s (stmt ∷ rest) {p} r u e =
    let k = execute-up stmt (record p { rest = rest }) u in
    executed_all-up s rest (next r (executed p stmt rest true u e)) k.0 k.1

-- Where all that a service tries succeeds it comes to serve.
pub comes_to_serve :
    (s : Service)
    → Reach s (executed_all s.setup (begin s))
      × ((executed_all s.setup (begin s)).status ≡ up)
      × ((executed_all s.setup (begin s)).rest ≡ [])
unfolding begin
comes_to_serve s = executed_all-up s s.setup start refl refl
