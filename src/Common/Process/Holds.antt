-- ===== src/Common/Process/Holds.antt =====
-- What a service holds open while it is up, and after its end.
use Prim.Native.Nat.{ℕ}
use mathlib.Core.Path.{◌≡◌, refl}
use mathlib.Core.Logic.{◌⊎◌}
use mathlib.Core.Bool.{Bool, true, false, ◌||◌}
use mathlib.Core.Option.{Option, none, some}
use mathlib.Core.List.{List, [], ◌∷◌, ◌++◌}
use native.Mathlib.Omega.{arith}
use trade_bench.Common.Tests.{if◌then◌else◌}
use trade_bench.Common.Process.{
  Client, Task, Stmt, opens, tries, waits_for_redis, seeds_demo_data, starts, watches, Service, up,
  killed, exited, Process, begin, execute, on_signal, shut_down, on_fetch_error, on_served, Step,
  executed, signalled, shut_step, fetch_failed, served, Reach, start, next,
}

-- What statements leave to be closed at the end, the last one first, over what was there before.
abbrev pub unwound : List Client → List Stmt → List Client
unwound held [] = held
unwound held (opens c deferring ∷ rest) = unwound (if deferring then c ∷ held else held) rest
unwound held (tries c deferring ∷ rest) = unwound (if deferring then c ∷ held else held) rest
unwound held (waits_for_redis ∷ rest) = unwound held rest
unwound held (seeds_demo_data ∷ rest) = unwound held rest
unwound held (starts t ∷ rest) = unwound held rest
unwound held (watches shuts ∷ rest) = unwound held rest

-- The last `watches` of some statements, if there is one.
abbrev pub watched : Option Bool → List Stmt → Option Bool
watched w [] = w
watched w (opens c deferring ∷ rest) = watched w rest
watched w (tries c deferring ∷ rest) = watched w rest
watched w (waits_for_redis ∷ rest) = watched w rest
watched w (seeds_demo_data ∷ rest) = watched w rest
watched w (starts t ∷ rest) = watched w rest
watched w (watches shuts ∷ rest) = watched (some shuts) rest

-- Whether some statement has a signal shut the server down.
abbrev pub any_shut : List Stmt → Bool
any_shut [] = false
any_shut (opens c deferring ∷ rest) = any_shut rest
any_shut (tries c deferring ∷ rest) = any_shut rest
any_shut (waits_for_redis ∷ rest) = any_shut rest
any_shut (seeds_demo_data ∷ rest) = any_shut rest
any_shut (starts t ∷ rest) = any_shut rest
any_shut (watches shuts ∷ rest) = shuts || any_shut rest

abbrev shuts_now : Option Bool → Bool
shuts_now none = false
shuts_now (some shuts) = shuts

-- How the process stands: up, it holds what the statements so far left; after a good end all is
-- closed; after another end nothing is.
pub record Inv (s : Service) (p : Process) : Type 0 where
  pub holding : p.status ≡ up → unwound p.deferred p.rest ≡ unwound [] s.setup
  pub watch : watched p.watching p.rest ≡ watched none s.setup
  pub unwatched : p.status ≡ killed → p.watching ≡ none
  pub open_left : p.status ≡ up → p.closed ≡ []
  pub shutting : p.shut ≡ true → (p.cancelled ≡ true) × (any_shut s.setup ≡ true)
  pub able : shuts_now p.watching || any_shut p.rest ≡ true → any_shut s.setup ≡ true
  pub ended :
      (n : ℕ)
      → p.status ≡ exited n
      → (((n ≡ 0) × (p.closed ≡ unwound [] s.setup)) ⊎ ((n ≡ 1) × (p.closed ≡ [])))
  pub good :
      p.status ≡ exited 0 → (p.cancelled ≡ true) × (s.graceful ≡ true) × (any_shut s.setup ≡ true)

begin-Inv : (s : Service) → Inv s (begin s)
unfolding begin
begin-Inv s = record {
  holding = λ u. refl;
  watch = refl;
  unwatched = λ e. cc;
  open_left = λ u. refl;
  shutting = λ e. cc;
  able = λ e. e;
  ended = λ n e. cc;
  good = λ e. cc;
}

module _ (s : Service) (p : Process) (i : Inv s p) (u : p.status ≡ up) where
  execute-Inv :
      (stmt : Stmt) (rest : List Stmt) (ok : Bool)
      → p.rest ≡ stmt ∷ rest
      → Inv s (execute stmt ok (record p { rest = rest }))
  unfolding execute
  execute-Inv (opens c deferring) rest ok e = ground arith
  execute-Inv (tries c deferring) rest ok e = ground arith
  execute-Inv waits_for_redis rest ok e = ground arith
  execute-Inv seeds_demo_data rest ok e = ground arith
  execute-Inv (starts t) rest ok e = ground arith
  execute-Inv (watches shuts) rest ok e = ground arith

  signal-Inv : Inv s (on_signal p)
  unfolding on_signal
  signal-Inv = ground arith

  shut_down-Inv : p.cancelled ≡ true → Inv s (shut_down p)
  unfolding shut_down
  shut_down-Inv c = ground arith

  fetch_error-Inv : (others : List Task) → Inv s (on_fetch_error others p)
  unfolding on_fetch_error
  fetch_error-Inv others = ground arith

  served-Inv :
      (server_closed : Bool)
      → p.rest ≡ []
      → (server_closed ≡ true → p.shut ≡ true)
      → Inv s (on_served s server_closed p)
  unfolding on_served
  served-Inv server_closed e c = ground arith

Step-Inv : (s : Service) {p q : Process} → Step s p q → Inv s p → Inv s q
Step-Inv s (executed p stmt rest ok u e) i = execute-Inv s p i u stmt rest ok e
Step-Inv s (signalled p u) i = signal-Inv s p i u
Step-Inv s (shut_step p u c) i = shut_down-Inv s p i u c
Step-Inv s (fetch_failed p before after t u e) i = fetch_error-Inv s p i u (before ++ after)
Step-Inv s (served p server_closed u e c) i = served-Inv s p i u server_closed e c

pub reach-Inv : (s : Service) {p : Process} → Reach s p → Inv s p
reach-Inv s start = begin-Inv s
reach-Inv s (next r step) = Step-Inv s step (reach-Inv s r)
