-- ===== src/Common/Process.antt =====
-- The `main` of a service under apps/ as a process: what it makes one after the other, with the
-- closes that it defers, the goroutines that it starts, and the server that it then waits for. A
-- goroutine that waits for a signal cancels the context, and in most services shuts the server down.
-- Go: `log.Fatalf` ends the process with status 1 and runs no deferred call; a signal that nothing
-- waits for kills it; `ListenAndServe` returns `ErrServerClosed` only after `Shutdown`; when `main`
-- returns the deferred calls run, the last one first, and the process ends with status 0.
pub mod Holds
pub mod Ends
pub mod Serves
use trade_bench.Common.Tests.{if◌then◌else◌, str_eq}
use Prim.Native.Nat.{ℕ}
use Prim.Native.String.{String}
use mathlib.Core.Path.{◌≡◌}
use mathlib.Core.Bool.{Bool, true, false, ◌&&◌, ◌||◌}
use mathlib.Core.Option.{Option, none, some}
use mathlib.Core.List.{List, [], ◌∷◌, ◌++◌}
use text.Mathlib.Text.{starts_with}
use trade_bench.Common.Kafka.{ReaderConfig, WriterConfig}

-- What a service holds open, with where it is: an endpoint and a bucket, an address, a DSN, a URL.
-- `context` is the one that the signal cancels.
pub data Client : Type 0 where
  context docker : Client
  object_store : String → String → Client
  redis database proxy : String → Client
  kafka_writer : WriterConfig → Client
  kafka_readers : List ReaderConfig → Client

-- A goroutine that loops over a reader until its context is done, or one that never returns.
pub data Task : Type 0 where
  consumer run_started_consumer hub_loop status_listeners : Task

-- One statement of `main`. The Boolean of a client: whether its close is deferred. What may fail is
-- fatal where it does.
pub data Stmt : Type 0 where
  opens tries : Client → Bool → Stmt
  waits_for_redis seeds_demo_data : Stmt
  starts : Task → Stmt
  -- `signal.Notify`, and the goroutine that waits: whether it calls `srv.Shutdown` after `cancel`.
  watches : Bool → Stmt

-- A pattern of `http.ServeMux`: one that ends in `/` matches by prefix, the others whole.
pub data Route : Type 0 where
  whole below : String → Route

-- `graceful`: whether `main` takes `ErrServerClosed` for no error.
pub record Service : Type 0 where
  pub setup : List Stmt
  pub port : String
  pub routes : List Route
  pub graceful : Bool

-- Whether the multiplexer has a handler for a clean path; it answers 404 where it has none.
unfoldable pub finds : List Route → String → Bool
finds [] path = false
finds (whole pattern ∷ routes) path = str_eq path pattern || finds routes path
finds (below pattern ∷ routes) path = starts_with path pattern || finds routes path

pub data Status : Type 0 where
  up killed : Status
  exited : ℕ → Status

pub record Process : Type 0 where
  pub rest : List Stmt
  -- The clients whose close is deferred, the last one first, and those closed, the first one first.
  pub deferred : List Client
  pub closed : List Client
  pub tasks : List Task
  pub watching : Option Bool
  pub cancelled : Bool
  pub shut : Bool
  pub status : Status

unfoldable pub begin : Service → Process
begin s = record {
  rest = s.setup;
  deferred = [];
  closed = [];
  tasks = [];
  watching = none;
  cancelled = false;
  shut = false;
  status = up;
}

abbrev pub fatal : Process → Process
fatal p = record p { status = exited 1 }

abbrev pub hold : Client → Bool → Process → Process
hold c deferring p = if deferring then record p { deferred = c ∷ p.deferred } else p

-- A statement, and whether what it tries succeeds.
unfoldable pub execute : Stmt → Bool → Process → Process
execute (opens c deferring) ok p = hold c deferring p
execute (tries c deferring) ok p = if ok then hold c deferring p else fatal p
execute waits_for_redis ok p = if ok then p else fatal p
execute seeds_demo_data ok p = p
execute (starts t) ok p = record p { tasks = t ∷ p.tasks }
execute (watches shuts) ok p = record p { watching = some shuts }

-- A signal arrives: the context is cancelled, or where nothing waits the process dies.
unfoldable pub on_signal : Process → Process
on_signal p = elim p.watching [
  | none ↦ record p { status = killed }
  | some shuts ↦ record p { cancelled = true }
]

-- The goroutine goes on after `cancel`.
unfoldable pub shut_down : Process → Process
shut_down p = elim p.watching [ none ↦ p | some shuts ↦ record p { shut = shuts || p.shut } ]

-- The loop of a goroutine has met an error of its reader. It returns if the context is done, with
-- the context's error, which is fatal only if the context is not done; else it goes on. `others`:
-- the tasks without it.
unfoldable pub on_fetch_error : List Task → Process → Process
on_fetch_error others p =
    if p.cancelled then (if p.cancelled then record p { tasks = others } else fatal p) else p

-- `ListenAndServe` returns, with `ErrServerClosed` or another error.
unfoldable pub on_served : Service → Bool → Process → Process
on_served s server_closed p =
    if server_closed && s.graceful
    then record p { status = exited 0; deferred = []; closed = p.deferred }
    else fatal p

pub data Step (s : Service) : Process → Process → Type 0 where
  executed :
      (p : Process) (stmt : Stmt) (rest : List Stmt) (ok : Bool)
      → p.status ≡ up
      → p.rest ≡ stmt ∷ rest
      → Step s p (execute stmt ok (record p { rest = rest }))
  signalled : (p : Process) → p.status ≡ up → Step s p (on_signal p)
  shut_step : (p : Process) → p.status ≡ up → p.cancelled ≡ true → Step s p (shut_down p)
  fetch_failed :
      (p : Process) (before after : List Task) (t : Task)
      → p.status ≡ up
      → p.tasks ≡ before ++ t ∷ after
      → Step s p (on_fetch_error (before ++ after) p)
  served :
      (p : Process) (server_closed : Bool)
      → p.status ≡ up
      → p.rest ≡ []
      → (server_closed ≡ true → p.shut ≡ true)
      → Step s p (on_served s server_closed p)

pub data Reach (s : Service) : Process → Type 0 where
  start : Reach s (begin s)
  next : {p q : Process} → Reach s p → Step s p q → Reach s q
