-- ===== src/Ingester/Consumer.antt =====
-- apps/ingester/internal/consumer/kafka.go: the loops over the telemetry and over run.started, and
-- the flush of the completed runs every second, with publisher/kafka.go beside it. The database and
-- Kafka answer nothing that the code acts on. A list of rounds is how the three goroutines
-- interleave where their rounds are whole, that is where no flush falls between the two locked
-- sections of `AddEvent` or of `SetContestantID`; Window.Gap has what is lost where one does.
pub mod Runs
pub mod Follows
pub mod Independent
mod Examples
pub use trade_bench.Common.Fetched.{Fetched, fetch_error, bad_message, event}
use trade_bench.Common.{String, List, [], ◌∷◌, ◌++◌}
use trade_bench.Common.Int.{ℤ}
use trade_bench.Common.Float.{Float}
use trade_bench.Common.Sort.{SortSlice}
use trade_bench.Ingester.Histogram.{Hdr}
use trade_bench.Ingester.Window.{
  TelemetryEvent, RunSnapshot, Manager, add_event, set_contestant_id, check_completed,
}

pub record RunStartedEvent : Type 0 where
  pub run_id : String
  pub contestant_id : String

pub record RunCompletedEvent (F : Type 0) : Type 0 where
  pub run_id : String
  pub contestant_id : String
  pub p50_ms : F
  pub p90_ms : F
  pub p99_ms : F
  pub max_tps : ℤ
  pub correctness : F

pub data Effect (F : Type 0) : Type 0 where
  -- The message of the telemetry reader, or of the run.started reader, is committed.
  commit_telemetry commit_started : Effect F
  -- A row for the database, and an event for Kafka.
  insert : RunSnapshot F → Effect F
  publish : RunCompletedEvent F → Effect F

-- A round of one of the goroutines; the clock, and for a flush the order in which the range of
-- `CheckCompleted` visits the runs.
pub data Round : Type 0 where
  telemetry : ℤ → Fetched TelemetryEvent → Round
  started : Fetched RunStartedEvent → Round
  flush : ℤ → List String → Round

abbrev pub completed_event : {F : Type 0} → RunSnapshot F → RunCompletedEvent F
completed_event snap = record {
  run_id = snap.run_id;
  contestant_id = snap.contestant_id;
  p50_ms = snap.p50_ms;
  p90_ms = snap.p90_ms;
  p99_ms = snap.p99_ms;
  max_tps = snap.max_tps;
  correctness = snap.correctness;
}

-- The loop of `flushCompleted`.
unfoldable pub report_all : {F : Type 0} → List (RunSnapshot F) → List (Effect F)
report_all [] = []
report_all (snap ∷ snaps) = insert snap ∷ publish (completed_event snap) ∷ report_all snaps

module _ (f : Float) (hdr : Hdr f.F) (s : SortSlice) where
  open hdr use {H}

  -- One round of the loop of `Run`.
  unfoldable pub on_telemetry :
      Manager H → ℤ → Fetched TelemetryEvent → Manager H × List (Effect f.F)
  on_telemetry m now fetch_error = (m, [])
  on_telemetry m now bad_message = (m, [])
  on_telemetry m now (event e) = (add_event f hdr m now e, commit_telemetry ∷ [])

  -- One round of `RunStartedLoop`.
  unfoldable pub on_started : Manager H → Fetched RunStartedEvent → Manager H × List (Effect f.F)
  on_started m fetch_error = (m, [])
  on_started m bad_message = (m, commit_started ∷ [])
  on_started m (event e) = (set_contestant_id f hdr m e.run_id e.contestant_id, commit_started ∷ [])

  unfoldable pub flush_completed : Manager H → ℤ → List String → Manager H × List (Effect f.F)
  flush_completed m now keys =
      let (m', completed) = check_completed f hdr s m now keys in (m', report_all completed)

  unfoldable pub consume : Manager H → Round → Manager H × List (Effect f.F)
  unfolding on_telemetry on_started flush_completed
  consume m (telemetry now fetched) = on_telemetry m now fetched
  consume m (started fetched) = on_started m fetched
  consume m (flush now keys) = flush_completed m now keys

  unfoldable pub consume_all : Manager H → List Round → Manager H × List (Effect f.F)
  consume_all m [] = (m, [])
  consume_all m (r ∷ rs) =
      let (m', effects) = consume m r in
      let (m'', rest) = consume_all m' rs in (m'', effects ++ rest)
