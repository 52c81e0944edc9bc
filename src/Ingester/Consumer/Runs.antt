-- ===== src/Ingester/Consumer/Runs.antt =====
-- One run by itself: what the ingester has to know of it, and what it publishes for it. The state
-- is the log of its telemetry, no window and no map.
use trade_bench.Common.{
  String, Bool, false, ◌&&◌, Option, none, some, List, [], ◌∷◌, ◌++◌, if◌then◌else◌, str_eq,
}
use trade_bench.Common.Int.{ℤ, pos}
use trade_bench.Common.Float.{Float}
use trade_bench.Common.Sort.{SortSlice}
use trade_bench.Ingester.Histogram.{Hdr, new_histogram}
use trade_bench.Ingester.Window.{
  TelemetryEvent, RunWindow, or_empty, count_event, is_complete, snapshot,
}
use trade_bench.Ingester.Window.Completion.{visited}
use trade_bench.Ingester.Consumer.{
  fetch_error, bad_message, event, Round, telemetry, started, flush, RunCompletedEvent,
  completed_event,
}

-- The telemetry of a run since it was opened: when that was, the first event and the others.
pub record Log : Type 0 where
  pub opened_at : ℤ
  pub first : TelemetryEvent
  pub others : List TelemetryEvent

pub record Run : Type 0 where
  pub contestant : Option String
  pub log : Option Log

unfoldable pub record_event : Option Log → ℤ → TelemetryEvent → Log
record_event none now e = record { opened_at = now; first = e; others = [] }
record_event (some l) now e = record l { others = l.others ++ e ∷ [] }

module _ (f : Float) (hdr : Hdr f.F) (s : SortSlice) (d : ℤ) where
  open hdr use {H}

  unfoldable pub count_all : RunWindow H → List TelemetryEvent → RunWindow H
  count_all w [] = w
  count_all w (e ∷ es) = count_all (count_event f hdr w e) es

  -- The figures of a log, for a contestant.
  unfoldable pub figures : String → Log → RunWindow H
  figures who l =
      count_all
        (count_event f hdr
          (record {
            contestant_id = who;
            hist = new_histogram f hdr;
            order_count = pos 0;
            start_time_ns = l.first.sent_at_ns;
            last_event_ns = pos 0;
            duration_secs = d;
            created_at = l.opened_at;
            events = [];
          })
          l.first)
        l.others

  abbrev pub is_over : Option Log → ℤ → Bool
  is_over none now = false
  is_over (some l) now = is_complete f hdr (figures "" l) now

  abbrev pub verdict : String → Run → List (RunCompletedEvent f.F)
  verdict r run = elim run.log [
    | none ↦ []
    | some l ↦ completed_event (snapshot f hdr s (figures (or_empty run.contestant) l) r) ∷ []
  ]

  -- A round, for the run `r`: what is then known of it, and the events published for it.
  unfoldable pub follow : String → Run → Round → Run × List (RunCompletedEvent f.F)
  follow r run (telemetry now fetch_error) = (run, [])
  follow r run (telemetry now bad_message) = (run, [])
  follow r run (telemetry now (event e)) =
      if str_eq e.run_id r
      then (record run { log = some (record_event run.log now e) }, [])
      else (run, [])
  follow r run (started fetch_error) = (run, [])
  follow r run (started bad_message) = (run, [])
  follow r run (started (event e)) =
      if str_eq e.run_id r
      then (record run { contestant = some e.contestant_id }, [])
      else (run, [])
  follow r run (flush now keys) =
      if visited r keys && is_over run.log now
      then (record { contestant = none; log = none }, verdict r run)
      else (run, [])

  unfoldable pub follow_all : String → Run → List Round → Run × List (RunCompletedEvent f.F)
  follow_all r run [] = (run, [])
  follow_all r run (x ∷ xs) =
      let (run', published) = follow r run x in
      let (run'', rest) = follow_all r run' xs in (run'', published ++ rest)
