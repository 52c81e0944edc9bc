-- ===== src/Ingester/Window.antt =====
-- apps/ingester/internal/window/window.go: the open windows of the runs, and their completion.
-- The clock is an argument `now`, in nanoseconds. A method is one
-- step: `AddEvent` and `SetContestantID` let go of the manager's lock before they take the window's,
-- and what comes in between, a flush above all, is in Gap.
pub mod Account
pub mod Contestant
pub mod Completion
pub mod Forget
mod Gap
mod Examples
use trade_bench.Common.{
  ℕ, ◌+◌, ◌/◌, ◌%◌, String, Bool, true, false, Option, none, some, List, [], ◌∷◌, ◌++◌,
  if◌then◌else◌, str_eq,
}
use trade_bench.Common.Int.{ℤ, pos, pos_part, ◌+ℤ◌, ◌-ℤ◌, wrap_64, ltb_ℤ, eqb_ℤ}
use trade_bench.Common.Dict.{Dict, find, put, delete}
use trade_bench.Common.Sort.{SortSlice}
use trade_bench.Common.Float.{Float}
use trade_bench.Ingester.Histogram.{Hdr, new_histogram, record_latency, percentile}
use trade_bench.Ingester.Validator.{FillEvent, validate, new_validator}

pub record TelemetryEvent : Type 0 where
  pub run_id : String
  pub bot_id : String
  pub order_id : String
  pub sent_at_ns : ℤ
  pub ack_at_ns : ℤ
  pub correct_fill : Bool
  pub order_type : String
  pub rejected : Bool
  pub symbol : String
  pub side : String
  pub price : ℤ
  pub quantity : ℤ

pub record RunSnapshot (F : Type 0) : Type 0 where
  pub run_id : String
  pub contestant_id : String
  pub p50_ms : F
  pub p90_ms : F
  pub p99_ms : F
  pub max_tps : ℤ
  pub correctness : F

pub record RunWindow (H : Type 0) : Type 0 where
  pub contestant_id : String
  pub hist : H
  pub order_count : ℤ
  pub start_time_ns : ℤ
  pub last_event_ns : ℤ
  pub duration_secs : ℤ
  pub created_at : ℤ
  pub events : List FillEvent

pub record Manager (H : Type 0) : Type 0 where
  pub windows : Dict (RunWindow H)
  pub contestant_ids : Dict String
  pub default_duration_sec : ℤ

abbrev pub fill_of : TelemetryEvent → FillEvent
fill_of e = record {
  order_id = e.order_id;
  symbol = e.symbol;
  side = e.side;
  type = e.order_type;
  quantity = e.quantity;
  price = e.price;
  sent_at_ns = e.sent_at_ns;
  filled = e.correct_fill;
}

-- `m[k]` of a map of strings: the empty string where the key is missing.
abbrev pub or_empty : Option String → String
or_empty none = ""
or_empty (some s) = s

unfoldable pub new_manager : (H : Type 0) → ℤ → Manager H
new_manager H d = record { windows = []; contestant_ids = []; default_duration_sec = d }

module _ (f : Float) (hdr : Hdr f.F) where
  open hdr use {H}

  -- The window of the event's run, or a new one with the contestant known so far.
  unfoldable pub window_for : Manager H → ℤ → TelemetryEvent → RunWindow H
  window_for m now e = elim (find e.run_id m.windows) [
    | some w ↦ w
    | none ↦ record {
      contestant_id = or_empty (find e.run_id m.contestant_ids);
      hist = new_histogram f hdr;
      order_count = pos 0;
      start_time_ns = e.sent_at_ns;
      last_event_ns = pos 0;
      duration_secs = m.default_duration_sec;
      created_at = now;
      events = [];
    }
  ]

  -- The part of `AddEvent` under the window's lock.
  unfoldable pub count_event : RunWindow H → TelemetryEvent → RunWindow H
  count_event w e =
      let latency_ns = wrap_64 (e.ack_at_ns -ℤ e.sent_at_ns) in
      record w {
        order_count = wrap_64 (w.order_count +ℤ pos 1);
        events = if e.rejected then w.events else w.events ++ fill_of e ∷ [];
        hist = if ltb_ℤ (pos 0) latency_ns then record_latency f hdr w.hist latency_ns else w.hist;
        start_time_ns =
            if ltb_ℤ e.sent_at_ns w.start_time_ns then e.sent_at_ns else w.start_time_ns;
        last_event_ns = if ltb_ℤ w.last_event_ns e.ack_at_ns then e.ack_at_ns else w.last_event_ns;
      }

  -- `AddEvent`, with nothing between its two locked sections.
  unfoldable pub add_event : Manager H → ℤ → TelemetryEvent → Manager H
  add_event m now e = record m {
    windows = put e.run_id (count_event (window_for m now e) e) m.windows;
  }

  -- `SetContestantID`, with nothing between its two locked sections.
  unfoldable pub set_contestant_id : Manager H → String → String → Manager H
  set_contestant_id m run_id contestant_id =
      let m' = record m { contestant_ids = put run_id contestant_id m.contestant_ids } in
      elim (find run_id m.windows) [
        | none ↦ m'
        | some w ↦ record m' {
          windows = put run_id (record w { contestant_id = contestant_id }) m.windows;
        }
      ]

  -- `Duration.Seconds`: whole seconds and the rest, both as floats; here for a duration in ns
  -- that is not negative, as the clock that it is taken from is monotonic.
  seconds : ℕ → f.F
  seconds ns =
      f.add (f.of_int (pos (ns / 1_000_000_000)))
        (f.div (f.of_int (pos (ns % 1_000_000_000))) (f.lit 1_000_000_000 0))

  unfoldable pub is_complete : RunWindow H → ℤ → Bool
  unfolding seconds
  is_complete w now =
      if eqb_ℤ w.order_count (pos 0)
      then false
      else f.le (f.of_int (wrap_64 (w.duration_secs +ℤ pos 2)))
          (seconds (pos_part (now -ℤ w.created_at)))

  -- `snapshot`: the final figures of a run. `s` is the standard library's sort.
  unfoldable pub snapshot : SortSlice → RunWindow H → String → RunSnapshot f.F
  snapshot s w run_id =
      let elapsed_sec =
        f.div (f.of_int (wrap_64 (w.last_event_ns -ℤ w.start_time_ns))) (f.lit 1_000_000_000 0) in
      record {
        run_id = run_id;
        contestant_id = w.contestant_id;
        p50_ms = percentile f hdr w.hist (f.lit 50 0);
        p90_ms = percentile f hdr w.hist (f.lit 90 0);
        p99_ms = percentile f hdr w.hist (f.lit 99 0);
        max_tps =
            if f.lt (f.lit 0 0) elapsed_sec
            then f.to_int (f.div (f.of_int w.order_count) elapsed_sec)
            else pos 0;
        correctness = validate f s new_validator w.events;
      }

  -- One round of the loop of `CheckCompleted`, for one key of the map.
  unfoldable pub check_run :
      SortSlice
      → ℤ
      → String
      → Manager H × List (RunSnapshot f.F)
      → Manager H × List (RunSnapshot f.F)
  check_run s now run_id (m, completed) = elim (find run_id m.windows) [
    | none ↦ (m, completed)
    | some w ↦
        if is_complete w now
        then (
          record m {
            windows = delete run_id m.windows;
            contestant_ids = delete run_id m.contestant_ids;
          },
          completed ++ snapshot s w run_id ∷ [],
        )
        else (m, completed)
  ]

  -- The loop, over the keys in whatever order the map gives them.
  unfoldable pub check_runs :
      SortSlice
      → ℤ
      → List String
      → Manager H × List (RunSnapshot f.F)
      → Manager H × List (RunSnapshot f.F)
  unfolding check_run
  check_runs s now [] r = r
  check_runs s now (k ∷ ks) r = check_runs s now ks (check_run s now k r)

  -- `CheckCompleted`; `keys` is the order in which the range over the map visits the runs.
  unfoldable pub check_completed :
      SortSlice → Manager H → ℤ → List String → Manager H × List (RunSnapshot f.F)
  unfolding check_runs
  check_completed s m now keys = check_runs s now keys (m, [])
