-- ===== src/Ingester/Window/Gap.antt =====
-- The two locked sections of `AddEvent` and of `SetContestantID` of window.go, apart. In between, a
-- call of `CheckCompleted` may close the run. `AddEvent` is called by the telemetry loop alone, so
-- no window of the run is opened between its sections; the sections of `SetContestantID` are here
-- with none opened between them either, where the second writes to a window that is still the
-- map's, or to one that nothing reads any more.
use trade_bench.Common.{
  ◌≡◌, refl, ap, ◌∙◌, true, none, some, String, [], ◌∷◌, arith, str_iff, str_refl,
}
use trade_bench.Common.Int.{ℤ}
use trade_bench.Common.Dict.{find, put, delete, find-put, find-delete}
use trade_bench.Common.Float.{Float}
use trade_bench.Common.Sort.{SortSlice}
use trade_bench.Ingester.Histogram.{Hdr}
use trade_bench.Ingester.Window.{
  TelemetryEvent, RunWindow, Manager, window_for, count_event, add_event, set_contestant_id,
  is_complete, check_run, snapshot,
}

module _ (f : Float) (hdr : Hdr f.F) where
  open hdr use {H}

  -- `AddEvent` under the manager's lock.
  unfoldable open_window : Manager H → ℤ → TelemetryEvent → Manager H
  open_window m now e = record m { windows = put e.run_id (window_for f hdr m now e) m.windows }

  -- `AddEvent` under the window's lock.
  unfoldable count_open : Manager H → TelemetryEvent → Manager H
  count_open m e = elim (find e.run_id m.windows) [
    | none ↦ m
    | some w ↦ record m { windows = put e.run_id (count_event f hdr w e) m.windows }
  ]

  -- `SetContestantID` under the manager's lock.
  unfoldable note_contestant : Manager H → String → String → Manager H
  note_contestant m run_id contestant_id = record m {
    contestant_ids = put run_id contestant_id m.contestant_ids;
  }

  -- `SetContestantID` under the lock of the window that the first section found.
  unfoldable name_window : Manager H → String → String → Manager H
  name_window m run_id contestant_id = elim (find run_id m.windows) [
    | none ↦ m
    | some w ↦ record m {
      windows = put run_id (record w { contestant_id = contestant_id }) m.windows;
    }
  ]

  -- With nothing between its sections, `AddEvent` is `add_event`.
  count_open-open_window :
      (m : Manager H) (now : ℤ) (e : TelemetryEvent) (j : String)
      → find j (count_open (open_window m now e) e).windows
        ≡ find j (add_event f hdr m now e).windows
  unfolding count_open open_window add_event
  count_open-open_window m now e j =
      let w = window_for f hdr m now e in
      ground (
        arith,
        str_iff e.run_id e.run_id,
        str_iff e.run_id j,
        find-put e.run_id e.run_id w m.windows,
        find-put e.run_id j (count_event f hdr w e) m.windows,
        find-put e.run_id j (count_event f hdr w e) (put e.run_id w m.windows),
        find-put e.run_id j w m.windows,
      )

  -- With nothing between its sections, `SetContestantID` is `set_contestant_id`.
  name_window-note_contestant :
      (m : Manager H) (run_id contestant_id : String)
      → name_window (note_contestant m run_id contestant_id) run_id contestant_id
        ≡ set_contestant_id f hdr m run_id contestant_id
  unfolding name_window note_contestant set_contestant_id
  name_window-note_contestant m run_id contestant_id = refl

  check_run-closed :
      (s : SortSlice) (m : Manager H) (later : ℤ) (k : String) (w : RunWindow H)
      → find k m.windows ≡ some w
      → is_complete f hdr w later ≡ true
      → check_run f hdr s later k (m, []) ≡ (
        record m { windows = delete k m.windows; contestant_ids = delete k m.contestant_ids },
        snapshot f hdr s w k ∷ [],
      )
  unfolding check_run
  check_run-closed s m later k w h c = rw (h, check_run) (rw (c, check_run) refl)

  find-open_window :
      (m : Manager H) (now : ℤ) (e : TelemetryEvent) (w : RunWindow H)
      → find e.run_id m.windows ≡ some w
      → find e.run_id (open_window m now e).windows ≡ some w
  unfolding open_window window_for
  find-open_window m now e w h =
      find-put e.run_id e.run_id (window_for f hdr m now e) m.windows
      ∙ rw (str_refl e.run_id) (ap some (rw (h, window_for) refl))

  count_open-gone :
      (m : Manager H) (e : TelemetryEvent) → find e.run_id m.windows ≡ none → count_open m e ≡ m
  unfolding count_open
  count_open-gone m e h = rw (h, count_open) refl

  -- Where `CheckCompleted` closes the run between the sections of `AddEvent`, the event is lost: no
  -- window has it, and the snapshot is the one of the window without it.
  count_open-check_run :
      (s : SortSlice) (m : Manager H) (now later : ℤ) (e : TelemetryEvent) (w : RunWindow H)
      → find e.run_id m.windows ≡ some w
      → is_complete f hdr w later ≡ true
      → let closed = check_run f hdr s later e.run_id (open_window m now e, []) in
        (count_open closed.0 e ≡ closed.0)
        × (find e.run_id closed.0.windows ≡ none)
        × (closed.1 ≡ snapshot f hdr s w e.run_id ∷ [])
  count_open-check_run s m now later e w h c =
      let closes =
        check_run-closed s (open_window m now e) later e.run_id w (find-open_window m now e w h)
          c in
      let gone : find e.run_id
            (check_run f hdr s later e.run_id (open_window m now e, [])).0.windows
          ≡ none =
        ap (λ r. find e.run_id r.0.windows) closes
        ∙ find-delete e.run_id e.run_id (open_window m now e).windows
        ∙ rw (str_refl e.run_id) refl in
      (count_open-gone _ e gone, gone, ap (λ r. r.1) closes)
