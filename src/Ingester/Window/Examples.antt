-- ===== src/Ingester/Window/Examples.antt =====
-- The windows at concrete telemetry.
use trade_bench.Common.{ℕ, ◌≡◌, refl, ◌⊎◌, true, false, some, none, List, [], ◌∷◌, String}
use trade_bench.Common.Int.{ℤ, pos, ◌-ℤ◌, wrap_64, ◌+ℤ◌}
use trade_bench.Common.Dict.{find}
use trade_bench.Common.Whole.{whole}
use trade_bench.Common.Sort.{insertion_slice}
use trade_bench.Ingester.Histogram.{Hdr}
use trade_bench.Ingester.Window.{
  TelemetryEvent, RunWindow, Manager, new_manager, add_event, is_complete, check_run,
}
use trade_bench.Ingester.Window.Account.{of_run, Accounts, add_events, add_events-Accounts}
use trade_bench.Ingester.Window.Contestant.{contestant_of}
use trade_bench.Ingester.Window.Completion.{late_event-anonymous}

-- A histogram that keeps what it is given and answers each quantile with 0.
abbrev keeps : Hdr ℕ
keeps = record {
  H = List ℤ;
  new = λ low high digits. [];
  record_value = λ h n. n ∷ h;
  value_at_quantile = λ h q. pos 0;
  total_count = λ h. pos 0;
  reset = λ h. [];
}

abbrev event : TelemetryEvent
event = record {
  run_id = "r";
  bot_id = "b";
  order_id = "o";
  sent_at_ns = pos 5;
  ack_at_ns = pos 9;
  correct_fill = true;
  order_type = "limit";
  rejected = false;
  symbol = "AAPL";
  side = "buy";
  price = pos 10;
  quantity = pos 1;
}

abbrev history : List (ℤ × TelemetryEvent)
history = (pos 1, event) ∷ (pos 2, record event { run_id = "q" }) ∷ (pos 3, event) ∷ []

add_events-Accounts_example :
    ((of_run "r" history ≡ [])
      × (find "r" (add_events whole keeps (new_manager (List ℤ) (pos 30)) history).windows ≡ none))
    ⊎ ((w : RunWindow (List ℤ)) × (find "r"
            (add_events whole keeps (new_manager (List ℤ) (pos 30)) history).windows
          ≡ some w)
        × Accounts (List ℤ) w (event ∷ event ∷ []))
add_events-Accounts_example = add_events-Accounts whole keeps (pos 30) "r" history

abbrev open_window : RunWindow (List ℤ)
open_window = record {
  contestant_id = "alice";
  hist = [];
  order_count = pos 1;
  start_time_ns = pos 5;
  last_event_ns = pos 9;
  duration_secs = pos 0;
  created_at = pos 0;
  events = [];
}

abbrev running : Manager (List ℤ)
running = record {
  windows = ("r", open_window) ∷ [];
  contestant_ids = ("r", "alice") ∷ [];
  default_duration_sec = pos 30;
}

abbrev keys : List String
keys = "r" ∷ "q" ∷ []

late_event-anonymous_example :
    contestant_of "r" (
      add_event whole keeps
        (check_run whole keeps insertion_slice (pos 3_000_000_000) "r" (running, [])).0
        (pos 4_000_000_000)
        event)
    ≡ some ""
unfolding find is_complete ◌-ℤ◌ ◌+ℤ◌ wrap_64
late_event-anonymous_example =
    late_event-anonymous whole keeps insertion_slice running (pos 3_000_000_000) (pos 4_000_000_000)
      event open_window [] refl refl
