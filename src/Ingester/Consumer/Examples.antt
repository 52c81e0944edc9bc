-- ===== src/Ingester/Consumer/Examples.antt =====
-- Two runs of the ingester that are interleaved.
use trade_bench.Common.{◌≡◌, true, false, none, String, List, [], ◌∷◌, str_iff}
use trade_bench.Common.Int.{ℤ, pos}
use trade_bench.Common.Dict.{find}
use trade_bench.Common.Whole.{whole}
use trade_bench.Common.Sort.{insertion_slice}
use trade_bench.Ingester.Histogram.{Hdr}
use trade_bench.Ingester.Window.{TelemetryEvent, new_manager}
use trade_bench.Ingester.Consumer.{
  bad_message, event, Round, telemetry, started, flush, consume_all,
}
use trade_bench.Ingester.Consumer.Runs.{follow_all}
use trade_bench.Ingester.Consumer.Follows.{published_for, window_of}
use trade_bench.Ingester.Consumer.Independent.{consume_all_follows_each_run}
use Prim.Native.Nat.{ℕ}

-- A histogram that keeps what it is given and answers each quantile with 0.
abbrev keeps : Hdr ℕ
keeps = record {
  H = List ℤ;
  new = λ low high digits. [];
  record_value = λ h n. n ∷ h;
  value_at_quantile = λ h q. pos 0;
  total_count = λ h. pos 0;
  reset = λ h. [];
}

abbrev sample_of : String → TelemetryEvent
sample_of r = record {
  run_id = r;
  bot_id = "b";
  order_id = "o";
  sent_at_ns = pos 5;
  ack_at_ns = pos 9;
  correct_fill = true;
  order_type = "limit";
  rejected = false;
  symbol = "AAPL";
  side = "buy";
  price = pos 10;
  quantity = pos 1;
}

abbrev two_runs : List Round
two_runs =
    telemetry (pos 1) (event (sample_of "r"))
    ∷ telemetry (pos 2) (event (sample_of "q"))
    ∷ started (event (record { run_id = "r"; contestant_id = "alice" }))
    ∷ telemetry (pos 3) bad_message
    ∷ flush (pos 9_000_000_000) ("q" ∷ "r" ∷ [])
    ∷ telemetry (pos 9_500_000_000) (event (sample_of "r"))
    ∷ []

consume_all_follows_each_run_example :
    (published_for "r"
        (consume_all whole keeps insertion_slice (new_manager (List ℤ) (pos 5)) two_runs).1
      ≡ (follow_all whole keeps insertion_slice
          (pos 5)
          "r"
          (record { contestant = none; log = none })
          two_runs).1)
    × (find "r"
          (consume_all whole keeps insertion_slice
            (new_manager (List ℤ) (pos 5))
            two_runs).0.windows
        ≡ window_of whole keeps insertion_slice
            (pos 5)
            (follow_all whole keeps insertion_slice
              (pos 5)
              "r"
              (record { contestant = none; log = none })
              two_runs).0)
consume_all_follows_each_run_example =
    consume_all_follows_each_run whole keeps insertion_slice (pos 5) "r" two_runs
      (tt, (tt, (tt, (tt, ((((λ e. cc ((str_iff "q" "r").1 e)), tt), (tt, tt)), (tt, tt))))))
