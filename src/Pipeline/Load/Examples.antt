-- ===== src/Pipeline/Load/Examples.antt =====
-- A run whose messages arrive in another order, among those of another run.
use mathlib.Core.List.Perm
use trade_bench.Common.{ℕ, ◌≡◌, refl, true, false, some, List, [], ◌∷◌, Related-Pairwise}
use trade_bench.Common.Int.{ℤ, pos, wrap_64}
use trade_bench.Common.Dict.{find}
use trade_bench.Common.Whole.{whole}
use trade_bench.Common.Sort.{insertion_slice}
use trade_bench.Bots.Bot.{TelemetryEvent}
use trade_bench.Ingester.Histogram.{Hdr}
use trade_bench.Ingester.Validator.{validate, new_validator}
use trade_bench.Ingester.Validator.Arrival.{SentApart, SentApart-prop}
use trade_bench.Ingester.Window.{RunWindow, new_manager}
use trade_bench.Ingester.Window.Account.{fills}
use trade_bench.Ingester.Consumer.{consume_all}
use trade_bench.Pipeline.Load.{rounds_of, at_window, consume_all-publish}

-- A histogram that keeps what it is given and answers each quantile with 0.
abbrev keeps : Hdr ℕ
keeps = record {
  H = List ℤ;
  new = λ low high digits. [];
  record_value = λ h n. n ∷ h;
  value_at_quantile = λ h q. pos 0;
  total_count = λ h. pos 0;
  reset = λ h. [];
}

abbrev bid : TelemetryEvent ℕ
bid = record {
  run_id = "r";
  bot_id = "bot-0";
  order_id = "o1";
  sent_at_ns = pos 5;
  ack_at_ns = pos 9;
  correct_fill = true;
  order_type = "limit";
  rejected = false;
  symbol = "AAPL";
  side = "buy";
  price = 10;
  quantity = pos 3;
}

abbrev ask : TelemetryEvent ℕ
ask = record bid { bot_id = "bot-1"; order_id = "o2"; sent_at_ns = pos 6; side = "sell" }

abbrev in_channel : List (TelemetryEvent ℕ)
in_channel = bid ∷ ask ∷ []

abbrev arrived : List (ℤ × TelemetryEvent ℕ)
arrived = (pos 20, ask) ∷ (pos 21, record bid { run_id = "q" }) ∷ (pos 22, bid) ∷ []

abbrev to_units : ℕ → ℤ
to_units n = pos n

consume_all-publish_example :
    (w : RunWindow (List ℤ)) × (find "r"
        (consume_all whole keeps insertion_slice (new_manager (List ℤ) (pos 30)) (
          rounds_of whole keeps insertion_slice
            (λ n. false)
            (λ n. true)
            to_units
            arrived)).0.windows
      ≡ some w)
    × (w.order_count ≡ wrap_64 (pos 2))
    × (validate whole insertion_slice new_validator w.events
        ≡ validate whole insertion_slice new_validator (
            fills
              (at_window whole keeps insertion_slice (λ n. false) (λ n. true) to_units in_channel)))
consume_all-publish_example =
    consume_all-publish whole keeps insertion_slice (λ n. false) (λ n. true) to_units (pos 30) "r"
      in_channel arrived (Perm.swap bid ask []) (refl, (refl, (refl, tt)))
      (Related-Pairwise SentApart SentApart-prop _ (((λ e. cc), tt), (tt, tt))) (λ e. cc)
