-- ===== src/Bots/Fleet/Examples.antt =====
-- Two bots that send an order each; the second one's report is the first in the channel.
use Prim.Native.String.{[] as empty, ◌∷◌ as cons}
use text.Mathlib.TextLemmas.{nil≢cons, cons≢nil, tail-eq_of_cons-eq}
use trade_bench.Common.{
  ap, ℕ, zero, suc, ◌≡◌, refl, true, some, none, String, List, [], ◌∷◌, map, arith,
}
use trade_bench.Common.Int.{pos, ◌+ℤ◌, quot_ℤ, wrap_64, times_ℤ}
use trade_bench.Common.Whole.{whole}
use trade_bench.Bots.Orders.{Draws}
use trade_bench.Bots.Bot.{Exchange, TelemetryEvent, send_order}
use trade_bench.Bots.Orchestrator.{
  RunStartedEvent, Turn, done, tick, end_time, worker_count, workers_from, work, publish_all,
}
use trade_bench.Bots.Fleet.{workers, reports_of, run_fleet, Merges, closed, sent}
use trade_bench.Bots.Fleet.Published.{of_bot, publish_all-run_fleet}

abbrev some_draws : Draws ℕ
some_draws = record { roll = 59; coin = 1; pick = 2; size = 99; spread = 1; short_id = "0123abcd" }

abbrev no_answer : Exchange
no_answer = record { sent = pos 10; acknowledged = pos 30; request_ok = true; response = none }

abbrev one_order : ℕ → ℕ → Turn ℕ
one_order bot zero = tick (pos 5) some_draws no_answer true
one_order bot (suc i) = done

abbrev run : RunStartedEvent
run = record {
  run_id = "0123456789";
  submission_id = "s";
  contestant_id = "c";
  sandbox_address = "10.0.0.2:8080";
  target_rps = pos 20;
  duration_secs = pos 1;
  protocol = "rest";
}

-- The bot's number in strokes.
abbrev strokes : ℕ → String
strokes zero = empty
strokes (suc i) = cons "|" (strokes i)

strokes_distinct : (i j : ℕ) → strokes i ≡ strokes j → i ≡ j
strokes_distinct zero zero e = refl
strokes_distinct zero (suc j) e = absurd (nil≢cons e)
strokes_distinct (suc i) zero e = absurd (cons≢nil e)
strokes_distinct (suc i) (suc j) e = ap suc (strokes_distinct i j (tail-eq_of_cons-eq e))

abbrev report : ℕ → TelemetryEvent ℕ
report i = send_order whole (strokes i) "0123456789" some_draws no_answer

abbrev in_channel : List (TelemetryEvent ℕ)
in_channel = report 1 ∷ report 0 ∷ []

crossed : Merges (run_fleet whole 2 strokes one_order run (pos 0)) in_channel
unfolding run_fleet workers reports_of work end_time worker_count workers_from ◌+ℤ◌ quot_ℤ wrap_64
    times_ℤ
crossed =
    sent _ 1 (report 1) [] (report 0 ∷ []) refl
      (sent _ 0 (report 0) [] [] refl (closed _ (λ i. ground arith)))

publish_all-run_fleet_example :
    (publish_all whole (λ t. some (123 ∷ [])) in_channel
      ≡ map (λ t. (run.run_id, 123 ∷ [])) in_channel)
    × ((k : ℕ) → of_bot (strokes k) in_channel ≡ run_fleet whole 2 strokes one_order run (pos 0) k)
publish_all-run_fleet_example =
    publish_all-run_fleet whole 2 strokes one_order run (pos 0) (λ t. some (123 ∷ []))
      (λ t. 123 ∷ []) in_channel strokes_distinct (λ t. refl) crossed
