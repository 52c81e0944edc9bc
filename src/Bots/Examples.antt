-- ===== src/Bots/Examples.antt =====
-- A limit order, and an answer that calls its fill wrong.
use trade_bench.Common.{ℕ, ◌+◌, ◌*◌, length, ◌≡◌, ◌≤◌, true, false, some, arith}
use trade_bench.Common.Int.{pos, ◌+ℤ◌}
use trade_bench.Common.Whole.{whole}
use trade_bench.Bots.Orders.{Draws}
use trade_bench.Bots.Bot.{Exchange}
use trade_bench.Bots.Orchestrator.{Turn, tick, work}
use trade_bench.Bots.Orchestrator.Ends.{work_ends}

abbrev draws : Draws ℕ
draws = record { roll = 59; coin = 1; pick = 2; size = 99; spread = 1; short_id = "0123abcd" }

abbrev exchange : Exchange
exchange = record {
  sent = pos 10;
  acknowledged = pos 30;
  request_ok = true;
  response = some (record {
    status_code = 200;
    body = some (record { correct_fill = some false; status = "filled" });
  });
}

-- A ticker of ten nanoseconds, each tick five late.
abbrev ticks : ℕ → Turn ℕ
ticks j = tick (pos (j * 10 + 5)) draws exchange true

work_ends_example :
    ((work whole 3 ticks 0 (pos 15) "b" "r").1 ≡ true)
    × (length (work whole 3 ticks 0 (pos 15) "b" "r").0 ≤ 2)
unfolding ◌+ℤ◌
work_ends_example =
    work_ends whole ticks 2 10 (pos 0) (pos 15) "b" "r" (λ j. ground arith) (ground arith)
