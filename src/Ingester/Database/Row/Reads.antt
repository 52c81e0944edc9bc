-- ===== src/Ingester/Database/Row/Reads.antt =====
-- What the row of a run tells.
use trade_bench.Common.{◌≡◌, refl}
use trade_bench.Common.Int.{ℤ}
use trade_bench.Common.Float.{Float}
use trade_bench.Ingester.Window.{RunSnapshot}
use trade_bench.Ingester.Consumer.{completed_event}
use trade_bench.Ingester.Database.Row.{insert_row}
use trade_bench.Ingester.Events.{encode_completed}
use trade_bench.Scorer.Events.{decode_completed}

-- The row that the ingester inserts of a run holds, under the same names, what the event that it
-- publishes of the run tells the scorer.
insert_row-decode_completed :
    (f : Float) (now : ℤ) (snap : RunSnapshot f.F)
    → decode_completed f (insert_row now snap)
      ≡ decode_completed f (encode_completed f (completed_event snap))
unfolding insert_row encode_completed decode_completed
insert_row-decode_completed f now snap = refl
