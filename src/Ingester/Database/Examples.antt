-- ===== src/Ingester/Database/Examples.antt =====
-- A database that answers at the third attempt.
use trade_bench.Common.{ℕ, zero, suc, true}
use trade_bench.Ingester.Database.{Answer, refused, silent, alive, new_writer}
use trade_bench.Ingester.Database.Retries.{Ends, new_writer-Ends}

abbrev slow_start : ℕ → Answer
slow_start zero = refused
slow_start (suc zero) = silent
slow_start (suc (suc n)) = alive

new_writer-Ends_example : Ends 9 slow_start 0 (new_writer true slow_start)
new_writer-Ends_example = new_writer-Ends slow_start
