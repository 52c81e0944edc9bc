-- ===== src/Ingester/Database/Row.antt =====
-- `Insert` of apps/ingester/internal/db/timescale.go: the row of a completed run. The database takes
-- it or not, which the flush of the consumer only logs.
mod Reads
use trade_bench.Common.{String, List, [], ◌∷◌}
use trade_bench.Common.Int.{ℤ}
use trade_bench.Common.Json.{Value, text, int, real, Object}
use trade_bench.Ingester.Window.{RunSnapshot}

-- The columns that the statement names.
abbrev columns : List String
columns =
    "time" ∷ "run_id" ∷ "contestant_id" ∷ "p50_ms" ∷ "p90_ms" ∷ "p99_ms" ∷ "max_tps" ∷ "correctness"
    ∷ []

-- Its values: the database's clock, and the seven arguments.
unfoldable pub values : {F : Type 0} → ℤ → RunSnapshot F → List (Value F)
values now snap =
    int now
    ∷ text snap.run_id
    ∷ text snap.contestant_id
    ∷ real snap.p50_ms
    ∷ real snap.p90_ms
    ∷ real snap.p99_ms
    ∷ int snap.max_tps
    ∷ real snap.correctness
    ∷ []

abbrev row_of : {F : Type 0} → List String → List (Value F) → Object F
row_of [] vs = []
row_of (k ∷ ks) [] = []
row_of (k ∷ ks) (v ∷ vs) = (k, v) ∷ row_of ks vs

unfoldable pub insert_row : {F : Type 0} → ℤ → RunSnapshot F → Object F
unfolding values
insert_row now snap = row_of columns (values now snap)
