-- ===== src/Common/Whole.antt =====
-- A stand-in for float64 at which examples run: whole numbers, rounded down.
use trade_bench.Common.Tests.{ltb, leb}
use trade_bench.Common.Int.{pos, pos_part}
use trade_bench.Common.Float.{Float}
use Prim.Native.Nat.{ℕ, ◌+◌, ◌-◌, ◌*◌, ◌/◌, ◌^◌}

abbrev pub whole : Float
whole = record {
  F = ℕ;
  lit = λ m k. m / 10 ^ k;
  of_int = pos_part;
  to_int = pos;
  add = ◌+◌;
  sub = ◌-◌;
  mul = ◌*◌;
  div = ◌/◌;
  lt = ltb;
  le = leb;
}
