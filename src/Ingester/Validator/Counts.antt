-- ===== src/Ingester/Validator/Counts.antt =====
-- The two counters of `Validate` in validator.go.
use trade_bench.Common.{◌+◌, ◌≤◌, List, [], ◌∷◌, arith, length, length-perm}
use trade_bench.Common.Dict.{Dict}
use trade_bench.Common.Sort.{SortSlice}
use trade_bench.Ingester.Book.{OrderBook}
use trade_bench.Ingester.Validator.{FillEvent, Tally, replay, replay_all, tally, sent_before}

pub replay_counts :
    (s : SortSlice) (t : Tally) (e : FillEvent)
    → t.correct ≤ t.total
    → ((replay s t e).correct ≤ (replay s t e).total) × ((replay s t e).total ≤ t.total + 1)
unfolding replay
replay_counts s t e h = ground arith

replay_all_counts :
    (s : SortSlice) (t : Tally) (es : List FillEvent)
    → t.correct ≤ t.total
    → ((replay_all s t es).correct ≤ (replay_all s t es).total)
      × ((replay_all s t es).total ≤ t.total + length es)
unfolding replay_all
replay_all_counts s t [] h = omega arith
replay_all_counts s t (e ∷ es) h =
    omega (arith, replay_counts s t e h, replay_all_counts s (replay s t e) es)

-- The correct fills are among the counted ones, and at most every event counts.
pub tally_counts :
    (s : SortSlice) (books : Dict OrderBook) (es : List FillEvent)
    → ((tally s books es).correct ≤ (tally s books es).total)
      × ((tally s books es).total ≤ length es)
unfolding tally
tally_counts s books es = omega (
  arith,
  replay_all_counts s (record { books = books; total = 0; correct = 0 })
      (s.slice FillEvent sent_before es),
  length-perm (s.slice-perm FillEvent sent_before es),
)
