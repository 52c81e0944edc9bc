-- ===== src/Leaderboard/Board/Examples.antt =====
-- The boards at concrete scores.
use trade_bench.Common.{
  ℕ, ◌≡◌, refl, String, true, false, Option, none, some, List, [], ◌∷◌, if◌then◌else◌, str_eq,
  str_refl,
}
use trade_bench.Common.Int.{pos}
use trade_bench.Common.Whole.{whole}
use trade_bench.Scorer.Board.{RunCompletedEvent, Fetched, event, leaderboard_key}
use trade_bench.Scorer.Board as Scorer
use trade_bench.Scorer.Board.Best as Best
use trade_bench.Scorer.Board.Store.{store, store-Laws, empty}
use trade_bench.Leaderboard.Board.{Redis, ParseFloat, consume_all}
use trade_bench.Leaderboard.Board.Latest.{Laws, published, emitted, last_score, boards_after}

-- Scores of two contestants by hand; "x" is no number.
abbrev parse : ParseFloat ℕ
parse text =
    if str_eq text "5" then (5, true) else if str_eq text "90" then (90, true) else (0, false)

abbrev raw : List (String × String)
raw = ("a", "5") ∷ ("b", "x") ∷ ("c", "90") ∷ []

-- The data are the scores alone.
abbrev board : Redis ℕ
board = record {
  S = String → String → Option ℕ;
  update = λ s k m v h a b.
      (true, λ k' j. if str_eq k k' then (if str_eq m j then some v else s k j) else s k' j);
  zadd = λ s k ms. s;
  zcard = λ s k. some (pos 0);
  zrevrange = λ s k a b. some [];
  field = λ s k h. "";
  zscore = λ s k m. s k m;
}

board-Laws : Laws ℕ board
board-Laws = record { scored = λ s k m v h a b j. rw (str_refl k) refl }

abbrev run_at : ℕ → RunCompletedEvent ℕ
run_at n = record {
  run_id = "r";
  contestant_id = "c";
  p50_ms = 1;
  p90_ms = 2;
  p99_ms = 3;
  max_tps = pos n;
  correctness = 1;
}

-- A good run, and then a worse one.
abbrev runs : List (Fetched (RunCompletedEvent ℕ))
runs = event (run_at 2000) ∷ event (run_at 1) ∷ []

boards_after_example :
    (store.zscore (Scorer.consume_all whole store empty runs) leaderboard_key "c"
      ≡ Best.best_after whole store "c" (store.zscore empty leaderboard_key "c") runs)
    × (board.zscore
          (consume_all whole board
            (λ k m. none)
            "leaderboard:top"
            (published whole store board (emitted whole store board empty runs)))
          "leaderboard:top"
          "c"
        ≡ last_score whole store board "c" none runs)
boards_after_example =
    boards_after whole store board store-Laws board-Laws empty (λ k m. none) "leaderboard:top" runs
      "c"
