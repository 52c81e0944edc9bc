-- ===== src/Leaderboard/Board/Latest.antt =====
-- The board of the leaderboard service behind the scorer: each keeps its own sorted set.
use trade_bench.Common.{
  ◌≡◌, refl, ap, ◌∙◌, String, Option, some, List, [], ◌∷◌, ◌++◌, if◌then◌else◌, str_eq,
}
use trade_bench.Common.Float.{Float}
use trade_bench.Scorer.Formula.{calculate}
use trade_bench.Scorer.Board.{
  RunCompletedEvent, ScoreUpdatedEvent, Fetched, fetch_error, bad_message, event,
}
use trade_bench.Scorer.Board as Scorer
use trade_bench.Scorer.Board.Best as Best
use trade_bench.Leaderboard.Board.{Redis, metrics_key, update_score, consume, consume_all}

-- What the transaction is documented to do to the scores: ZADD without a flag replaces the score.
pub record Laws (F : Type 0) (redis : Redis F) : Type 0 where
  pub scored :
      (s : redis.S) (k m : String) (v : F) (h : String) (a b : F) (j : String)
      → redis.zscore (redis.update s k m v h a b).1 k j
        ≡ (if str_eq m j then some v else redis.zscore s k j)

module _ (f : Float) (scorer : Scorer.Redis f.F) (redis : Redis f.F) where
  open redis use {S}

  -- What the scorer publishes for its messages, as the leaderboard's reader gets it.
  abbrev pub published : List (ScoreUpdatedEvent f.F) → List (Fetched (ScoreUpdatedEvent f.F))
  published [] = []
  published (e ∷ es) = event e ∷ published es

  -- What the scorer publishes while it works through its messages.
  unfoldable pub emitted :
      scorer.S → List (Fetched (RunCompletedEvent f.F)) → List (ScoreUpdatedEvent f.F)
  emitted t [] = []
  emitted t (m ∷ ms) = (Scorer.consume f scorer t m).1 ++ emitted (Scorer.consume f scorer t m).0 ms

  -- The score of the contestant's last run, or the old one where the messages have none.
  abbrev pub last_score : String → Option f.F → List (Fetched (RunCompletedEvent f.F)) → Option f.F
  last_score id old [] = old
  last_score id old (fetch_error ∷ ms) = last_score id old ms
  last_score id old (bad_message ∷ ms) = last_score id old ms
  last_score id old (event e ∷ ms) =
      last_score id
        (if str_eq e.contestant_id id
          then some (calculate f e.p99_ms e.max_tps e.correctness)
          else old)
        ms

  zscore-emitted :
      Laws f.F redis
      → (t : scorer.S) (s : S) (key : String) (ms : List (Fetched (RunCompletedEvent f.F)))
        (id : String)
      → redis.zscore (consume_all f redis s key (published (emitted t ms))) key id
        ≡ last_score id (redis.zscore s key id) ms
  unfolding emitted consume_all consume update_score Scorer.consume
  zscore-emitted laws t s key [] id = refl
  zscore-emitted laws t s key (fetch_error ∷ ms) id = zscore-emitted laws t s key ms id
  zscore-emitted laws t s key (bad_message ∷ ms) id = zscore-emitted laws t s key ms id
  zscore-emitted laws t s key (event e ∷ ms) id =
      let score = calculate f e.p99_ms e.max_tps e.correctness in
      zscore-emitted laws (Scorer.consume f scorer t (event e)).0
        (update_score f redis s key e.contestant_id score e.p50_ms e.p99_ms).1 key ms id
      ∙ ap (λ b. last_score id b ms)
          (laws.scored s key e.contestant_id score (metrics_key key e.contestant_id) e.p50_ms
            e.p99_ms id)

  -- After any messages to the scorer, and after the leaderboard service has consumed all that the
  -- scorer published for them, the two sorted sets hold different things: the scorer's the best of
  -- each contestant's old score and its runs, the service's the score of its last run.
  pub boards_after :
      Best.Laws f scorer
      → Laws f.F redis
      → (t : scorer.S) (s : S) (key : String) (ms : List (Fetched (RunCompletedEvent f.F)))
        (id : String)
      → (scorer.zscore (Scorer.consume_all f scorer t ms) Scorer.leaderboard_key id
          ≡ Best.best_after f scorer id (scorer.zscore t Scorer.leaderboard_key id) ms)
        × (redis.zscore (consume_all f redis s key (published (emitted t ms))) key id
            ≡ last_score id (redis.zscore s key id) ms)
  boards_after best laws t s key ms id =
      (Best.zscore-consume_all f scorer best t ms id, zscore-emitted laws t s key ms id)
