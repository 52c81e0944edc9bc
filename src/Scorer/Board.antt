-- ===== src/Scorer/Board.antt =====
-- apps/scorer/internal/leaderboard/redis.go, and the loop of internal/consumer/kafka.go that calls
-- it. Redis is a parameter: its commands as the code calls them, and what they are documented to
-- do as laws. Kafka and JSON are outside.
pub mod Best
pub mod Store
pub use trade_bench.Common.Fetched.{Fetched, fetch_error, bad_message, event}
use Prim.Native.String.{◌++◌ as append}
use trade_bench.Common.{
  ℕ, suc, ◌+◌, ◌≡◌, ◌≢◌, String, Bool, true, false, Option, none, some, List, [], ◌∷◌,
  if◌then◌else◌, ltb,
}
use trade_bench.Common.Int.{ℤ, pos, ◌+ℤ◌, ◌-ℤ◌, wrap_64}
use trade_bench.Common.Float.{Float}
use trade_bench.Scorer.Formula.{calculate}

-- A number that a command answers, `none` for an error. `hset` writes the two fields of a hash.
pub record Redis (F : Type 0) : Type 1 where
  pub S : Type 0
  -- ZADD with the flag GT alone: how many members it has added.
  pub zadd_gt : S → String → String → F → Option ℕ × S
  pub hset : S → String → F → F → Bool × S
  pub zrevrange : S → String → ℤ → ℤ → Option (List (String × F))
  pub zrevrank : S → String → String → Option ℤ
  pub zscore : S → String → String → Option F
  pub hash : S → String → Option (F × F)

abbrev pub leaderboard_key : String
leaderboard_key = "tradebench:leaderboard"

abbrev pub metrics_key : String → String
metrics_key id = append "tradebench:metrics:" id

pub record Entry (F : Type 0) : Type 0 where
  pub contestant_id : String
  pub score : F
  pub rank : ℤ

pub record RunCompletedEvent (F : Type 0) : Type 0 where
  pub run_id : String
  pub contestant_id : String
  pub p50_ms : F
  pub p90_ms : F
  pub p99_ms : F
  pub max_tps : ℤ
  pub correctness : F

pub record ScoreUpdatedEvent (F : Type 0) : Type 0 where
  pub contestant_id : String
  pub run_id : String
  pub score : F
  pub p50_ms : F
  pub p99_ms : F

module _ (f : Float) (redis : Redis f.F) where
  open redis use {S}

  -- `Upsert`: whether it succeeds, and the data afterwards.
  unfoldable pub upsert : S → String → f.F → f.F → f.F → Bool × S
  upsert s contestant_id score p50_ms p99_ms =
      let (added, s') = redis.zadd_gt s leaderboard_key contestant_id score in
      elim added [
        | none ↦ (false, s')
        | some n ↦
            if ltb 0 n then redis.hset s' (metrics_key contestant_id) p50_ms p99_ms else (true, s')
      ]

  unfoldable pub entries_from : ℕ → List (String × f.F) → List (Entry f.F)
  entries_from i [] = []
  entries_from i ((id, score) ∷ rest) =
      record { contestant_id = id; score = score; rank = pos (i + 1) } ∷ entries_from (suc i) rest

  unfoldable pub top_n : S → ℤ → Option (List (Entry f.F))
  unfolding entries_from
  top_n s n = elim (redis.zrevrange s leaderboard_key (pos 0) (wrap_64 (n -ℤ pos 1))) [
    | none ↦ none
    | some results ↦ some (entries_from 0 results)
  ]

  unfoldable pub get_rank : S → String → Option (Entry f.F)
  get_rank s id = elim (redis.zrevrank s leaderboard_key id) [
    | none ↦ none
    | some rank ↦ elim (redis.zscore s leaderboard_key id) [
      | none ↦ none
      | some score ↦
          some (record { contestant_id = id; score = score; rank = wrap_64 (rank +ℤ pos 1) })
    ]
  ]

  -- One round of the consumer's `Run`: the data, and the events that it hands to Kafka.
  unfoldable pub consume : S → Fetched (RunCompletedEvent f.F) → S × List (ScoreUpdatedEvent f.F)
  consume s fetch_error = (s, [])
  consume s bad_message = (s, [])
  consume s (event e) =
      let score = calculate f e.p99_ms e.max_tps e.correctness in
      (
        (upsert s e.contestant_id score e.p50_ms e.p99_ms).1,
        record {
          contestant_id = e.contestant_id;
          run_id = e.run_id;
          score = score;
          p50_ms = e.p50_ms;
          p99_ms = e.p99_ms;
        }
            ∷ [],
      )

  unfoldable pub consume_all : S → List (Fetched (RunCompletedEvent f.F)) → S
  consume_all s [] = s
  consume_all s (m ∷ ms) = consume_all (consume s m).0 ms
