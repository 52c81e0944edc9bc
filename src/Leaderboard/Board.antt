-- ===== src/Leaderboard/Board.antt =====
-- apps/leaderboard/internal/redis/redis.go and the loop of internal/consumer/kafka.go: what the
-- leaderboard service writes to Redis, reads from it and tells its clients. Redis and
-- `strconv.ParseFloat` are parameters. The service's own `ScoreUpdatedEvent` has the fields of the
-- scorer's.
pub mod Ranks
pub mod Latest
mod Examples
use Prim.Native.String.{◌++◌ as append}
use trade_bench.Common.{
  ℕ, zero, suc, ◌+◌, ◌≡◌, String, Bool, true, false, Option, none, some, List, [], ◌∷◌, ◌++◌,
  if◌then◌else◌,
}
use trade_bench.Common.Int.{ℤ, pos, ltb_ℤ}
use trade_bench.Common.Float.{Float}
use trade_bench.Common.Sort.{SortSlice}
use trade_bench.Scorer.Board.{ScoreUpdatedEvent, Fetched, fetch_error, bad_message, event}

-- The commands as the service calls them. `update` is the transaction of ZADD and HSET on their
-- keys, and whether it succeeds; `field` is a field of the answer to HGETALL in a pipeline, empty
-- where the hash or the field is missing or the call fails. `none` stands for an error.
pub record Redis (F : Type 0) : Type 1 where
  pub S : Type 0
  pub update : S → String → String → F → String → F → F → Bool × S
  pub zadd : S → String → List (String × F) → S
  pub zcard : S → String → Option ℤ
  pub zrevrange : S → String → ℤ → ℤ → Option (List (String × F))
  pub field : S → String → String → String
  -- The score of a member, which the service never asks for.
  pub zscore : S → String → String → Option F

-- `strconv.ParseFloat`: the value that it gives, also with an error, and whether there is none.
abbrev pub ParseFloat : Type 0 → Type 0
ParseFloat F = String → F × Bool

pub record LeaderboardEntry (F : Type 0) : Type 0 where
  pub rank : ℕ
  pub contestant_id : String
  pub score : F
  pub p50_ms : F
  pub p99_ms : F

-- `hub.Message`.
pub data Message (F : Type 0) : Type 0 where
  snapshot : List (LeaderboardEntry F) → Message F
  update : LeaderboardEntry F → Message F

abbrev pub metrics_key : String → String → String
metrics_key key id = append key (append ":metrics:" id)

module _ (f : Float) where
  module _ (redis : Redis f.F) where
    open redis use {S}

    -- `UpdateScore` for the client's key.
    unfoldable pub update_score : S → String → String → f.F → f.F → f.F → Bool × S
    update_score s key id score p50 p99 = redis.update s key id score (metrics_key key id) p50 p99

    -- The second loop of `Top50`, from rank `i + 1` on.
    unfoldable pub top_entries :
        ParseFloat f.F → S → String → ℕ → List (String × f.F) → List (LeaderboardEntry f.F)
    top_entries parse s key i [] = []
    top_entries parse s key i ((id, score) ∷ rest) =
        record {
          rank = i + 1;
          contestant_id = id;
          score = score;
          p50_ms = (parse (redis.field s (metrics_key key id) "p50")).0;
          p99_ms = (parse (redis.field s (metrics_key key id) "p99")).0;
        }
        ∷ top_entries parse s key (suc i) rest

    unfoldable pub top_50 : ParseFloat f.F → S → String → Option (List (LeaderboardEntry f.F))
    unfolding top_entries
    top_50 parse s key = elim (redis.zrevrange s key (pos 0) (pos 49)) [
      | none ↦ none
      | some results ↦ some (top_entries parse s key 0 results)
    ]

    unfoldable pub seed_demo_data : S → String → S
    seed_demo_data s key = elim (redis.zcard s key) [
      | none ↦ s
      | some count ↦
          if ltb_ℤ (pos 0) count
          then s
          else redis.zadd s key (
              ("demo-contestant-alpha", f.lit 955 1)
              ∷ ("demo-contestant-beta", f.lit 892 1)
              ∷ ("demo-contestant-gamma", f.lit 827 1)
              ∷ [])
    ]

    -- One round of the consumer's `Run`: the data, and the message for all clients. The entry of an
    -- update has no rank.
    unfoldable pub consume : S → String → Fetched (ScoreUpdatedEvent f.F) → S × List (Message f.F)
    consume s key fetch_error = (s, [])
    consume s key bad_message = (s, [])
    consume s key (event e) = (
      (update_score s key e.contestant_id e.score e.p50_ms e.p99_ms).1,
      update (record {
        rank = 0;
        contestant_id = e.contestant_id;
        score = e.score;
        p50_ms = e.p50_ms;
        p99_ms = e.p99_ms;
      })
          ∷ [],
    )

    unfoldable pub consume_all : S → String → List (Fetched (ScoreUpdatedEvent f.F)) → S
    consume_all s key [] = s
    consume_all s key (m ∷ ms) = consume_all (consume s key m).0 key ms

    -- What `wsHandler` sends first to a new client.
    unfoldable pub greeting : ParseFloat f.F → S → String → List (Message f.F)
    unfolding top_50
    greeting parse s key = elim (top_50 parse s key) [
      | none ↦ []
      | some entries ↦ snapshot entries ∷ []
    ]

  -- The first loop of `ParseEntries`, over the map in the order of its range: what parses is kept.
  unfoldable pub parsed : ParseFloat f.F → List (String × String) → List (String × f.F)
  parsed parse [] = []
  parsed parse ((id, text) ∷ raw) =
      let rest = parsed parse raw in if (parse text).1 then (id, (parse text).0) ∷ rest else rest

  unfoldable pub higher : String × f.F → String × f.F → Bool
  higher a b = f.lt b.1 a.1

  -- The second loop, from rank `i + 1` on.
  unfoldable pub ranked : ℕ → List (String × f.F) → List (LeaderboardEntry f.F)
  ranked i [] = []
  ranked i ((id, score) ∷ rest) =
      record {
        rank = i + 1;
        contestant_id = id;
        score = score;
        p50_ms = f.lit 0 0;
        p99_ms = f.lit 0 0;
      }
      ∷ ranked (suc i) rest

  unfoldable pub parse_entries :
      SortSlice → ParseFloat f.F → List (String × String) → List (LeaderboardEntry f.F)
  unfolding parsed higher ranked
  parse_entries s parse raw = ranked 0 (s.slice (String × f.F) higher (parsed parse raw))

-- One round of `WaitReady`: whether the ping succeeds, and whether the context is done while it
-- waits for the next one.
pub data Attempt : Type 0 where
  ponged cancelled timed_out : Attempt

-- `WaitReady` for at most so many rounds: `none` while it still waits, else whether Redis is ready.
unfoldable pub wait_ready : ℕ → (ℕ → Attempt) → ℕ → Option Bool
wait_ready zero attempts i = none
wait_ready (suc fuel) attempts i =
    let rest = wait_ready fuel attempts (suc i) in
    elim (attempts i) [ ponged ↦ some true | cancelled ↦ some false | timed_out ↦ rest ]
