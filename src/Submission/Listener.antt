-- ===== src/Submission/Listener.antt =====
-- apps/submission/internal/consumer/kafka.go: the four loops that feed the status tracker. A round
-- of a loop gets a fetch error, a message that does not decode, or an event; Kafka and the JSON
-- decoder are outside. Each round gives the tracker and whether the message is committed. A round
-- is whole: `consumeStarted` locks the tracker for `Set` and again for `SetRunID`, and a round of
-- another loop that comes between the two is not modelled.
pub mod Lifecycle
mod Examples
pub use trade_bench.Common.Fetched.{Fetched, fetch_error, bad_message, event}
use trade_bench.Common.{ℕ, String, Bool, true, false, List, [], ◌∷◌}
use trade_bench.Submission.Tracker.{
  State, running, completed, failed, Entry, Tracker, set, set_run_id, update_by_run_id,
  update_score_by_run_id,
}

pub record RunStartedEvent : Type 0 where
  pub run_id : String
  pub submission_id : String

pub record RunCompletedEvent : Type 0 where
  pub run_id : String

pub record SubmissionFailedEvent : Type 0 where
  pub submission_id : String
  pub error : String

pub record ScoreUpdatedEvent (F : Type 0) : Type 0 where
  pub contestant_id : String
  pub run_id : String
  pub score : F

module _ {F : Type 0} where
  consume_started : Tracker F → Fetched RunStartedEvent → Tracker F × Bool
  consume_started t fetch_error = (t, false)
  consume_started t bad_message = (t, false)
  consume_started t (event e) =
      (set_run_id (set t e.submission_id "" running) e.submission_id e.run_id, true)

  consume_completed : List String → Tracker F → Fetched RunCompletedEvent → Tracker F × Bool
  consume_completed keys t fetch_error = (t, false)
  consume_completed keys t bad_message = (t, false)
  consume_completed keys t (event e) = (update_by_run_id keys t e.run_id completed, true)

  consume_score : List String → Tracker F → Fetched (ScoreUpdatedEvent F) → Tracker F × Bool
  consume_score keys t fetch_error = (t, false)
  consume_score keys t bad_message = (t, true)
  consume_score keys t (event e) = (update_score_by_run_id keys t e.run_id e.score, true)

  consume_failed : Tracker F → Fetched SubmissionFailedEvent → Tracker F × Bool
  consume_failed t fetch_error = (t, false)
  consume_failed t bad_message = (t, true)
  consume_failed t (event e) = (set t e.submission_id "" failed, true)

-- One round of one of the four goroutines.
pub data Round (F : Type 0) : Type 0 where
  started : Fetched RunStartedEvent → Round F
  completes : Fetched RunCompletedEvent → Round F
  scores : Fetched (ScoreUpdatedEvent F) → Round F
  fails : Fetched SubmissionFailedEvent → Round F

module _ {F : Type 0} where
  unfoldable pub consume : List String → Tracker F → Round F → Tracker F × Bool
  unfolding consume_started consume_completed consume_score consume_failed
  consume keys t (started m) = consume_started t m
  consume keys t (completes m) = consume_completed keys t m
  consume keys t (scores m) = consume_score keys t m
  consume keys t (fails m) = consume_failed t m

  -- The goroutines of `Run` interleave: a list of rounds, each with its own visiting order.
  unfoldable pub run_rounds : Tracker F → List (List String × Round F) → Tracker F
  run_rounds t [] = t
  run_rounds t ((keys, r) ∷ rs) = run_rounds (consume keys t r).0 rs
