-- ===== src/Bots/Consumer.antt =====
-- The loop `Run` of apps/bots/internal/consumer/kafka.go and its workers, over restarts of the
-- service, as a step relation. A message is its offset in one partition. Topics with several
-- partitions, of which the service reads some, and the rebalances that take partitions from it or
-- give it them while it lives are not modelled; a rebalance that hands a partition on resumes at the
-- group's offset, which the commit of a worker that ends late may have moved back.
-- kafka-go: a reader starts at the offset of its group; `ReadMessage` commits the message that it
-- returns; a commit sets the group's offset to the one after the message. What a worker does
-- between its start and its commit is in Fleet.
pub mod Restart
pub mod Starts
mod Examples
use trade_bench.Common.{
  ℕ, suc, ◌<◌, ◌≡◌, Bool, true, false, Option, none, some, List, [], ◌∷◌, if◌then◌else◌, length,
}
use trade_bench.Common.Bag.{contains, remove_one}

pub record Service : Type 0 where
  -- The group's offset, which outlives the service.
  pub offset : ℕ
  -- The offset of the message that the reader returns next.
  pub position : ℕ
  -- The message that waits for the semaphore, with the loop.
  pub waiting : Option ℕ
  pub running : List ℕ
  -- Whether `Run` has returned.
  pub stopped : Bool
  -- What has happened: the messages whose run was started, and those that were read and let go
  -- before that, the last one first; and how often the service has started again.
  pub started : List ℕ
  pub dropped : List ℕ
  pub restarts : ℕ

unfoldable pub new_service : Service
new_service = record {
  offset = 0;
  position = 0;
  waiting = none;
  running = [];
  stopped = false;
  started = [];
  dropped = [];
  restarts = 0;
}

-- `CommitMessages` of one message.
unfoldable pub commit : Service → ℕ → Service
commit s n = record s { offset = suc n }

-- `ReadMessage`, when it returns a message.
unfoldable pub read_message : Service → Service
unfolding commit
read_message s = commit (record s { position = suc s.position }) s.position

-- A message that decodes waits for the semaphore.
unfoldable pub receive : Service → Service
unfolding read_message
receive s = record (read_message s) { waiting = some s.position }

-- A message that does not decode is committed once more, and passed over.
unfoldable pub skip : Service → Service
unfolding read_message commit
skip s = commit (read_message s) s.position

-- `ReadMessage` fails, before the reader has taken a message or, when the commit fails, after it.
unfoldable pub read_error : Service → Bool → Service
read_error s taken =
    if taken then record s { position = suc s.position; dropped = s.position ∷ s.dropped } else s

-- The context is done: `Run` returns.
unfoldable pub stop : Service → Service
stop s = record s { stopped = true }

-- The semaphore lets the message in, and its worker starts the run.
unfoldable pub dispatch : Service → ℕ → Service
dispatch s n = record s { waiting = none; running = n ∷ s.running; started = n ∷ s.started }

-- The run has ended; its worker commits the message, or fails to, and gives its place back.
unfoldable pub finish : Service → ℕ → Bool → Service
unfolding commit
finish s n commits =
    let rest = record s { running = remove_one n s.running } in
    if commits then commit rest n else rest

-- The message that is lost with a service that ends, if one waits.
abbrev pub drop_waiting : Option ℕ → List ℕ → List ℕ
drop_waiting none dropped = dropped
drop_waiting (some n) dropped = n ∷ dropped

-- The service ends, with all its goroutines, and is started again: the reader is at the offset of
-- the group.
unfoldable pub restart : Service → Service
restart s = record s {
  position = s.offset;
  waiting = none;
  running = [];
  stopped = false;
  dropped = drop_waiting s.waiting s.dropped;
  restarts = suc s.restarts;
}

-- With room for `max` runs.
pub data Step (max : ℕ) (decodes : ℕ → Bool) : Service → Service → Type 0 where
  received :
      (s : Service)
      → s.stopped ≡ false
      → s.waiting ≡ none
      → decodes s.position ≡ true
      → Step max decodes s (receive s)
  skipped :
      (s : Service)
      → s.stopped ≡ false
      → s.waiting ≡ none
      → decodes s.position ≡ false
      → Step max decodes s (skip s)
  read_failed :
      (s : Service) (taken : Bool)
      → s.stopped ≡ false
      → s.waiting ≡ none
      → Step max decodes s (read_error s taken)
  returned : (s : Service) → s.stopped ≡ false → s.waiting ≡ none → Step max decodes s (stop s)
  dispatched :
      (s : Service) (n : ℕ)
      → s.waiting ≡ some n
      → length s.running < max
      → Step max decodes s (dispatch s n)
  ended :
      (s : Service) (n : ℕ) (commits : Bool)
      → contains n s.running ≡ true
      → Step max decodes s (finish s n commits)
  crashed : (s : Service) → Step max decodes s (restart s)

pub data Steps (max : ℕ) (decodes : ℕ → Bool) (s : Service) : Service → Type 0 where
  here : Steps max decodes s s
  next : {h k : Service} → Steps max decodes s h → Step max decodes h k → Steps max decodes s k
