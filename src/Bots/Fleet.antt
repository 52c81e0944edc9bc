-- ===== src/Bots/Fleet.antt =====
-- `Run` of apps/bots/internal/orchestrator/orchestrator.go as a whole, with the worker of
-- apps/bots/internal/consumer/kafka.go around it: the bots of a run report into one channel, in
-- whatever order, and the publisher drains it. The channel is closed only when all bots have ended.
pub mod Published
mod Examples
use trade_bench.Common.{ℕ, suc, ◌≡◌, String, Option, List, [], ◌∷◌, if◌then◌else◌, ◌==◌}
use trade_bench.Common.Int.{ℤ, pos, pos_part}
use trade_bench.Common.Float.{Float}
use trade_bench.Bots.Bot.{TelemetryEvent}
use trade_bench.Bots.Orchestrator.{
  RunStartedEvent, Worker, Turn, worker_count, end_time, workers_from, delay_between, work,
  publish_all,
}

module _ (f : Float) where
  -- The bots of a run: their numbers, and how long each sleeps.
  unfoldable pub workers : RunStartedEvent → List Worker
  workers e =
      let count = worker_count e.target_rps in
      workers_from (pos_part count) 0 (pos_part count) (delay_between f e.target_rps count)

  -- What the bot of a number reports, `none` of them if no bot has it. `names` is `botID`, `turns`
  -- what the loop of each bot gets, for at most so many rounds.
  unfoldable pub reports_of :
      ℕ
      → (ℕ → String)
      → (ℕ → ℕ → Turn f.F)
      → ℤ
      → String
      → List Worker
      → ℕ
      → List (TelemetryEvent f.F)
  reports_of fuel names turns end run_id [] j = []
  reports_of fuel names turns end run_id (w ∷ ws) j =
      if w.index == j
      then (work f fuel (turns w.index) 0 end (names w.index) run_id).0
      else reports_of fuel names turns end run_id ws j

  -- The reports of each bot of a run that starts at `now`.
  unfoldable pub run_fleet :
      ℕ → (ℕ → String) → (ℕ → ℕ → Turn f.F) → RunStartedEvent → ℤ → ℕ → List (TelemetryEvent f.F)
  unfolding workers
  run_fleet fuel names turns e now =
      reports_of fuel names turns (end_time e now) e.run_id (workers e)

abbrev pub take_from : {A : Type 0} → (ℕ → List A) → ℕ → List A → ℕ → List A
take_from lists i xs j = if i == j then xs else lists j

-- A channel that senders feed: the list is what it delivers, when each sender's list was sent in
-- its order.
pub data Merges {A : Type 0} : (ℕ → List A) → List A → Type 0 where
  closed : (lists : ℕ → List A) → ((i : ℕ) → lists i ≡ []) → Merges lists []
  sent :
      (lists : ℕ → List A) (i : ℕ) (x : A) (xs zs : List A)
      → lists i ≡ x ∷ xs
      → Merges (take_from lists i xs) zs
      → Merges lists (x ∷ zs)
