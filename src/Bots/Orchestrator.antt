-- ===== src/Bots/Orchestrator.antt =====
-- apps/bots/internal/orchestrator/orchestrator.go: how many bots a run gets, at which pace, and the
-- loop of one bot; with publisher/kafka.go beside it, which drains their telemetry. Tickers and the
-- context are outside: what a bot's `select` gets in each round is an argument.
pub mod Pace
pub mod Ends
use Prim.Native.String.{◌++◌ as append}
use trade_bench.Common.{
  ℕ, zero, suc, ◌+◌, ◌*◌, String, Bool, true, false, Option, none, some, List, [], ◌∷◌,
  if◌then◌else◌,
}
use trade_bench.Common.Int.{ℤ, pos, ◌+ℤ◌, ltb_ℤ, quot_ℤ, times_ℤ, wrap_64}
use trade_bench.Common.Float.{Float}
use trade_bench.Bots.Orders.{Draws}
use trade_bench.Bots.Bot.{TelemetryEvent, Exchange, send_order}

pub record RunStartedEvent : Type 0 where
  pub run_id : String
  pub submission_id : String
  pub contestant_id : String
  pub sandbox_address : String
  pub target_rps : ℤ
  pub duration_secs : ℤ
  pub protocol : String

-- One bot for ten requests a second, at least one.
unfoldable pub worker_count : ℤ → ℤ
worker_count target_rps =
    let count = quot_ℤ target_rps 10 in if ltb_ℤ count (pos 1) then pos 1 else count

-- `endTime`, for a run that starts at `now`.
unfoldable pub end_time : RunStartedEvent → ℤ → ℤ
end_time e now = now +ℤ wrap_64 (times_ℤ 1_000_000_000 e.duration_secs)

-- A bot before it starts: its number, and how long it sleeps.
pub record Worker : Type 0 where
  pub index : ℕ
  pub stagger : ℤ

-- The bots from number `i` on, `n` of them out of `count`; `delay` is `delayBetweenOrders`.
unfoldable pub workers_from : ℕ → ℕ → ℕ → ℤ → List Worker
workers_from zero i count delay = []
workers_from (suc n) i count delay =
    record { index = i; stagger = wrap_64 (times_ℤ i (quot_ℤ delay count)) }
    ∷ workers_from n (suc i) count delay

-- What one round of a bot's loop gets: the context is done, or a tick; after a tick, the draws and
-- the answer for the order that is sent, and whether the channel takes the telemetry before the
-- context is done.
pub data Turn (F : Type 0) : Type 0 where
  done : Turn F
  tick : ℤ → Draws F → Exchange → Bool → Turn F

module _ (f : Float) where
  -- `delayBetweenOrders` for a number of bots.
  unfoldable pub delay_between : ℤ → ℤ → ℤ
  delay_between target_rps count =
      let rps_per_worker = f.div (f.of_int target_rps) (f.of_int count) in
      f.to_int (f.div (f.lit 1_000_000_000 0) rps_per_worker)

  -- The loop of the bot `id`, from round `i` on, for at most so many rounds: the telemetry that the
  -- channel takes, and whether the loop has ended.
  unfoldable pub work :
      ℕ → (ℕ → Turn f.F) → ℕ → ℤ → String → String → List (TelemetryEvent f.F) × Bool
  work zero turns i end id run_id = ([], false)
  work (suc fuel) turns i end id run_id =
      let rest = work fuel turns (suc i) end id run_id in
      elim (turns i) [
        | done ↦ ([], true)
        | tick t draws x taken ↦
            if ltb_ℤ end t
            then ([], true)
            else if taken
            then (send_order f id run_id draws x ∷ rest.0, rest.1)
            else ([], true)
      ]

  -- `BatchPublisher.Start`: the messages for the telemetry of a closed channel, each with its run as
  -- key; what does not encode is passed over. A failed write is logged and nothing else.
  unfoldable pub publish_all :
      (TelemetryEvent f.F → Option (List ℕ)) → List (TelemetryEvent f.F) → List (String × List ℕ)
  publish_all encode [] = []
  publish_all encode (e ∷ es) =
      let rest = publish_all encode es in
      elim (encode e) [ none ↦ rest | some bytes ↦ (e.run_id, bytes) ∷ rest ]
