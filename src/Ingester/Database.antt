-- ===== src/Ingester/Database.antt =====
-- `NewWriter` of apps/ingester/internal/db/timescale.go: connecting to the database, with retries.
-- A pool is named by the number of the attempt that made it.
pub mod Retries
mod Examples
pub mod Row
use trade_bench.Common.{ℕ, zero, suc, ◌+◌, Bool, true, false, List, [], ◌∷◌, if◌then◌else◌}

-- What the database does at an attempt: no pool can be made, or its ping fails, or it answers.
pub data Answer : Type 0 where
  refused silent alive : Answer

pub data DbCall : Type 0 where
  opened closed : ℕ → DbCall
  slept : DbCall

pub data Connected : Type 0 where
  bad_dsn : Connected
  -- The number of attempts.
  connect_failed ping_failed : ℕ → Connected
  writer : ℕ → Connected

-- The loop from attempt `i` on, counted from 0, with so many attempts after it.
unfoldable pub connect : ℕ → (ℕ → Answer) → ℕ → Connected × List DbCall
connect zero answers i = elim (answers i) [
  | refused ↦ (connect_failed (i + 1), [])
  | silent ↦ (ping_failed (i + 1), opened i ∷ closed i ∷ [])
  | alive ↦ (writer i, opened i ∷ [])
]
connect (suc left) answers i =
    let rest = connect left answers (suc i) in
    elim (answers i) [
      | refused ↦ (rest.0, slept ∷ rest.1)
      | silent ↦ (rest.0, opened i ∷ closed i ∷ slept ∷ rest.1)
      | alive ↦ (writer i, opened i ∷ [])
    ]

-- `dsn_ok`: whether the DSN parses.
unfoldable pub new_writer : Bool → (ℕ → Answer) → Connected × List DbCall
unfolding connect
new_writer dsn_ok answers = if dsn_ok then connect 9 answers 0 else (bad_dsn, [])
