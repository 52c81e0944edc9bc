-- ===== src/Bots/Consumer/Restart.antt =====
-- What a restart of the bots' service takes up again, and how often a run is started.
use trade_bench.Common.{ℕ, ◌≤◌, ◌≡◌, Option, none, some, All}
use trade_bench.Common.Bag.{count}
use trade_bench.Bots.Consumer.{Service}

-- The message that waits, if one does, is not before an offset.
abbrev IsFrom : ℕ → Option ℕ → Type 0
IsFrom base none = Unit
IsFrom base (some n) = base ≤ n

-- Nothing before an offset can be read, started or committed; a message before it has been started
-- as often as before.
record Past (base : ℕ) (m times : ℕ) (s : Service) : Type 0 where
  pub offset : base ≤ s.offset
  pub position : base ≤ s.position
  pub waiting : IsFrom base s.waiting
  pub running : All (λ n. base ≤ n) s.running
  pub started : count m s.started ≡ times
