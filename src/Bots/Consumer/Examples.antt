-- ===== src/Bots/Consumer/Examples.antt =====
-- A service that ends during its first run: the second message waits, and the third comes later.
use trade_bench.Common.{ℕ, suc, ◌≤◌, ◌<◌, ◌≡◌, refl, Bool, true, arith, length}
use trade_bench.Common.Bag.{count}
use trade_bench.Bots.Consumer.{
  Service, new_service, commit, read_message, receive, dispatch, restart, received, dispatched,
  Steps, here, next,
}
use trade_bench.Bots.Consumer.Starts.{heard, service_starts}

abbrev running_first : Service
running_first = dispatch (receive new_service) 0

abbrev second_started : Service
second_started = dispatch (receive (restart running_first)) 1

abbrev decodes : ℕ → Bool
decodes n = true

first_life : Steps 1 decodes new_service running_first
unfolding new_service receive read_message commit dispatch
first_life =
    next (next here (received new_service refl refl refl))
      (dispatched (receive new_service) 0 refl (omega arith))

service_starts_example :
    (length running_first.running ≤ 1)
    × (running_first.offset ≤ running_first.position)
    × (count 0 running_first.started ≤ suc (count 0 new_service.started))
    × (count 0 running_first.started ≤ suc running_first.restarts)
    × (0 < running_first.position → decodes 0 ≡ true → 1 ≤ heard 0 running_first)
unfolding new_service receive read_message commit dispatch
service_starts_example = service_starts 1 decodes new_service running_first 0 here first_life refl
