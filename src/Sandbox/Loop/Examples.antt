-- ===== src/Sandbox/Loop/Examples.antt =====
-- A message that waits while another one has the only place.
use trade_bench.Common.{ℕ, ◌≤◌, ◌≡◌, refl, if◌then◌else◌, ltb, length, arith}
use trade_bench.Sandbox.Loop.{
  Loop, new_loop, fetch, dispatch, Reach, start, next, fetched_good, dispatched,
}
use trade_bench.Sandbox.Loop.Bounded.{places, loop-places}

abbrev busy : Loop
busy = fetch (dispatch (fetch new_loop) 0)

busy-Reach : Reach 1 busy
unfolding new_loop fetch dispatch
busy-Reach =
    next
      (next (next start (fetched_good new_loop refl))
        (dispatched (fetch new_loop) 0 refl (omega arith)))
      (fetched_good (dispatch (fetch new_loop) 0) refl)

loop-places_example :
    (length busy.running ≤ 1) × ((n : ℕ) → places n busy ≡ (if ltb n busy.fetched then 1 else 0))
loop-places_example = loop-places 1 busy busy-Reach
