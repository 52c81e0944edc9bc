-- ===== src/Sandbox/Loop/Bounded.antt =====
-- No more workers run than the semaphore has places, and every message is in one place.
use trade_bench.Common.{ℕ, ◌+◌, ◌≤◌, ◌≡◌, ap, true, false, arith, if◌then◌else◌, ltb, length}
use trade_bench.Sandbox.Loop.{
  Loop, new_loop, fetch, skip, dispatch, finish, Step, fetch_error, fetched_good, fetched_bad,
  dispatched, finished, Reach, start, next,
}
use trade_bench.Common.Bag.{count, count_waiting, length-remove_one, count-remove_one}

-- How often a message is waiting, with a worker, committed or not by its worker, or skipped.
abbrev pub places : ℕ → Loop → ℕ
places n l =
    count_waiting n l.waiting
    + count n l.running
    + count n l.committed
    + count n l.uncommitted
    + count n l.skipped

record Inv (max : ℕ) (l : Loop) : Type 0 where
  pub bounded : length l.running ≤ max
  pub placed : (n : ℕ) → places n l ≡ (if ltb n l.fetched then 1 else 0)

new_loop-Inv : (max : ℕ) → Inv max new_loop
unfolding new_loop
new_loop-Inv max = record { bounded = omega arith; placed = λ n. ground arith }

Inv-Step : (max : ℕ) {l k : Loop} → Step max l k → Inv max l → Inv max k
unfolding fetch skip dispatch finish
Inv-Step max (fetch_error l w) i = i
Inv-Step max (fetched_good l w) i = record {
  bounded = i.bounded;
  placed = λ n. ground (arith, i.placed n, ap (count_waiting n) w);
}
Inv-Step max (fetched_bad l w) i = record {
  bounded = i.bounded;
  placed = λ n. ground (arith, i.placed n);
}
Inv-Step max (dispatched l m w room) i = record {
  bounded = room;
  placed = λ n. ground (arith, i.placed n, ap (count_waiting n) w);
}
Inv-Step max (finished l m true r) i = record {
  bounded = omega (arith, i.bounded, length-remove_one m l.running r);
  placed = λ n. ground (arith, i.placed n, count-remove_one n m l.running r);
}
Inv-Step max (finished l m false r) i = record {
  bounded = omega (arith, i.bounded, length-remove_one m l.running r);
  placed = λ n. ground (arith, i.placed n, count-remove_one n m l.running r);
}

reach-Inv : (max : ℕ) {l : Loop} → Reach max l → Inv max l
reach-Inv max start = new_loop-Inv max
reach-Inv max (next r s) = Inv-Step max s (reach-Inv max r)

-- Under every interleaving of the loop and its workers, at most as many workers run as the
-- semaphore has places, and every message that was fetched is in exactly one place: it waits, has a
-- worker, has been committed by its worker, was left uncommitted by a worker whose commit failed, or
-- was skipped; a message not yet fetched is in none.
pub loop-places :
    (max : ℕ) (l : Loop)
    → Reach max l
    → (length l.running ≤ max) × ((n : ℕ) → places n l ≡ (if ltb n l.fetched then 1 else 0))
loop-places max l r = ((reach-Inv max r).bounded, (reach-Inv max r).placed)
