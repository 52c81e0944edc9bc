-- ===== src/Bots/Orchestrator/Pace.antt =====
-- How many bots a run gets, and how they are spread over the pause between two orders of one.
use native.Mathlib.Nat.{mul-div-le}
use trade_bench.Common.{
  ◌-◌, ℕ, suc, ◌+◌, ◌*◌, ◌/◌, ◌^◌, ◌≤◌, ◌<◌, ◌≡◌, refl, ◌⊎◌, inl, inr, arith, All, length, zero, ap,
  Bool-cases, ltb,
}
use trade_bench.Common.Int.{ℤ, pos, ◌≤ℤ◌, quot_ℤ, times_ℤ, wrap_64_of_InInt64}
use trade_bench.Bots.Orchestrator.{Worker, worker_count, workers_from}

-- From ten requests a second on, each bot has to send at least ten and fewer than twenty a second;
-- below that there is one bot.
pub worker_count_bounds :
    (target : ℕ)
    → (n : ℕ) × (worker_count (pos target) ≡ pos n)
      × (1 ≤ n)
      × ((target < 10) × (n ≡ 1) ⊎ ((10 * n ≤ target) × (target < 20 * n)))
unfolding worker_count quot_ℤ
worker_count_bounds target = elim (Bool-cases (ltb (target / 10 + 0) 1)) [
  | inl e ↦ rw e (1, refl, omega arith, ground arith)
  | inr e ↦ rw e (target / 10, refl, ground arith, ground arith)
]

times_quot : (i n d : ℕ) → i ≤ n → i * (d / n) ≤ d
times_quot i n d h = omega (arith, mul-div-le d n, ap (λ (t : ℕ). t * (d / n)) (split i n h))
  where
    split : (i n : ℕ) → i ≤ n → n ≡ i + (n - i)
    split i n h = omega arith

-- A bot's sleep: not negative, and no longer than the pause between two orders.
abbrev pub IsStaggered : ℤ → Worker → Type 0
IsStaggered delay w = (pos 0 ≤ℤ w.stagger) × (w.stagger ≤ℤ delay)

workers_from-IsStaggered :
    (n i count d : ℕ)
    → i + n ≤ count
    → d < 2 ^ 63
    → (length (workers_from n i count (pos d)) ≡ n)
      × All (IsStaggered (pos d)) (workers_from n i count (pos d))
unfolding workers_from times_ℤ quot_ℤ
workers_from-IsStaggered zero i count d h b = (refl, tt)
workers_from-IsStaggered (suc n) i count d h b =
    let rest = workers_from-IsStaggered n (suc i) count d (omega arith) b in
    let small = times_quot i count d (omega arith) in
    (
      ap suc rest.0,
      (
        rw (wrap_64_of_InInt64 (pos (i * (d / count))) (omega (arith, small), omega arith))
            (omega arith, omega (arith, small)),
        rest.1,
      ),
    )

-- For a pause that fits an int64, as many bots start as were counted, and each sleeps first, no
-- longer than that pause.
pub workers_IsStaggered :
    (count d : ℕ)
    → d < 2 ^ 63
    → (length (workers_from count 0 count (pos d)) ≡ count)
      × All (IsStaggered (pos d)) (workers_from count 0 count (pos d))
workers_IsStaggered count d b = workers_from-IsStaggered count 0 count d (omega arith) b
