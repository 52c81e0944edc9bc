-- ===== src/Bots/Orchestrator/Ends.antt =====
-- The loop of a bot ends.
use trade_bench.Common.{
  ℕ, zero, suc, ap, ltb, ◌⊎◌, ◌+◌, ◌*◌, ◌≤◌, ◌<◌, ◌≡◌, refl, String, Bool, true, false, arith,
  length, Bool-cases, inl, inr,
}
use trade_bench.Common.Int.{ℤ, pos, ◌+ℤ◌, ◌≤ℤ◌, ◌<ℤ◌, ltb_ℤ, +ℤ_parts}
use trade_bench.Common.Float.{Float}
use trade_bench.Bots.Orders.{Draws}
use trade_bench.Bots.Bot.{Exchange}
use trade_bench.Bots.Orchestrator.{Turn, done, tick, work}

-- A tick, if the round has one, is not before that time.
abbrev pub IsNotBefore : {F : Type 0} → ℤ → Turn F → Type 0
IsNotBefore s done = Unit
IsNotBefore s (tick t draws x taken) = s ≤ℤ t

pub Turn-cases :
    {F : Type 0} (u : Turn F)
    → (u ≡ done)
      ⊎ ((t : ℤ) × (draws : Draws F) × (x : Exchange) × (taken : Bool) × (u ≡ tick t draws x taken))
Turn-cases done = inl refl
Turn-cases (tick t draws x taken) = inr (t, draws, x, taken, refl)

lt_of_times : (i k d : ℕ) → i ≤ k → i * d < k * d → i < k
lt_of_times i k d h b = elim (Bool-cases (ltb i k)) [
  | inl e ↦ ground arith
  | inr e ↦ let same : i ≡ k = ground arith in absurd (omega (arith, ap (λ (t : ℕ). t * d) same))
]

-- A tick that is not after the end comes in a round before the last.
round_before :
    (i k delay : ℕ) (start end t : ℤ)
    → (start +ℤ pos (i * delay)) ≤ℤ t
    → end <ℤ (start +ℤ pos (k * delay))
    → ltb_ℤ end t ≡ false
    → i ≤ k
    → i < k
round_before i k delay start end t h b e le =
    lt_of_times i k delay le
      (ground (arith, +ℤ_parts start (pos (i * delay)), +ℤ_parts start (pos (k * delay))))

module _ (f : Float) where
  work_ends_from :
      (fuel : ℕ) (turns : ℕ → Turn f.F) (i k delay : ℕ) (start end : ℤ) (id run_id : String)
      → ((j : ℕ) → IsNotBefore (start +ℤ pos (j * delay)) (turns j))
      → end <ℤ (start +ℤ pos (k * delay))
      → k < i + fuel
      → i ≤ k
      → ((work f fuel turns i end id run_id).1 ≡ true)
        × (length (work f fuel turns i end id run_id).0 + i ≤ k)
  unfolding work
  work_ends_from zero turns i k delay start end id run_id h b c e = absurd (omega arith)
  work_ends_from (suc fuel) turns i k delay start end id run_id h b c e =
      elim (Turn-cases (turns i)) [
        | inl q ↦ rw (q, work) (refl, omega arith)
        | inr (t, draws, x, taken, q) ↦ elim (Bool-cases (ltb_ℤ end t)) [
          | inl late ↦ rw (q, work) (rw late (refl, omega arith))
          | inr early ↦
              let lt = round_before i k delay start end t (rw q at (h i)) b early e in
              let rest =
                work_ends_from fuel turns (suc i) k delay start end id run_id h b (omega arith)
                  lt in
              elim (Bool-cases taken) [
                | inl y ↦ rw (q, work) (rw (early, y) (rest.0, omega (arith, rest.1)))
                | inr n ↦ rw (q, work) (rw (early, n) (refl, omega arith))
              ]
        ]
      ]

  -- A bot whose ticks come no more often than once in each pause, from its start on, ends, whatever
  -- it draws and whatever the sandbox answers: with `k` pauses past the end of the run, it is done
  -- within `k + 1` rounds and has reported at most `k` orders.
  pub work_ends :
      (turns : ℕ → Turn f.F) (k delay : ℕ) (start end : ℤ) (id run_id : String)
      → ((j : ℕ) → IsNotBefore (start +ℤ pos (j * delay)) (turns j))
      → end <ℤ (start +ℤ pos (k * delay))
      → ((work f (suc k) turns 0 end id run_id).1 ≡ true)
        × (length (work f (suc k) turns 0 end id run_id).0 ≤ k)
  work_ends turns k delay start end id run_id h b =
      let r =
        work_ends_from (suc k) turns 0 k delay start end id run_id h b (omega arith)
          (omega arith) in
      (r.0, omega (arith, r.1))
