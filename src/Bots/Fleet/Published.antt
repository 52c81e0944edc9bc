-- ===== src/Bots/Fleet/Published.antt =====
-- What of a run's telemetry is published.
use trade_bench.Common.{
  ℕ, zero, suc, ◌≡◌, ◌≢◌, refl, sym, ap, ◌∙◌, String, true, false, Option, some, List, [], ◌∷◌, map,
  arith, if◌then◌else◌, ◌==◌, str_eq, str_iff, str_ne, Bool-cases, inl, inr, All,
}
use trade_bench.Common.Int.{ℤ}
use trade_bench.Common.Float.{Float}
use trade_bench.Bots.Bot.{TelemetryEvent, send_order}
use trade_bench.Bots.Orchestrator.{RunStartedEvent, Worker, Turn, end_time, work, publish_all}
use trade_bench.Bots.Orchestrator.Ends.{Turn-cases}
use trade_bench.Bots.Fleet.{workers, reports_of, run_fleet, take_from, Merges, closed, sent}

-- The reports of one bot.
abbrev pub of_bot : {F : Type 0} → String → List (TelemetryEvent F) → List (TelemetryEvent F)
of_bot name [] = []
of_bot name (e ∷ es) = let rest = of_bot name es in if str_eq e.bot_id name then e ∷ rest else rest

abbrev IsBy : {F : Type 0} → String → String → TelemetryEvent F → Type 0
IsBy name run_id e = (e.bot_id ≡ name) × (e.run_id ≡ run_id)

same : (a b : ℕ) → a == b ≡ true → a ≡ b
same a b q = ground arith

module _ (f : Float) where
  work-IsBy :
      (fuel : ℕ) (turns : ℕ → Turn f.F) (i : ℕ) (end : ℤ) (id run_id : String)
      → All (IsBy id run_id) (work f fuel turns i end id run_id).0
  unfolding work send_order
  work-IsBy zero turns i end id run_id = tt
  work-IsBy (suc fuel) turns i end id run_id = elim (Turn-cases (turns i)) [
    | inl q ↦ rw (q, work) tt
    | inr (t, draws, x, taken, q) ↦
        rw (q, work) (ground (arith, work-IsBy fuel turns (suc i) end id run_id))
  ]

  reports_of-IsBy :
      (fuel : ℕ) (names : ℕ → String) (turns : ℕ → ℕ → Turn f.F) (end : ℤ) (run_id : String)
      (ws : List Worker) (j : ℕ)
      → All (IsBy (names j) run_id) (reports_of f fuel names turns end run_id ws j)
  unfolding reports_of
  reports_of-IsBy fuel names turns end run_id [] j = tt
  reports_of-IsBy fuel names turns end run_id (w ∷ ws) j = elim (Bool-cases (w.index == j)) [
    | inl q ↦ rw (q, same w.index j q) (work-IsBy fuel (turns j) 0 end (names j) run_id)
    | inr q ↦ rw q (reports_of-IsBy fuel names turns end run_id ws j)
  ]

  take_from-IsBy :
      (names : ℕ → String) (run_id : String) (lists : ℕ → List (TelemetryEvent f.F)) (i : ℕ)
      (x : TelemetryEvent f.F) (xs : List (TelemetryEvent f.F))
      → lists i ≡ x ∷ xs
      → ((j : ℕ) → All (IsBy (names j) run_id) (lists j))
      → IsBy (names i) run_id x × ((j : ℕ) → All (IsBy (names j) run_id) (take_from lists i xs j))
  take_from-IsBy names run_id lists i x xs q by =
      let own = rw q at (by i) in
      (
        own.0,
        λ j. elim (Bool-cases (i == j)) [
          | inl e ↦ rw (e, ← same i j e) own.1
          | inr e ↦ rw e (by j)
        ],
      )

  -- Of a channel that the bots feed, the reports of one of them are what it sent.
  of_bot-Merges :
      (names : ℕ → String) (run_id : String)
      → ((i j : ℕ) → names i ≡ names j → i ≡ j)
      → {lists : ℕ → List (TelemetryEvent f.F)} {zs : List (TelemetryEvent f.F)} → Merges lists zs
      → ((j : ℕ) → All (IsBy (names j) run_id) (lists j))
      → (k : ℕ) → of_bot (names k) zs ≡ lists k
  of_bot-Merges names run_id distinct (closed lists empty) by k = sym (empty k)
  of_bot-Merges names run_id distinct (sent lists i x xs rest q m) by k =
      let (own, left) = take_from-IsBy names run_id lists i x xs q by in
      let others = of_bot-Merges names run_id distinct m left k in
      elim (Bool-cases (i == k)) [
        | inl e ↦
            let is_k : i ≡ k = same i k e in
            let mine : str_eq x.bot_id (names k) ≡ true =
              (str_iff x.bot_id (names k)).1 (own.0 ∙ ap names is_k) in
            rw mine (ap (◌∷◌ x) (others ∙ rw e refl) ∙ sym q ∙ ap lists is_k)
        | inr e ↦
            let theirs : str_eq x.bot_id (names k) ≡ false =
              str_ne x.bot_id (names k) (λ p. other i k e (distinct i k (sym own.0 ∙ p))) in
            rw theirs (others ∙ rw e refl)
      ]
    where
      other : (i k : ℕ) → i == k ≡ false → i ≢ k
      other i k e p = ground arith

  run_id-Merges :
      (names : ℕ → String) (run_id : String)
      → {lists : ℕ → List (TelemetryEvent f.F)} {zs : List (TelemetryEvent f.F)} → Merges lists zs
      → ((j : ℕ) → All (IsBy (names j) run_id) (lists j))
      → All (λ e. e.run_id ≡ run_id) zs
  run_id-Merges names run_id (closed lists empty) by = tt
  run_id-Merges names run_id (sent lists i x xs rest q m) by =
      let (own, left) = take_from-IsBy names run_id lists i x xs q by in
      (own.1, run_id-Merges names run_id m left)

  publish_all-keys :
      (run_id : String) (encode : TelemetryEvent f.F → Option (List ℕ))
      (bytes : TelemetryEvent f.F → List ℕ)
      → ((e : TelemetryEvent f.F) → encode e ≡ some (bytes e))
      → (zs : List (TelemetryEvent f.F)) → All (λ e. e.run_id ≡ run_id) zs
      → publish_all f encode zs ≡ map (λ e. (run_id, bytes e)) zs
  unfolding publish_all
  publish_all-keys run_id encode bytes h [] a = refl
  publish_all-keys run_id encode bytes h (e ∷ es) a =
      rw (h e, publish_all)
        (ap (λ key. (key, bytes e) ∷ publish_all f encode es) a.0
          ∙ ap (◌∷◌ (run_id, bytes e)) (publish_all-keys run_id encode bytes h es a.1))

  -- Where no two bots of a run have one name and telemetry encodes, then in whatever order their
  -- reports meet in the channel, the run's publisher sends one message for each, in the order of the
  -- channel and with the run as its key; and of each bot these are its reports, all of them, in the
  -- order in which it made them.
  pub publish_all-run_fleet :
      (fuel : ℕ) (names : ℕ → String) (turns : ℕ → ℕ → Turn f.F) (e : RunStartedEvent) (now : ℤ)
      (encode : TelemetryEvent f.F → Option (List ℕ)) (bytes : TelemetryEvent f.F → List ℕ)
      (zs : List (TelemetryEvent f.F))
      → ((i j : ℕ) → names i ≡ names j → i ≡ j)
      → ((t : TelemetryEvent f.F) → encode t ≡ some (bytes t))
      → Merges (run_fleet f fuel names turns e now) zs
      → (publish_all f encode zs ≡ map (λ t. (e.run_id, bytes t)) zs)
        × ((k : ℕ) → of_bot (names k) zs ≡ run_fleet f fuel names turns e now k)
  unfolding run_fleet
  publish_all-run_fleet fuel names turns e now encode bytes zs distinct h m =
      let by = reports_of-IsBy fuel names turns (end_time e now) e.run_id (workers f e) in
      (
        publish_all-keys e.run_id encode bytes h zs (run_id-Merges names e.run_id m by),
        of_bot-Merges names e.run_id distinct m by,
      )
