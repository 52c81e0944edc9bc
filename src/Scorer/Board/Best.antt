-- ===== src/Scorer/Board/Best.antt =====
-- What the leaderboard of the scorer keeps of a contestant's runs.
use mathlib.Core.Bool.{false≢true}
use text.Mathlib.TextLemmas.{append_cancel_left}
use trade_bench.Common.{
  ◌≢◌, sym, true, ℕ, ◌≡◌, refl, ap, ◌∙◌, String, Option, none, some, List, [], ◌∷◌, if◌then◌else◌,
  str_eq, Option-cases, Bool-cases, str_iff, inl, inr,
}
use trade_bench.Common.Float.{Float}
use trade_bench.Scorer.Formula.{calculate}
use trade_bench.Scorer.Board.{
  Redis, RunCompletedEvent, Fetched, fetch_error, bad_message, event, leaderboard_key, metrics_key,
  upsert, consume, consume_all,
}

module _ (f : Float) (redis : Redis f.F) where
  open redis use {S}

  -- A new score and the one that is there: the greater one stays.
  abbrev pub better : Option f.F → f.F → f.F
  better none v = v
  better (some u) v = if f.lt u v then v else u

  abbrev pub count_new : Option f.F → ℕ
  count_new none = 1
  count_new (some u) = 0

  -- The documentation of ZADD with GT and without CH (the reply counts the members added, not the
  -- ones updated) and of HSET, on a server that answers.
  pub record Laws : Type 0 where
    pub reply :
        (s : S) (k m : String) (v : f.F)
        → (redis.zadd_gt s k m v).0 ≡ some (count_new (redis.zscore s k m))
    pub scored :
        (s : S) (k m : String) (v : f.F) (j : String)
        → redis.zscore (redis.zadd_gt s k m v).1 k j
          ≡ (if str_eq m j then some (better (redis.zscore s k m) v) else redis.zscore s k j)
    pub zadd_hash :
        (s : S) (k m : String) (v : f.F) (h : String)
        → redis.hash (redis.zadd_gt s k m v).1 h ≡ redis.hash s h
    pub hset_hash :
        (s : S) (h : String) (a b : f.F) → redis.hash (redis.hset s h a b).1 h ≡ some (a, b)
    pub hset_other :
        (s : S) (h j : String) (a b : f.F)
        → h ≢ j
        → redis.hash (redis.hset s h a b).1 j ≡ redis.hash s j
    pub hset_score :
        (s : S) (h : String) (a b : f.F) (k m : String)
        → redis.zscore (redis.hset s h a b).1 k m ≡ redis.zscore s k m

  upsert-zscore :
      Laws
      → (s : S) (id : String) (v p50 p99 : f.F) (j : String)
      → redis.zscore (upsert f redis s id v p50 p99).1 leaderboard_key j ≡ (
          if str_eq id j
          then some (better (redis.zscore s leaderboard_key id) v)
          else redis.zscore s leaderboard_key j)
  unfolding upsert
  upsert-zscore laws s id v p50 p99 j = elim (Option-cases (redis.zscore s leaderboard_key id)) [
    | inl n ↦
        rw (laws.reply s leaderboard_key id v, upsert)
          (rw (n, upsert)
            (laws.hset_score _ _ p50 p99 _ j ∙ laws.scored s leaderboard_key id v j ∙ rw n refl))
    | inr (u, q) ↦
        rw (laws.reply s leaderboard_key id v, upsert)
          (rw (q, upsert) (laws.scored s leaderboard_key id v j ∙ rw q refl))
  ]

  -- The scores of one contestant's runs, in the order of the messages.
  abbrev pub best_after : String → Option f.F → List (Fetched (RunCompletedEvent f.F)) → Option f.F
  best_after id best [] = best
  best_after id best (fetch_error ∷ ms) = best_after id best ms
  best_after id best (bad_message ∷ ms) = best_after id best ms
  best_after id best (event e ∷ ms) =
      best_after id
        (if str_eq e.contestant_id id
          then some (better best (calculate f e.p99_ms e.max_tps e.correctness))
          else best)
        ms

  -- On a Redis that answers as documented, after any messages the leaderboard holds for each
  -- contestant the best of its old score and the scores of its own runs.
  pub zscore-consume_all :
      Laws
      → (s : S) (ms : List (Fetched (RunCompletedEvent f.F))) (id : String)
      → redis.zscore (consume_all f redis s ms) leaderboard_key id
        ≡ best_after id (redis.zscore s leaderboard_key id) ms
  unfolding consume_all consume
  zscore-consume_all laws s [] id = refl
  zscore-consume_all laws s (fetch_error ∷ ms) id = zscore-consume_all laws s ms id
  zscore-consume_all laws s (bad_message ∷ ms) id = zscore-consume_all laws s ms id
  zscore-consume_all laws s (event e ∷ ms) id =
      let score = calculate f e.p99_ms e.max_tps e.correctness in
      zscore-consume_all laws (upsert f redis s e.contestant_id score e.p50_ms e.p99_ms).1 ms id
      ∙ ap (λ b. best_after id b ms)
          (upsert-zscore laws s e.contestant_id score e.p50_ms e.p99_ms id
            ∙ same_contestant e.contestant_id score)
    where
      same_contestant :
          (c : String) (v : f.F)
          → (if str_eq c id
              then some (better (redis.zscore s leaderboard_key c) v)
              else redis.zscore s leaderboard_key id)
            ≡ (if str_eq c id
                then some (better (redis.zscore s leaderboard_key id) v)
                else redis.zscore s leaderboard_key id)
      same_contestant c v = elim (Bool-cases (str_eq c id)) [
        | inl h ↦ rw (h, (str_iff c id).0 h) refl
        | inr h ↦ rw h refl
      ]

  -- What an upsert leaves of the metrics of its own contestant, and of another one's.
  hash-own :
      Laws
      → (s : S) (id : String) (v p50 p99 : f.F)
      → redis.hash (upsert f redis s id v p50 p99).1 (metrics_key id)
        ≡ (elim (redis.zscore s leaderboard_key id) as (λ x. Option (f.F × f.F)) [
          | none ↦ some (p50, p99)
          | some u ↦ redis.hash s (metrics_key id)
        ])
  unfolding upsert
  hash-own laws s id v p50 p99 = elim (Option-cases (redis.zscore s leaderboard_key id)) [
    | inl n ↦
        rw (laws.reply s leaderboard_key id v, upsert) (rw (n, upsert) (laws.hset_hash _ _ p50 p99))
    | inr (u, q) ↦
        rw (laws.reply s leaderboard_key id v, upsert)
          (rw (q, upsert) (laws.zadd_hash s leaderboard_key id v (metrics_key id)))
  ]

  hash-another :
      Laws
      → (s : S) (id : String) (v p50 p99 : f.F) (j : String) → id ≢ j
      → redis.hash (upsert f redis s id v p50 p99).1 (metrics_key j) ≡ redis.hash s (metrics_key j)
  unfolding upsert
  hash-another laws s id v p50 p99 j n = elim (Option-cases (redis.zscore s leaderboard_key id)) [
    | inl q ↦
        rw (laws.reply s leaderboard_key id v, upsert)
          (rw (q, upsert)
            (laws.hset_other _ _ _ p50 p99
                (λ e. n (append_cancel_left "tradebench:metrics:" id j e))
              ∙ laws.zadd_hash s leaderboard_key id v (metrics_key j)))
    | inr (u, q) ↦
        rw (laws.reply s leaderboard_key id v, upsert)
          (rw (q, upsert) (laws.zadd_hash s leaderboard_key id v (metrics_key j)))
  ]

  -- The latencies that the first run of a contestant among the messages had.
  abbrev pub first_run : String → List (Fetched (RunCompletedEvent f.F)) → Option (f.F × f.F)
  first_run id [] = none
  first_run id (fetch_error ∷ ms) = first_run id ms
  first_run id (bad_message ∷ ms) = first_run id ms
  first_run id (event e ∷ ms) =
      let rest = first_run id ms in
      if str_eq e.contestant_id id then some (e.p50_ms, e.p99_ms) else rest

  abbrev pub or_old : Option (f.F × f.F) → Option (f.F × f.F) → Option (f.F × f.F)
  or_old none old = old
  or_old (some p) old = some p

  -- The metrics afterwards: the old ones of a contestant with a score, the first run's of another.
  abbrev pub metrics_after :
      Option f.F → Option (f.F × f.F) → Option (f.F × f.F) → Option (f.F × f.F)
  metrics_after none first old = or_old first old
  metrics_after (some u) first old = old

  -- On a Redis that answers as documented, after any messages of any contestants the metrics of a
  -- contestant that was on the leaderboard are what they were, though its score may have risen; of
  -- another one they are the latencies of its first run among the messages, or what they were if it
  -- has none.
  pub hash-consume_all :
      Laws
      → (s : S) (ms : List (Fetched (RunCompletedEvent f.F))) (id : String)
      → redis.hash (consume_all f redis s ms) (metrics_key id)
        ≡ metrics_after
            (redis.zscore s leaderboard_key id)
            (first_run id ms)
            (redis.hash s (metrics_key id))
  unfolding consume_all consume
  hash-consume_all laws s [] id = elim (Option-cases (redis.zscore s leaderboard_key id)) [
    | inl n ↦ rw n refl
    | inr (u, q) ↦ rw q refl
  ]
  hash-consume_all laws s (fetch_error ∷ ms) id = hash-consume_all laws s ms id
  hash-consume_all laws s (bad_message ∷ ms) id = hash-consume_all laws s ms id
  hash-consume_all laws s (event e ∷ ms) id =
      let score = calculate f e.p99_ms e.max_tps e.correctness in
      let c = e.contestant_id in
      let t = (upsert f redis s c score e.p50_ms e.p99_ms).1 in
      hash-consume_all laws t ms id ∙ elim (Bool-cases (str_eq c id)) [
        | inl h ↦ own c score e.p50_ms e.p99_ms ((str_iff c id).0 h) h
        | inr h ↦ rw (upsert-zscore laws s c score e.p50_ms e.p99_ms id) (
            rw
              (
                h,
                hash-another laws s c score e.p50_ms e.p99_ms id
                    (λ q. false≢true (sym h ∙ (str_iff c id).1 q)),
              )
              refl)
      ]
    where
      own :
          (c : String) (v p50 p99 : f.F)
          → c ≡ id
          → str_eq c id ≡ true
          → metrics_after
              (redis.zscore (upsert f redis s c v p50 p99).1 leaderboard_key id)
              (first_run id ms)
              (redis.hash (upsert f redis s c v p50 p99).1 (metrics_key id))
            ≡ metrics_after
                (redis.zscore s leaderboard_key id)
                (if str_eq c id then some (p50, p99) else first_run id ms)
                (redis.hash s (metrics_key id))
      own c v p50 p99 q h =
          rw (upsert-zscore laws s c v p50 p99 id, h, sym q, hash-own laws s c v p50 p99)
            (elim (Option-cases (redis.zscore s leaderboard_key c)) [
              | inl n ↦ rw n refl
              | inr (u, k) ↦ rw k refl
            ])
