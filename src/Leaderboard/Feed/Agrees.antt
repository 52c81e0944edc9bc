-- ===== src/Leaderboard/Feed/Agrees.antt =====
-- What a client shows, and what Redis holds.
use mathlib.Core.List.{append-nil}
use trade_bench.Common.{
  ℕ, suc, ◌≡◌, ◌≢◌, ◌∙◌, sym, ap, ◌⊎◌, inl, inr, String, true, false, Option, none, some, List, [],
  ◌∷◌, ◌++◌, str_eq, str_iff, drop, arith, Bool-cases, Option-cases, All,
}
use mathlib.Core.Option.{some-injective, none-ne-some}
use trade_bench.Common.Int.{ℤ, pos}
use trade_bench.Common.Float.{Float}
use trade_bench.Leaderboard.Board.{
  Redis, ParseFloat, LeaderboardEntry, snapshot, greeting, top_50, top_entries,
}
use trade_bench.Leaderboard.Board.Latest.{Laws}
use trade_bench.Leaderboard.Hub.{is_in}
use trade_bench.Leaderboard.Hub.Delivery.{received, broadcast_since, hub_delivers}
use trade_bench.Leaderboard.Feed.{Site, score_in, show_all, numbered, Reach, hub_run, shown}
use trade_bench.Leaderboard.Feed.Numbers.{numbered-Counts}
use trade_bench.Leaderboard.Feed.Shows.{show_again-from, show_anew-from}
use trade_bench.Leaderboard.Feed.Seen.{Books, Seen, listed}
use trade_bench.Leaderboard.Feed.Books.{reach-Books}

-- ZREVRANGE is documented to list members with their scores.
pub record ListLaws (F : Type 0) (redis : Redis F) : Type 0 where
  pub ranged :
      (s : redis.S) (k : String) (a b : ℤ) (results : List (String × F))
      → redis.zrevrange s k a b ≡ some results
      → All (λ (r : String × F). redis.zscore s k r.0 ≡ some r.1) results

-- Every update has gone through the queue, and the client, which is registered and not about to be
-- dropped, has taken all that was sent to it.
pub record IsDrained {F S : Type 0} (s : Site F S) (c : ℕ) : Type 0 where
  pub handed : s.sending ≡ none
  pub empty : s.queue ≡ []
  pub joined : is_in c s.hub.clients ≡ true
  pub stays : is_in c s.hub.unregistering ≡ false
  pub taken : (s.hub.channels c).buffer ≡ []

module _ (f : Float) (redis : Redis f.F) (parse : ParseFloat f.F) (key : String) where
  open redis use {S, zscore}

  top_entries-score :
      (s : S) (i : ℕ) (results : List (String × f.F)) (id : String) (v : f.F)
      → All (λ (r : String × f.F). zscore s key r.0 ≡ some r.1) results
      → score_in id (top_entries f redis parse s key i results) ≡ some v
      → zscore s key id ≡ some v
  unfolding top_entries
  top_entries-score s i [] id v a e = absurd (cc)
  top_entries-score s i ((j, w) ∷ rest) id v a e = elim (Bool-cases (str_eq j id)) [
    | inl q ↦ ap (zscore s key) (sym ((str_iff j id).0 q)) ∙ a.0 ∙ (rw q at e)
    | inr q ↦ top_entries-score s (suc i) rest id v a.1 (rw q at e)
  ]

  top_50-score :
      ListLaws f.F redis
      → (s : S) (entries : List (LeaderboardEntry f.F)) (id : String) (v : f.F)
      → top_50 f redis parse s key ≡ some entries
      → score_in id entries ≡ some v
      → zscore s key id ≡ some v
  unfolding top_50
  top_50-score laws s entries id v e h =
      elim (Option-cases (redis.zrevrange s key (pos 0) (pos 49))) [
        | inl q ↦ absurd (none-ne-some entries (rw (q, top_50) at e))
        | inr (results, q) ↦
            let same = some-injective _ entries (rw (q, top_50) at e) in
            top_entries-score s 0 results id v (laws.ranged s key (pos 0) (pos 49) results q)
              (rw (← same) at h)
      ]

  -- A drained client has got all updates from its first one on.
  greeting-top :
      (s : S) (entries : List (LeaderboardEntry f.F))
      → top_50 f redis parse s key ≡ some entries
      → greeting f redis parse s key ≡ snapshot entries ∷ []
  unfolding greeting
  greeting-top s entries e = elim (Option-cases (redis.zrevrange s key (pos 0) (pos 49))) [
    | inl q ↦ absurd (none-ne-some entries (rw (q, top_50) at e))
    | inr (results, q) ↦
        let same = some-injective _ entries (rw (q, top_50) at e) in
        rw (q, greeting) (ap (λ t. snapshot t ∷ []) same)
  ]

  module _ (init : S) {s : Site f.F S} (r : Reach f redis parse key init s) (c : ℕ)
      (books : Books f redis parse key init s
        (λ d. broadcast_since d (hub_run f redis parse key r)))
      (d : IsDrained s c) where
    received-all :
        numbered s.updates (received c (hub_run f redis parse key r))
        ≡ drop (books.from c) s.updates
    received-all =
        let got = received c (hub_run f redis parse key r) in
        let all : got ≡ broadcast_since c (hub_run f redis parse key r) =
          sym (append-nil got)
          ∙ ap (λ b. got ++ b) (sym d.taken)
          ∙ hub_delivers s.hub (hub_run f redis parse key r) c d.joined d.stays in
        rw all (
          numbered-Counts s.updates (books.from c) _ (books.counted c)
            (omega (arith, books.reached c, rw (d.empty, d.handed, listed) at books.total)))

  -- A beginning of the updates, in the snapshot or not, and all from an earlier one on.
  settled :
      (init : S) (s : Site f.F S) (from c : ℕ) (b : S)
      → Seen f redis parse key init s from c b
      → (id : String) (v : Option f.F) → zscore b key id ≡ v
      → show_all id v (drop from s.updates) ≡ show_all id (zscore init key id) s.updates
  settled init s from c b e id v q =
      ap (λ t. show_all id t (drop from s.updates)) (sym q ∙ e.scores id)
      ∙ show_again-from id (zscore init key id) from e.count s.updates e.after

  -- Where Redis stores, lists and adds as documented, under every interleaving of the consumer, the
  -- hub and the clients: take a client that was greeted, at a moment when Redis answered with the top
  -- 50, that is registered and not about to be dropped, and that has taken all that was sent to it,
  -- while no update is on its way to the hub. What it then shows for a contestant is the score that
  -- Redis holds; or it shows nothing for it, and the contestant was not in the snapshot, though Redis
  -- held a score for it then.
  pub feed_agrees :
      Laws f.F redis
      → ListLaws f.F redis
      → (init : S) {s : Site f.F S} (r : Reach f redis parse key init s) (c : ℕ) (b : S)
      → s.greeted c ≡ some b
      → (entries : List (LeaderboardEntry f.F)) → top_50 f redis parse b key ≡ some entries
      → IsDrained s c
      → (id : String)
      → (shown f redis parse key s b (received c (hub_run f redis parse key r)) id
          ≡ zscore s.store key id)
        ⊎ ((shown f redis parse key s b (received c (hub_run f redis parse key r)) id ≡ none)
            × (score_in id entries ≡ none)
            × (zscore b key id ≢ none))
  unfolding shown
  feed_agrees laws lists init {s} r c b g entries top d id =
      let books = reach-Books f redis parse key laws init r in
      let from = books.from c in
      let e = books.seen c b g in
      rw (greeting-top b entries top, received-all init r c books d)
        (elim (Option-cases (score_in id entries)) [
          | inr (v, q) ↦ inl (
              ap (λ t. show_all id t (drop from s.updates)) q
              ∙ settled init s from c b e id (some v) (top_50-score lists b entries id v top q)
              ∙ sym (books.held id))
          | inl q ↦
              let blank = ap (λ t. show_all id t (drop from s.updates)) q in
              elim (Option-cases (zscore b key id)) [
                | inl n ↦ inl (blank ∙ settled init s from c b e id none n ∙ sym (books.held id))
                | inr (w, n) ↦ elim (Option-cases (show_all id none (drop from s.updates))) [
                  | inl t ↦ inr (blank ∙ t, q, λ z. none-ne-some w (sym z ∙ n))
                  | inr (v, t) ↦ inl (
                      blank
                      ∙ t
                      ∙ sym (
                          books.held id
                          ∙ show_anew-from id v (zscore init key id) from s.updates t))
                ]
              ]
        ])
