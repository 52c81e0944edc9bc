-- ===== src/Leaderboard/Feed/Books.antt =====
-- The updates between Redis, the queue and the clients, under every interleaving.
use mathlib.Core.List.{append-nil}
use mathlib.Core.Path.{subst}
use mathlib.Core.Option.{some-injective}
use trade_bench.Common.{
  ℕ, suc, ◌+◌, ◌<◌, ◌≡◌, refl, ◌∙◌, sym, ap, inl, inr, String, false, none, some, List, [], ◌∷◌,
  ◌++◌, if◌then◌else◌, str_eq, ◌==◌, length, length-append, arith, Bool-cases,
}
use trade_bench.Common.Float.{Float}
use trade_bench.Scorer.Board.{ScoreUpdatedEvent, Fetched, fetch_error, bad_message, event}
use trade_bench.Leaderboard.Board.{Redis, ParseFloat, LeaderboardEntry, update, update_score}
use trade_bench.Leaderboard.Board.Latest.{Laws}
use trade_bench.Leaderboard.Hub.{Hub, new_hub, is_in, take_one}
use trade_bench.Leaderboard.Hub as Hub
use trade_bench.Leaderboard.Hub.Broadcast.{same}
use trade_bench.Leaderboard.Hub.Safety.{Inv, reach-Inv}
use trade_bench.Leaderboard.Hub.Delivery.{broadcast_since, note_broadcast}
use trade_bench.Leaderboard.Feed.{
  Site, new_site, IsFree, on_fetched, on_send, on_message, on_greet, fetched, sent, broadcast,
  client, greet, Reach, start, next, hub_run,
}
use trade_bench.Leaderboard.Feed.Numbers.{Counts, Counts-append}
use trade_bench.Leaderboard.Feed.Shows.{show_all-append}
use trade_bench.Leaderboard.Feed.Registered.{
  registered-Step, note_free, pick, pick-left, Counts-pick,
}
use trade_bench.Leaderboard.Feed.Seen.{take-all, listed, Seen, Books, Seen-updates, Seen-same}

module _ (f : Float) (redis : Redis f.F) (parse : ParseFloat f.F) (key : String) where
  open redis use {S, zscore}

  module _ (laws : Laws f.F redis) (init : S) (s : Site f.F S) (since : ℕ → List ℕ)
      (books : Books f redis parse key init s since) where
    open books use {done, pending, total, from, counted, reached, held, seen}

    Books-fetched :
        (m : Fetched (ScoreUpdatedEvent f.F))
        → s.sending ≡ none
        → Books f redis parse key init (on_fetched f redis parse key s m) since
    unfolding on_fetched update_score
    Books-fetched fetch_error q = rw (append-nil s.updates) books
    Books-fetched bad_message q = rw (append-nil s.updates) books
    Books-fetched (event e) q =
        let entry : LeaderboardEntry f.F = record {
          rank = 0;
          contestant_id = e.contestant_id;
          score = e.score;
          p50_ms = e.p50_ms;
          p99_ms = e.p99_ms;
        } in
        let queued : done + length s.queue ≡ length s.updates =
          rw (append-nil s.queue) at (rw (q, listed) at total) in
        record {
          done = done;
          pending =
              Counts-append done (length s.updates) s.queue
                (rw (append-nil s.queue) at (rw (q, listed) at pending)) (sym queued);
          total = omega (
            arith,
            queued,
            length-append s.queue (length s.updates ∷ []),
            length-append s.updates (update entry ∷ []),
          );
          from = from;
          counted = counted;
          reached = reached;
          held = λ id.
              laws.scored s.store key e.contestant_id e.score _ e.p50_ms e.p99_ms id
              ∙ ap (λ v. if str_eq e.contestant_id id then some e.score else v) (held id)
              ∙ sym (show_all-append id (zscore init key id) s.updates (update entry ∷ []));
          seen = λ c b g.
              Seen-updates f redis parse key init s (update entry ∷ []) _ _ (from c) c b
                (seen c b g);
        }

    Books-sent :
        (n : ℕ)
        → s.sending ≡ some n
        → Books f redis parse key init (on_send f redis parse key s n) since
    unfolding on_send
    Books-sent n q = record {
      done = done;
      pending = rw (append-nil (s.queue ++ n ∷ [])) (rw (q, listed) at pending);
      total = rw (append-nil (s.queue ++ n ∷ [])) (rw (q, listed) at total);
      from = from;
      counted = counted;
      reached = reached;
      held = held;
      seen = λ c b g. Seen-same f redis parse key init s refl (λ r l. (r, l)) (seen c b g);
    }

    Books-broadcast :
        (n : ℕ) (rest order : List ℕ)
        → s.queue ≡ n ∷ rest
        → (visits : (c : ℕ) → is_in c order ≡ is_in c s.hub.clients) → (once : Hub.AreOnce order)
        → Inv s.hub
        → Books f redis parse key init
            (on_message f redis parse key s n rest order)
            (λ c. since c ++ n ∷ [])
    unfolding on_message
    Books-broadcast n rest order q visits once i =
        let counts : Counts done (n ∷ (rest ++ listed s.sending)) = rw q at pending in
        let sum : done + length (n ∷ (rest ++ listed s.sending)) ≡ length s.updates =
          rw q at total in
        record {
          done = suc done;
          pending = counts.1;
          total = omega (arith, sum);
          from = from;
          counted =
              λ c. Counts-append (from c) n (since c) (counted c) (counts.0 ∙ sym (reached c));
          reached = λ c. omega (arith, reached c, length-append (since c) (n ∷ []));
          held = held;
          seen = λ c b g.
              Seen-same f redis parse key init s refl
                (registered-Step c (Hub.broadcast s.hub n order visits once) i) (seen c b g);
        }

    Books-client :
        {h : Hub} (step : Hub.Step s.hub h)
        → IsFree s.greeted step
        → Inv s.hub
        → Books f redis parse key init (record s { hub = h }) (λ c. note_broadcast c step (since c))
    Books-client step free i =
        let anew = λ (c : ℕ). note_free s.greeted c step (since c) free in
        record {
          done = done;
          pending = pending;
          total = total;
          from = λ c. pick (anew c) (from c) done;
          counted = λ c. (Counts-pick (anew c) (from c) done (counted c) (reached c)).0;
          reached = λ c. (Counts-pick (anew c) (from c) done (counted c) (reached c)).1;
          held = held;
          seen = λ c b g.
              rw (pick-left c s.hub.registering (anew c) (from c) done (seen c b g).registered)
                (Seen-same f redis parse key init s refl (registered-Step c step i) (seen c b g));
        }

    Books-greet :
        (c : ℕ)
        → c < s.hub.next_client
        → is_in c s.hub.registering ≡ false
        → Books f redis parse key init (on_greet f redis parse key s c) since
    unfolding on_greet
    Books-greet c given there = record {
      done = done;
      pending = pending;
      total = total;
      from = from;
      counted = counted;
      reached = reached;
      held = held;
      seen = λ d b g. elim (Bool-cases (c == d)) [
        | inl e ↦
            let there' : is_in d s.hub.registering ≡ false = rw (same c d e) at there in
            let given' : d < s.hub.next_client = rw (same c d e) at given in
            let now : some s.store ≡ some b = rw e at g in
            subst (λ x. Seen f redis parse key init (on_greet f redis parse key s c) (from d) d x)
              (some-injective s.store b now)
              (record {
                count = length s.updates;
                after = omega (arith, reached d, total);
                within = omega arith;
                scores = λ id. rw (take-all s.updates) (held id);
                registered = there';
                given = given';
              })
        | inr e ↦ Seen-same f redis parse key init s refl (λ r l. (r, l)) (seen d b (rw e at g))
      ];
    }

  new-Books : (init : S) → Books f redis parse key init (new_site init) (λ c. [])
  unfolding new_site
  new-Books init = record {
    done = 0;
    pending = tt;
    total = refl;
    from = λ c. 0;
    counted = λ c. tt;
    reached = λ c. refl;
    held = λ id. refl;
    seen = λ c b g. absurd (cc);
  }

  pub reach-Books :
      Laws f.F redis
      → (init : S) {s : Site f.F S} (r : Reach f redis parse key init s)
      → Books f redis parse key init s (λ c. broadcast_since c (hub_run f redis parse key r))
  unfolding hub_run on_fetched on_send on_message on_greet new_site
  reach-Books laws init start = new-Books init
  reach-Books laws init (next r (fetched s m q)) =
      Books-fetched laws init s _ (reach-Books laws init r) m q
  reach-Books laws init (next r (sent s n q room)) =
      Books-sent laws init s _ (reach-Books laws init r) n q
  reach-Books laws init (next r (broadcast s n rest order q visits once)) =
      Books-broadcast laws init s _ (reach-Books laws init r) n rest order q visits once
        (reach-Inv (hub_run f redis parse key r))
  reach-Books laws init (next r (client s h step free)) =
      Books-client laws init s _ (reach-Books laws init r) step free
        (reach-Inv (hub_run f redis parse key r))
  reach-Books laws init (next r (greet s c given there q)) =
      Books-greet laws init s _ (reach-Books laws init r) c given there
