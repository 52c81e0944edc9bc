-- ===== src/Leaderboard/Feed/Examples.antt =====
-- A client connects, reads that "a" has 5, and is then told of a run with 90.
use mathlib.Core.Path.{subst}
use mathlib.Core.Option.{some-injective}
use trade_bench.Common.{
  ℕ, suc, ◌≡◌, ◌≢◌, refl, ◌⊎◌, String, true, false, Option, none, some, List, [], ◌∷◌, ◌++◌,
  if◌then◌else◌, str_eq, str_refl, All, arith,
}
use trade_bench.Common.Int.{pos}
use trade_bench.Common.Whole.{whole}
use trade_bench.Scorer.Board.{ScoreUpdatedEvent, event}
use trade_bench.Leaderboard.Board.{Redis, ParseFloat, LeaderboardEntry, top_50, top_entries}
use trade_bench.Leaderboard.Board.Latest.{Laws}
use trade_bench.Leaderboard.Hub.{Hub, new_hub}
use trade_bench.Leaderboard.Hub as Hub
use trade_bench.Leaderboard.Hub.Delivery.{received}
use trade_bench.Leaderboard.Feed.{
  Site, new_site, score_in, on_fetched, on_send, on_message, on_greet, Reach, start, next, fetched,
  sent, broadcast, client, greet, hub_run, shown,
}
use trade_bench.Leaderboard.Feed.Agrees.{ListLaws, IsDrained, feed_agrees}

abbrev key : String
key = "leaderboard"

abbrev parse : ParseFloat ℕ
parse text = (0, false)

abbrev Scores : Type 0
Scores = String → String → Option ℕ

abbrev pair_of : String → Option ℕ → List (String × ℕ)
pair_of id none = []
pair_of id (some v) = (id, v) ∷ []

-- The data are the scores; of the members only two are ever listed.
abbrev board : Redis ℕ
board = record {
  S = Scores;
  update = λ s k m v h a b.
      (true, λ k' j. if str_eq k k' then (if str_eq m j then some v else s k j) else s k' j);
  zadd = λ s k ms. s;
  zcard = λ s k. some (pos 0);
  zrevrange = λ s k a b. some (pair_of "b" (s k "b") ++ pair_of "a" (s k "a"));
  field = λ s k h. "";
  zscore = λ s k m. s k m;
}

board-Laws : Laws ℕ board
board-Laws = record { scored = λ s k m v h a b j. rw (str_refl k) refl }

All-pairs :
    (s : Scores) (k : String) (x y : Option ℕ)
    → s k "b" ≡ x
    → s k "a" ≡ y
    → All (λ (r : String × ℕ). s k r.0 ≡ some r.1) (pair_of "b" x ++ pair_of "a" y)
All-pairs s k none none p q = tt
All-pairs s k none (some y) p q = (q, tt)
All-pairs s k (some x) none p q = (p, tt)
All-pairs s k (some x) (some y) p q = (p, (q, tt))

board-ListLaws : ListLaws ℕ board
board-ListLaws = record {
  ranged = λ s k a b results e.
      subst (All (λ (r : String × ℕ). s k r.0 ≡ some r.1)) (some-injective _ results e)
        (All-pairs s k (s k "b") (s k "a") refl refl);
}

abbrev five : Scores
five k m = if str_eq m "a" then some 5 else none

abbrev run : ScoreUpdatedEvent ℕ
run = record { contestant_id = "a"; run_id = "r"; score = 90; p50_ms = 1; p99_ms = 2 }

abbrev connected : Hub
connected = record new_hub {
  registering = new_hub.next_client ∷ new_hub.registering;
  next_client = suc new_hub.next_client;
}

abbrev joined : Hub
joined = Hub.on_register connected 0

abbrev site_joined : Site ℕ Scores
site_joined = record (new_site five) { hub = joined }

abbrev site_greeted : Site ℕ Scores
site_greeted = on_greet whole board parse key site_joined 0

abbrev site_fetched : Site ℕ Scores
site_fetched = on_fetched whole board parse key site_greeted (event run)

abbrev site_sent : Site ℕ Scores
site_sent = on_send whole board parse key site_fetched 0

abbrev site_told : Site ℕ Scores
site_told = on_message whole board parse key site_sent 0 [] (0 ∷ [])

abbrev site_taken : Site ℕ Scores
site_taken = record site_told { hub = Hub.on_receive site_told.hub 0 }

run_to : Reach whole board parse key five site_taken
unfolding new_site new_hub Hub.on_register Hub.on_receive Hub.on_broadcast on_greet on_fetched
    on_send on_message
run_to =
    next
      (next
        (next
          (next
            (next
              (next (next start (client (new_site five) connected (Hub.connect new_hub) tt)) (
                client (record (new_site five) { hub = connected }) joined
                  (Hub.register connected 0 refl) tt))
              (greet site_joined 0 (omega arith) refl refl))
            (fetched site_greeted (event run) refl))
          (sent site_fetched 0 refl (omega arith)))
        (broadcast site_sent 0 [] (0 ∷ []) refl (λ c. refl) (refl, tt)))
      (client site_told (Hub.on_receive site_told.hub 0) (Hub.receive site_told.hub 0) (λ q. cc q))

taken-IsDrained : IsDrained site_taken 0
unfolding new_site new_hub Hub.on_register Hub.on_receive Hub.on_broadcast on_greet on_fetched
    on_send on_message
taken-IsDrained = record { handed = refl; empty = refl; joined = refl; stays = refl; taken = refl }

abbrev entries : List (LeaderboardEntry ℕ)
entries = top_entries whole board parse five key 0 (("a", 5) ∷ [])

five_top : top_50 whole board parse five key ≡ some entries
unfolding top_50
five_top = refl

greeted_five : site_taken.greeted 0 ≡ some five
unfolding new_site on_greet on_fetched on_send on_message
greeted_five = refl

feed_agrees_example :
    (shown whole board parse key site_taken five
        (received 0 (hub_run whole board parse key run_to))
        "a"
      ≡ site_taken.store key "a")
    ⊎ ((shown whole board parse key site_taken five
            (received 0 (hub_run whole board parse key run_to))
            "a"
          ≡ none)
        × (score_in "a" entries ≡ none)
        × (five key "a" ≢ none))
feed_agrees_example =
    feed_agrees whole board parse key board-Laws board-ListLaws five run_to 0 five greeted_five
      entries five_top taken-IsDrained "a"
