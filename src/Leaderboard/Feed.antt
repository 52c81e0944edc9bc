-- ===== src/Leaderboard/Feed.antt =====
-- apps/leaderboard as a whole, as a step relation: the consumer (internal/consumer/kafka.go) writes
-- each score to Redis and hands the update to the hub's channel, the hub's loop takes it from there,
-- and the handler of a connection (`wsHandler` in cmd/main.go) registers its client, reads a
-- snapshot and only then starts the goroutine that writes. A message of the hub is the number of
-- the update. An update came as JSON, so it encodes again. Writing to a connection is what its
-- client receives.
mod Numbers
mod Shows
mod Registered
mod Seen
mod Books
pub mod Agrees
mod Examples
use trade_bench.Common.{
  ℕ, ◌<◌, ◌≡◌, ◌≢◌, String, Bool, true, false, Option, none, some, List, [], ◌∷◌, ◌++◌,
  if◌then◌else◌, str_eq, ◌==◌, length, get_elem?,
}
use trade_bench.Common.Float.{Float}
use trade_bench.Scorer.Board.{ScoreUpdatedEvent, Fetched}
use trade_bench.Leaderboard.Board.{
  Redis, ParseFloat, LeaderboardEntry, Message, snapshot, update, consume, greeting,
}
use trade_bench.Leaderboard.Hub.{Hub, new_hub, is_in, AreOnce, on_broadcast}
use trade_bench.Leaderboard.Hub as Hub

pub record Site (F S : Type 0) : Type 0 where
  pub hub : Hub
  pub store : S
  -- The updates that the consumer has made, the first one first.
  pub updates : List (Message F)
  -- The update that the consumer waits to hand over, and those in the hub's `Broadcast` channel.
  pub sending : Option ℕ
  pub queue : List ℕ
  -- What Redis held when the handler of a client read the snapshot.
  pub greeted : ℕ → Option S

-- The buffer of `Broadcast` holds 256 messages.
abbrev pub broadcast_capacity : ℕ
broadcast_capacity = 256

unfoldable pub new_site : {F S : Type 0} → S → Site F S
unfolding new_hub
new_site store = record {
  hub = new_hub;
  store = store;
  updates = [];
  sending = none;
  queue = [];
  greeted = λ c. none;
}

-- The first score of a contestant in a list of entries.
abbrev pub score_in : {F : Type 0} → String → List (LeaderboardEntry F) → Option F
score_in id [] = none
score_in id (e ∷ es) = if str_eq e.contestant_id id then some e.score else score_in id es

-- The score that a client shows for a contestant after a message, when it showed `old` before.
abbrev pub show_message : {F : Type 0} → String → Option F → Message F → Option F
show_message id old (snapshot entries) = score_in id entries
show_message id old (update e) = if str_eq e.contestant_id id then some e.score else old

abbrev pub show_all : {F : Type 0} → String → Option F → List (Message F) → Option F
show_all id old [] = old
show_all id old (m ∷ ms) = show_all id (show_message id old m) ms

abbrev cons_some : {A : Type 0} → Option A → List A → List A
cons_some none xs = xs
cons_some (some x) xs = x ∷ xs

-- The updates of some numbers.
abbrev pub numbered : {A : Type 0} → List A → List ℕ → List A
numbered updates [] = []
numbered updates (n ∷ ns) = cons_some (get_elem? updates n) (numbered updates ns)

-- The number of the update that is now to be handed over, if there is one.
abbrev handed : {A : Type 0} → ℕ → List A → Option ℕ → Option ℕ
handed n [] sending = sending
handed n (m ∷ ms) sending = some n

-- The steps of the clients that wait for nothing else: the writer starts after the snapshot, and
-- the loop's own broadcasts come from the queue.
abbrev pub IsFree : {S : Type 0} {h k : Hub} → (ℕ → Option S) → Hub.Step h k → Type 0
IsFree greeted (Hub.connect h) = Unit
IsFree greeted (Hub.register h c w) = Unit
IsFree greeted (Hub.leave h c b) = Unit
IsFree greeted (Hub.unregister h c w) = Unit
IsFree greeted (Hub.broadcast h m order visits once) = ⊥
IsFree greeted (Hub.receive h c) = greeted c ≢ none

module _ (f : Float) (redis : Redis f.F) (parse : ParseFloat f.F) (key : String) where
  open redis use {S}

  -- One round of the consumer up to its last call.
  unfoldable pub on_fetched : Site f.F S → Fetched (ScoreUpdatedEvent f.F) → Site f.F S
  unfolding consume
  on_fetched s m =
      let round = consume f redis s.store key m in
      record s {
        store = round.0;
        updates = s.updates ++ round.1;
        sending = handed (length s.updates) round.1 s.sending;
      }

  -- `h.Broadcast <- data`.
  unfoldable pub on_send : Site f.F S → ℕ → Site f.F S
  on_send s n = record s { sending = none; queue = s.queue ++ n ∷ [] }

  -- `message := <-h.Broadcast` and its case.
  unfoldable pub on_message : Site f.F S → ℕ → List ℕ → List ℕ → Site f.F S
  on_message s n rest order = record s { hub = on_broadcast n order s.hub; queue = rest }

  -- The handler of a client reads the snapshot.
  unfoldable pub on_greet : Site f.F S → ℕ → Site f.F S
  on_greet s c = record s { greeted = λ d. if c == d then some s.store else s.greeted d }

  pub data Step : Site f.F S → Site f.F S → Type 0 where
    fetched :
        (s : Site f.F S) (m : Fetched (ScoreUpdatedEvent f.F))
        → s.sending ≡ none
        → Step s (on_fetched s m)
    sent :
        (s : Site f.F S) (n : ℕ)
        → s.sending ≡ some n
        → length s.queue < broadcast_capacity
        → Step s (on_send s n)
    broadcast :
        (s : Site f.F S) (n : ℕ) (rest order : List ℕ)
        → s.queue ≡ n ∷ rest
        → ((c : ℕ) → is_in c order ≡ is_in c s.hub.clients)
        → AreOnce order
        → Step s (on_message s n rest order)
    client :
        (s : Site f.F S) (h : Hub) (step : Hub.Step s.hub h)
        → IsFree s.greeted step
        → Step s (record s { hub = h })
    -- After `h.Register <- client`, once.
    greet :
        (s : Site f.F S) (c : ℕ)
        → c < s.hub.next_client
        → is_in c s.hub.registering ≡ false
        → s.greeted c ≡ none
        → Step s (on_greet s c)

  pub data Reach (init : S) : Site f.F S → Type 0 where
    start : Reach init (new_site init)
    next : {s t : Site f.F S} → Reach init s → Step s t → Reach init t

  -- What the hub has done.
  unfoldable pub hub_run : {init : S} {s : Site f.F S} → Reach init s → Hub.Reach s.hub
  unfolding on_fetched on_send on_message on_greet new_site
  hub_run start = Hub.start
  hub_run (next r (fetched s m q)) = hub_run r
  hub_run (next r (sent s n q room)) = hub_run r
  hub_run (next r (broadcast s n rest order q visits once)) =
      Hub.next (hub_run r) (Hub.broadcast s.hub n order visits once)
  hub_run (next r (client s h step free)) = Hub.next (hub_run r) step
  hub_run (next r (greet s c given there q)) = hub_run r

  -- What a client that has received the snapshot of `seen` and these updates shows of a contestant.
  unfoldable pub shown : Site f.F S → S → List ℕ → String → Option f.F
  shown s seen got id = show_all id none (greeting f redis parse seen key ++ numbered s.updates got)
