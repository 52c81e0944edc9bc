-- ===== src/Leaderboard/Hub.antt =====
-- apps/leaderboard/internal/hub/hub.go as a step relation: the event loop of `Run`, and the
-- goroutines around it, the two of each client in apps/leaderboard/cmd/main.go among them. A client
-- is a number, new for each connection. A step of the loop is atomic: the loop is the only
-- goroutine that touches the map, the channels' closing and the sends to clients.
pub mod Broadcast
pub mod Safety
pub mod Offers
pub mod Delivery
mod Examples
use trade_bench.Common.{
  ℕ, suc, ◌<◌, ◌≡◌, Bool, true, false, ◌||◌, List, [], ◌∷◌, ◌++◌, if◌then◌else◌, ◌==◌, ltb, length,
}

-- A client's `Send` channel: the messages in its buffer, and whether it is closed.
pub record Channel : Type 0 where
  pub buffer : List ℕ
  pub is_closed : Bool

-- The buffer of `Send` holds 256 messages.
abbrev pub send_capacity : ℕ
send_capacity = 256

-- `panicked`: the loop has closed a closed channel or sent on one, which ends a Go program.
pub record Hub : Type 0 where
  pub clients : List ℕ
  pub channels : ℕ → Channel
  pub registering : List ℕ
  pub unregistering : List ℕ
  pub next_client : ℕ
  pub panicked : Bool

abbrev pub new_channel : Channel
new_channel = record { buffer = []; is_closed = false }

unfoldable pub new_hub : Hub
new_hub = record {
  clients = [];
  channels = λ c. new_channel;
  registering = [];
  unregistering = [];
  next_client = 0;
  panicked = false;
}

abbrev pub is_in : ℕ → List ℕ → Bool
is_in c [] = false
is_in c (x ∷ xs) = x == c || is_in c xs

-- Without one client, wherever it stands.
abbrev pub without : ℕ → List ℕ → List ℕ
without c [] = []
without c (x ∷ xs) = if x == c then without c xs else x ∷ without c xs

-- The queue of a channel without the first waiting sender of that client.
abbrev pub take_one : ℕ → List ℕ → List ℕ
take_one c [] = []
take_one c (x ∷ xs) = if x == c then xs else x ∷ take_one c xs

abbrev pub update : (ℕ → Channel) → ℕ → Channel → ℕ → Channel
update f c v d = if c == d then v else f d

-- `case client := <-h.Register`.
unfoldable pub on_register : Hub → ℕ → Hub
on_register h c = record h {
  registering = take_one c h.registering;
  clients = if is_in c h.clients then h.clients else c ∷ h.clients;
}

-- `case client := <-h.Unregister`.
unfoldable pub on_unregister : Hub → ℕ → Hub
on_unregister h c =
    let h' = record h { unregistering = take_one c h.unregistering } in
    if is_in c h.clients
    then record h' {
      clients = without c h.clients;
      channels = update h.channels c (record { buffer = (h.channels c).buffer; is_closed = true });
      panicked = h.panicked || (h.channels c).is_closed;
    }
    else h'

-- One round of the loop of `case message := <-h.Broadcast`: send, or where the buffer is full start
-- a goroutine that unregisters the client. Sending on a closed channel panics.
unfoldable pub offer : ℕ → Hub → ℕ → Hub
offer message h c =
    let ch = h.channels c in
    if ch.is_closed
    then record h { panicked = true }
    else if ltb (length ch.buffer) send_capacity
    then record h {
      channels = update h.channels c (record ch { buffer = ch.buffer ++ message ∷ [] });
    }
    else record h { unregistering = c ∷ h.unregistering }

-- The whole case, for the order in which the range visits the clients.
unfoldable pub on_broadcast : ℕ → List ℕ → Hub → Hub
unfolding offer
on_broadcast message [] h = h
on_broadcast message (c ∷ cs) h = on_broadcast message cs (offer message h c)

-- The writer goroutine of a client takes the next message from its channel.
abbrev pub drop_first : List ℕ → List ℕ
drop_first [] = []
drop_first (x ∷ xs) = xs

unfoldable pub on_receive : Hub → ℕ → Hub
on_receive h c = record h {
  channels =
      update h.channels c (record (h.channels c) { buffer = drop_first (h.channels c).buffer });
}

abbrev pub AreOnce : List ℕ → Type 0
AreOnce [] = Unit
AreOnce (x ∷ xs) = (is_in x xs ≡ false) × AreOnce xs

pub data Step : Hub → Hub → Type 0 where
  -- A connection makes a new client, whose handler then waits to register it.
  connect :
      (h : Hub)
      → Step h (record h {
        registering = h.next_client ∷ h.registering;
        next_client = suc h.next_client;
      })
  register : (h : Hub) (c : ℕ) → is_in c h.registering ≡ true → Step h (on_register h c)
  -- The reader goroutine of a client that exists has ended: it waits to unregister.
  leave :
      (h : Hub) (c : ℕ)
      → c < h.next_client
      → Step h (record h { unregistering = c ∷ h.unregistering })
  unregister : (h : Hub) (c : ℕ) → is_in c h.unregistering ≡ true → Step h (on_unregister h c)
  -- The order visits each client once.
  broadcast :
      (h : Hub) (message : ℕ) (order : List ℕ)
      → ((c : ℕ) → is_in c order ≡ is_in c h.clients)
      → AreOnce order
      → Step h (on_broadcast message order h)
  receive : (h : Hub) (c : ℕ) → Step h (on_receive h c)

pub data Reach : Hub → Type 0 where
  start : Reach new_hub
  next : {h k : Hub} → Reach h → Step h k → Reach k
