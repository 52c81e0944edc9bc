-- ===== src/Leaderboard/Hub/Delivery.antt =====
-- Which messages a client of the hub gets.
use mathlib.Core.Bool.{false≢true}
use mathlib.Core.List.{append_assoc, append-nil}
use trade_bench.Common.{
  ap, ℕ, suc, ◌≡◌, refl, ◌∙◌, sym, ◌≤◌, inl, inr, true, false, List, [], ◌∷◌, ◌++◌, if◌then◌else◌,
  ◌==◌, arith, Bool-cases,
}
use trade_bench.Leaderboard.Hub.Broadcast.{same, on_broadcast-Same}
use trade_bench.Leaderboard.Hub.Offers.{on_broadcast-kept, on_broadcast-other, on_broadcast_self}
use trade_bench.Leaderboard.Hub.Safety.{Inv, reach-Inv, is_in-take_one, is_in-without}
use trade_bench.Leaderboard.Hub.{
  Hub, new_hub, is_in, take_one, drop_first, on_broadcast, AreOnce, on_register, on_unregister,
  on_receive, Step, connect, register, leave, unregister, broadcast, receive, Reach, start, next,
}

abbrev pub first_of : List ℕ → List ℕ
first_of [] = []
first_of (x ∷ xs) = x ∷ []

-- What a step adds to the messages broadcast since the client was registered.
abbrev pub note_broadcast : {h k : Hub} → ℕ → Step h k → List ℕ → List ℕ
note_broadcast c (connect h) ms = ms
note_broadcast c (register h d w) ms = if d == c then [] else ms
note_broadcast c (leave h d b) ms = ms
note_broadcast c (unregister h d w) ms = ms
note_broadcast c (broadcast h m order visits once) ms = ms ++ m ∷ []
note_broadcast c (receive h d) ms = ms

-- What a step adds to the messages that the client's writer has taken.
abbrev pub note_received : {h k : Hub} → ℕ → Step h k → List ℕ → List ℕ
note_received c (connect h) ms = ms
note_received c (register h d w) ms = ms
note_received c (leave h d b) ms = ms
note_received c (unregister h d w) ms = ms
note_received c (broadcast h m order visits once) ms = ms
note_received c (receive h d) ms = if d == c then ms ++ first_of (h.channels d).buffer else ms

abbrev pub broadcast_since : {h : Hub} → ℕ → Reach h → List ℕ
broadcast_since c start = []
broadcast_since c (next r s) = note_broadcast c s (broadcast_since c r)

abbrev pub received : {h : Hub} → ℕ → Reach h → List ℕ
received c start = []
received c (next r s) = note_received c s (received c r)

-- A registered client that does not wait to be dropped has taken, or has in its buffer, what was
-- broadcast since it was registered; one that is not registered yet has nothing.
record Kept (h : Hub) (got since : ℕ → List ℕ) : Type 0 where
  pub delivered :
      (c : ℕ)
      → is_in c h.clients ≡ true
      → is_in c h.unregistering ≡ false
      → got c ++ (h.channels c).buffer ≡ since c
  pub waiting : (c : ℕ) → is_in c h.registering ≡ true → got c ++ (h.channels c).buffer ≡ []
  pub fresh : (c : ℕ) → h.next_client ≤ c → got c ++ (h.channels c).buffer ≡ []

is_in-take_other : (c d : ℕ) (xs : List ℕ) → d == c ≡ false → is_in c (take_one d xs) ≡ is_in c xs
is_in-take_other c d [] n = refl
is_in-take_other c d (x ∷ xs) n = ground (arith, is_in-take_other c d xs)

module _ (h : Hub) (got since : ℕ → List ℕ) (i : Inv h) (k : Kept h got since) where
  Kept-connect :
      Kept
        (record h { registering = h.next_client ∷ h.registering; next_client = suc h.next_client })
        got
        since
  Kept-connect = record {
    delivered = k.delivered;
    waiting = λ c q. elim (Bool-cases (h.next_client == c)) [
      | inl e ↦ k.fresh c (ground arith)
      | inr e ↦ k.waiting c (ground arith)
    ];
    fresh = λ c q. k.fresh c (omega (arith, q));
  }

  Kept-register :
      (d : ℕ)
      → is_in d h.registering ≡ true
      → Kept (on_register h d) got (λ c. if d == c then [] else since c)
  unfolding on_register
  Kept-register d w =
      rw (i.waiting_apart d w, on_register)
        (record {
          delivered = λ c q u. elim (Bool-cases (d == c)) [
            | inl e ↦ rw e (k.waiting c (rw (same d c e) at w))
            | inr e ↦ rw e (k.delivered c (ground arith) u)
          ];
          waiting = λ c q. k.waiting c (is_in-take_one c d h.registering q);
          fresh = k.fresh;
        })

  Kept-unregister : (d : ℕ) → Kept (on_unregister h d) got since
  unfolding on_unregister
  Kept-unregister d = elim (Bool-cases (is_in d h.clients)) [
    | inl n ↦ rw n (record {
      delivered = λ c q u. elim (Bool-cases (d == c)) [
        | inl e ↦ absurd (ground (arith, is_in-without c d h.clients))
        | inr e ↦ rw e (
            k.delivered c (ground (arith, is_in-without c d h.clients))
              (sym (is_in-take_other c d h.unregistering e) ∙ u))
      ];
      waiting = λ c q. elim (Bool-cases (d == c)) [
        | inl e ↦ rw e (rw (same d c e) (k.waiting c q))
        | inr e ↦ rw e (k.waiting c q)
      ];
      fresh = λ c q. elim (Bool-cases (d == c)) [
        | inl e ↦ rw e (rw (same d c e) (k.fresh c q))
        | inr e ↦ rw e (k.fresh c q)
      ];
    })
    | inr n ↦ rw n (record {
      delivered = λ c q u. elim (Bool-cases (d == c)) [
        | inl e ↦ absurd (ground (arith, ap (λ x. is_in x h.clients) (same d c e)))
        | inr e ↦ k.delivered c q (sym (is_in-take_other c d h.unregistering e) ∙ u)
      ];
      waiting = k.waiting;
      fresh = k.fresh;
    })
  ]

  Kept-broadcast :
      (m : ℕ) (order : List ℕ)
      → ((c : ℕ) → is_in c order ≡ is_in c h.clients)
      → AreOnce order
      → Kept (on_broadcast m order h) got (λ c. since c ++ m ∷ [])
  Kept-broadcast m order visits once =
      let s = on_broadcast-Same m order h (λ c q. i.clients_open c (sym (visits c) ∙ q)) in
      record {
        delivered = λ c q u.
            let there = sym (ap (is_in c) s.clients) ∙ q in
            ap (λ b. got c ++ b)
              (on_broadcast_self m order h c once (visits c ∙ there) (i.clients_open c there) u)
            ∙ sym (append_assoc (got c) (h.channels c).buffer (m ∷ []))
            ∙ ap (λ ms. ms ++ m ∷ []) (k.delivered c there (on_broadcast-kept m order h c u));
        waiting = λ c q.
            let there = sym (ap (is_in c) s.registering) ∙ q in
            unvisited m order visits c (i.waiting_apart c there) ∙ k.waiting c there;
        fresh = λ c q.
            let there : h.next_client ≤ c = ground (arith, s.next_client) in
            unvisited m order visits c (i.fresh_clients c there) ∙ k.fresh c there;
      }
    where
      unvisited :
          (m : ℕ) (order : List ℕ)
          → ((c : ℕ) → is_in c order ≡ is_in c h.clients)
          → (c : ℕ) → is_in c h.clients ≡ false
          → got c ++ ((on_broadcast m order h).channels c).buffer ≡ got c ++ (h.channels c).buffer
      unvisited m order visits c n =
          ap (λ ch. got c ++ ch.buffer) (on_broadcast-other m order h c (visits c ∙ n)).0

  taken : (b : List ℕ) (ms : List ℕ) → (ms ++ first_of b) ++ drop_first b ≡ ms ++ b
  taken [] ms = append-nil (ms ++ [])
  taken (x ∷ b) ms = append_assoc ms (x ∷ []) b

  receive-total :
      (d c : ℕ)
      → (if d == c then got c ++ first_of (h.channels d).buffer else got c)
          ++ ((on_receive h d).channels c).buffer
        ≡ got c ++ (h.channels c).buffer
  unfolding on_receive
  receive-total d c = elim (Bool-cases (d == c)) [
    | inl e ↦ rw e (rw (same d c e) (taken (h.channels c).buffer (got c)))
    | inr e ↦ rw e refl
  ]

  Kept-receive :
      (d : ℕ)
      → Kept
          (on_receive h d)
          (λ c. if d == c then got c ++ first_of (h.channels d).buffer else got c)
          since
  unfolding on_receive
  Kept-receive d = record {
    delivered = λ c q u. receive-total d c ∙ k.delivered c q u;
    waiting = λ c q. receive-total d c ∙ k.waiting c q;
    fresh = λ c q. receive-total d c ∙ k.fresh c q;
  }

Kept-Step :
    {h k : Hub} (got since : ℕ → List ℕ) (s : Step h k)
    → Inv h
    → Kept h got since
    → Kept k (λ c. note_received c s (got c)) (λ c. note_broadcast c s (since c))
Kept-Step got since (connect h) i p = Kept-connect h got since i p
Kept-Step got since (register h d w) i p = Kept-register h got since i p d w
Kept-Step got since (leave h d b) i p = record {
  delivered = λ c q u. p.delivered c q (ground arith);
  waiting = p.waiting;
  fresh = p.fresh;
}
Kept-Step got since (unregister h d w) i p = Kept-unregister h got since i p d
Kept-Step got since (broadcast h m order visits once) i p =
    Kept-broadcast h got since i p m order visits once
Kept-Step got since (receive h d) i p = Kept-receive h got since i p d

reach-Kept : {h : Hub} (r : Reach h) → Kept h (λ c. received c r) (λ c. broadcast_since c r)
unfolding new_hub
reach-Kept start = record {
  delivered = λ c q u. absurd (false≢true q);
  waiting = λ c q. refl;
  fresh = λ c q. refl;
}
reach-Kept (next r s) =
    Kept-Step (λ c. received c r) (λ c. broadcast_since c r) s (reach-Inv r) (reach-Kept r)

-- Under every interleaving, a registered client that does not wait to be dropped has got every
-- message that was broadcast since it was registered, in order, once each and without a gap: those
-- that its writer has taken, followed by those in its buffer.
pub hub_delivers :
    (h : Hub) (r : Reach h) (c : ℕ)
    → is_in c h.clients ≡ true
    → is_in c h.unregistering ≡ false
    → received c r ++ (h.channels c).buffer ≡ broadcast_since c r
hub_delivers h r = (reach-Kept r).delivered
