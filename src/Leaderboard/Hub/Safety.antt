-- ===== src/Leaderboard/Hub/Safety.antt =====
-- The hub neither closes a client's channel twice nor sends on a closed one.
use mathlib.Core.Bool.{false≢true}
use trade_bench.Common.{
  ap, ℕ, suc, ◌≡◌, refl, ◌∙◌, sym, ◌≤◌, inl, inr, true, false, List, [], ◌∷◌, if◌then◌else◌, ◌==◌,
  arith, Bool-cases,
}
use trade_bench.Leaderboard.Hub.Broadcast.{Same, same, update-closed, on_broadcast-Same}
use trade_bench.Leaderboard.Hub.{
  Hub, new_hub, is_in, without, take_one, on_register, on_unregister, on_receive, Step, connect,
  register, leave, unregister, broadcast, receive, Reach, start, next,
}

-- A client that waits to register or is registered has an open channel; it is never both, waits
-- once, and its number has been given out.
pub record Inv (h : Hub) : Type 0 where
  pub calm : h.panicked ≡ false
  pub clients_open : (c : ℕ) → is_in c h.clients ≡ true → (h.channels c).is_closed ≡ false
  pub waiting_open : (c : ℕ) → is_in c h.registering ≡ true → (h.channels c).is_closed ≡ false
  pub waiting_apart : (c : ℕ) → is_in c h.registering ≡ true → is_in c h.clients ≡ false
  pub waiting_once : (c : ℕ) → is_in c (take_one c h.registering) ≡ false
  pub fresh_open : (c : ℕ) → h.next_client ≤ c → (h.channels c).is_closed ≡ false
  pub fresh_clients : (c : ℕ) → h.next_client ≤ c → is_in c h.clients ≡ false
  pub fresh_waiting : (c : ℕ) → h.next_client ≤ c → is_in c h.registering ≡ false

pub is_in-take_one : (c d : ℕ) (xs : List ℕ) → is_in c (take_one d xs) ≡ true → is_in c xs ≡ true
is_in-take_one c d [] h = h
is_in-take_one c d (x ∷ xs) h = ground (arith, is_in-take_one c d xs)

take_one-twice :
    (c d : ℕ) (xs : List ℕ)
    → is_in c (take_one c (take_one d xs)) ≡ true
    → is_in c (take_one c xs) ≡ true
take_one-twice c d [] h = h
take_one-twice c d (x ∷ xs) h =
    ground (arith, take_one-twice c d xs, is_in-take_one c c xs, is_in-take_one c d xs)

pub is_in-without :
    (c d : ℕ) (xs : List ℕ) → is_in c (without d xs) ≡ (if c == d then false else is_in c xs)
is_in-without c d [] = ground arith
is_in-without c d (x ∷ xs) = ground (arith, is_in-without c d xs)

Inv-Same : {h k : Hub} → Same h k → Inv h → Inv k
Inv-Same {h} {k} s i = record {
  calm = s.panicked ∙ i.calm;
  clients_open = λ c q. s.closed c ∙ i.clients_open c (ground (arith, s.clients));
  waiting_open = λ c q. s.closed c ∙ i.waiting_open c (ground (arith, s.registering));
  waiting_apart =
      λ c q. ap (is_in c) s.clients ∙ i.waiting_apart c (sym (ap (is_in c) s.registering) ∙ q);
  waiting_once = λ c. ap (λ xs. is_in c (take_one c xs)) s.registering ∙ i.waiting_once c;
  fresh_open = λ c q. s.closed c ∙ i.fresh_open c (ground (arith, s.next_client));
  fresh_clients = λ c q. ap (is_in c) s.clients ∙ i.fresh_clients c (ground (arith, s.next_client));
  fresh_waiting =
      λ c q. ap (is_in c) s.registering ∙ i.fresh_waiting c (ground (arith, s.next_client));
}

new_hub-Inv : Inv new_hub
unfolding new_hub
new_hub-Inv = record {
  calm = refl;
  clients_open = λ c q. refl;
  waiting_open = λ c q. refl;
  waiting_apart = λ c q. refl;
  waiting_once = λ c. refl;
  fresh_open = λ c q. refl;
  fresh_clients = λ c q. refl;
  fresh_waiting = λ c q. refl;
}

Inv-connect :
    (h : Hub)
    → Inv h
    → Inv
        (record h { registering = h.next_client ∷ h.registering; next_client = suc h.next_client })
Inv-connect h i = record {
  calm = i.calm;
  clients_open = i.clients_open;
  waiting_open = λ c q. elim (Bool-cases (h.next_client == c)) [
    | inl e ↦ i.fresh_open c (ground arith)
    | inr e ↦ i.waiting_open c (ground arith)
  ];
  waiting_apart = λ c q. elim (Bool-cases (h.next_client == c)) [
    | inl e ↦ i.fresh_clients c (ground arith)
    | inr e ↦ i.waiting_apart c (ground arith)
  ];
  waiting_once = λ c. elim (Bool-cases (h.next_client == c)) [
    | inl e ↦ rw e (i.fresh_waiting c (ground arith))
    | inr e ↦ rw e (rw e (i.waiting_once c))
  ];
  fresh_open = λ c q. i.fresh_open c (omega arith);
  fresh_clients = λ c q. i.fresh_clients c (omega arith);
  fresh_waiting = λ c q. ground (arith, i.fresh_waiting c);
}

Inv-register : (h : Hub) (c : ℕ) → is_in c h.registering ≡ true → Inv h → Inv (on_register h c)
unfolding on_register
Inv-register h c w i =
    rw (i.waiting_apart c w, on_register)
      (record {
        calm = i.calm;
        clients_open = λ d q. elim (Bool-cases (c == d)) [
          | inl e ↦ ground (arith, i.waiting_open c w)
          | inr e ↦ i.clients_open d (ground arith)
        ];
        waiting_open = λ d q. i.waiting_open d (is_in-take_one d c h.registering q);
        waiting_apart = λ d q. elim (Bool-cases (c == d)) [
          | inl e ↦ absurd (
              false≢true (
                sym (i.waiting_once d)
                ∙ sym (ap (λ x. is_in d (take_one x h.registering)) (same c d e))
                ∙ q))
          | inr e ↦ rw e (i.waiting_apart d (is_in-take_one d c h.registering q))
        ];
        waiting_once = λ d. ground (arith, take_one-twice d c h.registering, i.waiting_once d);
        fresh_open = i.fresh_open;
        fresh_clients = λ d q. elim (Bool-cases (c == d)) [
          | inl e ↦ absurd (
              false≢true (
                sym (i.fresh_waiting d q) ∙ sym (ap (λ x. is_in x h.registering) (same c d e)) ∙ w))
          | inr e ↦ rw e (i.fresh_clients d q)
        ];
        fresh_waiting =
            λ d q. ground (arith, i.fresh_waiting d q, is_in-take_one d c h.registering);
      })

Inv-unregister : (h : Hub) (c : ℕ) → Inv h → Inv (on_unregister h c)
unfolding on_unregister
Inv-unregister h c i = elim (Bool-cases (is_in c h.clients)) [
  | inr n ↦ rw n (
      Inv-Same
        (record {
          clients = refl;
          registering = refl;
          next_client = refl;
          panicked = refl;
          closed = λ d. refl;
        })
        i)
  | inl n ↦ rw n (record {
    calm = ground (arith, i.calm, i.clients_open c n);
    clients_open = λ d q. elim (Bool-cases (c == d)) [
      | inl e ↦ absurd (ground (arith, is_in-without d c h.clients))
      | inr e ↦ rw e (i.clients_open d (ground (arith, is_in-without d c h.clients)))
    ];
    waiting_open = λ d q. elim (Bool-cases (c == d)) [
      | inl e ↦ absurd (
          false≢true
            (sym (i.waiting_apart d q) ∙ sym (ap (λ x. is_in x h.clients) (same c d e)) ∙ n))
      | inr e ↦ rw e (i.waiting_open d q)
    ];
    waiting_apart = λ d q. ground (arith, is_in-without d c h.clients, i.waiting_apart d q);
    waiting_once = i.waiting_once;
    fresh_open = λ d q. elim (Bool-cases (c == d)) [
      | inl e ↦ absurd (
          false≢true
            (sym (i.fresh_clients d q) ∙ sym (ap (λ x. is_in x h.clients) (same c d e)) ∙ n))
      | inr e ↦ rw e (i.fresh_open d q)
    ];
    fresh_clients = λ d q. ground (arith, is_in-without d c h.clients, i.fresh_clients d q);
    fresh_waiting = i.fresh_waiting;
  })
]

Inv-Step : {h k : Hub} → Step h k → Inv h → Inv k
unfolding on_receive
Inv-Step (connect h) i = Inv-connect h i
Inv-Step (register h c w) i = Inv-register h c w i
Inv-Step (leave h c b) i =
    Inv-Same
      (record {
        clients = refl;
        registering = refl;
        next_client = refl;
        panicked = refl;
        closed = λ d. refl;
      })
      i
Inv-Step (unregister h c w) i = Inv-unregister h c i
Inv-Step (broadcast h m order visits once) i =
    Inv-Same (on_broadcast-Same m order h (λ c q. i.clients_open c (sym (visits c) ∙ q))) i
Inv-Step (receive h c) i =
    Inv-Same
      (record {
        clients = refl;
        registering = refl;
        next_client = refl;
        panicked = refl;
        closed = λ d. update-closed h.channels c d _ refl;
      })
      i

pub reach-Inv : {h : Hub} → Reach h → Inv h
reach-Inv start = new_hub-Inv
reach-Inv (next r s) = Inv-Step s (reach-Inv r)

-- Under every interleaving of connections, departures, broadcasts in any order of the map, slow
-- clients dropped any number of times and reads, the loop never closes a channel twice, never
-- sends on a closed one, and every registered client has an open channel.
pub hub_never_panics :
    (h : Hub)
    → Reach h
    → (h.panicked ≡ false) × ((c : ℕ) → is_in c h.clients ≡ true → (h.channels c).is_closed ≡ false)
hub_never_panics h r = ((reach-Inv r).calm, (reach-Inv r).clients_open)
