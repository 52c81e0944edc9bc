-- ===== src/Leaderboard/Hub/Broadcast.antt =====
-- What a broadcast leaves as it was.
use trade_bench.Common.{
  ℕ, ◌≡◌, refl, ◌∙◌, sym, inl, inr, true, false, List, [], ◌∷◌, ◌==◌, ltb, length, arith,
  Bool-cases,
}
use trade_bench.Leaderboard.Hub.{Channel, Hub, send_capacity, is_in, update, offer, on_broadcast}

-- Nothing but buffers and waiting unregistrations differs.
pub record Same (h k : Hub) : Type 0 where
  pub clients : k.clients ≡ h.clients
  pub registering : k.registering ≡ h.registering
  pub next_client : k.next_client ≡ h.next_client
  pub panicked : k.panicked ≡ h.panicked
  pub closed : (d : ℕ) → (k.channels d).is_closed ≡ (h.channels d).is_closed

pub Same-trans : {h k l : Hub} → Same h k → Same k l → Same h l
Same-trans a b = record {
  clients = b.clients ∙ a.clients;
  registering = b.registering ∙ a.registering;
  next_client = b.next_client ∙ a.next_client;
  panicked = b.panicked ∙ a.panicked;
  closed = λ d. b.closed d ∙ a.closed d;
}

pub same : (a b : ℕ) → a == b ≡ true → a ≡ b
same a b q = ground arith

pub update-closed :
    (f : ℕ → Channel) (c d : ℕ) (v : Channel)
    → v.is_closed ≡ (f c).is_closed
    → (update f c v d).is_closed ≡ (f d).is_closed
update-closed f c d v e = elim (Bool-cases (c == d)) [
  | inl q ↦ rw q (e ∙ rw (same c d q) refl)
  | inr q ↦ rw q refl
]

offer-Same : (m : ℕ) (h : Hub) (c : ℕ) → (h.channels c).is_closed ≡ false → Same h (offer m h c)
unfolding offer
offer-Same m h c o = elim (Bool-cases (ltb (length (h.channels c).buffer) send_capacity)) [
  | inl q ↦
      rw (o, q)
        (record {
          clients = refl;
          registering = refl;
          next_client = refl;
          panicked = refl;
          closed = λ d. update-closed h.channels c d _ (sym o);
        })
  | inr q ↦
      rw (o, q)
        (record {
          clients = refl;
          registering = refl;
          next_client = refl;
          panicked = refl;
          closed = λ d. refl;
        })
]

pub on_broadcast-Same :
    (m : ℕ) (order : List ℕ) (h : Hub)
    → ((c : ℕ) → is_in c order ≡ true → (h.channels c).is_closed ≡ false)
    → Same h (on_broadcast m order h)
unfolding on_broadcast
on_broadcast-Same m [] h o = record {
  clients = refl;
  registering = refl;
  next_client = refl;
  panicked = refl;
  closed = λ d. refl;
}
on_broadcast-Same m (c ∷ cs) h o =
    let first = offer-Same m h c (o c (ground arith)) in
    Same-trans first
      (on_broadcast-Same m cs (offer m h c) (λ d q. first.closed d ∙ o d (ground arith)))
