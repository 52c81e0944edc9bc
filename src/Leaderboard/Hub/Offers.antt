-- ===== src/Leaderboard/Hub/Offers.antt =====
-- What a broadcast does to the channel of one client.
use trade_bench.Common.{
  ap, ℕ, ◌≡◌, refl, ◌∙◌, sym, inl, inr, true, false, List, [], ◌∷◌, ◌++◌, ◌==◌, arith, Bool-cases,
  ltb, length,
}
use trade_bench.Leaderboard.Hub.Broadcast.{same}
use trade_bench.Leaderboard.Hub.{Hub, send_capacity, is_in, offer, on_broadcast, AreOnce}

-- An offer to another client leaves a channel as it is.
offer-other :
    (m : ℕ) (h : Hub) (c d : ℕ)
    → c == d ≡ false
    → ((offer m h c).channels d ≡ h.channels d)
      × (is_in d (offer m h c).unregistering ≡ is_in d h.unregistering)
unfolding offer
offer-other m h c d n = (ground arith, ground arith)

offer_self :
    (m : ℕ) (h : Hub) (c : ℕ)
    → (h.channels c).is_closed ≡ false
    → is_in c (offer m h c).unregistering ≡ false
    → ((offer m h c).channels c).buffer ≡ (h.channels c).buffer ++ m ∷ []
unfolding offer
offer_self m h c o = elim (Bool-cases (ltb (length (h.channels c).buffer) send_capacity)) [
  | inl q ↦ λ u. ground arith
  | inr q ↦ λ u. absurd (ground arith)
]

offer-same :
    (m : ℕ) (h : Hub) (c d : ℕ)
    → c ≡ d
    → (h.channels d).is_closed ≡ false
    → is_in d (offer m h c).unregistering ≡ false
    → ((offer m h c).channels d).buffer ≡ (h.channels d).buffer ++ m ∷ []
offer-same m h c d e = rw (← e) (λ o u. offer_self m h c o u)

offer-kept :
    (m : ℕ) (h : Hub) (c d : ℕ)
    → is_in d (offer m h c).unregistering ≡ false
    → is_in d h.unregistering ≡ false
unfolding offer
offer-kept m h c d u = ground arith

pub on_broadcast-kept :
    (m : ℕ) (order : List ℕ) (h : Hub) (d : ℕ)
    → is_in d (on_broadcast m order h).unregistering ≡ false
    → is_in d h.unregistering ≡ false
unfolding on_broadcast
on_broadcast-kept m [] h d u = u
on_broadcast-kept m (c ∷ cs) h d u = offer-kept m h c d (on_broadcast-kept m cs (offer m h c) d u)

pub on_broadcast-other :
    (m : ℕ) (order : List ℕ) (h : Hub) (d : ℕ)
    → is_in d order ≡ false
    → ((on_broadcast m order h).channels d ≡ h.channels d)
      × (is_in d (on_broadcast m order h).unregistering ≡ is_in d h.unregistering)
unfolding on_broadcast
on_broadcast-other m [] h d n = (refl, refl)
on_broadcast-other m (c ∷ cs) h d n =
    let first = offer-other m h c d (ground arith) in
    let rest = on_broadcast-other m cs (offer m h c) d (ground arith) in
    (rest.0 ∙ first.0, rest.1 ∙ first.1)

-- Each client that the broadcast visits has the message in its buffer, or waits to be dropped.
pub on_broadcast_self :
    (m : ℕ) (order : List ℕ) (h : Hub) (d : ℕ)
    → AreOnce order
    → is_in d order ≡ true
    → (h.channels d).is_closed ≡ false
    → is_in d (on_broadcast m order h).unregistering ≡ false
    → ((on_broadcast m order h).channels d).buffer ≡ (h.channels d).buffer ++ m ∷ []
unfolding on_broadcast
on_broadcast_self m [] h d once i o u = absurd (ground arith)
on_broadcast_self m (c ∷ cs) h d once i o u = elim (Bool-cases (c == d)) [
  | inl q ↦
      let e : c ≡ d = same c d q in
      let rest = on_broadcast-other m cs (offer m h c) d (rw (← e) once.0) in
      ap (λ ch. ch.buffer) rest.0 ∙ offer-same m h c d e o (sym rest.1 ∙ u)
  | inr q ↦
      let first = offer-other m h c d q in
      on_broadcast_self m cs (offer m h c) d once.1 (ground arith)
        (ap (λ ch. ch.is_closed) first.0 ∙ o) u
      ∙ ap (λ ch. ch.buffer ++ m ∷ []) first.0
]
