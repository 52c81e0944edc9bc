-- ===== src/Leaderboard/Feed/Registered.antt =====
-- What the hub's steps leave of a client's registration and of the messages since then.
use mathlib.Core.Bool.{false≢true}
use trade_bench.Common.{
  ℕ, ◌+◌, ◌<◌, ◌≡◌, refl, ◌∙◌, sym, ap, ◌⊎◌, inl, inr, true, false, Option, List, [], ◌==◌, length,
  arith, Bool-cases,
}
use trade_bench.Leaderboard.Hub.{Hub, is_in, take_one}
use trade_bench.Leaderboard.Hub as Hub
use trade_bench.Leaderboard.Hub.Broadcast.{same, on_broadcast-Same}
use trade_bench.Leaderboard.Hub.Safety.{Inv, is_in-take_one}
use trade_bench.Leaderboard.Hub.Delivery.{note_broadcast}
use trade_bench.Leaderboard.Feed.{IsFree}
use trade_bench.Leaderboard.Feed.Numbers.{Counts}

-- A client that has been registered stays so.
module _ (c : ℕ) where
  pub registered-Step :
      {h k : Hub} (step : Hub.Step h k)
      → Inv h
      → is_in c h.registering ≡ false
      → c < h.next_client
      → (is_in c k.registering ≡ false) × (c < k.next_client)
  unfolding Hub.on_register Hub.on_unregister Hub.on_receive
  registered-Step (Hub.connect h) i q l = (ground arith, omega arith)
  registered-Step (Hub.register h d w) i q l = (
    elim (Bool-cases (is_in c (take_one d h.registering))) [
      | inl e ↦ absurd (false≢true (sym q ∙ is_in-take_one c d h.registering e))
      | inr e ↦ e
    ],
    l,
  )
  registered-Step (Hub.leave h d b) i q l = (q, l)
  registered-Step (Hub.unregister h d w) i q l = ground (arith, q, l)
  registered-Step (Hub.broadcast h m order visits once) i q l =
      let same = on_broadcast-Same m order h (λ d t. i.clients_open d (sym (visits d) ∙ t)) in
      (ap (is_in c) same.registering ∙ q, rw same.next_client l)
  registered-Step (Hub.receive h d) i q l = (q, l)

-- Without a broadcast the messages since a client was registered stay, or start anew.
pub note_free :
    {S : Type 0} (greeted : ℕ → Option S) {h k : Hub} (c : ℕ) (step : Hub.Step h k) (ms : List ℕ)
    → IsFree greeted step
    → (note_broadcast c step ms ≡ ms)
      ⊎ ((note_broadcast c step ms ≡ []) × (is_in c h.registering ≡ true))
note_free greeted c (Hub.connect h) ms free = inl refl
note_free greeted c (Hub.register h d w) ms free = elim (Bool-cases (d == c)) [
  | inl e ↦ inr (rw e refl, rw (same d c e) at w)
  | inr e ↦ inl (rw e refl)
]
note_free greeted c (Hub.leave h d b) ms free = inl refl
note_free greeted c (Hub.unregister h d w) ms free = inl refl
note_free greeted c (Hub.broadcast h m order visits once) ms free = absurd free
note_free greeted c (Hub.receive h d) ms free = inl refl

-- Where the messages of a client start, if they may have started anew.
abbrev pub pick {ℓ κ} : {A : Type ℓ} {B : Type κ} → A ⊎ B → ℕ → ℕ → ℕ
pick (inl a) b d = b
pick (inr c) b d = d

pub Counts-pick :
    {Q : Type 0} {ms ns : List ℕ} (x : (ns ≡ ms) ⊎ ((ns ≡ []) × Q)) (b d : ℕ)
    → Counts b ms
    → b + length ms ≡ d
    → Counts (pick x b d) ns × (pick x b d + length ns ≡ d)
Counts-pick (inl e) b d c r = rw e (c, r)
Counts-pick (inr e) b d c r = rw e.0 (tt, omega arith)

pub pick-left :
    {P : Type 0} (c : ℕ) (xs : List ℕ) {ns : List ℕ} (x : P ⊎ ((ns ≡ []) × (is_in c xs ≡ true)))
    (b d : ℕ)
    → is_in c xs ≡ false
    → pick x b d ≡ b
pick-left c xs (inl e) b d q = refl
pick-left c xs (inr e) b d q = absurd (false≢true (sym q ∙ e.1))
