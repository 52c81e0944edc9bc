-- ===== src/Common/Process/Ends.antt =====
-- How a service ends.
use Prim.Native.Nat.{ℕ}
use mathlib.Core.Path.{◌≡◌, refl, sym, ap, ◌∙◌}
use mathlib.Core.Logic.{◌⊎◌, inl, inr}
use mathlib.Core.Bool.{Bool, true, false, false≢true}
use mathlib.Core.Option.{none, some}
use mathlib.Core.List.{[]}
use native.Mathlib.Omega.{arith}
use trade_bench.Common.Process.{
  Service, Status, up, killed, exited, Process, on_signal, shut_down, on_served, signalled,
  shut_step, served, Reach, next,
}
use trade_bench.Common.Tests.{Bool-cases}
use trade_bench.Common.Process.Holds.{unwound, watched, any_shut, reach-Inv}

-- A service ends by itself with 0 or 1. With 0 it does only where a signal shuts its server down and
-- `main` takes that for no error, and then everything whose close it defers has been closed, the
-- last one first; with 1 it leaves everything open.
end_closes :
    (s : Service) {p : Process}
    → Reach s p
    → (n : ℕ) → p.status ≡ exited n
    → ((n ≡ 0)
        × (p.cancelled ≡ true)
        × (s.graceful ≡ true)
        × (any_shut s.setup ≡ true)
        × (p.closed ≡ unwound [] s.setup))
      ⊎ ((n ≡ 1) × (p.closed ≡ []))
end_closes s {p} r n e = elim ((reach-Inv s r).ended n e) [
  | inl z ↦ let g = (reach-Inv s r).good (e ∙ ap exited z.0) in inl (z.0, g.0, g.1, g.2, z.1)
  | inr o ↦ inr o
]

-- The three steps of an orderly end.
on_signal-lem :
    (p : Process)
    → p.watching ≡ some true
    → ((on_signal p).status ≡ p.status)
      × ((on_signal p).rest ≡ p.rest)
      × ((on_signal p).cancelled ≡ true)
      × ((on_signal p).watching ≡ p.watching)
      × ((on_signal p).deferred ≡ p.deferred)
unfolding on_signal
on_signal-lem p w = ground arith

shut_down-lem :
    (p : Process)
    → p.watching ≡ some true
    → ((shut_down p).status ≡ p.status)
      × ((shut_down p).rest ≡ p.rest)
      × ((shut_down p).shut ≡ true)
      × ((shut_down p).deferred ≡ p.deferred)
unfolding shut_down
shut_down-lem p w = ground arith

on_served-lem :
    (s : Service) (p : Process)
    → s.graceful ≡ true
    → ((on_served s true p).status ≡ exited 0) × ((on_served s true p).closed ≡ p.deferred)
unfolding on_served
on_served-lem s p g = ground arith

-- Where a signal is to shut the server down, a service that serves ends with it: the server's end
-- is that of `main`, with everything closed.
pub signal_ends :
    (s : Service) {p : Process}
    → Reach s p
    → p.status ≡ up
    → p.rest ≡ []
    → s.graceful ≡ true
    → watched none s.setup ≡ some true
    → let q = on_served s true (shut_down (on_signal p)) in
      Reach s q × (q.status ≡ exited 0) × (q.closed ≡ unwound [] s.setup)
signal_ends s {p} r u e g w =
    let waits : p.watching ≡ some true = (rw e at (reach-Inv s r).watch) ∙ w in
    let told = on_signal-lem p waits in
    let shut = shut_down-lem (on_signal p) (told.3 ∙ waits) in
    let up' = shut.0 ∙ told.0 ∙ u in
    let empty = shut.1 ∙ told.1 ∙ e in
    let last = on_served-lem s (shut_down (on_signal p)) g in
    (
      next (next (next r (signalled p u)) (shut_step (on_signal p) (told.0 ∙ u) told.2))
          (served (shut_down (on_signal p)) true up' empty (λ _. shut.2)),
      last.0,
      last.1 ∙ shut.3 ∙ told.4 ∙ (rw e at (reach-Inv s r).holding u),
    )

Status-cases :
    {P Q : ℕ → Type 0} (t : Status)
    → ((n : ℕ) → t ≡ exited n → ((n ≡ 0) × P n) ⊎ ((n ≡ 1) × Q n))
    → (t ≡ up) ⊎ (t ≡ killed) ⊎ (t ≡ exited 0) ⊎ (t ≡ exited 1)
Status-cases up h = inl refl
Status-cases killed h = inr (inl refl)
Status-cases (exited n) h = elim (h n refl) [
  | inl z ↦ inr (inr (inl (ap exited z.0)))
  | inr o ↦ inr (inr (inr (ap exited o.0)))
]

-- Where no signal is to shut the server down and `main` takes every end of it for an error, a service
-- that waits for signals is not ended by one: once it serves it is up, or it has ended with 1, and no
-- signal has shut its server down.
pub signal_ignored :
    (s : Service) {p : Process}
    → Reach s p
    → p.rest ≡ []
    → s.graceful ≡ false
    → any_shut s.setup ≡ false
    → (shuts : Bool) → watched none s.setup ≡ some shuts
    → (p.shut ≡ false) × ((p.status ≡ up) ⊎ (p.status ≡ exited 1))
signal_ignored s {p} r e g a shuts w = (
  never_shut,
  ground (
    arith,
    (reach-Inv s r).unwatched,
    (reach-Inv s r).watch,
    (reach-Inv s r).good,
    Status-cases p.status (reach-Inv s r).ended,
  ),
)
  where
    never_shut : p.shut ≡ false
    never_shut = elim (Bool-cases p.shut) [
      | inl t ↦ absurd (false≢true (sym a ∙ ((reach-Inv s r).shutting t).1))
      | inr t ↦ t
    ]
