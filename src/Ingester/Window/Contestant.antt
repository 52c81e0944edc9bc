-- ===== src/Ingester/Window/Contestant.antt =====
-- Whose run a window of window.go is for: `SetContestantID` and telemetry race each other.
use trade_bench.Common.{
  ◌≡◌, ap, ◌∙◌, false, Option, some, inl, inr, String, List, [], ◌∷◌, arith, str_eq, str_iff,
  str_refl, Bool-cases, Option-cases,
}
use trade_bench.Common.Int.{ℤ}
use trade_bench.Common.Dict.{find, find-put}
use trade_bench.Common.Float.{Float}
use trade_bench.Ingester.Histogram.{Hdr}
use trade_bench.Ingester.Window.{
  TelemetryEvent, Manager, window_for, count_event, add_event, set_contestant_id,
}
use trade_bench.Ingester.Window.Account.{add_events}
use mathlib.Core.Option

-- The contestant of a run's window, if the run has one.
abbrev pub contestant_of : {H : Type 0} → String → Manager H → Option String
contestant_of r m = Option.map (λ w. w.contestant_id) (find r m.windows)

module _ (f : Float) (hdr : Hdr f.F) where
  open hdr use {H}

  -- After an event, the run's window is for the contestant that it had or was opened for.
  pub contestant-add_event_self :
      (m : Manager H) (now : ℤ) (e : TelemetryEvent)
      → contestant_of e.run_id (add_event f hdr m now e)
        ≡ some (window_for f hdr m now e).contestant_id
  unfolding add_event count_event
  contestant-add_event_self m now e = rw (
    find-put e.run_id e.run_id (count_event f hdr (window_for f hdr m now e) e) m.windows,
    str_refl e.run_id,
  )

  window_for-known :
      (m : Manager H) (now : ℤ) (e : TelemetryEvent) (c : String)
      → contestant_of e.run_id m ≡ some c
      → (window_for f hdr m now e).contestant_id ≡ c
  unfolding window_for
  window_for-known m now e c h = elim (Option-cases (find e.run_id m.windows)) [
    | inl n ↦ ground arith
    | inr (w, q) ↦ ground arith
  ]

  contestant-add_event :
      (m : Manager H) (now : ℤ) (e : TelemetryEvent) (r c : String)
      → contestant_of r m ≡ some c
      → contestant_of r (add_event f hdr m now e) ≡ some c
  contestant-add_event m now e r c h = elim (Bool-cases (str_eq e.run_id r)) [
    | inl t ↦
        let same : e.run_id ≡ r = (str_iff e.run_id r).0 t in
        rw (← same)
          (contestant-add_event_self m now e ∙ ap some (window_for-known m now e c (rw same h)))
    | inr t ↦ other m now e r t ∙ h
  ]
    where
      other :
          (m : Manager H) (now : ℤ) (e : TelemetryEvent) (r : String)
          → str_eq e.run_id r ≡ false
          → contestant_of r (add_event f hdr m now e) ≡ contestant_of r m
      other m now e r t = unfold add_event in rw (find-put e.run_id r _ m.windows, t)

  contestant-set_contestant_id :
      (m : Manager H) (r c d : String)
      → contestant_of r m ≡ some d
      → contestant_of r (set_contestant_id f hdr m r c) ≡ some c
  unfolding set_contestant_id
  contestant-set_contestant_id m r c d h = elim (Option-cases (find r m.windows)) [
    | inl n ↦ absurd (ground arith)
    | inr (w, q) ↦
        rw (q, set_contestant_id)
          (rw (find-put r r (record w { contestant_id = c }) m.windows, str_refl r))
  ]

  window_for-set_contestant_id :
      (m : Manager H) (now : ℤ) (e : TelemetryEvent) (c : String)
      → (window_for f hdr (set_contestant_id f hdr m e.run_id c) now e).contestant_id ≡ c
  unfolding set_contestant_id window_for
  window_for-set_contestant_id m now e c = elim (Option-cases (find e.run_id m.windows)) [
    | inl n ↦ ground (arith, find-put e.run_id e.run_id c m.contestant_ids, str_refl e.run_id)
    | inr (w, q) ↦ ground (
      arith,
      find-put e.run_id e.run_id (record w { contestant_id = c }) m.windows,
      str_refl e.run_id,
    )
  ]

  -- Further telemetry, of any runs, never changes the contestant of a window.
  pub contestant-add_events :
      (m : Manager H) (es : List (ℤ × TelemetryEvent)) (r c : String)
      → contestant_of r m ≡ some c
      → contestant_of r (add_events f hdr m es) ≡ some c
  unfolding add_events
  contestant-add_events m [] r c h = h
  contestant-add_events m ((now, e) ∷ es) r c h =
      contestant-add_events (add_event f hdr m now e) es r c (contestant-add_event m now e r c h)

  -- Whether run.started or the run's telemetry comes first, and whatever was known before, the
  -- window is then for the contestant of run.started.
  pub contestant_either_order :
      (m : Manager H) (now : ℤ) (e : TelemetryEvent) (c : String)
      → (contestant_of e.run_id (add_event f hdr (set_contestant_id f hdr m e.run_id c) now e)
          ≡ some c)
        × (contestant_of e.run_id (set_contestant_id f hdr (add_event f hdr m now e) e.run_id c)
            ≡ some c)
  contestant_either_order m now e c = (
    contestant-add_event_self (set_contestant_id f hdr m e.run_id c) now e
        ∙ ap some (window_for-set_contestant_id m now e c),
    contestant-set_contestant_id (add_event f hdr m now e) e.run_id c _
        (contestant-add_event_self m now e),
  )
