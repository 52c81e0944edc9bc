-- ===== src/Ingester/Window/Account.antt =====
-- What a window of window.go holds of the telemetry of its run.
use mathlib.Core.List.{Memᴰ, append-nil, append_assoc}
use trade_bench.Common.{
  ◌≡◌, refl, ap, ◌⊎◌, inl, inr, none, some, String, List, [], ◌∷◌, ◌++◌, arith, if◌then◌else◌,
  str_eq, str_iff, length, length-append, All, All-append, All-imp, Bool-cases,
}
use trade_bench.Common.Int.{ℤ, pos, ◌≤ℤ◌, ltb_ℤ, ◌+ℤ◌, wrap_64, wrap_64-add}
use trade_bench.Common.Dict.{find, find-put}
use trade_bench.Common.Float.{Float}
use trade_bench.Ingester.Histogram.{Hdr}
use trade_bench.Ingester.Validator.{FillEvent}
use trade_bench.Ingester.Window.{
  TelemetryEvent, RunWindow, Manager, fill_of, new_manager, window_for, count_event, add_event,
}

-- The telemetry that the run's service did not reject, as the validator gets it.
abbrev pub fills : List TelemetryEvent → List FillEvent
fills [] = []
fills (e ∷ es) = if e.rejected then fills es else fill_of e ∷ fills es

fills-append : (es fs : List TelemetryEvent) → fills (es ++ fs) ≡ fills es ++ fills fs
fills-append [] fs = refl
fills-append (e ∷ es) fs = ground (arith, fills-append es fs)

-- The events of a run, in the order of arrival.
abbrev pub of_run : String → List (ℤ × TelemetryEvent) → List TelemetryEvent
of_run r [] = []
of_run r ((now, e) ∷ es) = if str_eq e.run_id r then e ∷ of_run r es else of_run r es

-- A window accounts for these events: it counts each in 64 bits, keeps the fills in order, starts
-- at the first sending and ends at the last acknowledgement (not below 0).
pub record Accounts (H : Type 0) (w : RunWindow H) (es : List TelemetryEvent) : Type 0 where
  pub counted : w.order_count ≡ wrap_64 (pos (length es))
  pub kept : w.events ≡ fills es
  pub starts : All (λ e. w.start_time_ns ≤ℤ e.sent_at_ns) es
  pub start_met : (e : TelemetryEvent) × Memᴰ e es × (e.sent_at_ns ≡ w.start_time_ns)
  pub ends : All (λ e. e.ack_at_ns ≤ℤ w.last_event_ns) es
  pub end_met :
      (w.last_event_ns ≡ pos 0)
      ⊎ ((e : TelemetryEvent) × Memᴰ e es × (e.ack_at_ns ≡ w.last_event_ns))

Memᴰ-last : (es : List TelemetryEvent) (e : TelemetryEvent) → Memᴰ e (es ++ e ∷ [])
Memᴰ-last [] e = Memᴰ.head refl
Memᴰ-last (x ∷ es) e = Memᴰ.tail (Memᴰ-last es e)

Memᴰ-left :
    {x : TelemetryEvent} {es : List TelemetryEvent} (fs : List TelemetryEvent)
    → Memᴰ x es
    → Memᴰ x (es ++ fs)
Memᴰ-left fs (Memᴰ.head p) = Memᴰ.head p
Memᴰ-left fs (Memᴰ.tail m) = Memᴰ.tail (Memᴰ-left fs m)

module _ (f : Float) (hdr : Hdr f.F) where
  open hdr use {H}

  count_event-Accounts :
      (w : RunWindow H) (es : List TelemetryEvent) (e : TelemetryEvent)
      → Accounts H w es
      → Accounts H (count_event f hdr w e) (es ++ e ∷ [])
  unfolding count_event
  count_event-Accounts w es e a = record {
    counted =
        rw (a.counted, length-append es (e ∷ []), wrap_64-add (length es))
          (ap (λ n. wrap_64 (pos n)) (omega arith));
    kept = ground (arith, fills-append es (e ∷ []), append-nil (fills es));
    starts =
        All-append _ es (e ∷ []) (All-imp es (λ x h. ground arith) a.starts) (ground arith, tt);
    start_met = elim (Bool-cases (ltb_ℤ e.sent_at_ns w.start_time_ns)) [
      | inl t ↦ rw t (e, Memᴰ-last es e, refl)
      | inr t ↦ rw t (a.start_met.0, Memᴰ-left (e ∷ []) a.start_met.1, a.start_met.2)
    ];
    ends = All-append _ es (e ∷ []) (All-imp es (λ x h. ground arith) a.ends) (ground arith, tt);
    end_met = elim (Bool-cases (ltb_ℤ w.last_event_ns e.ack_at_ns)) [
      | inl t ↦ rw t (inr (e, Memᴰ-last es e, refl))
      | inr t ↦
          rw t (elim a.end_met [ inl z ↦ inl z | inr (x, m, q) ↦ inr (x, Memᴰ-left (e ∷ []) m, q) ])
    ];
  }

  -- Every event of a manager's history, from its first on.
  unfoldable pub add_events : Manager H → List (ℤ × TelemetryEvent) → Manager H
  add_events m [] = m
  add_events m ((now, e) ∷ es) = add_events (add_event f hdr m now e) es

  window_for-known :
      (m : Manager H) (now : ℤ) (e : TelemetryEvent) (w : RunWindow H)
      → find e.run_id m.windows ≡ some w
      → window_for f hdr m now e ≡ w
  unfolding window_for
  window_for-known m now e w h = rw (h, window_for)

  -- The run has no window and no events yet, or a window that accounts for them.
  abbrev Tracks : String → List TelemetryEvent → Manager H → Type 0
  Tracks r es m =
      ((es ≡ []) × (find r m.windows ≡ none))
      ⊎ ((w : RunWindow H) × (find r m.windows ≡ some w) × Accounts H w es)

  first_event-Accounts :
      (m : Manager H) (now : ℤ) (e : TelemetryEvent)
      → find e.run_id m.windows ≡ none
      → Accounts H (count_event f hdr (window_for f hdr m now e) e) (e ∷ [])
  unfolding count_event window_for ◌+ℤ◌
  first_event-Accounts m now e n =
      rw (n, window_for)
        (record {
          counted = refl;
          kept = ground arith;
          starts = (ground arith, tt);
          start_met = (e, Memᴰ.head refl, ground arith);
          ends = (ground arith, tt);
          end_met = elim (Bool-cases (ltb_ℤ (pos 0) e.ack_at_ns)) [
            | inl t ↦ rw t (inr (e, Memᴰ.head refl, refl))
            | inr t ↦ rw t (inl refl)
          ];
        })

  add_event-Tracks :
      (r : String) (es : List TelemetryEvent) (m : Manager H) (now : ℤ) (e : TelemetryEvent)
      → Tracks r es m
      → Tracks r (if str_eq e.run_id r then es ++ e ∷ [] else es) (add_event f hdr m now e)
  unfolding add_event
  add_event-Tracks r es m now e h = elim (Bool-cases (str_eq e.run_id r)) [
    | inl t ↦
        let same : e.run_id ≡ r = (str_iff e.run_id r).0 t in
        rw (t, find-put e.run_id r _ m.windows, t)
          (inr (elim h [
            | inl (empty, n) ↦ (
              count_event f hdr (window_for f hdr m now e) e,
              refl,
              rw empty (first_event-Accounts m now e (rw same n)),
            )
            | inr (w, found, a) ↦ (
              count_event f hdr (window_for f hdr m now e) e,
              refl,
              rw (window_for-known m now e w (rw same found)) (count_event-Accounts w es e a),
            )
          ]))
    | inr t ↦ rw (t, find-put e.run_id r _ m.windows, t) h
  ]

  add_events-Tracks :
      (r : String) (es : List TelemetryEvent) (m : Manager H) (new : List (ℤ × TelemetryEvent))
      → Tracks r es m
      → Tracks r (es ++ of_run r new) (add_events m new)
  unfolding add_events
  add_events-Tracks r es m [] h = rw (append-nil es) h
  add_events-Tracks r es m ((now, e) ∷ new) h = elim (Bool-cases (str_eq e.run_id r)) [
    | inl t ↦
        rw (t, ← append_assoc es (e ∷ []) (of_run r new))
          (add_events-Tracks r (es ++ e ∷ []) (add_event f hdr m now e) new
            (rw t at (add_event-Tracks r es m now e h)))
    | inr t ↦ rw t (
        add_events-Tracks r es (add_event f hdr m now e) new
          (rw t at (add_event-Tracks r es m now e h)))
  ]

  -- However the telemetry of many runs is interleaved, a run with telemetry has one window, and it
  -- accounts for exactly the events of that run: their number, fills, first sending and last
  -- acknowledgement. A run without telemetry has none.
  pub add_events-Accounts :
      (d : ℤ) (r : String) (es : List (ℤ × TelemetryEvent))
      → ((of_run r es ≡ []) × (find r (add_events (new_manager H d) es).windows ≡ none))
        ⊎ ((w : RunWindow H) × (find r (add_events (new_manager H d) es).windows ≡ some w)
            × Accounts H w (of_run r es))
  unfolding new_manager find
  add_events-Accounts d r es = add_events-Tracks r [] (new_manager H d) es (inl (refl, refl))
