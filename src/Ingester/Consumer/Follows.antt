-- ===== src/Ingester/Consumer/Follows.antt =====
-- What a round of telemetry or of run.started leaves of one run.
use trade_bench.Common.{
  ◌≡◌, refl, sym, ap, ◌∙◌, false, Option, none, some, String, List, [], ◌∷◌, ◌++◌, arith,
  if◌then◌else◌, str_eq, str_iff, str_refl, Option-cases, Bool-cases, inl, inr,
}
use trade_bench.Common.Int.{ℤ}
use trade_bench.Common.Dict.{find, find-put}
use trade_bench.Common.Float.{Float}
use trade_bench.Common.Sort.{SortSlice}
use trade_bench.Ingester.Histogram.{Hdr}
use trade_bench.Ingester.Window.{
  TelemetryEvent, RunWindow, Manager, or_empty, window_for, count_event, add_event,
  set_contestant_id, is_complete,
}
use trade_bench.Ingester.Consumer.{
  event, RunStartedEvent, telemetry, started, RunCompletedEvent, Effect, commit_telemetry,
  commit_started, insert, publish,
}
use trade_bench.Ingester.Consumer.Runs.{Log, Run, record_event, count_all, figures, follow}

-- The events that were published for one run.
abbrev pub published_for : {F : Type 0} → String → List (Effect F) → List (RunCompletedEvent F)
published_for r [] = []
published_for r (publish e ∷ es) =
    let rest = published_for r es in if str_eq e.run_id r then e ∷ rest else rest
published_for r (insert snap ∷ es) = published_for r es
published_for r (commit_telemetry ∷ es) = published_for r es
published_for r (commit_started ∷ es) = published_for r es

pub published_for-append :
    {F : Type 0} (r : String) (es fs : List (Effect F))
    → published_for r (es ++ fs) ≡ published_for r es ++ published_for r fs
published_for-append r [] fs = refl
published_for-append r (publish e ∷ es) fs = ground (arith, published_for-append r es fs)
published_for-append r (insert snap ∷ es) fs = published_for-append r es fs
published_for-append r (commit_telemetry ∷ es) fs = published_for-append r es fs
published_for-append r (commit_started ∷ es) fs = published_for-append r es fs

module _ (f : Float) (hdr : Hdr f.F) (s : SortSlice) (d : ℤ) where
  open hdr use {H}

  count_all-append :
      (w : RunWindow H) (es : List TelemetryEvent) (e : TelemetryEvent)
      → count_all f hdr s d w (es ++ e ∷ []) ≡ count_event f hdr (count_all f hdr s d w es) e
  unfolding count_all
  count_all-append w [] e = refl
  count_all-append w (x ∷ es) e = count_all-append (count_event f hdr w x) es e

  count_all-contestant :
      (w : RunWindow H) (es : List TelemetryEvent) (c : String)
      → count_all f hdr s d (record w { contestant_id = c }) es
        ≡ record (count_all f hdr s d w es) { contestant_id = c }
  unfolding count_all count_event
  count_all-contestant w [] c = refl
  count_all-contestant w (x ∷ es) c = count_all-contestant (count_event f hdr w x) es c

  figures-contestant :
      (who c : String) (l : Log)
      → record (figures f hdr s d who l) { contestant_id = c } ≡ figures f hdr s d c l
  unfolding figures count_event
  figures-contestant who c l = sym (count_all-contestant _ l.others c)

  pub figures-is_complete :
      (who : String) (l : Log) (now : ℤ)
      → is_complete f hdr (figures f hdr s d who l) now
        ≡ is_complete f hdr (figures f hdr s d "" l) now
  unfolding is_complete
  figures-is_complete who l now = ap (λ w. is_complete f hdr w now) (figures-contestant who "" l)

  -- The window that a run by itself should have.
  abbrev pub window_of : Run → Option (RunWindow H)
  window_of run = elim run.log [
    | none ↦ none
    | some l ↦ some (figures f hdr s d (or_empty run.contestant) l)
  ]

  -- The manager holds of the run `r` what is known of it.
  abbrev pub Holds : String → Manager H → Run → Type 0
  Holds r m run =
      (find r m.windows ≡ window_of run)
      × (find r m.contestant_ids ≡ run.contestant)
      × (m.default_duration_sec ≡ d)

  count_event-window_for :
      (m : Manager H) (now : ℤ) (e : TelemetryEvent) (c : Option String) (log : Option Log)
      → Holds e.run_id m (record { contestant = c; log = log })
      → count_event f hdr (window_for f hdr m now e) e
        ≡ figures f hdr s d (or_empty c) (record_event log now e)
  unfolding figures record_event count_all window_for count_event
  count_event-window_for m now e c none h = rw (h.0, window_for) (rw (h.1, h.2))
  count_event-window_for m now e c (some l) h =
      rw (h.0, window_for) (sym (count_all-append _ l.others e))

  pub add_event-Holds :
      (r : String) (m : Manager H) (run : Run) (now : ℤ) (e : TelemetryEvent)
      → Holds r m run
      → Holds r (add_event f hdr m now e) (follow f hdr s d r run (telemetry now (event e))).0
  unfolding add_event follow
  add_event-Holds r m run now e h = elim (Bool-cases (str_eq e.run_id r)) [
    | inl t ↦
        let same : r ≡ e.run_id = sym ((str_iff e.run_id r).0 t) in
        (
          find-put e.run_id r _ m.windows
              ∙ rw t (ap some (count_event-window_for m now e _ run.log (rw same at h))),
          rw t h.1,
          h.2,
        )
    | inr t ↦ (find-put e.run_id r _ m.windows ∙ rw t h.0, rw t h.1, h.2)
  ]

  set_contestant_id-window :
      (m : Manager H) (r c : String) (was : Option String) (log : Option Log)
      → Holds r m (record { contestant = was; log = log })
      → find r (set_contestant_id f hdr m r c).windows
        ≡ window_of (record { contestant = some c; log = log })
  unfolding set_contestant_id
  set_contestant_id-window m r c was none h = rw (h.0, set_contestant_id) h.0
  set_contestant_id-window m r c was (some l) h =
      rw (h.0, set_contestant_id)
        (find-put r r _ m.windows
          ∙ rw (str_refl r) (ap some (figures-contestant (or_empty was) c l)))

  set_contestant_id-window_other :
      (m : Manager H) (j r c : String)
      → str_eq j r ≡ false
      → find r (set_contestant_id f hdr m j c).windows ≡ find r m.windows
  unfolding set_contestant_id
  set_contestant_id-window_other m j r c t = elim (Option-cases (find j m.windows)) [
    | inl n ↦ rw (n, set_contestant_id)
    | inr (w, q) ↦ rw (q, set_contestant_id) (find-put j r _ m.windows ∙ rw t refl)
  ]

  set_contestant_id-fields :
      (m : Manager H) (j r c : String)
      → (find r (set_contestant_id f hdr m j c).contestant_ids
          ≡ (if str_eq j r then some c else find r m.contestant_ids))
        × ((set_contestant_id f hdr m j c).default_duration_sec ≡ m.default_duration_sec)
  unfolding set_contestant_id
  set_contestant_id-fields m j r c = elim (Option-cases (find j m.windows)) [
    | inl n ↦ rw (n, set_contestant_id) (find-put j r c m.contestant_ids, refl)
    | inr (w, q) ↦ rw (q, set_contestant_id) (find-put j r c m.contestant_ids, refl)
  ]

  pub set_contestant_id-Holds :
      (r : String) (m : Manager H) (run : Run) (e : RunStartedEvent)
      → Holds r m run
      → Holds r
          (set_contestant_id f hdr m e.run_id e.contestant_id)
          (follow f hdr s d r run (started (event e))).0
  unfolding follow
  set_contestant_id-Holds r m run e h =
      let (ids, duration) = set_contestant_id-fields m e.run_id r e.contestant_id in
      elim (Bool-cases (str_eq e.run_id r)) [
        | inl t ↦
            let same : e.run_id ≡ r = (str_iff e.run_id r).0 t in
            (
              rw (t, same) (set_contestant_id-window m r e.contestant_id _ run.log h),
              ids ∙ rw t refl,
              duration ∙ h.2,
            )
        | inr t ↦ (
          rw t (set_contestant_id-window_other m e.run_id r e.contestant_id t ∙ h.0),
          ids ∙ rw t h.1,
          duration ∙ h.2,
        )
      ]
