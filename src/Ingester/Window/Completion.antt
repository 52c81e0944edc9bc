-- ===== src/Ingester/Window/Completion.antt =====
-- `CheckCompleted` of window.go: which windows it closes, and what it reports.
use mathlib.Core.List.{append_assoc, append-nil}
use mathlib.Core.Path.{ap₂}
use trade_bench.Common.{
  ◌∙◌, str_ne, ◌≡◌, refl, sym, ap, ◌≢◌, Bool, true, false, ◌&&◌, ◌||◌, Option, none, some, inl, inr,
  String, List, [], ◌∷◌, ◌++◌, arith, if◌then◌else◌, str_eq, str_iff, str_refl, Bool-cases,
  Option-cases, All,
}
use trade_bench.Common.Int.{ℤ}
use trade_bench.Common.Dict.{find, find-delete}
use trade_bench.Common.Float.{Float}
use trade_bench.Common.Sort.{SortSlice}
use trade_bench.Ingester.Histogram.{Hdr}
use trade_bench.Ingester.Window.Contestant.{contestant_of, contestant-add_event_self}
use trade_bench.Ingester.Window.{
  TelemetryEvent, RunWindow, RunSnapshot, Manager, is_complete, snapshot, check_run, check_runs,
  check_completed, add_event, window_for,
}

abbrev pub visited : String → List String → Bool
visited k [] = false
visited k (j ∷ js) = str_eq j k || visited k js

module _ (f : Float) (hdr : Hdr f.F) where
  open hdr use {H}

  -- The run has a window that is due at that time.
  abbrev pub is_due : Option (RunWindow H) → ℤ → Bool
  is_due none now = false
  is_due (some w) now = is_complete f hdr w now

  pub check_run-windows :
      (s : SortSlice) (now : ℤ) (j k : String) (m : Manager H) (done : List (RunSnapshot f.F))
      → find k (check_run f hdr s now j (m, done)).0.windows
        ≡ (if str_eq j k && is_due (find j m.windows) now then none else find k m.windows)
  unfolding check_run
  check_run-windows s now j k m done = ground (arith, find-delete j k m.windows)

  check_runs-windows :
      (s : SortSlice) (now : ℤ) (k : String) (keys : List String) (m : Manager H)
      (done : List (RunSnapshot f.F))
      → find k (check_runs f hdr s now keys (m, done)).0.windows
        ≡ (if visited k keys && is_due (find k m.windows) now then none else find k m.windows)
  unfolding check_runs
  check_runs-windows s now k [] m done = refl
  check_runs-windows s now k (j ∷ js) m done =
      let (m', done') = check_run f hdr s now j (m, done) in
      ground (
        arith,
        str_iff j k,
        check_run-windows s now j k m done,
        check_runs-windows s now k js m' done',
      )

  -- The windows that are due and visited are closed; every other one stays as it is.
  pub check_completed-windows :
      (s : SortSlice) (m : Manager H) (now : ℤ) (keys : List String) (k : String)
      → find k (check_completed f hdr s m now keys).0.windows
        ≡ (if visited k keys && is_due (find k m.windows) now then none else find k m.windows)
  unfolding check_completed
  check_completed-windows s m now keys k = check_runs-windows s now k keys m []

  abbrev pub due_at :
      SortSlice
      → ℤ
      → String
      → Option (RunWindow H)
      → List (RunSnapshot f.F)
      → List (RunSnapshot f.F)
  due_at s now k none rest = rest
  due_at s now k (some w) rest =
      if is_complete f hdr w now then snapshot f hdr s w k ∷ rest else rest

  -- The snapshots of the windows that are due, taken before any is closed.
  unfoldable pub due : SortSlice → Manager H → ℤ → List String → List (RunSnapshot f.F)
  due s m now [] = []
  due s m now (k ∷ ks) = due_at s now k (find k m.windows) (due s m now ks)

  -- The keys of a range over a map are distinct.
  abbrev pub AreDistinct : List String → Type 0
  AreDistinct [] = Unit
  AreDistinct (k ∷ ks) = All (λ j. k ≢ j) ks × AreDistinct ks

  check_run-other :
      (s : SortSlice) (now : ℤ) (j k : String) (m : Manager H) (done : List (RunSnapshot f.F))
      → j ≢ k
      → find k (check_run f hdr s now j (m, done)).0.windows ≡ find k m.windows
  check_run-other s now j k m done n = rw (check_run-windows s now j k m done, str_ne j k n)

  due-check_run :
      (s : SortSlice) (now : ℤ) (j : String) (ks : List String) (m : Manager H)
      (done : List (RunSnapshot f.F))
      → All (λ k. j ≢ k) ks
      → due s (check_run f hdr s now j (m, done)).0 now ks ≡ due s m now ks
  unfolding due
  due-check_run s now j [] m done h = refl
  due-check_run s now j (k ∷ ks) m done h =
      ap₂ (due_at s now k) (check_run-other s now j k m done h.0)
        (due-check_run s now j ks m done h.1)

  check_run-due :
      (s : SortSlice) (now : ℤ) (k : String) (m : Manager H) (done rest : List (RunSnapshot f.F))
      → (check_run f hdr s now k (m, done)).1 ++ rest
        ≡ done ++ due_at s now k (find k m.windows) rest
  unfolding check_run
  check_run-due s now k m done rest = elim (Option-cases (find k m.windows)) [
    | inl n ↦ rw (n, check_run)
    | inr (w, q) ↦ elim (Bool-cases (is_complete f hdr w now)) [
      | inl t ↦ rw (q, check_run) (rw t (append_assoc done (snapshot f hdr s w k ∷ []) rest))
      | inr t ↦ rw (q, check_run) (rw t)
    ]
  ]

  check_runs-due :
      (s : SortSlice) (now : ℤ) (ks : List String) (m : Manager H) (done : List (RunSnapshot f.F))
      → AreDistinct ks
      → (check_runs f hdr s now ks (m, done)).1 ≡ done ++ due s m now ks
  unfolding check_runs due
  check_runs-due s now [] m done h = sym (append-nil done)
  check_runs-due s now (k ∷ ks) m done h =
      let (m', done') = check_run f hdr s now k (m, done) in
      check_runs-due s now ks m' done' h.1
      ∙ ap (λ rest. done' ++ rest) (due-check_run s now k ks m done h.0)
      ∙ check_run-due s now k m done (due s m now ks)

  -- Every visited window that is due is reported once, from its state when the check began.
  pub check_completed-due :
      (s : SortSlice) (m : Manager H) (now : ℤ) (keys : List String)
      → AreDistinct keys
      → (check_completed f hdr s m now keys).1 ≡ due s m now keys
  unfolding check_completed
  check_completed-due s m now keys h = check_runs-due s now keys m [] h

  -- A straggler that arrives after its run was closed opens a second window, for nobody: the
  -- contestant of the run is forgotten with its first window.
  pub late_event-anonymous :
      (s : SortSlice) (m : Manager H) (now later : ℤ) (e : TelemetryEvent) (w : RunWindow H)
      (done : List (RunSnapshot f.F))
      → find e.run_id m.windows ≡ some w
      → is_complete f hdr w now ≡ true
      → contestant_of e.run_id
          (add_event f hdr (check_run f hdr s now e.run_id (m, done)).0 later e)
        ≡ some ""
  unfolding check_run window_for
  late_event-anonymous s m now later e w done q c =
      contestant-add_event_self f hdr (check_run f hdr s now e.run_id (m, done)).0 later e
      ∙ ap some (
          ground (
            arith,
            find-delete e.run_id e.run_id m.windows,
            find-delete e.run_id e.run_id m.contestant_ids,
            str_refl e.run_id,
          ))
