-- ===== src/Ingester/Consumer/Independent.antt =====
-- The ingester, seen from one run, does what is specified of that run alone.
use mathlib.Core.List.{append-nil}
use trade_bench.Common.{
  ◌≡◌, refl, sym, ap, ◌∙◌, ◌≢◌, false, ◌&&◌, Option, none, some, String, List, [], ◌∷◌, ◌++◌, arith,
  if◌then◌else◌, str_eq, str_iff, str_ne, Bool-cases, inl, inr, All,
}
use trade_bench.Common.Int.{ℤ}
use trade_bench.Common.Dict.{find}
use trade_bench.Common.Float.{Float}
use trade_bench.Common.Sort.{SortSlice}
use trade_bench.Ingester.Histogram.{Hdr}
use trade_bench.Ingester.Window.{
  RunWindow, RunSnapshot, Manager, or_empty, snapshot, check_completed, new_manager,
}
use trade_bench.Ingester.Window.Completion.{
  visited, AreDistinct, is_due, due, due_at, check_completed-windows, check_completed-due,
}
use trade_bench.Ingester.Window.Forget.{check_completed-contestants, check_completed-duration}
use trade_bench.Ingester.Consumer.{
  fetch_error, bad_message, event, Round, telemetry, started, flush, RunCompletedEvent,
  completed_event, report_all, on_telemetry, on_started, flush_completed, consume, consume_all,
}
use trade_bench.Ingester.Consumer.Runs.{Log, Run, is_over, verdict, follow, follow_all}
use trade_bench.Ingester.Consumer.Follows.{
  published_for, published_for-append, figures-is_complete, window_of, Holds, add_event-Holds,
  set_contestant_id-Holds,
}

visited-distinct : (k : String) (ks : List String) → All (λ j. k ≢ j) ks → visited k ks ≡ false
visited-distinct k [] h = refl
visited-distinct k (j ∷ js) h = rw (str_ne j k (λ e. h.0 (sym e)), visited-distinct k js h.1) refl

module _ (f : Float) (hdr : Hdr f.F) (s : SortSlice) (d : ℤ) where
  open hdr use {H}

  -- What a window is reported as, once it is closed.
  abbrev reported : String → Option (RunWindow H) → List (RunCompletedEvent f.F)
  reported r none = []
  reported r (some w) = completed_event (snapshot f hdr s w r) ∷ []

  published_for-due_at :
      (r : String) (now : ℤ) (k : String) (w : Option (RunWindow H)) (rest : List (RunSnapshot f.F))
      → published_for r (report_all (due_at f hdr s now k w rest))
        ≡ (if str_eq k r && is_due f hdr w now then reported k w else [])
          ++ published_for r (report_all rest)
  unfolding report_all snapshot
  published_for-due_at r now k none rest = ground arith
  published_for-due_at r now k (some w) rest = ground arith

  published_for-due :
      (r : String) (now : ℤ) (m : Manager H) (keys : List String)
      → AreDistinct f hdr keys
      → published_for r (report_all (due f hdr s m now keys)) ≡ (
          if visited r keys && is_due f hdr (find r m.windows) now
          then reported r (find r m.windows)
          else [])
  unfolding report_all due
  published_for-due r now m [] h = refl
  published_for-due r now m (k ∷ ks) h =
      published_for-due_at r now k (find k m.windows) (due f hdr s m now ks)
      ∙ ap
          (λ rest.
            (if str_eq k r && is_due f hdr (find k m.windows) now
              then reported k (find k m.windows)
              else [])
            ++ rest)
          (published_for-due r now m ks h.1)
      ∙ elim (Bool-cases (str_eq k r)) [
        | inl t ↦
            let same : r ≡ k = sym ((str_iff k r).0 t) in
            rw (t, same, visited-distinct k ks h.0) (append-nil _)
        | inr t ↦ rw t refl
      ]

  is_due-over :
      (r : String) (m : Manager H) (c : Option String) (log : Option Log) (now : ℤ)
      → find r m.windows ≡ window_of f hdr s d (record { contestant = c; log = log })
      → is_due f hdr (find r m.windows) now ≡ is_over f hdr s d log now
  is_due-over r m c none now h = rw h refl
  is_due-over r m c (some l) now h = rw h (figures-is_complete f hdr s d (or_empty c) l now)

  flush-published :
      (r : String) (m : Manager H) (run : Run) (now : ℤ) (keys : List String)
      → AreDistinct f hdr keys
      → Holds f hdr s d r m run
      → published_for r (report_all (check_completed f hdr s m now keys).1)
        ≡ (follow f hdr s d r run (flush now keys)).1
  unfolding follow
  flush-published r m run now keys distinct h =
      ap (λ snaps. published_for r (report_all snaps))
        (check_completed-due f hdr s m now keys distinct)
      ∙ published_for-due r now m keys distinct
      ∙ rw (is_due-over r m run.contestant run.log now h.0)
          (elim (Bool-cases (visited r keys && is_over f hdr s d run.log now)) [
            | inl t ↦ rw t (ap (reported r) h.0 ∙ reported-verdict r run.contestant run.log)
            | inr t ↦ rw t refl
          ])
    where
      reported-verdict :
          (r : String) (c : Option String) (log : Option Log)
          → reported r (window_of f hdr s d (record { contestant = c; log = log }))
            ≡ verdict f hdr s d r (record { contestant = c; log = log })
      reported-verdict r c none = refl
      reported-verdict r c (some l) = refl

  flush-Holds :
      (r : String) (m : Manager H) (run : Run) (now : ℤ) (keys : List String)
      → Holds f hdr s d r m run
      → Holds f hdr s d r
          (check_completed f hdr s m now keys).0
          (follow f hdr s d r run (flush now keys)).0
  unfolding follow
  flush-Holds r m run now keys h =
      let same = is_due-over r m run.contestant run.log now h.0 in
      elim (Bool-cases (visited r keys && is_over f hdr s d run.log now)) [
        | inl t ↦ (
          check_completed-windows f hdr s m now keys r ∙ rw (same, t) refl,
          check_completed-contestants f hdr s m now keys r ∙ rw (same, t) refl,
          check_completed-duration f hdr s m now keys ∙ h.2,
        )
        | inr t ↦ (
          check_completed-windows f hdr s m now keys r ∙ rw (same, t) h.0,
          check_completed-contestants f hdr s m now keys r ∙ rw (same, t) h.1,
          check_completed-duration f hdr s m now keys ∙ h.2,
        )
      ]

  -- A range over a map visits each of its keys once.
  abbrev pub Ranges : Round → Type 0
  Ranges (telemetry now e) = Unit
  Ranges (started e) = Unit
  Ranges (flush now keys) = AreDistinct f hdr keys

  consume-follow :
      (r : String) (m : Manager H) (run : Run) (x : Round)
      → Ranges x
      → Holds f hdr s d r m run
      → Holds f hdr s d r (consume f hdr s m x).0 (follow f hdr s d r run x).0
        × (published_for r (consume f hdr s m x).1 ≡ (follow f hdr s d r run x).1)
  unfolding consume on_telemetry on_started flush_completed follow
  consume-follow r m run (telemetry now fetch_error) x h = (h, refl)
  consume-follow r m run (telemetry now bad_message) x h = (h, refl)
  consume-follow r m run (telemetry now (event e)) x h =
      (add_event-Holds f hdr s d r m run now e h, ground arith)
  consume-follow r m run (started fetch_error) x h = (h, refl)
  consume-follow r m run (started bad_message) x h = (h, refl)
  consume-follow r m run (started (event e)) x h =
      (set_contestant_id-Holds f hdr s d r m run e h, ground arith)
  consume-follow r m run (flush now keys) x h =
      (flush-Holds r m run now keys h, flush-published r m run now keys x h)

  consume_all-follow_all :
      (r : String) (m : Manager H) (run : Run) (rounds : List Round)
      → All Ranges rounds
      → Holds f hdr s d r m run
      → (published_for r (consume_all f hdr s m rounds).1 ≡ (follow_all f hdr s d r run rounds).1)
        × Holds f hdr s d r (consume_all f hdr s m rounds).0 (follow_all f hdr s d r run rounds).0
  unfolding consume_all follow_all
  consume_all-follow_all r m run [] a h = (refl, h)
  consume_all-follow_all r m run (x ∷ xs) a h =
      let (h', same) = consume-follow r m run x a.0 h in
      let (rest, h'') =
        consume_all-follow_all r (consume f hdr s m x).0 (follow f hdr s d r run x).0 xs a.1 h' in
      (published_for-append r (consume f hdr s m x).1 _ ∙ rw (same, rest) refl, h'')

  -- In whatever order whole rounds of the telemetry, of run.started and of the flushes of many runs
  -- come, the ingester publishes for a run what that run by itself would have published, in that
  -- order, and it holds the window that the run by itself would have; where each flush visits each
  -- run at most once, and none falls between the two locked sections of `AddEvent` or of
  -- `SetContestantID`.
  pub consume_all_follows_each_run :
      (r : String) (rounds : List Round)
      → All Ranges rounds
      → (published_for r (consume_all f hdr s (new_manager H d) rounds).1
          ≡ (follow_all f hdr s d r (record { contestant = none; log = none }) rounds).1)
        × (find r (consume_all f hdr s (new_manager H d) rounds).0.windows
            ≡ window_of f hdr s d
                (follow_all f hdr s d r (record { contestant = none; log = none }) rounds).0)
  unfolding new_manager find
  consume_all_follows_each_run r rounds a =
      let (same, h) =
        consume_all-follow_all r (new_manager H d) (record { contestant = none; log = none }) rounds
          a (refl, refl, refl) in
      (same, h.0)
