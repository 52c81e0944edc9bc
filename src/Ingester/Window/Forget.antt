-- ===== src/Ingester/Window/Forget.antt =====
-- What `CheckCompleted` of window.go leaves of the contestants, and of the default duration.
use trade_bench.Common.{
  ◌≡◌, refl, ◌∙◌, ◌&&◌, none, String, List, [], ◌∷◌, arith, if◌then◌else◌, str_eq, str_iff,
}
use trade_bench.Common.Int.{ℤ}
use trade_bench.Common.Dict.{find, find-delete}
use trade_bench.Common.Float.{Float}
use trade_bench.Common.Sort.{SortSlice}
use trade_bench.Ingester.Histogram.{Hdr}
use trade_bench.Ingester.Window.{RunSnapshot, Manager, check_run, check_runs, check_completed}
use trade_bench.Ingester.Window.Completion.{visited, is_due, check_run-windows}

module _ (f : Float) (hdr : Hdr f.F) where
  open hdr use {H}

  check_run-contestants :
      (s : SortSlice) (now : ℤ) (j k : String) (m : Manager H) (done : List (RunSnapshot f.F))
      → find k (check_run f hdr s now j (m, done)).0.contestant_ids ≡ (
          if str_eq j k && is_due f hdr (find j m.windows) now
          then none
          else find k m.contestant_ids)
  unfolding check_run
  check_run-contestants s now j k m done = ground (arith, find-delete j k m.contestant_ids)

  check_runs-contestants :
      (s : SortSlice) (now : ℤ) (k : String) (keys : List String) (m : Manager H)
      (done : List (RunSnapshot f.F))
      → find k (check_runs f hdr s now keys (m, done)).0.contestant_ids ≡ (
          if visited k keys && is_due f hdr (find k m.windows) now
          then none
          else find k m.contestant_ids)
  unfolding check_runs
  check_runs-contestants s now k [] m done = refl
  check_runs-contestants s now k (j ∷ js) m done =
      let (m', done') = check_run f hdr s now j (m, done) in
      ground (
        arith,
        str_iff j k,
        check_run-windows f hdr s now j k m done,
        check_run-contestants s now j k m done,
        check_runs-contestants s now k js m' done',
      )

  check_run-duration :
      (s : SortSlice) (now : ℤ) (j : String) (m : Manager H) (done : List (RunSnapshot f.F))
      → (check_run f hdr s now j (m, done)).0.default_duration_sec ≡ m.default_duration_sec
  unfolding check_run
  check_run-duration s now j m done = ground arith

  check_runs-duration :
      (s : SortSlice) (now : ℤ) (keys : List String) (m : Manager H) (done : List (RunSnapshot f.F))
      → (check_runs f hdr s now keys (m, done)).0.default_duration_sec ≡ m.default_duration_sec
  unfolding check_runs
  check_runs-duration s now [] m done = refl
  check_runs-duration s now (j ∷ js) m done =
      let (m', done') = check_run f hdr s now j (m, done) in
      check_runs-duration s now js m' done' ∙ check_run-duration s now j m done

  -- The contestants of the runs that are closed are forgotten, and no other.
  pub check_completed-contestants :
      (s : SortSlice) (m : Manager H) (now : ℤ) (keys : List String) (k : String)
      → find k (check_completed f hdr s m now keys).0.contestant_ids ≡ (
          if visited k keys && is_due f hdr (find k m.windows) now
          then none
          else find k m.contestant_ids)
  unfolding check_completed
  check_completed-contestants s m now keys k = check_runs-contestants s now k keys m []

  pub check_completed-duration :
      (s : SortSlice) (m : Manager H) (now : ℤ) (keys : List String)
      → (check_completed f hdr s m now keys).0.default_duration_sec ≡ m.default_duration_sec
  unfolding check_completed
  check_completed-duration s m now keys = check_runs-duration s now keys m []
