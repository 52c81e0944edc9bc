-- ===== src/Submission/Listener/Examples.antt =====
-- The tracker and its listeners at concrete events.
use trade_bench.Common.{ℕ, ◌≡◌, refl, ◌≢◌, arith, str_iff, String, true, some, none, [], ◌∷◌}
use trade_bench.Common.Dict.{find, put}
use trade_bench.Submission.Tracker.{
  queued, completed, Entry, Tracker, get, set, set_run_id, update_by_run_id, update_score_by_run_id,
  update_run,
}
use trade_bench.Submission.Listener.{
  RunStartedEvent, started, completes, scores, event, consume, run_rounds,
}
use trade_bench.Submission.Listener.Lifecycle.{started_entry, lifecycle_done, early_completion-lost}

abbrev waiting : Entry ℕ
waiting = record {
  submission_id = "s";
  contestant_id = "alice";
  status = queued;
  run_id = "";
  score = none;
}

abbrev one_waiting : Tracker ℕ
one_waiting = ("s", waiting) ∷ []

abbrev start : RunStartedEvent
start = record { run_id = "r"; submission_id = "s" }

only_entry : (k : String) (x : Entry ℕ) → get one_waiting k ≡ some x → x.run_id ≢ "r"
unfolding get find
only_entry k x h e = ground (arith, str_iff "" "r")

run_life :
    get
      (run_rounds one_waiting (
        ([], started (event start))
        ∷ ("s" ∷ [], completes (event (record { run_id = "r" })))
        ∷ ("s" ∷ [], scores (event (record { contestant_id = "alice"; run_id = "r"; score = 90 })))
        ∷ []))
      "s"
    ≡ some (record waiting { status = completed; run_id = "r"; score = some 90 })
unfolding run_rounds consume set set_run_id update_by_run_id update_score_by_run_id update_run get
    find put
run_life = refl

lifecycle_done_example :
    get
      (run_rounds one_waiting (
        ([], started (event start))
        ∷ ("s" ∷ [], completes (event (record { run_id = "r" })))
        ∷ ("s" ∷ [], scores (event (record { contestant_id = "alice"; run_id = "r"; score = 90 })))
        ∷ []))
      "s"
    ≡ some (record (started_entry one_waiting start) { status = completed; score = some 90 })
lifecycle_done_example =
    lifecycle_done one_waiting start "alice" 90 [] ("s" ∷ []) ("s" ∷ [])
      (λ k x h e. absurd (only_entry k x h e)) refl refl

early_completion-lost_example :
    (get
        (run_rounds one_waiting
          (([], completes (event (record { run_id = "r" }))) ∷ ([], started (event start)) ∷ []))
        "s"
      ≡ some (started_entry one_waiting start))
    × ((consume [] one_waiting (completes (event (record { run_id = "r" })))).1 ≡ true)
early_completion-lost_example = early_completion-lost one_waiting start [] [] only_entry
