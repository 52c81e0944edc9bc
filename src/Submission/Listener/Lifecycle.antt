-- ===== src/Submission/Listener/Lifecycle.antt =====
-- The life of a submission's status under the four loops of consumer/kafka.go.
use mathlib.Core.Bool.{false≢true}
use trade_bench.Common.Dict.{find}
use trade_bench.Common.{
  ◌≡◌, refl, sym, ◌∙◌, ◌≢◌, String, true, some, inl, inr, List, [], ◌∷◌, str_eq, str_refl, str_iff,
  str_ne, Bool-cases,
}
use trade_bench.Submission.Tracker.{
  running, completed, failed, Entry, Tracker, set, get, update_run, update_by_run_id,
  update_score_by_run_id,
}
use trade_bench.Submission.Tracker.Laws.{
  IsKeyed, set-IsKeyed, set_run_id-IsKeyed, update_run-IsKeyed, entry_after_set, get-set,
  get-set_run_id, get-set_run_id_other,
}
use trade_bench.Submission.Tracker.ByRun.{visited, IsOnlyRun, get-update_run, update_run-missing}
use trade_bench.Submission.Listener.{
  RunStartedEvent, Round, started, completes, scores, fails, fetch_error, bad_message, event,
  consume, run_rounds,
}

module _ {F : Type 0} where
  consume-IsKeyed :
      (keys : List String) (t : Tracker F) (r : Round F) → IsKeyed t → IsKeyed (consume keys t r).0
  unfolding consume update_by_run_id update_score_by_run_id
  consume-IsKeyed keys t (started fetch_error) h = h
  consume-IsKeyed keys t (started bad_message) h = h
  consume-IsKeyed keys t (started (event e)) h =
      set_run_id-IsKeyed _ e.submission_id e.run_id (set-IsKeyed t e.submission_id "" running h)
  consume-IsKeyed keys t (completes fetch_error) h = h
  consume-IsKeyed keys t (completes bad_message) h = h
  consume-IsKeyed keys t (completes (event e)) h =
      update_run-IsKeyed (λ x. record x { status = completed }) keys t e.run_id (λ x. refl) h
  consume-IsKeyed keys t (scores fetch_error) h = h
  consume-IsKeyed keys t (scores bad_message) h = h
  consume-IsKeyed keys t (scores (event e)) h =
      update_run-IsKeyed (λ x. record x { score = some e.score }) keys t e.run_id (λ x. refl) h
  consume-IsKeyed keys t (fails fetch_error) h = h
  consume-IsKeyed keys t (fails bad_message) h = h
  consume-IsKeyed keys t (fails (event e)) h = set-IsKeyed t e.submission_id "" failed h

  run_rounds_from-IsKeyed :
      (t : Tracker F) (rs : List (List String × Round F)) → IsKeyed t → IsKeyed (run_rounds t rs)
  unfolding run_rounds
  run_rounds_from-IsKeyed t [] h = h
  run_rounds_from-IsKeyed t ((keys, r) ∷ rs) h =
      run_rounds_from-IsKeyed (consume keys t r).0 rs (consume-IsKeyed keys t r h)

  -- Under every interleaving of the four loops, from the empty tracker, each entry stands under
  -- its own submission id.
  run_rounds-IsKeyed :
      (rs : List (List String × Round F)) (k : String) (e : Entry F)
      → get (run_rounds [] rs) k ≡ some e
      → e.submission_id ≡ k
  unfolding get
  run_rounds-IsKeyed rs k e q = run_rounds_from-IsKeyed [] rs (λ j x h. none_found j x h) k e q
    where
      none_found : (j : String) (x : Entry F) → find j [] ≡ some x → x.submission_id ≡ j
      none_found j x h = unfold find in cc

  -- What run.started leaves for its submission.
  abbrev pub started_entry : Tracker F → RunStartedEvent → Entry F
  started_entry t e = record (entry_after_set (get t e.submission_id) e.submission_id "" running) {
    run_id = e.run_id;
  }

  pub get-started :
      (keys : List String) (t : Tracker F) (e : RunStartedEvent)
      → get (consume keys t (started (event e))).0 e.submission_id ≡ some (started_entry t e)
  unfolding consume
  get-started keys t e =
      get-set_run_id (set t e.submission_id "" running) e.submission_id e.run_id
        (entry_after_set (get t e.submission_id) e.submission_id "" running)
        (rw (get-set t e.submission_id e.submission_id "" running, str_refl e.submission_id))

  started-other :
      (keys : List String) (t : Tracker F) (e : RunStartedEvent) (j : String)
      → e.submission_id ≢ j
      → get (consume keys t (started (event e))).0 j ≡ get t j
  unfolding consume
  started-other keys t e j n =
      get-set_run_id_other (set t e.submission_id "" running) e.submission_id j e.run_id n
      ∙ rw (get-set t e.submission_id j "" running, str_ne e.submission_id j n)

  -- Only the entry of the submission changed, so no other one got the run id.
  IsOnlyRun-step :
      (t u : Tracker F) (id run : String)
      → ((j : String) → id ≢ j → get u j ≡ get t j)
      → IsOnlyRun t id run
      → IsOnlyRun u id run
  IsOnlyRun-step t u id run same only k x q h = elim (Bool-cases (str_eq id k)) [
    | inl s ↦ sym ((str_iff id k).0 s)
    | inr s ↦ only k x (sym (same k (λ p. false≢true (sym s ∙ (str_iff id k).1 p))) ∙ q) h
  ]

  update_run_step :
      (f : Entry F → Entry F) (keys : List String) (t : Tracker F) (id run : String) (e : Entry F)
      → get t id ≡ some e
      → e.run_id ≡ run
      → IsOnlyRun t id run
      → visited id keys ≡ true
      → (get (update_run f keys t run) id ≡ some (f e)) × IsOnlyRun (update_run f keys t run) id run
  update_run_step f keys t id run e q r only v = (
    get-update_run f keys t id run e q r only v id ∙ rw (str_refl id),
    IsOnlyRun-step t (update_run f keys t run) id run
        (λ j n. get-update_run f keys t id run e q r only v j ∙ rw (str_ne id j n)) only,
  )

  -- Started, completed and scored: where no other submission has the run id and each range visits
  -- the submission, its entry ends completed, with the run id and the score, its contestant kept.
  pub lifecycle_done :
      (t : Tracker F) (e : RunStartedEvent) (c : String) (score : F)
      (keys keys' keys'' : List String)
      → IsOnlyRun t e.submission_id e.run_id
      → visited e.submission_id keys' ≡ true
      → visited e.submission_id keys'' ≡ true
      → get
          (run_rounds t (
            (keys, started (event e))
            ∷ (keys', completes (event (record { run_id = e.run_id })))
            ∷ (
              keys'',
              scores (event (record { contestant_id = c; run_id = e.run_id; score = score })),
            )
            ∷ []))
          e.submission_id
        ≡ some (record (started_entry t e) { status = completed; score = some score })
  unfolding run_rounds consume update_by_run_id update_score_by_run_id
  lifecycle_done t e c score keys keys' keys'' only v v' =
      let t' = (consume keys t (started (event e))).0 in
      let (q, only') =
        update_run_step (λ x. record x { status = completed }) keys' t' e.submission_id e.run_id
          (started_entry t e) (get-started keys t e) refl
          (IsOnlyRun-step t t' e.submission_id e.run_id (started-other keys t e) only) v in
      (update_run_step (λ x. record x { score = some score }) keys'' _ e.submission_id e.run_id
        (record (started_entry t e) { status = completed }) q refl only' v').0

  -- A run.completed that is consumed before its run.started changes nothing and is committed: the
  -- submission then stays running. The four topics are read by separate goroutines.
  pub early_completion-lost :
      (t : Tracker F) (e : RunStartedEvent) (keys keys' : List String)
      → ((k : String) (x : Entry F) → get t k ≡ some x → x.run_id ≢ e.run_id)
      → (get
            (run_rounds t (
              (keys, completes (event (record { run_id = e.run_id })))
              ∷ (keys', started (event e))
              ∷ []))
            e.submission_id
          ≡ some (started_entry t e))
        × ((consume keys t (completes (event (record { run_id = e.run_id })))).1 ≡ true)
  unfolding run_rounds consume update_by_run_id
  early_completion-lost t e keys keys' no_run = (
    rw (update_run-missing (λ x. record x { status = completed }) keys t e.run_id no_run)
        (get-started keys' t e),
    refl,
  )
