-- ===== src/Submission/Upload/Outcome.antt =====
-- What an upload leaves behind (upload.go): in the store, in Kafka and in the status tracker.
use trade_bench.Common.{
  ℕ, String, ◌≡◌, ◌≢◌, refl, ap, ◌∙◌, ◌⊎◌, ◌||◌, str_ne, inl, inr, true, false, Option, none, some,
  List, [], ◌∷◌, arith, length, str_eq, str_refl, Bool-cases, Option-cases,
}
use trade_bench.Common.Int.{ℤ, pos, ◌≤ℤ◌}
use trade_bench.Submission.Tracker.{Tracker, queued, set, get}
use trade_bench.Submission.Tracker.Laws.{get-set}
use trade_bench.Submission.FileCheck.{
  is_among, allowed_languages, allowed_mime, valid, refused, Checked, validate,
}
use trade_bench.Submission.FileCheck.Laws.{validate_iff}
use trade_bench.Submission.Listener.{RunStartedEvent, started, event, consume, run_rounds}
use trade_bench.Submission.Listener.Lifecycle.{started_entry, get-started}
use trade_bench.Submission.Upload.{
  UploadRequest, FormFile, put_object, write_message, SubmissionEvent, accepted, status_code, World,
  Served, object_key, serve_upload, after_check, with_file,
}

module _ {F : Type 0} (detect sha256_hex : List ℕ → String) (max : ℤ) where
  -- The event that an accepted upload publishes.
  abbrev pub queued_event : World F → UploadRequest → String → SubmissionEvent
  queued_event w r filename = record {
    submission_id = w.uuid;
    contestant_id = r.contestant_id;
    s3_key = object_key w.uuid filename;
    language = r.language;
    submitted_at = w.now_ms;
  }

  abbrev pub IsRefusal : World F → Tracker F → UploadRequest → Served F → Type 0
  IsRefusal w t r out =
      (status_code out.reply ≢ 202)
      × (out.tracker ≡ t)
      × ((out.effects ≡ [])
          ⊎ ((filename : String) × (content : List ℕ) × (r.file
                ≡ some (record { filename = filename; content = some content }))
              × (out.effects
                  ≡ put_object (object_key w.uuid filename) content (pos (length content)) ∷ [])
              × (w.store_accepts ≡ false)))

  abbrev pub IsAcceptance : World F → Tracker F → UploadRequest → Served F → Type 0
  IsAcceptance w t r out =
      (filename : String) × (content : List ℕ) × (r.file
        ≡ some (record { filename = filename; content = some content }))
      × (out.reply ≡ accepted w.uuid (sha256_hex content))
      × (is_among r.language allowed_languages ≡ true)
      × (pos (length content) ≤ℤ max)
      × (is_among (detect content) allowed_mime ≡ true)
      × (w.store_accepts ≡ true)
      × (out.effects
          ≡ put_object (object_key w.uuid filename) content (pos (length content))
            ∷ write_message (queued_event w r filename)
            ∷ [])
      × (out.tracker ≡ set (run_rounds t w.meanwhile) w.uuid r.contestant_id queued)

  after_check-cases :
      (w : World F) (t : Tracker F) (r : UploadRequest) (name : String) (content : List ℕ)
      (c : Checked)
      → r.file ≡ some (record { filename = name; content = some content })
      → validate detect sha256_hex content r.language max ≡ c
      → IsRefusal w t r (after_check w t r name content c)
        ⊎ IsAcceptance w t r (after_check w t r name content c)
  unfolding after_check status_code
  after_check-cases w t r name content (refused e) f v = inl (omega arith, refl, inl refl)
  after_check-cases w t r name content (valid result) f v =
      let ok = (validate_iff detect sha256_hex content r.language max result).0 v in
      elim (Bool-cases w.store_accepts) [
        | inl s ↦ rw (s, ok.3) (inr (name, content, f, refl, ok.0, ok.1, ok.2, refl, refl, refl))
        | inr s ↦ rw (s, ok.3) (inl (omega arith, refl, inr (name, content, f, refl, refl)))
      ]

  with_file-cases :
      (w : World F) (t : Tracker F) (r : UploadRequest) (file : Option FormFile)
      → r.file ≡ file
      → IsRefusal w t r (with_file detect sha256_hex max w t r file)
        ⊎ IsAcceptance w t r (with_file detect sha256_hex max w t r file)
  unfolding with_file status_code
  with_file-cases w t r none f = inl (omega arith, refl, inl refl)
  with_file-cases w t r (some file) f = elim (Option-cases file.content) [
    | inl n ↦ rw (n, with_file) (inl (omega arith, refl, inl refl))
    | inr (content, q) ↦
        rw (q, with_file)
          (after_check-cases w t r file.filename content
            (validate detect sha256_hex content r.language max)
            (f ∙ ap (λ c. some (record file { content = c })) q) refl)
  ]

  -- An upload is either refused with another code than 202, leaves the tracker alone, and hands
  -- nothing to the store or to Kafka, or only its file to the store, which refuses it; or it is answered 202, its file passed every check and was stored, the event
  -- was handed to Kafka after that, and only then the tracker was set to queued.
  pub serve_upload-cases :
      (w : World F) (t : Tracker F) (r : UploadRequest)
      → IsRefusal w t r (serve_upload detect sha256_hex max w t r)
        ⊎ IsAcceptance w t r (serve_upload detect sha256_hex max w t r)
  unfolding serve_upload status_code
  serve_upload-cases w t r = elim (Bool-cases (str_eq r.method "POST")) [
    | inr n ↦ rw n (inl (omega arith, refl, inl refl))
    | inl p ↦ rw p (elim (Bool-cases r.form_parses) [
      | inr n ↦ rw n (inl (omega arith, refl, inl refl))
      | inl q ↦ rw q (elim (Bool-cases (str_eq r.language "" || str_eq r.contestant_id "")) [
        | inl n ↦ rw n (inl (omega arith, refl, inl refl))
        | inr n ↦ rw n (with_file-cases w t r r.file refl)
      ])
    ])
  ]

  -- Where the sandbox is fast enough that run.started is consumed before the handler's last call,
  -- that call puts the submission back to queued, with the run id of a run already under way.
  pub fast_start-queued :
      (w : World F) (t : Tracker F) (r : UploadRequest) (keys : List String) (run : String)
      → let e : RunStartedEvent = record { run_id = run; submission_id = w.uuid } in
        w.meanwhile ≡ (keys, started (event e)) ∷ []
        → status_code (serve_upload detect sha256_hex max w t r).reply ≡ 202
        → r.contestant_id ≢ ""
        → get (serve_upload detect sha256_hex max w t r).tracker w.uuid
          ≡ some (record (started_entry t e) { status = queued; contestant_id = r.contestant_id })
  unfolding run_rounds
  fast_start-queued w t r keys run m ok named = elim (serve_upload-cases w t r) [
    | inl no_good ↦ absurd (no_good.0 ok)
    | inr good ↦
        let e : RunStartedEvent = record { run_id = run; submission_id = w.uuid } in
        let before = (consume keys t (started (event e))).0 in
        rw (good.9, m)
          (get-set before w.uuid w.uuid r.contestant_id queued
            ∙ rw (str_refl w.uuid, get-started keys t e, str_ne r.contestant_id "" named))
  ]
