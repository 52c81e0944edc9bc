-- ===== src/Submission/Upload/Examples.antt =====
-- Uploads at concrete requests.
use trade_bench.Common.{ℕ, String, ◌≡◌, refl, ◌⊎◌, ◌↔◌, true, some, List, [], ◌∷◌, arith, str_iff}
use trade_bench.Common.Int.{pos, ◌≤ℤ◌}
use trade_bench.Submission.Tracker.{queued, get}
use trade_bench.Submission.FileCheck.{
  is_among, allowed_languages, allowed_mime, ValidationResult, valid, validate,
}
use trade_bench.Submission.FileCheck.Laws.{validate_iff}
use trade_bench.Submission.Listener.{RunStartedEvent, started, event}
use trade_bench.Submission.Listener.Lifecycle.{started_entry}
use trade_bench.Submission.Upload.{UploadRequest, World, status_code, serve_upload}
use trade_bench.Submission.Upload.Outcome.{
  IsRefusal, IsAcceptance, serve_upload-cases, fast_start-queued,
}

abbrev sniff : List ℕ → String
sniff bytes = "application/zip"

abbrev digest : List ℕ → String
digest bytes = "d"

abbrev zip_upload : UploadRequest
zip_upload = record {
  method = "POST";
  form_parses = true;
  language = "go";
  contestant_id = "alice";
  file = some (record { filename = "a.zip"; content = some (80 ∷ 75 ∷ []) });
}

abbrev start : RunStartedEvent
start = record { run_id = "r"; submission_id = "s" }

abbrev fast_world : World ℕ
fast_world = record {
  uuid = "s";
  now_ms = pos 0;
  store_accepts = true;
  meanwhile = ([], started (event start)) ∷ [];
}

abbrev checked : ValidationResult
checked = record { hash = "d"; mime = "application/zip"; size = pos 2 }

validate_iff_example : (validate sniff digest (80 ∷ 75 ∷ []) "go" (pos 10) ≡ valid checked) ↔ (
    (is_among "go" allowed_languages ≡ true)
    × (pos 2 ≤ℤ pos 10)
    × (is_among "application/zip" allowed_mime ≡ true)
    × (checked ≡ record { hash = "d"; mime = "application/zip"; size = pos 2 }))
validate_iff_example = validate_iff sniff digest (80 ∷ 75 ∷ []) "go" (pos 10) checked

serve_upload-cases_example :
    IsRefusal sniff digest
      (pos 10)
      fast_world
      []
      zip_upload
      (serve_upload sniff digest (pos 10) fast_world [] zip_upload)
    ⊎ IsAcceptance sniff digest
        (pos 10)
        fast_world
        []
        zip_upload
        (serve_upload sniff digest (pos 10) fast_world [] zip_upload)
serve_upload-cases_example = serve_upload-cases sniff digest (pos 10) fast_world [] zip_upload

fast_start-queued_example :
    get (serve_upload sniff digest (pos 10) fast_world [] zip_upload).tracker "s"
    ≡ some (record (started_entry [] start) { status = queued; contestant_id = "alice" })
unfolding serve_upload status_code validate is_among
fast_start-queued_example =
    fast_start-queued sniff digest (pos 10) fast_world [] zip_upload [] "r" refl refl
      (λ e. ground (arith, str_iff "alice" ""))
