-- ===== src/Submission/Upload.antt =====
-- apps/submission/internal/handler/upload.go, with store/minio.go and queue/kafka.go as it calls
-- them, and the status route of apps/submission/cmd/main.go. A request is what net/http makes of
-- it; the object store and Kafka answer by flags. The listeners of consumer/kafka.go run beside the
-- handler: `meanwhile` are their rounds between the publication of the event and the last `Set`.
pub mod Outcome
mod Examples
use Prim.Native.String.{◌++◌ as append}
use trade_bench.Common.{
  ℕ, ◌+◌, ◌*◌, String, Bool, true, false, not, ◌||◌, Option, none, some, List, [], ◌∷◌,
  if◌then◌else◌, str_eq,
}
use trade_bench.Common.Int.{ℤ, pos, negsuc, ◌+ℤ◌, wrap_64}
use trade_bench.Submission.Tracker.{Entry, Tracker, queued, set, get}
use trade_bench.Submission.FileCheck.{
  ValidationResult, FileError, valid, refused, Checked, validate,
}
use trade_bench.Submission.Listener.{Round, run_rounds}

-- `int64(maxFileSizeMB) * 1024 * 1024`; `negsuc n` is the number -(n + 1).
unfoldable pub max_file_bytes : ℤ → ℤ
max_file_bytes (pos mb) = wrap_64 (pos (mb * 1024 * 1024))
max_file_bytes (negsuc n) = wrap_64 (negsuc (n * 1024 * 1024 + 1_048_575))

-- The form file: its name, and its content unless reading it failed.
pub record FormFile : Type 0 where
  pub filename : String
  pub content : Option (List ℕ)

pub record UploadRequest : Type 0 where
  pub method : String
  -- Whether the multipart form parses within the size limit of the body.
  pub form_parses : Bool
  pub language : String
  pub contestant_id : String
  pub file : Option FormFile

pub record SubmissionEvent : Type 0 where
  pub submission_id : String
  pub contestant_id : String
  pub s3_key : String
  pub language : String
  pub submitted_at : ℤ

-- What the handler asks of the object store and of Kafka.
pub data Effect : Type 0 where
  put_object : String → List ℕ → ℤ → Effect
  write_message : SubmissionEvent → Effect

pub data Reply : Type 0 where
  method_not_allowed bad_form fields_required file_required read_error store_error : Reply
  bad_file : FileError → Reply
  accepted : String → String → Reply

unfoldable pub status_code : Reply → ℕ
status_code method_not_allowed = 405
status_code bad_form = 400
status_code fields_required = 400
status_code file_required = 400
status_code read_error = 500
status_code (bad_file e) = 400
status_code store_error = 500
status_code (accepted id hash) = 202

-- What the environment decides: the new id, the clock, whether the store takes the object, and
-- what the listeners do meanwhile. Whether Kafka takes the event changes nothing but the log.
pub record World (F : Type 0) : Type 0 where
  pub uuid : String
  pub now_ms : ℤ
  pub store_accepts : Bool
  pub meanwhile : List (List String × Round F)

pub record Served (F : Type 0) : Type 0 where
  pub tracker : Tracker F
  pub effects : List Effect
  pub reply : Reply

-- `MinIO.Upload`: the object's key.
unfoldable pub object_key : String → String → String
object_key id filename = append "submissions/" (append id (append "/" filename))

module _ {F : Type 0} where
  refuse : Tracker F → Reply → Served F
  refuse t r = record { tracker = t; effects = []; reply = r }

  -- From the store on.
  store_and_queue :
      World F → Tracker F → UploadRequest → String → List ℕ → ValidationResult → Served F
  store_and_queue w t r filename content result =
      let key = object_key w.uuid filename in
      let stored = put_object key content result.size in
      let event : SubmissionEvent = record {
        submission_id = w.uuid;
        contestant_id = r.contestant_id;
        s3_key = key;
        language = r.language;
        submitted_at = w.now_ms;
      } in
      if not w.store_accepts
      then record { tracker = t; effects = stored ∷ []; reply = store_error }
      else record {
        tracker = set (run_rounds t w.meanwhile) w.uuid r.contestant_id queued;
        effects = stored ∷ write_message event ∷ [];
        reply = accepted w.uuid result.hash;
      }

  after_check : World F → Tracker F → UploadRequest → String → List ℕ → Checked → Served F
  unfolding store_and_queue refuse
  after_check w t r filename content (refused e) = refuse t (bad_file e)
  after_check w t r filename content (valid result) = store_and_queue w t r filename content result

  with_file :
      (detect sha256_hex : List ℕ → String)
      → ℤ
      → World F
      → Tracker F
      → UploadRequest
      → Option FormFile
      → Served F
  unfolding after_check refuse
  with_file detect sha256_hex max w t r none = refuse t file_required
  with_file detect sha256_hex max w t r (some file) = elim file.content [
    | none ↦ refuse t read_error
    | some content ↦
        after_check w t r file.filename content (validate detect sha256_hex content r.language max)
  ]

  -- `ServeHTTP`, for a limit of `max` bytes.
  unfoldable pub serve_upload :
      (detect sha256_hex : List ℕ → String) → ℤ → World F → Tracker F → UploadRequest → Served F
  unfolding with_file refuse
  serve_upload detect sha256_hex max w t r =
      if not (str_eq r.method "POST")
      then refuse t method_not_allowed
      else if not r.form_parses
      then refuse t bad_form
      else if str_eq r.language "" || str_eq r.contestant_id ""
      then refuse t fields_required
      else with_file detect sha256_hex max w t r r.file

pub data StatusReply (F : Type 0) : Type 0 where
  wrong_method id_required not_found : StatusReply F
  found : Entry F → StatusReply F

-- The route for `/api/v1/submissions/` + id.
unfoldable pub serve_status : {F : Type 0} → Tracker F → String → String → StatusReply F
serve_status t method id =
    if not (str_eq method "GET")
    then wrong_method
    else if str_eq id ""
    then id_required
    else elim (get t id) [ none ↦ not_found | some e ↦ found e ]
