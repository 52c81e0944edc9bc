-- ===== src/Sandbox/Consumer.antt =====
-- apps/sandbox/internal/consumer/kafka.go with puller/minio.go and publisher/kafka.go beside it:
-- what the worker of one submission does. MinIO, the file system, Docker and Kafka answer through
-- the record World; the effects are a list in their order. The semaphore only bounds how many
-- workers run at once, and workers share nothing else.
pub mod Publisher
pub mod Unheard
pub mod Announced
pub mod Accounts
mod Examples
use trade_bench.Common.{
  ℕ, String, Bool, true, false, not, Option, none, some, List, [], ◌∷◌, ◌++◌, map, if◌then◌else◌,
}
use trade_bench.Common.Int.{ℤ, pos, ◌+ℤ◌, wrap_64}
use trade_bench.Sandbox.Runner.{
  Docker, Call, SpawnError, Spawned, spawned, spawn_failed, spawn_sandbox, terminate_sandbox,
}

pub record SubmissionEvent : Type 0 where
  pub submission_id : String
  pub contestant_id : String
  pub s3_key : String
  pub language : String
  pub submitted_at : ℤ

-- What a worker reads of the consumer's configuration, and the network of the runner's.
pub record Config : Type 0 where
  pub network : String
  pub target_rps : ℤ
  pub duration_sec : ℤ
  pub protocol : String

pub record RunStartedEvent : Type 0 where
  pub run_id : String
  pub submission_id : String
  pub contestant_id : String
  pub sandbox_address : String
  pub target_rps : ℤ
  pub duration_secs : ℤ
  pub protocol : String

pub data PullError : Type 0 where
  get_failed mkdir_failed file_failed download_failed chmod_failed : PullError

-- The answers of the calls that `Pull` makes, and the path of the local file.
pub record Files : Type 0 where
  pub gets : Bool
  pub mkdirs : Bool
  pub creates : Bool
  pub downloads : Bool
  pub chmods : Bool
  pub local_path : String

pub record World : Type 0 where
  pub files : Files
  pub docker : Docker
  pub run_id : String
  pub publishes : Bool

pub data ProcessError : Type 0 where
  pull_failed : PullError → ProcessError
  spawn_sandbox_failed : SpawnError → ProcessError
  publish_failed : ProcessError

pub data Effect : Type 0 where
  -- The submission's directory under the temporary root is made, or removed with what is in it.
  make_dir remove_dir : String → Effect
  docker_call : Call → Effect
  -- run.started is handed to Kafka, which takes it or not.
  publish : RunStartedEvent → Bool → Effect
  publish_failure : String → ProcessError → Effect
  -- A goroutine that terminates the container after so many seconds.
  terminate_later : String → ℤ → Effect
  commit : Effect

-- `Pull`: an error, or the path of the file. `MkdirAll` and what comes after it leave a directory.
unfoldable pub pull : Files → String → (Option PullError) × List Effect
pull f id =
    if not f.gets
    then (some get_failed, [])
    else if not f.mkdirs
    then (some mkdir_failed, [])
    else if not f.creates
    then (some file_failed, make_dir id ∷ [])
    else if not f.downloads
    then (some download_failed, make_dir id ∷ [])
    else if not f.chmods
    then (some chmod_failed, make_dir id ∷ [])
    else (none, make_dir id ∷ [])

-- `process` once the sandbox runs.
announce : World → Config → SubmissionEvent → String → String → (Option ProcessError) × List Effect
announce w c e container_id address =
    let run_event : RunStartedEvent = record {
      run_id = w.run_id;
      submission_id = e.submission_id;
      contestant_id = e.contestant_id;
      sandbox_address = address;
      target_rps = c.target_rps;
      duration_secs = c.duration_sec;
      protocol = c.protocol;
    } in
    if not w.publishes then (some publish_failed, publish run_event false ∷ []) else (
      none,
      publish run_event true
          ∷ terminate_later container_id (wrap_64 (c.duration_sec +ℤ pos 30))
          ∷ [],
    )

spawn_and_announce :
    World → Config → SubmissionEvent → Spawned → (Option ProcessError) × List Effect
unfolding announce
spawn_and_announce w c e (spawn_failed err) = (some (spawn_sandbox_failed err), [])
spawn_and_announce w c e (spawned container_id address) = announce w c e container_id address

-- `process`: its error and its effects. The clean-up is deferred once the pull has succeeded.
unfoldable pub process : World → Config → SubmissionEvent → (Option ProcessError) × List Effect
unfolding spawn_and_announce
process w c e =
    let (pulled, pulling) = pull w.files e.submission_id in
    elim pulled [
      | some err ↦ (some (pull_failed err), pulling)
      | none ↦
          let (result, calls) =
            spawn_sandbox w.docker c.network e.submission_id w.files.local_path e.language in
          let (err, rest) = spawn_and_announce w c e result in
          (err, pulling ++ map docker_call calls ++ rest ++ remove_dir e.submission_id ∷ [])
    ]

-- The end of the goroutine: a failure is handed to the publisher, and the message is committed in any case.
finish : String → Option ProcessError → List Effect
finish id none = commit ∷ []
finish id (some err) = publish_failure id err ∷ commit ∷ []

-- The goroutine of `Run` for one message that decodes.
unfoldable pub work : World → Config → SubmissionEvent → List Effect
unfolding process finish
work w c e = let (err, effects) = process w c e in effects ++ finish e.submission_id err
