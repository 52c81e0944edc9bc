-- ===== src/Pipeline/Binary.antt =====
-- The file of a submission on its way: the upload handler, the object store, the queue, the puller
-- and the copy into the container.
mod Examples
use Prim.Native.String.{◌++◌ as append}
use mathlib.Core.Path.{ap₂, subst}
use trade_bench.Common.{
  ℕ, String, ◌≡◌, refl, sym, ap, ◌∙◌, ◌⊎◌, inl, inr, Bool, true, false, Option, none, some, List,
  [], ◌∷◌, arith, if◌then◌else◌, length, All, Bool-cases,
}
use trade_bench.Common.Int.{ℤ, pos}
use trade_bench.Common.ObjectStore.{ObjectStore, StoreLaws}
use trade_bench.Submission.Tracker.{Tracker}
use trade_bench.Submission.Upload as Up
use trade_bench.Submission.Upload.{UploadRequest, FormFile, serve_upload, status_code, object_key}
use trade_bench.Submission.Upload.Outcome.{queued_event, serve_upload-cases}
use trade_bench.Submission.Store.{upload, Sent, upload_all}
use trade_bench.Submission.Store.Keys.{IsOther, get-upload_all}
use trade_bench.Sandbox.Runner.{Poll, spawn_sandbox}
use trade_bench.Sandbox.Consumer as Box
use trade_bench.Sandbox.Consumer.{Config, process}
use trade_bench.Sandbox.Consumer.Announced.{spawned_of_announced}
use trade_bench.Sandbox.Puller.{Disk, is_there, files_of, local_file}
use trade_bench.Sandbox.DockerClient.{SandboxConfig, Api, TarFile, real_docker}
use trade_bench.Sandbox.DockerClient.Address.{Holds, spawn_sandbox-real_docker}

-- The event as the sandbox decodes it.
abbrev pub fetched : Up.SubmissionEvent → Box.SubmissionEvent
fetched e = record {
  submission_id = e.submission_id;
  contestant_id = e.contestant_id;
  s3_key = e.s3_key;
  language = e.language;
  submitted_at = e.submitted_at;
}

module _ (m : ObjectStore) where
  open m use {S}

  -- The handler's world, in which the store answers.
  abbrev pub over_store : {F : Type 0} → S → String → Up.World F → String → List ℕ → Up.World F
  over_store s bucket w name content = record w {
    store_accepts = is_there (upload m s bucket w.uuid name content (pos (length content))).0;
  }

  -- The store after the upload, and after the uploads of others.
  abbrev pub later : {F : Type 0} → S → String → Up.World F → String → List ℕ → List Sent → S
  later s bucket w name content others =
      upload_all m (upload m s bucket w.uuid name content (pos (length content))).1 bucket others

  -- The worker's world, in which the store and the Docker API answer.
  abbrev pub sandbox_world :
      S
      → String
      → Bool
      → Disk
      → SandboxConfig
      → Api
      → ℤ
      → List Poll
      → String
      → Bool
      → Box.SubmissionEvent
      → Box.World
  sandbox_world s bucket valid disk cfg api probing_from polls run_id publishes e = record {
    files = files_of m s bucket e.s3_key valid disk;
    docker =
        real_docker cfg (record api { reads = local_file m s bucket e.s3_key disk })
          (append "sandbox-" e.submission_id) e.language probing_from polls;
    run_id = run_id;
    publishes = publishes;
  }

  stored_of_accepted :
      (s : S) (bucket id name : String) (content : List ℕ)
      → StoreLaws m
      → is_there (upload m s bucket id name content (pos (length content))).0 ≡ true
      → m.get_object
          (upload m s bucket id name content (pos (length content))).1
          bucket
          (object_key id name)
        ≡ some content
  unfolding upload
  stored_of_accepted s bucket id name content laws h =
      laws.get-put_same s bucket (object_key id name) content (ground arith)

  local_file-some :
      (s : S) (bucket key : String) (disk : Disk) (content bytes : List ℕ)
      → m.get_object s bucket key ≡ some content
      → local_file m s bucket key disk ≡ some bytes
      → bytes ≡ content
  unfolding local_file
  local_file-some s bucket key disk content bytes g h = ground arith

module _ {F : Type 0} (detect sha256_hex : List ℕ → String) (max : ℤ) (m : ObjectStore) where
  -- What the handler asks of the store and of Kafka.
  abbrev effects_of : Up.World F → UploadRequest → String → List ℕ → List Up.Effect
  effects_of w r name content =
      Up.put_object (object_key w.uuid name) content (pos (length content))
      ∷ Up.write_message (queued_event detect sha256_hex max w r name)
      ∷ []

  -- An upload that is answered 202 put its file whole and queued the event for it; and when the run
  -- of that event is announced, whatever other submissions were uploaded in between and whatever the
  -- file system, Docker and Kafka answer, the container was sent an archive entry whose content is
  -- exactly the bytes of the file, under the name, the size and the mode of the program.
  -- The ids of the other submissions are of the same length and differ from its own, and the store
  -- does what it documents.
  pub binary_delivered :
      (laws : StoreLaws m) (s : m.S) (bucket : String) (w : Up.World F) (t : Tracker F)
      (r : UploadRequest) (name : String) (content : List ℕ) (others : List Sent) (valid : Bool)
      (disk : Disk) (cfg : SandboxConfig) (api : Api) (probing_from : ℤ) (polls : List Poll)
      (run_id : String) (publishes : Bool) (c : Config)
      → r.file ≡ some (record { filename = name; content = some content })
      → status_code
          (serve_upload detect sha256_hex max (over_store m s bucket w name content) t r).reply
        ≡ 202
      → All (IsOther w.uuid) others
      → let e = fetched (queued_event detect sha256_hex max w r name) in
        (process
            (sandbox_world m
              (later m s bucket w name content others)
              bucket
              valid
              disk
              cfg
              api
              probing_from
              polls
              run_id
              publishes
              e)
            (record c { network = cfg.network })
            e).0
          ≡ none
        → ((serve_upload detect sha256_hex max (over_store m s bucket w name content) t r).effects
            ≡ Up.put_object (object_key w.uuid name) content (pos (length content))
              ∷ Up.write_message (queued_event detect sha256_hex max w r name)
              ∷ [])
          × ((file : TarFile) × Holds file content × (api.uploads file ≡ true))
  binary_delivered laws s bucket w t r name content others valid disk cfg api probing_from polls
        run_id publishes c f ok apart announced =
      elim (serve_upload-cases detect sha256_hex max (over_store m s bucket w name content) t r) [
        | inl refused ↦ absurd (refused.0 ok)
        | inr good ↦
            let e = fetched (queued_event detect sha256_hex max w r name) in
            let stored = later m s bucket w name content others in
            let same : (name ≡ good.0) × (content ≡ good.1) =
              file_same name good.0 content good.1 (sym f ∙ good.2) in
            let (id, address, ran) =
              spawned_of_announced
                (sandbox_world m stored bucket valid disk cfg api probing_from polls run_id
                  publishes e)
                (record c { network = cfg.network }) e announced in
            let made =
              spawn_sandbox-real_docker cfg
                (record api { reads = local_file m stored bucket e.s3_key disk })
                (append "sandbox-" e.submission_id) e.language e.submission_id _ probing_from polls
                id address ran in
            let kept =
              get-upload_all m _ bucket w.uuid name others laws apart
              ∙ stored_of_accepted m s bucket w.uuid name content laws good.7 in
            let whole =
              local_file-some m stored bucket e.s3_key disk content made.1.0 kept made.1.1 in
            (
              good.8
                  ∙ ap₂ (λ n b. effects_of (record w { store_accepts = true }) r n b) (sym same.0)
                      (sym same.1),
              (made.1.2.0, subst (Holds made.1.2.0) whole made.1.2.1, made.1.2.2),
            )
      ]
    where
      file_same :
          (a b : String) (c d : List ℕ)
          → ◌≡◌ {A = Option FormFile}
              (some (record { filename = a; content = some c }))
              (some (record { filename = b; content = some d }))
          → (a ≡ b) × (c ≡ d)
      file_same a b c d h = (cc, cc)
