-- ===== src/Sandbox/Consumer/Unheard.antt =====
-- What is heard of a submission whose run could not be started.
use mathlib.Core.List.{append_assoc}
use trade_bench.Common.{
  String, ◌≡◌, ◌≢◌, refl, ap, sym, ◌∙◌, true, false, Option, none, some, List, [], ◌∷◌, ◌++◌, map,
  arith, Bool-cases, Option-cases, inl, inr,
}
use trade_bench.Sandbox.Runner.{Call, Spawned, spawned, spawn_failed, spawn_sandbox}
use trade_bench.Sandbox.Consumer.{
  SubmissionEvent, Config, World, Files, ProcessError, Effect, make_dir, docker_call, remove_dir,
  publish, publish_failure, terminate_later, commit, pull, announce, spawn_and_announce, process,
  finish, work,
}
use trade_bench.Sandbox.Consumer.Publisher.{
  KafkaWriter, Message, with_message, publish_started, publish_failed_event, sent,
}

-- The documented behaviour of kafka-go: a writer with a topic takes no message that has one too.
abbrev pub IsExclusive : KafkaWriter → Type 0
IsExclusive writer = (t m : String) → t ≢ "" → m ≢ "" → writer.accepts t m ≡ false

with_message-append :
    (o : Option Message) (ms ns : List Message)
    → with_message o (ms ++ ns) ≡ with_message o ms ++ ns
with_message-append none ms ns = refl
with_message-append (some m) ms ns = refl

module _ (writer : KafkaWriter) (topic failed_topic : String) where
  sent_all : List Effect → List Message
  sent_all es = sent writer topic failed_topic es

  sent-append : (es fs : List Effect) → sent_all (es ++ fs) ≡ sent_all es ++ sent_all fs
  unfolding sent_all
  sent-append [] fs = refl
  sent-append (publish event true ∷ es) fs =
      ap (with_message (publish_started writer topic event)) (sent-append es fs)
      ∙ with_message-append (publish_started writer topic event) (sent_all es) (sent_all fs)
  sent-append (publish event false ∷ es) fs = sent-append es fs
  sent-append (publish_failure id err ∷ es) fs =
      ap (with_message (publish_failed_event writer topic failed_topic id err)) (sent-append es fs)
      ∙ with_message-append (publish_failed_event writer topic failed_topic id err) (sent_all es)
          (sent_all fs)
  sent-append (make_dir id ∷ es) fs = sent-append es fs
  sent-append (remove_dir id ∷ es) fs = sent-append es fs
  sent-append (docker_call c ∷ es) fs = sent-append es fs
  sent-append (terminate_later id n ∷ es) fs = sent-append es fs
  sent-append (commit ∷ es) fs = sent-append es fs

  sent-docker_calls : (cs : List Call) → sent_all (map docker_call cs) ≡ []
  unfolding sent_all
  sent-docker_calls [] = refl
  sent-docker_calls (c ∷ cs) = sent-docker_calls cs

  sent-pull : (f : Files) (id : String) → sent_all (pull f id).1 ≡ []
  unfolding sent_all pull
  sent-pull f id = ground arith

  sent-spawn_and_announce :
      (w : World) (c : Config) (e : SubmissionEvent) (r : Spawned) (err : ProcessError)
      → (spawn_and_announce w c e r).0 ≡ some err
      → sent_all (spawn_and_announce w c e r).1 ≡ []
  unfolding sent_all spawn_and_announce announce
  sent-spawn_and_announce w c e (spawn_failed s) err h = refl
  sent-spawn_and_announce w c e (spawned id address) err h = elim (Bool-cases w.publishes) [
    | inl y ↦ absurd (ground arith)
    | inr n ↦ rw n refl
  ]

  sent-process :
      (w : World) (c : Config) (e : SubmissionEvent) (err : ProcessError)
      → (process w c e).0 ≡ some err
      → sent_all (process w c e).1 ≡ []
  unfolding process sent_all
  sent-process w c e err h = elim (Option-cases (pull w.files e.submission_id).0) [
    | inr (p, q) ↦ rw (q, process) (sent-pull w.files e.submission_id)
    | inl q ↦
        let (result, calls) =
          spawn_sandbox w.docker c.network e.submission_id w.files.local_path e.language in
        rw (q, process)
          (rw
            (
              sent-append _ (remove_dir e.submission_id ∷ []),
              sent-append _ (spawn_and_announce w c e result).1,
              sent-append _ (map docker_call calls),
              sent-pull w.files e.submission_id,
              sent-docker_calls calls,
              sent-spawn_and_announce w c e result err (rw (q, process) at h),
            )
            refl)
  ]

  -- A writer that is bound to a topic takes no failure for another: where the writer and the
  -- failures have a topic, nothing goes out of the worker of a submission that fails, neither the
  -- failure nor anything else; and the last thing that the worker does is to commit its message.
  pub sent-work_of_failure :
      (w : World) (c : Config) (e : SubmissionEvent) (err : ProcessError)
      → IsExclusive writer
      → topic ≢ ""
      → failed_topic ≢ ""
      → (process w c e).0 ≡ some err
      → (sent writer topic failed_topic (work w c e) ≡ [])
        × ((es : List Effect) × (work w c e ≡ es ++ commit ∷ []))
  unfolding work finish publish_failed_event sent_all
  sent-work_of_failure w c e err exclusive t u h = (
    sent-append (process w c e).1 (finish e.submission_id (process w c e).0)
        ∙ rw (h, finish) (rw (sent-process w c e err h, exclusive topic failed_topic t u) refl),
    (
      (process w c e).1 ++ publish_failure e.submission_id err ∷ [],
      ap (λ o. (process w c e).1 ++ finish e.submission_id o) h
          ∙ sym (
              append_assoc (process w c e).1 (publish_failure e.submission_id err ∷ [])
                (commit ∷ [])),
    ),
  )
