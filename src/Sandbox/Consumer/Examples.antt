-- ===== src/Sandbox/Consumer/Examples.antt =====
-- One submission, whose sandbox answers at the second poll, and its run.
use Prim.Native.String.{◌++◌ as append}
use trade_bench.Common.{String, ◌≡◌, ◌⊎◌, true, false, some, none, [], ◌∷◌, ◌++◌, List}
use trade_bench.Common.Int.{pos, ◌+ℤ◌}
use trade_bench.Sandbox.Runner.{Docker, Poll, spawn_sandbox, wait_for_healthy}
use trade_bench.Sandbox.Runner.Teardown.{IsClean, spawn_sandbox-IsClean}
use trade_bench.Sandbox.Consumer.{
  SubmissionEvent, Config, Files, World, Effect, commit, publish_failed, process, pull, work,
}
use trade_bench.Sandbox.Consumer.Accounts.{Leaves, announcement, work-Leaves}
use trade_bench.Common.{not, ◌&&◌, str_eq, str_ne, refl}
use trade_bench.Sandbox.Consumer.Publisher.{KafkaWriter, sent}
use trade_bench.Sandbox.Consumer.Unheard.{IsExclusive, sent-work_of_failure}

abbrev polls : List Poll
polls =
    record { now = pos 5; status = none; cancelled = false }
    ∷ record { now = pos 200_000_000; status = some 200; cancelled = false }
    ∷ []

abbrev docker : Docker
docker = record {
  created = some "c1";
  copies = true;
  starts = true;
  ip = some "10.0.0.2";
  probing_from = pos 0;
  polls = polls;
  removes = true;
}

abbrev files : Files
files = record {
  gets = true;
  mkdirs = true;
  creates = true;
  downloads = true;
  chmods = true;
  local_path = "/tmp/s/binary";
}

-- Kafka refuses the announcement of the run.
abbrev refusing : World
refusing = record { files = files; docker = docker; run_id = "r"; publishes = false }

abbrev config : Config
config = record { network = "net"; target_rps = pos 100; duration_sec = pos 60; protocol = "http" }

abbrev submission : SubmissionEvent
submission = record {
  submission_id = "s";
  contestant_id = "c";
  s3_key = "submissions/s/a";
  language = "go";
  submitted_at = pos 1;
}

spawn_sandbox-IsClean_example : IsClean docker (spawn_sandbox docker "net" "s" "/tmp/s/binary" "go")
spawn_sandbox-IsClean_example = spawn_sandbox-IsClean docker "net" "s" "/tmp/s/binary" "go"

work-Leaves_example :
    ((id : String) × (ip : String) × (docker.created ≡ some id)
      × (docker.ip ≡ some ip)
      × (refusing.publishes ≡ true)
      × Leaves
          (work refusing config submission)
          (id ∷ [])
          (id ∷ [])
          (announcement refusing config submission (append ip ":8080") ∷ [])
          [])
    ⊎ (Leaves (work refusing config submission) [] [] [] (submission.submission_id ∷ [])
        ⊎ (((id : String) × (docker.created ≡ some id)
              × (docker.removes ≡ false)
              × Leaves
                  (work refusing config submission)
                  (id ∷ [])
                  []
                  []
                  (submission.submission_id ∷ []))
            ⊎ ((id : String) × (docker.created ≡ some id)
                × (refusing.publishes ≡ false)
                × Leaves
                    (work refusing config submission)
                    (id ∷ [])
                    []
                    []
                    (submission.submission_id ∷ []))))
work-Leaves_example = work-Leaves refusing config submission

abbrev exclusive_writer : KafkaWriter
exclusive_writer = record { accepts = λ t m. not (not (str_eq t "") && not (str_eq m "")) }

exclusive_writer-IsExclusive : IsExclusive exclusive_writer
exclusive_writer-IsExclusive t m p q = rw (str_ne t "" p, str_ne m "" q) refl

sent-work_of_failure_example :
    (sent exclusive_writer "run.started" "submission.failed" (work refusing config submission) ≡ [])
    × ((es : List Effect) × (work refusing config submission ≡ es ++ commit ∷ []))
unfolding process pull spawn_sandbox wait_for_healthy ◌+ℤ◌
sent-work_of_failure_example =
    sent-work_of_failure exclusive_writer "run.started" "submission.failed" refusing config
      submission publish_failed exclusive_writer-IsExclusive (λ e. cc e) (λ e. cc e) refl
