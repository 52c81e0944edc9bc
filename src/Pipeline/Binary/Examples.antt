-- ===== src/Pipeline/Binary/Examples.antt =====
-- A submission and its sandbox, with another submission uploaded in between.
use trade_bench.Common.{
  ℕ, String, ◌≡◌, refl, sym, true, false, ◌&&◌, Option, none, some, List, [], ◌∷◌, arith,
  if◌then◌else◌, str_eq, str_refl, str_ne, str_iff,
}
use trade_bench.Common.Int.{pos, ◌+ℤ◌}
use trade_bench.Common.ObjectStore.{ObjectStore, StoreLaws}
use trade_bench.Submission.FileCheck.{validate, is_among}
use trade_bench.Submission.Upload as Up
use trade_bench.Submission.Upload.{UploadRequest, World, serve_upload, status_code, object_key}
use trade_bench.Submission.Upload.Outcome.{queued_event}
use trade_bench.Submission.Store.{upload, Sent, upload_all}
use trade_bench.Sandbox.Runner.{Poll, spawn_sandbox, wait_for_healthy}
use trade_bench.Sandbox.Consumer.{Config, process, pull}
use trade_bench.Sandbox.Puller.{Disk, files_of, local_file}
use trade_bench.Sandbox.DockerClient.{
  SandboxConfig, Api, TarFile, real_docker, inspect_container_ip,
}
use trade_bench.Sandbox.DockerClient.Address.{Holds}
use trade_bench.Common.Dict.{find}
use trade_bench.Pipeline.Binary.{over_store, binary_delivered}

abbrev shelf : ObjectStore
shelf = record {
  S = String → String → Option (List ℕ);
  bucket_exists = λ s b. some true;
  make_bucket = λ s b. (true, s);
  put_object = λ s bucket key content size.
      (true, λ b k. if str_eq b bucket && str_eq k key then some content else s b k);
  get_object = λ s b k. s b k;
}

shelf-StoreLaws : StoreLaws shelf
shelf-StoreLaws = record {
  get-put_same = λ s bucket key content h. rw (str_refl bucket, str_refl key) refl;
  get-put_other = λ s bucket key other content size d.
      rw (str_refl bucket, str_ne other key (λ e. d (sym e))) refl;
}

abbrev zip_upload : UploadRequest
zip_upload = record {
  method = "POST";
  form_parses = true;
  language = "go";
  contestant_id = "alice";
  file = some (record { filename = "a.zip"; content = some (80 ∷ 75 ∷ []) });
}

abbrev quiet : World ℕ
quiet = record { uuid = "aaaa"; now_ms = pos 0; store_accepts = false; meanwhile = [] }

abbrev other_upload : Sent
other_upload = record { id = "bbbb"; filename = "a.zip"; content = 81 ∷ [] }

abbrev disk : Disk
disk = record {
  mkdirs = true;
  creates = true;
  writes = true;
  chmods = true;
  reads = true;
  local_path = "/tmp/aaaa/binary";
}

abbrev limits : SandboxConfig
limits = record {
  image = "sandbox-base";
  runtime = "runsc";
  network = "sandbox-net";
  cpu_quota = pos 200000;
  cpu_period = pos 100000;
  memory = pos 536870912;
  memory_swap = pos 536870912;
  pids_limit = pos 256;
}

abbrev docker_api : Api
docker_api = record {
  creates = λ spec. some "c1";
  reads = none;
  header_ok = true;
  write_ok = true;
  close_ok = true;
  uploads = λ file. true;
  starts = true;
  inspects = some (record { networks = []; ip_address = "10.0.0.2" });
  removes = true;
}

abbrev healthy : List Poll
healthy = record { now = pos 5; status = some 200; cancelled = false } ∷ []

abbrev run_defaults : Config
run_defaults = record {
  network = "";
  target_rps = pos 100;
  duration_sec = pos 60;
  protocol = "rest";
}

binary_delivered_example :
    ((serve_upload
        (λ b. "application/zip")
        (λ b. "d")
        (pos 10)
        (over_store shelf (λ b k. none) "tradebench" quiet "a.zip" (80 ∷ 75 ∷ []))
        []
        zip_upload).effects
      ≡ Up.put_object (object_key "aaaa" "a.zip") (80 ∷ 75 ∷ []) (pos 2)
        ∷ Up.write_message
            (queued_event (λ b. "application/zip") (λ b. "d") (pos 10) quiet zip_upload "a.zip")
        ∷ [])
    × ((file : TarFile) × Holds file (80 ∷ 75 ∷ []) × (docker_api.uploads file ≡ true))
unfolding serve_upload status_code validate is_among upload process pull files_of local_file
    real_docker spawn_sandbox wait_for_healthy inspect_container_ip upload_all object_key find ◌+ℤ◌
binary_delivered_example =
    binary_delivered (λ b. "application/zip") (λ b. "d") (pos 10) shelf shelf-StoreLaws
      (λ b k. none) "tradebench" quiet [] zip_upload "a.zip" (80 ∷ 75 ∷ []) (other_upload ∷ []) true
      disk limits docker_api (pos 0) healthy "r" true run_defaults refl refl
      ((refl, (λ e. ground (arith, str_iff "bbbb" "aaaa"))), tt) refl
