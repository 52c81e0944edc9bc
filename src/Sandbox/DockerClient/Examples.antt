-- ===== src/Sandbox/DockerClient/Examples.antt =====
-- A container that has an address in the default network only.
use Prim.Native.String.{◌++◌ as append}
use trade_bench.Common.{ℕ, String, ◌≡◌, refl, true, false, some, List, [], ◌∷◌}
use trade_bench.Common.Int.{pos, ◌+ℤ◌}
use trade_bench.Common.Dict.{find}
use trade_bench.Sandbox.Runner.{Poll, spawn_sandbox, wait_for_healthy}
use trade_bench.Sandbox.DockerClient.{
  SandboxConfig, ContainerSpec, TarFile, Inspect, inspect_container_ip, Api, real_docker,
}
use trade_bench.Sandbox.DockerClient.Address.{
  HasAddress, IsConfined, Holds, spawn_sandbox-real_docker,
}

abbrev limits : SandboxConfig
limits = record {
  image = "sandbox-base";
  runtime = "runsc";
  network = "sandbox-net";
  cpu_quota = pos 200000;
  cpu_period = pos 100000;
  memory = pos 536870912;
  memory_swap = pos 536870912;
  pids_limit = pos 256;
}

abbrev api : Api
api = record {
  creates = λ spec. some "c1";
  reads = some (127 ∷ 69 ∷ []);
  header_ok = true;
  write_ok = true;
  close_ok = true;
  uploads = λ file. true;
  starts = true;
  inspects = some (record { networks = ("sandbox-net", "") ∷ []; ip_address = "10.0.0.2" });
  removes = true;
}

abbrev healthy : List Poll
healthy = record { now = pos 5; status = some 200; cancelled = false } ∷ []

spawn_sandbox-real_docker_example :
    ((spec : ContainerSpec) × IsConfined limits "sandbox-s" "go" spec
      × (api.creates spec ≡ some "c1"))
    × ((bytes : List ℕ) × (api.reads ≡ some bytes)
        × ((file : TarFile) × Holds file bytes × (api.uploads file ≡ true)))
    × ((i : Inspect) × (ip : String) × (api.inspects ≡ some i)
        × ("10.0.0.2:8080" ≡ append ip ":8080")
        × HasAddress i limits.network ip)
unfolding real_docker spawn_sandbox wait_for_healthy inspect_container_ip find ◌+ℤ◌
spawn_sandbox-real_docker_example =
    spawn_sandbox-real_docker limits api "sandbox-s" "go" "s" "/tmp/s/binary" (pos 0) healthy "c1"
      "10.0.0.2:8080" refl
