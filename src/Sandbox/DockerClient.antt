-- ===== src/Sandbox/DockerClient.antt =====
-- apps/sandbox/internal/runner/docker_linux.go and docker_other.go: what the runner's calls of its
-- client ask of the Docker API, whose answers are an argument. Docker's ids have 64 characters, so
-- the slices of 12 for the log are in range.
pub mod Address
mod Examples
use trade_bench.Common.{
  ℕ, String, Bool, true, false, not, ◌&&◌, Option, none, some, List, [], ◌∷◌, if◌then◌else◌, str_eq,
  length,
}
use trade_bench.Common.Int.{ℤ}
use trade_bench.Common.Dict.{Dict, find}
use trade_bench.Sandbox.Runner.{Docker, Poll}

pub record SandboxConfig : Type 0 where
  pub image : String
  pub runtime : String
  pub network : String
  pub cpu_quota : ℤ
  pub cpu_period : ℤ
  pub memory : ℤ
  pub memory_swap : ℤ
  pub pids_limit : ℤ

-- The arguments of `ContainerCreate`.
pub record ContainerSpec : Type 0 where
  pub image : String
  pub cmd : List String
  pub exposed_ports : List String
  pub labels : List (String × String)
  pub runtime : String
  pub cpu_quota : ℤ
  pub cpu_period : ℤ
  pub memory : ℤ
  pub memory_swap : ℤ
  pub pids_limit : ℤ
  pub network_mode : String
  pub auto_remove : Bool
  pub cap_drop : List String
  pub security_opt : List String
  pub name : String

unfoldable pub container_spec : SandboxConfig → String → String → ContainerSpec
container_spec cfg container_name language = record {
  image = cfg.image;
  cmd = if str_eq language "python" then "python3" ∷ "/opt/binary" ∷ [] else "/opt/binary" ∷ [];
  exposed_ports = "8080/tcp" ∷ [];
  labels = ("tradebench.role", "sandbox") ∷ [];
  runtime = cfg.runtime;
  cpu_quota = cfg.cpu_quota;
  cpu_period = cfg.cpu_period;
  memory = cfg.memory;
  memory_swap = cfg.memory_swap;
  pids_limit = cfg.pids_limit;
  network_mode = cfg.network;
  auto_remove = false;
  cap_drop = "ALL" ∷ [];
  security_opt = "no-new-privileges" ∷ [];
  name = container_name;
}

-- The one entry of the archive.
pub record TarFile : Type 0 where
  pub name : String
  pub mode : ℕ
  pub size : ℕ
  pub content : List ℕ

-- The mode is 0755.
unfoldable pub tar_file : List ℕ → TarFile
tar_file content = record { name = "binary"; mode = 493; size = length content; content = content }

-- The archive for `copyToContainer`, whose writer may fail at each of three calls.
unfoldable pub archive : Option (List ℕ) → Bool → Bool → Bool → Option TarFile
archive none header_ok write_ok close_ok = none
archive (some content) header_ok write_ok close_ok =
    if not header_ok
    then none
    else if not write_ok
    then none
    else if not close_ok
    then none
    else some (tar_file content)

-- The settings that `ContainerInspect` gives: the address in each network, and the default one.
pub record Inspect : Type 0 where
  pub networks : Dict String
  pub ip_address : String

unfoldable pub inspect_container_ip : Option Inspect → String → Option String
inspect_container_ip none network = none
inspect_container_ip (some i) network =
    let default = if not (str_eq i.ip_address "") then some i.ip_address else none in
    elim (find network i.networks) [
      | none ↦ default
      | some ip ↦ if not (str_eq ip "") then some ip else default
    ]

-- What the API, the file system and the archive's writer answer to one spawning.
pub record Api : Type 0 where
  pub creates : ContainerSpec → Option String
  pub reads : Option (List ℕ)
  pub header_ok : Bool
  pub write_ok : Bool
  pub close_ok : Bool
  pub uploads : TarFile → Bool
  pub starts : Bool
  pub inspects : Option Inspect
  pub removes : Bool

unfoldable pub copies_with : (TarFile → Bool) → Option TarFile → Bool
copies_with uploads none = false
copies_with uploads (some file) = uploads file

-- `realDockerClient`, as the runner sees it.
unfoldable pub real_docker : SandboxConfig → Api → String → String → ℤ → List Poll → Docker
unfolding archive copies_with
real_docker cfg api container_name language probing_from polls = record {
  created = api.creates (container_spec cfg container_name language);
  copies = copies_with api.uploads (archive api.reads api.header_ok api.write_ok api.close_ok);
  starts = api.starts;
  ip = inspect_container_ip api.inspects cfg.network;
  probing_from = probing_from;
  polls = polls;
  removes = api.removes;
}

-- `stubDockerClient`.
unfoldable pub stub_docker : ℤ → List Poll → Docker
stub_docker probing_from polls = record {
  created = none;
  copies = false;
  starts = false;
  ip = none;
  probing_from = probing_from;
  polls = polls;
  removes = false;
}
