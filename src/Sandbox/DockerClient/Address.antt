-- ===== src/Sandbox/DockerClient/Address.antt =====
-- What a sandbox that was spawned through the Docker API is, and where it is reached.
use Prim.Native.String.{◌++◌ as append}
use trade_bench.Common.{
  ℕ, String, ◌≡◌, ◌≢◌, refl, ap, ◌∙◌, ◌⊎◌, inl, inr, Bool, true, false, Option, none, some, List,
  [], ◌∷◌, length, if◌then◌else◌, arith, str_eq, str_iff, Bool-cases, Option-cases,
}
use trade_bench.Common.Int.{ℤ}
use trade_bench.Common.Dict.{find}
use trade_bench.Sandbox.Runner.{Poll, spawned, spawn_sandbox}
use trade_bench.Sandbox.Runner.Teardown.{spawned_steps}
use trade_bench.Sandbox.DockerClient.{
  SandboxConfig, ContainerSpec, container_spec, TarFile, tar_file, archive, Inspect,
  inspect_container_ip, Api, copies_with, real_docker,
}

-- The address of a container: that in the network, if it has one there, else the default one.
abbrev pub HasAddress : Inspect → String → String → Type 0
HasAddress i network ip =
    (ip ≢ "")
    × ((find network i.networks ≡ some ip)
        ⊎ (((find network i.networks ≡ none) ⊎ (find network i.networks ≡ some ""))
            × (i.ip_address ≡ ip)))

inspect_container_ip-HasAddress :
    (i : Inspect) (network ip : String)
    → inspect_container_ip (some i) network ≡ some ip
    → HasAddress i network ip
unfolding inspect_container_ip
inspect_container_ip-HasAddress i network ip h = elim (Option-cases (find network i.networks)) [
  | inl n ↦ elim (Bool-cases (str_eq i.ip_address "")) [
    | inl e ↦ absurd (ground arith)
    | inr e ↦ (ground (arith, str_iff ip ""), inr (inl n, ground arith))
  ]
  | inr (own, q) ↦ elim (Bool-cases (str_eq own "")) [
    | inr e ↦ (ground (arith, str_iff ip ""), inl (ground arith))
    | inl e ↦ elim (Bool-cases (str_eq i.ip_address "")) [
      | inl d ↦ absurd (ground arith)
      | inr d ↦ (
        ground (arith, str_iff ip ""),
        inr (inr (q ∙ ap some ((str_iff own "").0 e)), ground arith),
      )
    ]
  ]
]

-- The entry that holds some bytes, all of them, as a program: the mode is 0755.
abbrev pub Holds : TarFile → List ℕ → Type 0
Holds file bytes =
    (file.name ≡ "binary") × (file.mode ≡ 493) × (file.size ≡ length bytes) × (file.content ≡ bytes)

copies_with-archive :
    (uploads : TarFile → Bool) (content : Option (List ℕ)) (a b c : Bool)
    → copies_with uploads (archive content a b c) ≡ true
    → (bytes : List ℕ) × (content ≡ some bytes)
      × ((file : TarFile) × Holds file bytes × (uploads file ≡ true))
unfolding copies_with archive tar_file
copies_with-archive uploads none a b c h = absurd (ground arith)
copies_with-archive uploads (some bytes) false b c h = absurd (ground arith)
copies_with-archive uploads (some bytes) true false c h = absurd (ground arith)
copies_with-archive uploads (some bytes) true true false h = absurd (ground arith)
copies_with-archive uploads (some bytes) true true true h =
    (bytes, refl, (tar_file bytes, (refl, refl, refl, refl), h))

-- The container that a configuration asks for: its limits, its network, and no capabilities.
pub record IsConfined (cfg : SandboxConfig) (container_name language : String)
    (spec : ContainerSpec) : Type 0 where
  pub named : (spec.name ≡ container_name) × (spec.image ≡ cfg.image)
  pub runs :
      spec.cmd
      ≡ (if str_eq language "python" then "python3" ∷ "/opt/binary" ∷ [] else "/opt/binary" ∷ [])
  pub listens : spec.exposed_ports ≡ "8080/tcp" ∷ []
  pub runtime : spec.runtime ≡ cfg.runtime
  pub cpu : (spec.cpu_quota ≡ cfg.cpu_quota) × (spec.cpu_period ≡ cfg.cpu_period)
  pub memory : (spec.memory ≡ cfg.memory) × (spec.memory_swap ≡ cfg.memory_swap)
  pub pids : spec.pids_limit ≡ cfg.pids_limit
  pub network : spec.network_mode ≡ cfg.network
  pub unprivileged : (spec.cap_drop ≡ "ALL" ∷ []) × (spec.security_opt ≡ "no-new-privileges" ∷ [])
  pub stays : spec.auto_remove ≡ false

container_spec-IsConfined :
    (cfg : SandboxConfig) (container_name language : String)
    → IsConfined cfg container_name language (container_spec cfg container_name language)
unfolding container_spec
container_spec-IsConfined cfg container_name language = record {
  named = (refl, refl);
  runs = refl;
  listens = refl;
  runtime = refl;
  cpu = (refl, refl);
  memory = (refl, refl);
  pids = refl;
  network = refl;
  unprivileged = (refl, refl);
  stays = refl;
}

-- A sandbox that was spawned through the Docker API is the container that the API made for the
-- configured limits, runtime and network, with no capabilities; the file that was uploaded to it
-- holds the bytes of the submission's file, all of them; and its address is port 8080 of an address that is not empty: that in the configured network, if it has one there,
-- else the default one.
pub spawn_sandbox-real_docker :
    (cfg : SandboxConfig) (api : Api) (container_name language submission_id binary_path : String)
    (probing_from : ℤ) (polls : List Poll) (id address : String)
    → (spawn_sandbox
        (real_docker cfg api container_name language probing_from polls)
        cfg.network
        submission_id
        binary_path
        language).0
      ≡ spawned id address
    → ((spec : ContainerSpec) × IsConfined cfg container_name language spec
        × (api.creates spec ≡ some id))
      × ((bytes : List ℕ) × (api.reads ≡ some bytes)
          × ((file : TarFile) × Holds file bytes × (api.uploads file ≡ true)))
      × ((i : Inspect) × (ip : String) × (api.inspects ≡ some i)
          × (address ≡ append ip ":8080")
          × HasAddress i cfg.network ip)
unfolding real_docker
spawn_sandbox-real_docker cfg api container_name language submission_id binary_path probing_from
      polls id address h =
    let (made, copied, started, ip, at, reached) =
      spawned_steps (real_docker cfg api container_name language probing_from polls) cfg.network
        submission_id binary_path language id address h in
    (
      (
        container_spec cfg container_name language,
        container_spec-IsConfined cfg container_name language,
        made,
      ),
      copies_with-archive api.uploads api.reads api.header_ok api.write_ok api.close_ok copied,
      found api.inspects cfg.network ip address at reached,
    )
  where
    found :
        (inspects : Option Inspect) (network ip address : String)
        → inspect_container_ip inspects network ≡ some ip
        → address ≡ append ip ":8080"
        → (i : Inspect) × (ip : String) × (inspects ≡ some i)
          × (address ≡ append ip ":8080")
          × HasAddress i network ip
    found none network ip address h r = absurd (unfold inspect_container_ip in ground arith)
    found (some i) network ip address h r =
        (i, ip, refl, r, inspect_container_ip-HasAddress i network ip h)
