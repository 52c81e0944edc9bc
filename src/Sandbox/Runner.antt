-- ===== src/Sandbox/Runner.antt =====
-- apps/sandbox/internal/runner/docker.go: how a container for a submission is made, probed and torn
-- down. The Docker client behind `dockerClient` and the HTTP probes are outside: their answers are
-- an argument, and the calls made of Docker are a list.
pub mod Teardown
use Prim.Native.String.{◌++◌ as append}
use trade_bench.Common.{
  ℕ, String, Bool, true, false, not, Option, none, some, List, [], ◌∷◌, ◌++◌, if◌then◌else◌, ◌==◌,
}
use trade_bench.Common.Int.{ℤ, pos, ◌+ℤ◌, ltb_ℤ}

-- One round of the loop of `waitForHealthy`: the clock, the status of the answer if one came, and
-- whether the context is done afterwards.
pub record Poll : Type 0 where
  pub now : ℤ
  pub status : Option ℕ
  pub cancelled : Bool

-- What Docker and the container answer to one spawning.
pub record Docker : Type 0 where
  pub created : Option String
  pub copies : Bool
  pub starts : Bool
  pub ip : Option String
  pub probing_from : ℤ
  pub polls : List Poll
  -- Whether a removal of the container succeeds.
  pub removes : Bool

pub data Call : Type 0 where
  -- The container's name, the language of the submission, and the id that Docker gives it.
  create : String → String → Option String → Call
  copy : String → String → String → Call
  start : String → Call
  inspect : String → String → Call
  stop : String → ℕ → Call
  -- Whether Docker has removed the container.
  remove : String → Bool → Call

pub data SpawnError : Type 0 where
  create_failed copy_failed start_failed no_ip unhealthy : SpawnError

pub data Spawned : Type 0 where
  spawned : String → String → Spawned
  spawn_failed : SpawnError → Spawned

abbrev pub is_ok : Option ℕ → Bool
is_ok none = false
is_ok (some code) = code == 200

-- `waitForHealthy` by its rounds. Where they end, the clock has passed the deadline.
unfoldable pub wait_for_healthy : ℤ → List Poll → Bool
wait_for_healthy deadline [] = false
wait_for_healthy deadline (p ∷ ps) =
    let rest = wait_for_healthy deadline ps in
    if not (ltb_ℤ p.now deadline)
    then false
    else if is_ok p.status
    then true
    else if p.cancelled
    then false
    else rest

-- `TerminateSandbox`, whether Docker removes the container or not: both calls are made, whatever the
-- first one answers, and the answer to the second one is its result.
unfoldable pub terminate_sandbox : Bool → String → Bool × List Call
terminate_sandbox removes id = (removes, stop id 10 ∷ remove id removes ∷ [])

-- `SpawnSandbox` once the container has its address. It does not look at the result of
-- `TerminateSandbox`.
probe : Docker → String → String → List Call → Spawned × List Call
probe d id address calls =
    if wait_for_healthy (d.probing_from +ℤ pos 30_000_000_000) d.polls
    then (spawned id address, calls)
    else (spawn_failed unhealthy, calls ++ (terminate_sandbox d.removes id).1)

-- From the copy of the binary on; `network` is the configured one.
set_up : Docker → String → String → String → List Call → Spawned × List Call
unfolding probe
set_up d network id binary_path calls =
    let copied = calls ++ copy id binary_path "/opt" ∷ [] in
    let started = copied ++ start id ∷ [] in
    let inspected = started ++ inspect id network ∷ [] in
    if not d.copies
    then (spawn_failed copy_failed, copied ++ (terminate_sandbox d.removes id).1)
    else if not d.starts
    then (spawn_failed start_failed, started ++ (terminate_sandbox d.removes id).1)
    else elim d.ip [
      | none ↦ (spawn_failed no_ip, inspected ++ (terminate_sandbox d.removes id).1)
      | some ip ↦ probe d id (append ip ":8080") inspected
    ]

-- `SpawnSandbox`: the result, and the calls in their order.
unfoldable pub spawn_sandbox : Docker → String → String → String → String → Spawned × List Call
unfolding set_up
spawn_sandbox d network submission_id binary_path language =
    let calls = create (append "sandbox-" submission_id) language d.created ∷ [] in
    elim d.created [
      | none ↦ (spawn_failed create_failed, calls)
      | some id ↦ set_up d network id binary_path calls
    ]
