-- ===== src/Sandbox/Consumer/Announced.antt =====
-- What came before the announcement of a run.
use trade_bench.Common.{String, ◌≡◌, refl, none, arith, Option-cases, inl, inr, ◌⊎◌}
use trade_bench.Sandbox.Runner.{Spawned, SpawnError, spawned, spawn_failed, spawn_sandbox}
use trade_bench.Sandbox.Consumer.{SubmissionEvent, Config, World, pull, spawn_and_announce, process}

Spawned-cases :
    (r : Spawned)
    → ((id : String) × (address : String) × (r ≡ spawned id address))
      ⊎ ((e : SpawnError) × (r ≡ spawn_failed e))
Spawned-cases (spawned id address) = inl (id, address, refl)
Spawned-cases (spawn_failed e) = inr (e, refl)

-- A run that was announced has a sandbox that was spawned.
pub spawned_of_announced :
    (w : World) (c : Config) (e : SubmissionEvent)
    → (process w c e).0 ≡ none
    → (id : String) × (address : String) × ((spawn_sandbox w.docker c.network e.submission_id
          w.files.local_path e.language).0
        ≡ spawned id address)
unfolding process spawn_and_announce
spawned_of_announced w c e h = elim (Option-cases (pull w.files e.submission_id).0) [
  | inr (p, q) ↦ absurd (ground arith)
  | inl q ↦
      elim (Spawned-cases
        (spawn_sandbox w.docker c.network e.submission_id w.files.local_path e.language).0) [
          | inl found ↦ found
          | inr (err, failed) ↦ absurd (ground arith)
        ]
]
