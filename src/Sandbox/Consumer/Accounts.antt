-- ===== src/Sandbox/Consumer/Accounts.antt =====
-- What is left of one submission when its worker has ended.
use Prim.Native.String.{◌++◌ as append}
use mathlib.Core.List.{append_assoc, append-nil}
use trade_bench.Common.{
  String, ◌≡◌, refl, sym, ap, ◌∙◌, ◌⊎◌, inl, inr, true, false, none, some, List, [], ◌∷◌, ◌++◌, map,
  Bool-cases,
}
use trade_bench.Common.Int.{pos, ◌+ℤ◌, wrap_64}
use trade_bench.Sandbox.Runner.{Call, spawn_sandbox}
use trade_bench.Sandbox.Runner.Teardown.{live, spawn_sandbox-IsClean}
use trade_bench.Sandbox.Consumer.{
  SubmissionEvent, Config, RunStartedEvent, Files, World, PullError, Effect, make_dir, remove_dir,
  docker_call, publish, publish_failure, terminate_later, commit, pull, announce,
  spawn_and_announce, process, finish, work, spawn_sandbox_failed, publish_failed,
}

abbrev pub collect {ℓ} : {A : Type ℓ} → (Effect → List A) → List Effect → List A
collect f [] = []
collect f (x ∷ xs) = f x ++ collect f xs

collect-append {ℓ} :
    {A : Type ℓ} (f : Effect → List A) (xs ys : List Effect)
    → collect f (xs ++ ys) ≡ collect f xs ++ collect f ys
collect-append f [] ys = refl
collect-append f (x ∷ xs) ys =
    ap (λ r. f x ++ r) (collect-append f xs ys)
    ∙ sym (append_assoc (f x) (collect f xs) (collect f ys))

abbrev pub call_in : Effect → List Call
call_in (docker_call c) = c ∷ []
call_in _ = []

abbrev pub scheduled_in : Effect → List String
scheduled_in (terminate_later id secs) = id ∷ []
scheduled_in _ = []

abbrev pub announced_in : Effect → List RunStartedEvent
announced_in (publish e true) = e ∷ []
announced_in _ = []

abbrev pub reported_in : Effect → List String
reported_in (publish_failure id e) = id ∷ []
reported_in _ = []

-- Calls of Docker alone schedule, announce and report nothing.
collect-calls :
    (cs : List Call)
    → (collect call_in (map docker_call cs) ≡ cs)
      × (collect scheduled_in (map docker_call cs) ≡ [])
      × (collect announced_in (map docker_call cs) ≡ [])
      × (collect reported_in (map docker_call cs) ≡ [])
collect-calls [] = (refl, refl, refl, refl)
collect-calls (c ∷ cs) = let h = collect-calls cs in (ap (◌∷◌ c) h.0, h.1, h.2, h.3)

pull-cases :
    (f : Files) (id : String)
    → ((err : PullError) × ((pull f id).0 ≡ some err)
        × (((pull f id).1 ≡ []) ⊎ ((pull f id).1 ≡ make_dir id ∷ [])))
      ⊎ (((pull f id).0 ≡ none) × ((pull f id).1 ≡ make_dir id ∷ []))
unfolding pull
pull-cases f id = elim (Bool-cases f.gets) [
  | inr n ↦ rw n (inl (_, refl, inl refl))
  | inl a ↦ elim (Bool-cases f.mkdirs) [
    | inr n ↦ rw (a, n) (inl (_, refl, inl refl))
    | inl b ↦ elim (Bool-cases f.creates) [
      | inr n ↦ rw (a, b, n) (inl (_, refl, inr refl))
      | inl c ↦ elim (Bool-cases f.downloads) [
        | inr n ↦ rw (a, b, c, n) (inl (_, refl, inr refl))
        | inl d ↦ elim (Bool-cases f.chmods) [
          | inr n ↦ rw (a, b, c, d, n) (inl (_, refl, inr refl))
          | inl e ↦ rw (a, b, c, d, e) (inr (refl, refl))
        ]
      ]
    ]
  ]
]

-- The event that announces the run of a submission at an address.
abbrev pub announcement : World → Config → SubmissionEvent → String → RunStartedEvent
announcement w c e address = record {
  run_id = w.run_id;
  submission_id = e.submission_id;
  contestant_id = e.contestant_id;
  sandbox_address = address;
  target_rps = c.target_rps;
  duration_secs = c.duration_sec;
  protocol = c.protocol;
}

-- The containers left standing, those with a termination scheduled, the runs that Kafka took, and
-- the submissions reported as failed.
abbrev pub Leaves :
    List Effect → List String → List String → List RunStartedEvent → List String → Type 0
Leaves effects standing scheduled announced reported =
    (live (collect call_in effects) ≡ standing)
    × (collect scheduled_in effects ≡ scheduled)
    × (collect announced_in effects ≡ announced)
    × (collect reported_in effects ≡ reported)

collect-worked :
    {A : Type 0} (f : Effect → List A) (id : String) (calls : List Call) (rest tail : List Effect)
    → f (make_dir id) ≡ []
    → f (remove_dir id) ≡ []
    → collect f ((make_dir id ∷ [] ++ map docker_call calls ++ rest ++ remove_dir id ∷ []) ++ tail)
      ≡ collect f (map docker_call calls) ++ collect f rest ++ collect f tail
collect-worked f id calls rest tail p q =
    rw
      (
        collect-append f (make_dir id ∷ [] ++ map docker_call calls ++ rest ++ remove_dir id ∷ [])
            tail,
        p,
        collect-append f (map docker_call calls ++ rest) (remove_dir id ∷ []),
        collect-append f (map docker_call calls) rest,
        q,
        append-nil (collect f (map docker_call calls) ++ collect f rest),
      )
      refl

-- A worker that got past the pull.
worked-Leaves :
    (id : String) (calls : List Call) (rest tail : List Effect) (standing scheduled : List String)
    (announced : List RunStartedEvent) (reported : List String)
    → live calls ≡ standing
    → collect call_in rest ++ collect call_in tail ≡ []
    → collect scheduled_in rest ++ collect scheduled_in tail ≡ scheduled
    → collect announced_in rest ++ collect announced_in tail ≡ announced
    → collect reported_in rest ++ collect reported_in tail ≡ reported
    → Leaves
        ((make_dir id ∷ [] ++ map docker_call calls ++ rest ++ remove_dir id ∷ []) ++ tail)
        standing
        scheduled
        announced
        reported
worked-Leaves id calls rest tail standing scheduled announced reported l c s a r =
    let (as_calls, none_s, none_a, none_r) = collect-calls calls in
    (
      rw
          (
            collect-worked call_in id calls rest tail refl refl,
            as_calls,
            append_assoc calls (collect call_in rest) (collect call_in tail),
            c,
            append-nil calls,
          )
          l,
      rw (collect-worked scheduled_in id calls rest tail refl refl, none_s) s,
      rw (collect-worked announced_in id calls rest tail refl refl, none_a) a,
      rw (collect-worked reported_in id calls rest tail refl refl, none_r) r,
    )

-- The worker of a submission ends in one of four ways. Its run is announced: the one container is
-- left running with its termination scheduled, and no failure is handed to the publisher. Or it
-- fails before that: the failure is handed to the publisher, and no container is left. Or it fails
-- before that and Docker fails to remove the container: the failure is handed to the publisher, and
-- the container is left, with nothing to terminate it. Or Kafka refuses the announcement: the
-- failure is handed to the publisher and the container is left running, with nothing to terminate
-- it.
pub work-Leaves :
    (w : World) (c : Config) (e : SubmissionEvent)
    → ((id : String) × (ip : String) × (w.docker.created ≡ some id)
        × (w.docker.ip ≡ some ip)
        × (w.publishes ≡ true)
        × Leaves (work w c e) (id ∷ []) (id ∷ []) (announcement w c e (append ip ":8080") ∷ []) [])
      ⊎ (Leaves (work w c e) [] [] [] (e.submission_id ∷ [])
          ⊎ (((id : String) × (w.docker.created ≡ some id)
                × (w.docker.removes ≡ false)
                × Leaves (work w c e) (id ∷ []) [] [] (e.submission_id ∷ []))
              ⊎ ((id : String) × (w.docker.created ≡ some id)
                  × (w.publishes ≡ false)
                  × Leaves (work w c e) (id ∷ []) [] [] (e.submission_id ∷ []))))
unfolding work process finish spawn_and_announce announce
work-Leaves w c e =
    let id = e.submission_id in
    let result = spawn_sandbox w.docker c.network id w.files.local_path e.language in
    elim (pull-cases w.files id) [
      | inl (err, p, inl q) ↦ rw (p, work, process, q) (inr (inl (refl, refl, refl, refl)))
      | inl (err, p, inr q) ↦ rw (p, work, process, q) (inr (inl (refl, refl, refl, refl)))
      | inr (p, q) ↦
          elim (spawn_sandbox-IsClean w.docker c.network id w.files.local_path e.language) [
            | inl (err, r, inl (gone, l)) ↦
                rw (p, work, process, q, r)
                  (inr (
                    inl (
                      worked-Leaves id result.1 []
                        (publish_failure id (spawn_sandbox_failed err) ∷ commit ∷ []) _ _ _ _ l refl
                        refl refl refl)))
            | inl (err, r, inr (made, created, stays, l)) ↦
                rw (p, work, process, q, r)
                  (inr (
                    inr (
                      inl (
                        made,
                        created,
                        stays,
                        worked-Leaves id result.1 []
                            (publish_failure id (spawn_sandbox_failed err) ∷ commit ∷ []) _ _ _ _ l
                            refl refl refl refl,
                      ))))
            | inr (made, ip, created, at, r, h, l) ↦
                let event = announcement w c e (append ip ":8080") in
                elim (Bool-cases w.publishes) [
                  | inl b ↦
                      rw (p, work, process, q, r, b)
                        (inl (
                          made,
                          ip,
                          created,
                          at,
                          refl,
                          worked-Leaves id result.1
                              (publish event true
                                ∷ terminate_later made (wrap_64 (c.duration_sec +ℤ pos 30))
                                ∷ [])
                              (commit ∷ []) _ _ _ _ l refl refl refl refl,
                        ))
                  | inr b ↦
                      rw (p, work, process, q, r, b)
                        (inr (
                          inr (
                            inr (
                              made,
                              created,
                              refl,
                              worked-Leaves id result.1 (publish event false ∷ [])
                                  (publish_failure id publish_failed ∷ commit ∷ []) _ _ _ _ l refl
                                  refl refl refl,
                            ))))
                ]
          ]
    ]
