-- ===== src/Sandbox/Runner/Teardown.antt =====
-- What a failed spawning leaves behind, and what the health check waits for.
use Prim.Native.String.{◌++◌ as append}
use trade_bench.Common.{
  String, ◌≡◌, refl, ap, ◌⊎◌, inl, inr, ◌↔◌, true, false, Bool, Option, none, some, List, [], ◌∷◌,
  ◌++◌, arith, if◌then◌else◌, str_eq, str_refl, Bool-cases, Option-cases, All,
}
use trade_bench.Common.Int.{ℤ, pos, ◌+ℤ◌, ltb_ℤ}
use trade_bench.Sandbox.Runner.{
  Docker, Call, Poll, create, remove, SpawnError, Spawned, spawned, spawn_failed, wait_for_healthy,
  spawn_sandbox, set_up, probe, terminate_sandbox, is_ok,
}

abbrev pub drop : String → List String → List String
drop id [] = []
drop id (x ∷ xs) = let rest = drop id xs in if str_eq x id then rest else x ∷ rest

-- The containers that Docker has made and not removed in a list of calls, `xs` standing before.
abbrev pub live_from : List String → List Call → List String
live_from xs [] = xs
live_from xs (create name language (some id) ∷ cs) = live_from (id ∷ xs) cs
live_from xs (remove id true ∷ cs) = live_from (drop id xs) cs
live_from xs (remove id false ∷ cs) = live_from xs cs
live_from xs (_ ∷ cs) = live_from xs cs

abbrev pub live : List Call → List String
live cs = live_from [] cs

-- What an error leaves: nothing, where Docker made nothing or removed it, or else the container.
abbrev pub Remains : Option String → Bool → List String → Type 0
Remains created removes containers =
    (((created ≡ none) ⊎ (removes ≡ true)) × (containers ≡ []))
    ⊎ ((id : String) × (created ≡ some id) × (removes ≡ false) × (containers ≡ id ∷ []))

-- Either the result is an error and the container that was made has been removed, where Docker does
-- that, or it is the container that Docker made, alone and left running, at its own address, and it
-- was healthy.
abbrev pub IsClean : Docker → Spawned × List Call → Type 0
IsClean d r =
    ((e : SpawnError) × (r.0 ≡ spawn_failed e) × Remains d.created d.removes (live r.1))
    ⊎ ((id : String) × (ip : String) × (d.created ≡ some id)
        × (d.ip ≡ some ip)
        × (r.0 ≡ spawned id (append ip ":8080"))
        × (wait_for_healthy (d.probing_from +ℤ pos 30_000_000_000) d.polls ≡ true)
        × (live r.1 ≡ id ∷ []))

torn_down :
    (id : String) (removes : Bool)
    → Remains (some id) removes (live_from (id ∷ []) (remove id removes ∷ []))
torn_down id true = inl (inr refl, rw (str_refl id) refl)
torn_down id false = inr (id, refl, refl, refl)

-- `SpawnSandbox` returns an error, and then no container is left if Docker made none or removes it
-- when asked, and the one that it made is left if Docker fails to remove it; or it returns the id of
-- the one container left, at port 8080 of its address, after a healthy answer.
pub spawn_sandbox-IsClean :
    (d : Docker) (network submission_id binary_path language : String)
    → IsClean d (spawn_sandbox d network submission_id binary_path language)
unfolding spawn_sandbox set_up probe terminate_sandbox
spawn_sandbox-IsClean d network submission_id binary_path language = elim (Option-cases d.created) [
  | inl n ↦ rw (n, spawn_sandbox) (inl (_, refl, inl (inl refl, rw n refl)))
  | inr (id, c) ↦ elim (Bool-cases d.copies) [
    | inr n ↦ rw (c, n) (inl (_, refl, torn_down id d.removes))
    | inl a ↦ elim (Bool-cases d.starts) [
      | inr n ↦ rw (c, a, n) (inl (_, refl, torn_down id d.removes))
      | inl b ↦ elim (Option-cases d.ip) [
        | inl n ↦ rw (c, a, b, n) (inl (_, refl, torn_down id d.removes))
        | inr (ip, q) ↦
            elim (Bool-cases (wait_for_healthy (d.probing_from +ℤ pos 30_000_000_000) d.polls)) [
              | inr n ↦ rw (c, a, b, q, n) (inl (_, refl, torn_down id d.removes))
              | inl h ↦ rw (c, a, b, q, h) (inr (id, ip, refl, refl, refl, refl, refl))
            ]
      ]
    ]
  ]
]

-- A sandbox that was spawned got every step's answer.
pub spawned_steps :
    (d : Docker) (network submission_id binary_path language id address : String)
    → (spawn_sandbox d network submission_id binary_path language).0 ≡ spawned id address
    → (d.created ≡ some id)
      × (d.copies ≡ true)
      × (d.starts ≡ true)
      × (ip : String) × (d.ip ≡ some ip)
      × (address ≡ append ip ":8080")
unfolding spawn_sandbox set_up probe
spawned_steps d network submission_id binary_path language id address h =
    elim (Option-cases d.created) [
      | inl n ↦ absurd (ground arith)
      | inr (made, c) ↦ elim (Bool-cases d.copies) [
        | inr n ↦ absurd (ground arith)
        | inl a ↦ elim (Bool-cases d.starts) [
          | inr n ↦ absurd (ground arith)
          | inl b ↦ elim (Option-cases d.ip) [
            | inl n ↦ absurd (ground arith)
            | inr (ip, q) ↦ (ground arith, a, b, ip, q, ground arith)
          ]
        ]
      ]
    ]

-- The poll came before the deadline, and was no reason to stop.
abbrev pub GoesOn : ℤ → Poll → Type 0
GoesOn deadline p = (ltb_ℤ p.now deadline ≡ true) × (is_ok p.status ≡ false) × (p.cancelled ≡ false)

-- The container counts as healthy exactly if some poll before the deadline got the status 200 and
-- all polls before it came in time, without that status and without a cancellation.
pub wait_for_healthy_iff :
    (deadline : ℤ) (ps : List Poll)
    → (wait_for_healthy deadline ps ≡ true) ↔ (
        (pre : List Poll) × (p : Poll) × (post : List Poll) × (ps ≡ pre ++ p ∷ post)
        × All (GoesOn deadline) pre
        × (ltb_ℤ p.now deadline ≡ true)
        × (is_ok p.status ≡ true))
unfolding wait_for_healthy
wait_for_healthy_iff deadline ps =
    (to ps, λ (pre, p, post, e, g, i, o). rw e (back pre p post g i o))
  where
    to :
        (ps : List Poll)
        → wait_for_healthy deadline ps ≡ true
        → (pre : List Poll) × (p : Poll) × (post : List Poll) × (ps ≡ pre ++ p ∷ post)
          × All (GoesOn deadline) pre
          × (ltb_ℤ p.now deadline ≡ true)
          × (is_ok p.status ≡ true)
    to [] h = absurd (ground arith)
    to (p ∷ ps) h = elim (Bool-cases (ltb_ℤ p.now deadline)) [
      | inr n ↦ absurd (ground arith)
      | inl i ↦ elim (Bool-cases (is_ok p.status)) [
        | inl o ↦ ([], p, ps, refl, tt, i, o)
        | inr n ↦ elim (Bool-cases p.cancelled) [
          | inl c ↦ absurd (ground arith)
          | inr c ↦
              let (pre, q, post, e, g, j, o) = to ps (ground arith) in
              (p ∷ pre, q, post, ap (◌∷◌ p) e, ((i, n, c), g), j, o)
        ]
      ]
    ]

    back :
        (pre : List Poll) (p : Poll) (post : List Poll)
        → All (GoesOn deadline) pre
        → ltb_ℤ p.now deadline ≡ true
        → is_ok p.status ≡ true
        → wait_for_healthy deadline (pre ++ p ∷ post) ≡ true
    back [] p post g i o = rw (i, o) refl
    back (q ∷ pre) p post g i o = rw (g.0.0, g.0.1, g.0.2) (back pre p post g.1 i o)
