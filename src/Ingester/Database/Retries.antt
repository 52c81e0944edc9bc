-- ===== src/Ingester/Database/Retries.antt =====
-- How the attempts of `NewWriter` end, and which pools they leave open.
use trade_bench.Common.{
  ℕ, zero, suc, ◌+◌, ◌≤◌, ◌<◌, ◌≡◌, refl, ap, ◌∙◌, ◌⊎◌, inl, inr, Bool, true, false, ◌==◌, List, [],
  ◌∷◌, arith, if◌then◌else◌,
}
use trade_bench.Ingester.Database.{
  Answer, refused, silent, alive, DbCall, opened, closed, slept, Connected, bad_dsn, connect_failed,
  ping_failed, writer, connect, new_writer,
}

abbrev pub drop : ℕ → List ℕ → List ℕ
drop i [] = []
drop i (j ∷ js) = let rest = drop i js in if j == i then rest else j ∷ rest

-- The pools that are open after some calls.
abbrev pub left_open : List DbCall → List ℕ → List ℕ
left_open [] open_pools = open_pools
left_open (opened i ∷ cs) open_pools = left_open cs (i ∷ open_pools)
left_open (closed i ∷ cs) open_pools = left_open cs (drop i open_pools)
left_open (slept ∷ cs) open_pools = left_open cs open_pools

abbrev pub pauses : List DbCall → ℕ
pauses [] = 0
pauses (opened i ∷ cs) = pauses cs
pauses (closed i ∷ cs) = pauses cs
pauses (slept ∷ cs) = suc (pauses cs)

abbrev pub is_alive : Answer → Bool
is_alive refused = false
is_alive silent = false
is_alive alive = true

abbrev pub is_failure : Connected → Bool
is_failure bad_dsn = true
is_failure (connect_failed n) = true
is_failure (ping_failed n) = true
is_failure (writer i) = false

-- Attempts from `i` on, `left` after that, end with the first that the database answers, its pool
-- the only one open; or, where it answers none, in an error with no pool open.
abbrev pub Ends : ℕ → (ℕ → Answer) → ℕ → Connected × List DbCall → Type 0
Ends left answers i r =
    ((k : ℕ) × (k ≤ left)
      × (is_alive (answers (i + k)) ≡ true)
      × ((j : ℕ) → j < k → is_alive (answers (i + j)) ≡ false)
      × (r.0 ≡ writer (i + k))
      × (left_open r.1 [] ≡ (i + k) ∷ [])
      × (pauses r.1 ≡ k))
    ⊎ (((j : ℕ) → j ≤ left → is_alive (answers (i + j)) ≡ false)
        × (is_failure r.0 ≡ true)
        × (left_open r.1 [] ≡ [])
        × (pauses r.1 ≡ left))

Answer-cases : (a : Answer) → (a ≡ refused) ⊎ (a ≡ silent) ⊎ (a ≡ alive)
Answer-cases refused = inl refl
Answer-cases silent = inr (inl refl)
Answer-cases alive = inr (inr refl)

one_on : (i j : ℕ) → i + suc j ≡ suc i + j
one_on i j = omega arith

at_once : (i : ℕ) → i + 0 ≡ i
at_once i = omega arith

earlier :
    (answers : ℕ → Answer) (i k : ℕ)
    → is_alive (answers i) ≡ false
    → ((j : ℕ) → j < k → is_alive (answers (suc i + j)) ≡ false)
    → (j : ℕ) → j < suc k
    → is_alive (answers (i + j)) ≡ false
earlier answers i k dead before zero h = rw (at_once i) dead
earlier answers i k dead before (suc j) h = rw (one_on i j) (before j (omega (arith, h)))

Ends-more :
    (left : ℕ) (answers : ℕ → Answer) (i : ℕ) (result : Connected) (cs ds : List DbCall)
    → is_alive (answers i) ≡ false
    → left_open ds [] ≡ left_open cs []
    → pauses ds ≡ suc (pauses cs)
    → Ends left answers (suc i) (result, cs)
    → Ends (suc left) answers i (result, ds)
Ends-more left answers i result cs ds dead same one (inl (k, le, answered, before, r, o, p)) = inl (
  suc k,
  omega (arith, le),
  rw (one_on i k) answered,
  earlier answers i k dead before,
  rw (one_on i k) r,
  rw (one_on i k) (same ∙ o),
  one ∙ ap suc p,
)
Ends-more left answers i result cs ds dead same one (inr (all, r, o, p)) = inr (
  λ j h. earlier answers i (suc left) dead (λ t le. all t (omega (arith, le))) j (omega (arith, h)),
  r,
  same ∙ o,
  one ∙ ap suc p,
)

only_one : (i j : ℕ) → j ≤ 0 → i + j ≡ i
only_one i j h = omega arith

Ends-now :
    (left : ℕ) (answers : ℕ → Answer) (i : ℕ)
    → answers i ≡ alive
    → Ends left answers i (writer i, opened i ∷ [])
Ends-now left answers i q =
    let same = at_once i in
    inl (
      0,
      omega arith,
      rw (same, q) refl,
      λ j h. absurd (omega (arith, h)),
      rw same refl,
      rw same refl,
      refl,
    )

connect-Ends :
    (left : ℕ) (answers : ℕ → Answer) (i : ℕ) → Ends left answers i (connect left answers i)
unfolding connect
connect-Ends zero answers i = elim (Answer-cases (answers i)) [
  | inl q ↦ rw (q, connect) (inr (λ j h. rw (only_one i j h, q) refl, refl, refl, refl))
  | inr (inl q) ↦
      rw (q, connect) (inr (λ j h. rw (only_one i j h, q) refl, refl, ground arith, refl))
  | inr (inr q) ↦ rw (q, connect) (Ends-now _ answers i q)
]
connect-Ends (suc left) answers i =
    let r = connect left answers (suc i) in
    let rest = connect-Ends left answers (suc i) in
    elim (Answer-cases (answers i)) [
      | inl q ↦
          rw (q, connect)
            (Ends-more left answers i r.0 r.1 (slept ∷ r.1) (ap is_alive q) refl refl rest)
      | inr (inl q) ↦
          rw (q, connect)
            (Ends-more left answers i r.0 r.1 (opened i ∷ closed i ∷ slept ∷ r.1) (ap is_alive q)
              (ground arith) refl rest)
      | inr (inr q) ↦ rw (q, connect) (Ends-now _ answers i q)
    ]

-- With a DSN that parses, `NewWriter` ends with the pool of the first of the ten attempts that the
-- database answers, after as many pauses as there were attempts before, or, where it answers none of
-- the ten, in an error after nine pauses; every other pool that was opened has been closed.
pub new_writer-Ends : (answers : ℕ → Answer) → Ends 9 answers 0 (new_writer true answers)
unfolding new_writer
new_writer-Ends answers = connect-Ends 9 answers 0
