-- ===== src/Submission/Tracker/ByRun.antt =====
-- The updates by run id in tracker.go: where one entry has the run id, the order in which Go visits
-- the map does not matter.
use trade_bench.Common.{
  ◌≡◌, refl, ◌≢◌, String, Bool, true, false, ◌||◌, some, inl, inr, List, [], ◌∷◌, arith,
  if◌then◌else◌, str_eq, str_iff, str_refl, str_ne, Bool-cases, Option-cases,
}
use trade_bench.Common.Dict.{find, put, find-put}
use trade_bench.Submission.Tracker.{
  State, Entry, Tracker, get, update_run, has_run, update_by_run_id,
}

abbrev pub visited : String → List String → Bool
visited k [] = false
visited k (j ∷ js) = str_eq j k || visited k js

-- The entry of that submission, and no other, has the run id.
abbrev pub IsOnlyRun : {F : Type 0} → Tracker F → String → String → Type 0
IsOnlyRun {F} t id run = (k : String) (x : Entry F) → get t k ≡ some x → x.run_id ≡ run → k ≡ id

module _ {F : Type 0} (f : Entry F → Entry F) where
  update_run_unique :
      (keys : List String) (t : Tracker F) (id run : String) (e : Entry F)
      → get t id ≡ some e
      → e.run_id ≡ run
      → IsOnlyRun t id run
      → visited id keys ≡ true
      → update_run f keys t run ≡ put id (f e) t
  unfolding update_run get
  update_run_unique [] t id run e q r only v = cc
  update_run_unique (k ∷ keys) t id run e q r only v = elim (Bool-cases (str_eq k id)) [
    | inl s ↦ let same : k ≡ id = (str_iff k id).0 s in rw (same, q, r, str_refl run)
    | inr s ↦ elim (Option-cases (find k t)) [
      | inl n ↦ rw (n, has_run) (update_run_unique keys t id run e q r only (rw s at v))
      | inr (x, p) ↦ elim (Bool-cases (str_eq x.run_id run)) [
        | inl h ↦
            let same : k ≡ id = only k x p ((str_iff x.run_id run).0 h) in
            absurd (ground (arith, str_iff k id))
        | inr h ↦ rw (p, h) (update_run_unique keys t id run e q r only (rw s at v))
      ]
    ]
  ]

  pub update_run-missing :
      (keys : List String) (t : Tracker F) (run : String)
      → ((k : String) (x : Entry F) → get t k ≡ some x → x.run_id ≢ run)
      → update_run f keys t run ≡ t
  unfolding update_run get
  update_run-missing [] t run no_run = refl
  update_run-missing (k ∷ keys) t run no_run = elim (Option-cases (find k t)) [
    | inl n ↦ rw (n, has_run) (update_run-missing keys t run no_run)
    | inr (x, p) ↦ rw (p, str_ne x.run_id run (no_run k x p)) (update_run-missing keys t run no_run)
  ]

  pub get-update_run :
      (keys : List String) (t : Tracker F) (id run : String) (e : Entry F)
      → get t id ≡ some e
      → e.run_id ≡ run
      → IsOnlyRun t id run
      → visited id keys ≡ true
      → (j : String)
      → get (update_run f keys t run) j ≡ (if str_eq id j then some (f e) else get t j)
  unfolding get
  get-update_run keys t id run e q r only v j =
      rw (update_run_unique keys t id run e q r only v) (find-put id j (f e) t)

-- Where one entry has the run id and the range visits it, `UpdateByRunID` sets the status of that
-- entry and changes no other, in whatever order the range visits the map.
pub get-update_by_run_id :
    {F : Type 0} (keys : List String) (t : Tracker F) (id run : String) (e : Entry F)
    (status : State)
    → get t id ≡ some e
    → e.run_id ≡ run
    → IsOnlyRun t id run
    → visited id keys ≡ true
    → (j : String)
    → get (update_by_run_id keys t run status) j
      ≡ (if str_eq id j then some (record e { status = status }) else get t j)
unfolding update_by_run_id
get-update_by_run_id keys t id run e status q r only v j =
    get-update_run (λ x. record x { status = status }) keys t id run e q r only v j
