-- ===== src/Submission/Tracker/Laws.antt =====
-- What each operation of tracker.go does to each entry.
use trade_bench.Common.{
  ◌≡◌, refl, ◌∙◌, String, Option, none, some, inl, inr, List, [], ◌∷◌, arith, if◌then◌else◌, str_eq,
  str_iff, str_refl, str_ne, ◌≢◌, Bool-cases, Option-cases,
}
use trade_bench.Common.Dict.{find, put, find-put}
use trade_bench.Submission.Tracker.{
  State, Entry, Tracker, set, set_run_id, get, update_run, has_run,
}

-- Each entry stands under its own submission id.
abbrev pub IsKeyed : {F : Type 0} → Tracker F → Type 0
IsKeyed {F} t = (k : String) (e : Entry F) → find k t ≡ some e → e.submission_id ≡ k

module _ {F : Type 0} where
  put-IsKeyed :
      (t : Tracker F) (k : String) (e : Entry F)
      → e.submission_id ≡ k
      → IsKeyed t
      → IsKeyed (put k e t)
  put-IsKeyed t k e h keyed j x q = elim (Bool-cases (str_eq k j)) [
    | inl s ↦ ground (arith, find-put k j e t, str_iff k j)
    | inr s ↦ keyed j x (ground (arith, find-put k j e t))
  ]

  pub set-IsKeyed :
      (t : Tracker F) (id contestant : String) (status : State)
      → IsKeyed t
      → IsKeyed (set t id contestant status)
  unfolding set
  set-IsKeyed t id contestant status keyed = elim (Option-cases (find id t)) [
    | inl n ↦ rw (n, set) (put-IsKeyed t id _ refl keyed)
    | inr (e, q) ↦ rw (q, set) (put-IsKeyed t id _ (keyed id e q) keyed)
  ]

  pub set_run_id-IsKeyed :
      (t : Tracker F) (id run : String) → IsKeyed t → IsKeyed (set_run_id t id run)
  unfolding set_run_id
  set_run_id-IsKeyed t id run keyed = elim (Option-cases (find id t)) [
    | inl n ↦ rw (n, set_run_id) keyed
    | inr (e, q) ↦ rw (q, set_run_id) (put-IsKeyed t id _ (keyed id e q) keyed)
  ]

  pub update_run-IsKeyed :
      (f : Entry F → Entry F) (keys : List String) (t : Tracker F) (run : String)
      → ((e : Entry F) → (f e).submission_id ≡ e.submission_id)
      → IsKeyed t
      → IsKeyed (update_run f keys t run)
  unfolding update_run
  update_run-IsKeyed f [] t run same keyed = keyed
  update_run-IsKeyed f (k ∷ keys) t run same keyed = elim (Option-cases (find k t)) [
    | inl n ↦ rw (n, has_run) (update_run-IsKeyed f keys t run same keyed)
    | inr (e, q) ↦ elim (Bool-cases (str_eq e.run_id run)) [
      | inl s ↦ rw (q, s) (put-IsKeyed t k (f e) (same e ∙ keyed k e q) keyed)
      | inr s ↦ rw (q, s) (update_run-IsKeyed f keys t run same keyed)
    ]
  ]

  -- The entry that `Set` leaves: a new one, or the old one with its status, and with its
  -- contestant if one is given.
  abbrev pub entry_after_set : Option (Entry F) → String → String → State → Entry F
  entry_after_set none id contestant st = record {
    submission_id = id;
    contestant_id = contestant;
    status = st;
    run_id = "";
    score = none;
  }
  entry_after_set (some e) id contestant st = record e {
    status = st;
    contestant_id = if str_eq contestant "" then e.contestant_id else contestant;
  }

  -- `Set` changes the entry of its submission as stated, and no other.
  pub get-set :
      (t : Tracker F) (id j contestant : String) (status : State)
      → get (set t id contestant status) j
        ≡ (if str_eq id j then some (entry_after_set (get t id) id contestant status) else get t j)
  unfolding get set
  get-set t id j contestant status = elim (Option-cases (find id t)) [
    | inl n ↦ rw (n, set) (find-put id j _ t)
    | inr (e, q) ↦ rw (q, set) (find-put id j _ t)
  ]

  pub get-set_run_id :
      (t : Tracker F) (id run : String) (e : Entry F)
      → get t id ≡ some e
      → get (set_run_id t id run) id ≡ some (record e { run_id = run })
  unfolding get set_run_id
  get-set_run_id t id run e q =
      rw (q, set_run_id) (rw (find-put id id (record e { run_id = run }) t, str_refl id))

  pub get-set_run_id_other :
      (t : Tracker F) (id j run : String) → id ≢ j → get (set_run_id t id run) j ≡ get t j
  unfolding get set_run_id
  get-set_run_id_other t id j run n = elim (Option-cases (find id t)) [
    | inl m ↦ rw (m, set_run_id)
    | inr (e, q) ↦
        rw (q, set_run_id) (rw (find-put id j (record e { run_id = run }) t, str_ne id j n))
  ]
