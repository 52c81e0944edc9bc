-- ===== src/Submission/Tracker.antt =====
-- apps/submission/internal/status/tracker.go: the status of each submission, in memory. Every
-- method holds the tracker's lock. The range over the map in the two updates by run id visits the
-- keys in an order that Go leaves open, which is the argument `keys`.
pub mod Laws
pub mod ByRun
use trade_bench.Common.{
  String, Bool, true, false, not, Option, none, some, List, [], ◌∷◌, if◌then◌else◌, str_eq,
}
use trade_bench.Common.Dict.{Dict, find, put}

pub data State : Type 0 where
  queued running completed failed : State

pub record Entry (F : Type 0) : Type 0 where
  pub submission_id : String
  pub contestant_id : String
  pub status : State
  pub run_id : String
  pub score : Option F

abbrev pub Tracker : Type 0 → Type 0
Tracker F = Dict (Entry F)

module _ {F : Type 0} where
  unfoldable pub set : Tracker F → String → String → State → Tracker F
  set t id contestant_id status = elim (find id t) [
    | none ↦
        put id
          (record {
            submission_id = id;
            contestant_id = contestant_id;
            status = status;
            run_id = "";
            score = none;
          })
          t
    | some e ↦
        put id
          (record e {
            status = status;
            contestant_id = if str_eq contestant_id "" then e.contestant_id else contestant_id;
          })
          t
  ]

  unfoldable pub set_run_id : Tracker F → String → String → Tracker F
  set_run_id t id run_id = elim (find id t) [
    | none ↦ t
    | some e ↦ put id (record e { run_id = run_id }) t
  ]

  -- `Get` gives a copy of the entry.
  unfoldable pub get : Tracker F → String → Option (Entry F)
  get t id = find id t

  has_run : Option (Entry F) → String → Bool
  has_run none run_id = false
  has_run (some e) run_id = str_eq e.run_id run_id

  edit : (Entry F → Entry F) → Option (Entry F) → String → Tracker F → Tracker F
  edit f none k t = t
  edit f (some e) k t = put k (f e) t

  -- The loop of both updates: the first entry of that run id is changed, and the loop returns.
  unfoldable pub update_run : (Entry F → Entry F) → List String → Tracker F → String → Tracker F
  unfolding has_run edit
  update_run f [] t run_id = t
  update_run f (k ∷ keys) t run_id =
      let rest = update_run f keys t run_id in
      if has_run (find k t) run_id then edit f (find k t) k t else rest

  unfoldable pub update_by_run_id : List String → Tracker F → String → State → Tracker F
  update_by_run_id keys t run_id status =
      update_run (λ e. record e { status = status }) keys t run_id

  unfoldable pub update_score_by_run_id : List String → Tracker F → String → F → Tracker F
  update_score_by_run_id keys t run_id score =
      update_run (λ e. record e { score = some score }) keys t run_id
