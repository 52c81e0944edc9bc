-- ===== src/Sandbox/Loop.antt =====
-- The loop `Run` of apps/sandbox/internal/consumer/kafka.go around its workers, as a step relation.
-- A message is its number in the
-- order of fetching. The semaphore is the number of workers that run.
pub mod Bounded
mod Examples
use trade_bench.Common.{
  ℕ, suc, ◌+◌, ◌<◌, ◌≡◌, Bool, true, false, Option, none, some, List, [], ◌∷◌, ◌||◌, if◌then◌else◌,
  ◌==◌, length,
}
use trade_bench.Common.Bag.{contains, remove_one}

pub record Loop : Type 0 where
  -- How many messages have been fetched.
  pub fetched : ℕ
  -- The message that waits for the semaphore, with the loop.
  pub waiting : Option ℕ
  pub running : List ℕ
  -- Those whose worker has committed them, those whose worker has ended without that, and those that
  -- did not decode, the last one first.
  pub committed : List ℕ
  pub uncommitted : List ℕ
  pub skipped : List ℕ

unfoldable pub new_loop : Loop
new_loop = record {
  fetched = 0;
  waiting = none;
  running = [];
  committed = [];
  uncommitted = [];
  skipped = [];
}

-- A message that decodes waits for the semaphore.
unfoldable pub fetch : Loop → Loop
fetch l = record l { fetched = suc l.fetched; waiting = some l.fetched }

-- A message that does not decode is skipped; the code does not look at the result of its commit.
unfoldable pub skip : Loop → Loop
skip l = record l { fetched = suc l.fetched; skipped = l.fetched ∷ l.skipped }

-- The semaphore lets the message in, and its worker starts.
unfoldable pub dispatch : Loop → ℕ → Loop
dispatch l n = record l { waiting = none; running = n ∷ l.running }

-- A worker commits its message, or fails to, as it does once the context is done, and gives its place
-- back.
unfoldable pub finish : Loop → ℕ → Bool → Loop
finish l n commits =
    let rest = record l { running = remove_one n l.running } in
    if commits
    then record rest { committed = n ∷ l.committed }
    else record rest { uncommitted = n ∷ l.uncommitted }

-- With room for `max` workers.
pub data Step (max : ℕ) : Loop → Loop → Type 0 where
  fetch_error : (l : Loop) → l.waiting ≡ none → Step max l l
  fetched_good : (l : Loop) → l.waiting ≡ none → Step max l (fetch l)
  fetched_bad : (l : Loop) → l.waiting ≡ none → Step max l (skip l)
  dispatched :
      (l : Loop) (n : ℕ) → l.waiting ≡ some n → length l.running < max → Step max l (dispatch l n)
  finished :
      (l : Loop) (n : ℕ) (commits : Bool)
      → contains n l.running ≡ true
      → Step max l (finish l n commits)

pub data Reach (max : ℕ) : Loop → Type 0 where
  start : Reach max new_loop
  next : {l k : Loop} → Reach max l → Step max l k → Reach max k
