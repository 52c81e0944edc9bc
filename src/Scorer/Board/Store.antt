-- ===== src/Scorer/Board/Store.antt =====
-- A Redis of two functions, at which the properties of the scorer's leaderboard are run.
use trade_bench.Common.{
  ℕ, ◌≡◌, refl, String, true, Option, none, some, [], if◌then◌else◌, str_eq, str_refl, str_ne,
}
use trade_bench.Common.Whole.{whole}
use trade_bench.Scorer.Board.{Redis}
use trade_bench.Scorer.Board.Best.{better, count_new, Laws}

pub record Store : Type 0 where
  pub scores : String → String → Option ℕ
  pub hashes : String → Option (ℕ × ℕ)

abbrev pub best_of : Option ℕ → ℕ → ℕ
best_of none v = v
best_of (some u) v = if whole.lt u v then v else u

abbrev pub how_many : Option ℕ → ℕ
how_many none = 1
how_many (some u) = 0

abbrev pub store : Redis ℕ
store = record {
  S = Store;
  zadd_gt = λ s k m v. (
    some (how_many (s.scores k m)),
    record s {
      scores = λ k' m'.
          if str_eq k k'
          then (if str_eq m m' then some (best_of (s.scores k m) v) else s.scores k' m')
          else s.scores k' m';
    },
  );
  hset = λ s h a b.
      (true, record s { hashes = λ h'. if str_eq h h' then some (a, b) else s.hashes h' });
  zrevrange = λ s k a b. some [];
  zrevrank = λ s k m. none;
  zscore = λ s k m. s.scores k m;
  hash = λ s h. s.hashes h;
}

pub store-Laws : Laws whole store
store-Laws = record {
  reply = λ s k m v. same_count (s.scores k m);
  scored = λ s k m v j. rw (str_refl k) (same_best (s.scores k m) v j m (s.scores k j));
  zadd_hash = λ s k m v h. refl;
  hset_hash = λ s h a b. rw (str_refl h) refl;
  hset_other = λ s h j a b n. rw (str_ne h j n) refl;
  hset_score = λ s h a b k m. refl;
}
  where
    same_count : (o : Option ℕ) → some (how_many o) ≡ some (count_new whole store o)
    same_count none = refl
    same_count (some u) = refl

    same_best :
        (o : Option ℕ) (v : ℕ) (j m : String) (rest : Option ℕ)
        → (if str_eq m j then some (best_of o v) else rest)
          ≡ (if str_eq m j then some (better whole store o v) else rest)
    same_best none v j m rest = refl
    same_best (some u) v j m rest = refl

abbrev pub empty : Store
empty = record { scores = λ k m. none; hashes = λ h. none }
