-- ===== src/Leaderboard/Board/Ranks.antt =====
-- The entries of `ParseEntries`.
use trade_bench.Common.{ℕ, suc, ◌≡◌, String, Option, none, some, List, [], ◌∷◌, if◌then◌else◌}
use trade_bench.Common.Float.{Float}
use trade_bench.Leaderboard.Board.{LeaderboardEntry, ParseFloat}

-- Ranks that count up by one, the first one being `i + 1`.
abbrev pub AreRanks : {F : Type 0} → ℕ → List (LeaderboardEntry F) → Type 0
AreRanks i [] = Unit
AreRanks i (e ∷ es) = (e.rank ≡ suc i) × AreRanks (suc i) es

abbrev pub scores : {F : Type 0} → List (LeaderboardEntry F) → List (String × F)
scores [] = []
scores (e ∷ es) = (e.contestant_id, e.score) ∷ scores es

module _ (f : Float) where
  -- A field of the hash with the number that its text is, if it is one.
  abbrev pub number_of : ParseFloat f.F → String × String → Option (String × f.F)
  number_of parse (id, text) = if (parse text).1 then some (id, (parse text).0) else none
