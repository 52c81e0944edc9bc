-- ===== src/Common/Bag.antt =====
-- Lists of numbers as bags: whether a number is in one, how often, and one taken out.
use trade_bench.Common.{
  ℕ, suc, ◌+◌, ◌≡◌, Bool, true, false, Option, none, some, List, [], ◌∷◌, ◌||◌, if◌then◌else◌, ◌==◌,
  length, arith,
}

abbrev pub contains : ℕ → List ℕ → Bool
contains n [] = false
contains n (m ∷ ms) = m == n || contains n ms

-- The first occurrence goes.
abbrev pub remove_one : ℕ → List ℕ → List ℕ
remove_one n [] = []
remove_one n (m ∷ ms) = if m == n then ms else m ∷ remove_one n ms

abbrev pub count : ℕ → List ℕ → ℕ
count n [] = 0
count n (m ∷ ms) = (if m == n then 1 else 0) + count n ms

abbrev pub count_waiting : ℕ → Option ℕ → ℕ
count_waiting n none = 0
count_waiting n (some m) = if m == n then 1 else 0

pub length-remove_one :
    (n : ℕ) (xs : List ℕ) → contains n xs ≡ true → suc (length (remove_one n xs)) ≡ length xs
length-remove_one n [] h = absurd (ground arith)
length-remove_one n (x ∷ xs) h = ground (arith, length-remove_one n xs)

pub count-remove_one :
    (m n : ℕ) (xs : List ℕ)
    → contains n xs ≡ true
    → count m (remove_one n xs) + (if n == m then 1 else 0) ≡ count m xs
count-remove_one m n [] h = absurd (ground arith)
count-remove_one m n (x ∷ xs) h = ground (arith, count-remove_one m n xs)
