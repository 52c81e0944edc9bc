-- ===== src/Scorer/Formula/Rounding.antt =====
-- What the order of the scores needs of IEEE 754: a comparison that is true is of numbers, and an
-- operation rounds in the order of its exact results.
use trade_bench.Common.{◌≡◌, true, false}
use trade_bench.Common.Int.{ℤ, pos, leb_ℤ}
use trade_bench.Common.Float.{Float}

module _ (f : Float) where
  infix 50 ◌⊑◌
  abbrev pub ◌⊑◌ : f.F → f.F → Type 0
  a ⊑ b = f.le a b ≡ true

  -- A positive number that is not large.
  abbrev pub IsConstant : f.F → Type 0
  IsConstant k = (f.lt (f.lit 0 0) k ≡ true) × (k ⊑ f.lit 1000 0)

  pub record Rounding : Type 0 where
    pub le_trans : (a b c : f.F) → a ⊑ b → b ⊑ c → a ⊑ c
    pub le_left : (a b : f.F) → a ⊑ b → a ⊑ a
    pub le_right : (a b : f.F) → a ⊑ b → b ⊑ b
    pub le_of_lt : (a b : f.F) → f.lt a b ≡ true → a ⊑ b
    pub lt_of_not_le : (a b : f.F) → a ⊑ a → b ⊑ b → f.le a b ≡ false → f.lt b a ≡ true
    pub not_le_of_lt : (a b : f.F) → f.lt a b ≡ true → f.le b a ≡ false
    pub add_mono :
        (a b c d : f.F)
        → f.lit 0 0 ⊑ a
        → a ⊑ b
        → f.lit 0 0 ⊑ c
        → c ⊑ d
        → (f.lit 0 0 ⊑ f.add a c) × (f.add a c ⊑ f.add b d)
    pub mul_left :
        (k a b : f.F)
        → IsConstant k
        → f.lit 0 0 ⊑ a
        → a ⊑ b
        → (f.lit 0 0 ⊑ f.mul k a) × (f.mul k a ⊑ f.mul k b)
    pub mul_right :
        (k a b : f.F)
        → IsConstant k
        → f.lit 0 0 ⊑ a
        → a ⊑ b
        → (f.lit 0 0 ⊑ f.mul a k) × (f.mul a k ⊑ f.mul b k)
    pub div_mono :
        (k a b : f.F)
        → IsConstant k
        → f.lit 0 0 ⊑ a
        → a ⊑ b
        → (f.lit 0 0 ⊑ f.div a k) × (f.div a k ⊑ f.div b k)
    pub sub_mono :
        (k a b : f.F)
        → IsConstant k
        → f.lit 0 0 ⊑ a
        → a ⊑ b
        → b ⊑ k
        → (f.lit 0 0 ⊑ f.sub k b) × (f.sub k b ⊑ f.sub k a) × (f.sub k a ⊑ k)
    pub of_int_mono : (m n : ℤ) → leb_ℤ m n ≡ true → f.of_int m ⊑ f.of_int n
    pub of_int_zero : f.of_int (pos 0) ≡ f.lit 0 0
    pub ratio_500 : f.div (f.lit 500 0) (f.lit 500 0) ≡ f.lit 1 0
    pub ratio_1000 : f.div (f.of_int (pos 1000)) (f.of_int (pos 1000)) ≡ f.lit 1 0
    pub zero_one : f.lit 0 0 ⊑ f.lit 1 0
    pub one : IsConstant (f.lit 1 0)
    pub weight : IsConstant (f.lit 35 2)
    pub rest_weight : IsConstant (f.lit 30 2)
    pub hundred : IsConstant (f.lit 100 0)
    pub worst_latency : IsConstant (f.lit 500 0)
    pub best_rate : IsConstant (f.of_int (pos 1000))
