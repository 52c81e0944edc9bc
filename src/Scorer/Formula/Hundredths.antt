-- ===== src/Scorer/Formula/Hundredths.antt =====
-- A stand-in for float64 at which the laws of rounding hold: hundredths, rounded down.
use native.Mathlib.Nat.{div-mul-le_self, le-div_iff_mul-le, mul-le-mul_left, mul-le-mul_right}
use trade_bench.Common.{◌<◌, ℕ, ◌+◌, ◌-◌, ◌*◌, ◌/◌, ◌^◌, ◌≤◌, ◌≡◌, refl, true, arith, ltb, leb}
use trade_bench.Common.Int.{ℤ, pos, negsuc, pos_part, leb_ℤ}
use trade_bench.Common.Float.{Float}
use trade_bench.Scorer.Formula.Rounding.{Rounding}

leb→le : (a b : ℕ) → leb a b ≡ true → a ≤ b
leb→le a b h = ground arith

le→leb : (a b : ℕ) → a ≤ b → leb a b ≡ true
le→leb a b h = ground arith

div_le : (m n k : ℕ) → 0 < k → m ≤ n → m / k ≤ n / k
div_le m n k pos_k h = (le-div_iff_mul-le pos_k).1 (omega (arith, div-mul-le_self m k))

parts_le : (m n : ℤ) → leb_ℤ m n ≡ true → pos_part m * 100 ≤ pos_part n * 100
parts_le (pos m) (pos n) h = ground arith
parts_le (pos m) (negsuc n) h = absurd (ground arith)
parts_le (negsuc m) (pos n) h = omega arith
parts_le (negsuc m) (negsuc n) h = omega arith

abbrev pub hundredths : Float
hundredths = record {
  F = ℕ;
  lit = λ m k. m * 100 / 10 ^ k;
  of_int = λ n. pos_part n * 100;
  to_int = λ x. pos (x / 100);
  add = ◌+◌;
  sub = ◌-◌;
  mul = λ a b. a * b / 100;
  div = λ a b. a * 100 / b;
  lt = ltb;
  le = leb;
}

pub hundredths-Rounding : Rounding hundredths
hundredths-Rounding = record {
  le_trans = λ a b c h g. ground arith;
  le_left = λ a b h. ground arith;
  le_right = λ a b h. ground arith;
  le_of_lt = λ a b h. ground arith;
  lt_of_not_le = λ a b x y h. ground arith;
  not_le_of_lt = λ a b h. ground arith;
  add_mono = λ a b c d z h y g. (ground arith, ground arith);
  mul_left = λ k a b c z h. (
    ground arith,
    le→leb _ _ (div_le (k * a) (k * b) 100 (omega arith) (mul-le-mul_left k (leb→le a b h))),
  );
  mul_right = λ k a b c z h. (
    ground arith,
    le→leb _ _ (div_le (a * k) (b * k) 100 (omega arith) (mul-le-mul_right k (leb→le a b h))),
  );
  div_mono = λ k a b c z h. (
    ground arith,
    le→leb _ _ (div_le (a * 100) (b * 100) k (ground arith) (omega (arith, leb→le a b h))),
  );
  sub_mono = λ k a b c z h g. (ground arith, ground arith, ground arith);
  of_int_mono = λ m n h. le→leb _ _ (parts_le m n h);
  of_int_zero = refl;
  ratio_500 = refl;
  ratio_1000 = refl;
  zero_one = refl;
  one = (refl, refl);
  weight = (refl, refl);
  rest_weight = (refl, refl);
  hundred = (refl, refl);
  worst_latency = (refl, refl);
  best_rate = (refl, refl);
}
