-- ===== src/Scorer/Formula/Better.antt =====
-- A better run never scores lower.
use mathlib.Core.Bool.{false≢true}
use trade_bench.Common.{◌≡◌, sym, ◌∙◌, Bool, true, false, inl, inr, arith, Bool-cases}
use trade_bench.Common.Int.{ℤ, pos, leb_ℤ}
use trade_bench.Common.Float.{Float}
use trade_bench.Scorer.Formula.{latency_component, throughput_component, clamp, calculate}
use trade_bench.Scorer.Formula.Rounding.{◌⊑◌ as within, Rounding}

clash : {A : Type 0} (b : Bool) → b ≡ true → b ≡ false → A
clash b t n = absurd (false≢true (sym n ∙ t))

module _ (f : Float) (r : Rounding f) where
  infix 50 ◌⊑◌
  abbrev ◌⊑◌ : f.F → f.F → Type 0
  a ⊑ b = within f a b

  abbrev zero_f : f.F
  zero_f = f.lit 0 0

  abbrev one_f : f.F
  one_f = f.lit 1 0

  -- Of two numbers, one is not above the other.
  le_of_not_le : (a b : f.F) → a ⊑ a → b ⊑ b → f.le a b ≡ false → b ⊑ a
  le_of_not_le a b x y n = r.le_of_lt b a (r.lt_of_not_le a b x y n)

  -- The part of the formula between the two ends.
  slope_mono :
      (p q : f.F)
      → zero_f ⊑ p
      → p ⊑ q
      → q ⊑ f.lit 500 0
      → (zero_f ⊑ f.sub one_f (f.div q (f.lit 500 0)))
        × (f.sub one_f (f.div q (f.lit 500 0)) ⊑ f.sub one_f (f.div p (f.lit 500 0)))
        × (f.sub one_f (f.div p (f.lit 500 0)) ⊑ one_f)
  slope_mono p q a b c =
      let k = f.lit 500 0 in
      let d = r.div_mono k p q r.worst_latency a b in
      let e = r.div_mono k q k r.worst_latency (r.le_trans zero_f p q a b) c in
      r.sub_mono one_f (f.div p k) (f.div q k) r.one d.0 d.1 (rw r.ratio_500 at e.1)

  latency_range :
      (p : f.F) → p ⊑ p → (zero_f ⊑ latency_component f p) × (latency_component f p ⊑ one_f)
  unfolding latency_component
  latency_range p n = elim (Bool-cases (f.le p zero_f)) [
    | inl t ↦ rw t (r.zero_one, r.le_right zero_f one_f r.zero_one)
    | inr t ↦ elim (Bool-cases (f.le (f.lit 500 0) p)) [
      | inl u ↦ rw (t, u) (r.le_left zero_f one_f r.zero_one, r.zero_one)
      | inr u ↦
          let above = le_of_not_le p zero_f n (r.le_left zero_f one_f r.zero_one) t in
          let five : f.lit 500 0 ⊑ f.lit 500 0 = r.le_left _ _ r.worst_latency.1 in
          let s = slope_mono p p above n (le_of_not_le (f.lit 500 0) p five n u) in
          rw (t, u) (s.0, s.2)
    ]
  ]

  latency_antitone : (p q : f.F) → p ⊑ q → latency_component f q ⊑ latency_component f p
  unfolding latency_component
  latency_antitone p q h = elim (Bool-cases (f.le p zero_f)) [
    | inl t ↦ rw (t, latency_component) (latency_range q (r.le_right p q h)).1
    | inr t ↦ elim (Bool-cases (f.le q zero_f)) [
      | inl u ↦ clash (f.le p zero_f) (r.le_trans p q zero_f h u) t
      | inr u ↦ elim (Bool-cases (f.le (f.lit 500 0) q)) [
        | inl v ↦ rw (u, v, latency_component) (latency_range p (r.le_left p q h)).0
        | inr v ↦ elim (Bool-cases (f.le (f.lit 500 0) p)) [
          | inl w ↦ clash (f.le (f.lit 500 0) q) (r.le_trans (f.lit 500 0) p q w h) v
          | inr w ↦
              let zero_z = r.le_left zero_f one_f r.zero_one in
              let above = le_of_not_le p zero_f (r.le_left p q h) zero_z t in
              let five : f.lit 500 0 ⊑ f.lit 500 0 = r.le_left _ _ r.worst_latency.1 in
              let below = le_of_not_le (f.lit 500 0) q five (r.le_right p q h) v in
              rw (t, u, v, w) (slope_mono p q above h below).1
        ]
      ]
    ]
  ]

  -- The rate of a run between the two ends.
  ratio_mono :
      (m n : ℤ)
      → leb_ℤ (pos 0) m ≡ true
      → leb_ℤ m n ≡ true
      → leb_ℤ n (pos 1000) ≡ true
      → (zero_f ⊑ f.div (f.of_int m) (f.of_int (pos 1000)))
        × (f.div (f.of_int m) (f.of_int (pos 1000)) ⊑ f.div (f.of_int n) (f.of_int (pos 1000)))
        × (f.div (f.of_int n) (f.of_int (pos 1000)) ⊑ one_f)
  ratio_mono m n a b c =
      let k = f.of_int (pos 1000) in
      let x : zero_f ⊑ f.of_int m = rw r.of_int_zero at (r.of_int_mono (pos 0) m a) in
      let y = r.of_int_mono m n b in
      let d = r.div_mono k (f.of_int m) (f.of_int n) r.best_rate x y in
      let e =
        r.div_mono k (f.of_int n) k r.best_rate (r.le_trans zero_f _ _ x y)
          (r.of_int_mono n (pos 1000) c) in
      (d.0, d.1, rw r.ratio_1000 at e.1)

  throughput_range :
      (m : ℤ) → (zero_f ⊑ throughput_component f m) × (throughput_component f m ⊑ one_f)
  unfolding throughput_component
  throughput_range m = elim (Bool-cases (leb_ℤ m (pos 0))) [
    | inl t ↦ rw t (r.le_left zero_f one_f r.zero_one, r.zero_one)
    | inr t ↦ elim (Bool-cases (leb_ℤ (pos 1000) m)) [
      | inl u ↦ rw (t, u) (r.zero_one, r.le_right zero_f one_f r.zero_one)
      | inr u ↦
          let s = ratio_mono m m (ground arith) (ground arith) (ground arith) in
          rw (t, u) (s.0, s.2)
    ]
  ]

  throughput_mono :
      (m n : ℤ) → leb_ℤ m n ≡ true → throughput_component f m ⊑ throughput_component f n
  unfolding throughput_component
  throughput_mono m n h = elim (Bool-cases (leb_ℤ m (pos 0))) [
    | inl t ↦ rw (t, throughput_component) (throughput_range n).0
    | inr t ↦ elim (Bool-cases (leb_ℤ (pos 1000) n)) [
      | inl u ↦
          let above : leb_ℤ n (pos 0) ≡ false = ground arith in
          rw (above, u, throughput_component) (throughput_range m).1
      | inr u ↦
          let above : leb_ℤ n (pos 0) ≡ false = ground arith in
          let below : leb_ℤ (pos 1000) m ≡ false = ground arith in
          rw (t, above, u, below) (ratio_mono m n (ground arith) h (ground arith)).1
    ]
  ]

  clamp_mono : (v w k : f.F) → zero_f ⊑ v → v ⊑ w → k ⊑ k → clamp f v zero_f k ⊑ clamp f w zero_f k
  unfolding clamp
  clamp_mono v w k z h n =
      let low = not_below v z in
      let low_too = not_below w (r.le_trans zero_f v w z h) in
      elim (Bool-cases (f.lt k w)) [
        | inl t ↦ elim (Bool-cases (f.lt k v)) [
          | inl u ↦ rw (low, low_too, t, u) n
          | inr u ↦ rw (low, low_too, t, u) (not_above v k (r.le_left v w h) n u)
        ]
        | inr t ↦ elim (Bool-cases (f.lt k v)) [
          | inl u ↦
              clash (f.le v k) (r.le_trans v w k h (not_above w k (r.le_right v w h) n t))
                (r.not_le_of_lt k v u)
          | inr u ↦ rw (low, low_too, t, u) h
        ]
      ]
    where
      not_below : (x : f.F) → zero_f ⊑ x → f.lt x zero_f ≡ false
      not_below x b = elim (Bool-cases (f.lt x zero_f)) [
        | inl t ↦ clash (f.le zero_f x) b (r.not_le_of_lt x zero_f t)
        | inr t ↦ t
      ]

      not_above : (x k : f.F) → x ⊑ x → k ⊑ k → f.lt k x ≡ false → x ⊑ k
      not_above x k a n t = elim (Bool-cases (f.le x k)) [
        | inl b ↦ b
        | inr b ↦ clash (f.lt k x) (r.lt_of_not_le x k a n b) t
      ]

  -- Where the operations round as IEEE 754 says, a run that is no slower, of no smaller throughput
  -- and of no smaller correctness, which is not negative, scores no less.
  pub calculate_better :
      (p q : f.F) (m n : ℤ) (c d : f.F)
      → p ⊑ q
      → leb_ℤ m n ≡ true
      → zero_f ⊑ c
      → c ⊑ d
      → calculate f q m c ⊑ calculate f p n d
  unfolding calculate
  calculate_better p q m n c d speed rate fine correct =
      let l =
        r.mul_left (f.lit 35 2) _ _ r.weight (latency_range q (r.le_right p q speed)).0
          (latency_antitone p q speed) in
      let t =
        r.mul_left (f.lit 35 2) _ _ r.weight (throughput_range m).0 (throughput_mono m n rate) in
      let x = r.mul_left (f.lit 30 2) c d r.rest_weight fine correct in
      let both = r.add_mono _ _ _ _ l.0 l.1 t.0 t.1 in
      let raw = r.add_mono _ _ _ _ both.0 both.1 x.0 x.1 in
      let scaled = r.mul_right (f.lit 100 0) _ _ r.hundred raw.0 raw.1 in
      clamp_mono _ _ (f.lit 100 0) scaled.0 scaled.1 (r.le_left _ _ r.hundred.1)
