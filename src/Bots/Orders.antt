-- ===== src/Bots/Orders.antt =====
-- apps/bots/internal/orders/generator.go. The random numbers of math/rand and the UUID are an
-- argument.
use Prim.Native.String.{◌++◌ as append}
use trade_bench.Common.{
  ℕ, ◌+◌, ◌≡◌, ◌≤◌, ◌<◌, ◌⊎◌, inl, inr, String, if◌then◌else◌, ltb, ◌==◌, str_eq, arith, refl,
  Bool-cases,
}
use trade_bench.Common.Int.{ℤ, pos}
use trade_bench.Common.Float.{Float}

pub record OrderPayload (F : Type 0) : Type 0 where
  pub order_id : String
  pub symbol : String
  pub side : String
  pub type : String
  pub quantity : ℤ
  pub price : F

-- The results of the calls: `IntN(100)`, `IntN(2)`, `IntN(5)`, `IntN(100)`, `Float64()`, and the
-- first eight characters of the UUID.
pub record Draws (F : Type 0) : Type 0 where
  pub roll : ℕ
  pub coin : ℕ
  pub pick : ℕ
  pub size : ℕ
  pub spread : F
  pub short_id : String

-- `symbols[i]`.
abbrev pub symbol_at : ℕ → String
symbol_at i =
    if i == 0
    then "AAPL"
    else if i == 1
    then "GOOG"
    else if i == 2
    then "MSFT"
    else if i == 3
    then "AMZN"
    else "TSLA"

abbrev pub type_of : ℕ → String
type_of roll = if ltb roll 60 then "limit" else if ltb roll 85 then "market" else "cancel"

module _ (f : Float) where
  -- The middle price, two per cent down to two per cent up, cut to whole cents. The deviation is a
  -- product of two constants, which Go multiplies exactly.
  unfoldable pub limit_price : f.F → f.F
  limit_price spread =
      let deviation = f.lit 3 0 in
      let price =
        f.add (f.sub (f.lit 150 0) deviation) (f.mul (f.mul spread (f.lit 2 0)) deviation) in
      f.div (f.of_int (f.to_int (f.mul price (f.lit 100 0)))) (f.lit 100 0)

  unfoldable pub generate : Draws f.F → OrderPayload f.F
  generate d =
      let order_type = type_of d.roll in
      record {
        order_id = append "ord-" d.short_id;
        symbol = symbol_at d.pick;
        side = if d.coin == 1 then "sell" else "buy";
        type = order_type;
        quantity = pos (d.size + 1);
        price = if str_eq order_type "limit" then limit_price d.spread else f.lit 0 0;
      }

  -- Whatever is drawn, an order is of one of the three types: a limit order for the rolls below 60,
  -- with the drawn price, a market order for those below 85 and a cancellation for the others, both
  -- at price 0; it has one of the two sides, and a size in the range drawn plus one.
  pub generate_cases :
      (d : Draws f.F)
      → d.size < 100
      → ((d.roll < 60) × ((generate d).type ≡ "limit") × ((generate d).price ≡ limit_price d.spread)
          ⊎ (((60 ≤ d.roll)
                × (d.roll < 85)
                × ((generate d).type ≡ "market")
                × ((generate d).price ≡ f.lit 0 0))
              ⊎ ((85 ≤ d.roll)
                  × ((generate d).type ≡ "cancel")
                  × ((generate d).price ≡ f.lit 0 0))))
        × (((generate d).side ≡ "buy") ⊎ ((generate d).side ≡ "sell"))
        × ((q : ℕ) × ((generate d).quantity ≡ pos q) × (1 ≤ q) × (q ≤ 100))
  unfolding generate
  generate_cases d h = (kind, side, (d.size + 1, refl, omega arith, omega arith))
    where
      side : ((generate d).side ≡ "buy") ⊎ ((generate d).side ≡ "sell")
      side = elim (Bool-cases (d.coin == 1)) [ inl e ↦ inr (rw e refl) | inr e ↦ inl (rw e refl) ]

      kind :
          ((d.roll < 60)
              × ((generate d).type ≡ "limit")
              × ((generate d).price ≡ limit_price d.spread)
            ⊎ (((60 ≤ d.roll)
                  × (d.roll < 85)
                  × ((generate d).type ≡ "market")
                  × ((generate d).price ≡ f.lit 0 0))
                ⊎ ((85 ≤ d.roll)
                    × ((generate d).type ≡ "cancel")
                    × ((generate d).price ≡ f.lit 0 0))))
      kind = elim (Bool-cases (ltb d.roll 60)) [
        | inl e ↦ rw e (inl (ground arith, refl, refl))
        | inr e ↦ elim (Bool-cases (ltb d.roll 85)) [
          | inl k ↦ rw (e, k) (inr (inl (ground arith, ground arith, refl, refl)))
          | inr k ↦ rw (e, k) (inr (inr (ground arith, refl, refl)))
        ]
      ]
