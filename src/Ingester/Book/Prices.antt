-- ===== src/Ingester/Book/Prices.antt =====
-- The order of prices on one side of orderbook.go, either direction, is strict and total.
use trade_bench.Common.{◌≡◌, Bool, true, false, arith}
use trade_bench.Common.Int.{ℤ, eqb_ℤ}
use trade_bench.Common.Sort.{IsStrictWeak}
use trade_bench.Ingester.Book.{BookLevel, price_less}

abbrev pub level_less : Bool → BookLevel → BookLevel → Bool
level_less d a b = price_less d a.price b.price

pub price_less_irrefl : (d : Bool) (p : ℤ) → price_less d p p ≡ false
unfolding price_less
price_less_irrefl d p = ground arith

pub price_less-asym : (d : Bool) (p q : ℤ) → price_less d p q ≡ true → price_less d q p ≡ false
unfolding price_less
price_less-asym d p q h = ground arith

pub price_less_trans :
    (d : Bool) (p q r : ℤ)
    → price_less d p q ≡ true
    → price_less d q r ≡ true
    → price_less d p r ≡ true
unfolding price_less
price_less_trans d p q r h k = ground arith

pub price_less-total :
    (d : Bool) (p q : ℤ) → eqb_ℤ p q ≡ false → price_less d q p ≡ false → price_less d p q ≡ true
unfolding price_less
price_less-total d p q h k = ground arith

pub level_less-IsStrictWeak : (d : Bool) → IsStrictWeak BookLevel (level_less d)
unfolding price_less
level_less-IsStrictWeak d = record {
  asym = λ a b h. price_less-asym d a.price b.price h;
  chain = λ a b c h k. ground arith;
}
