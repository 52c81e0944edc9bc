-- ===== src/Ingester/Book.antt =====
-- apps/ingester/internal/correctness/orderbook.go: price levels and the operations on them.
-- A price is a finite float64 in units of 2^-1074, the smallest positive one, so an integer.
pub mod Prices
pub mod Place
pub mod Valid
pub mod Best
pub mod Queue
pub mod Priority
pub mod Refines
mod Examples
use trade_bench.Common.{
  String, Bool, true, false, Option, none, some, List, [], ◌∷◌, ◌++◌, str_eq, if◌then◌else◌,
}
use trade_bench.Common.Int.{ℤ, ltb_ℤ, eqb_ℤ}
use trade_bench.Common.Sort.{SortSlice}
use mathlib.Core.Option

pub record Order : Type 0 where
  pub order_id : String
  pub symbol : String
  pub side : String
  pub type : String
  pub quantity : ℤ
  pub price : ℤ
  pub sent_at_ns : ℤ

pub record BookLevel : Type 0 where
  pub price : ℤ
  pub orders : List Order

pub record OrderBook : Type 0 where
  pub bids : List BookLevel
  pub asks : List BookLevel

unfoldable pub new_order_book : OrderBook
new_order_book = record { bids = []; asks = [] }

-- The order of prices on a side: high to low for bids, low to high for asks.
unfoldable pub price_less : Bool → ℤ → ℤ → Bool
price_less descending p q = if descending then ltb_ℤ q p else ltb_ℤ p q

-- The first loop of `insertLevel`: join the level of that price, if there is one.
unfoldable pub join_level : List BookLevel → Order → Option (List BookLevel)
join_level [] o = none
join_level (l ∷ ls) o =
    let rest = Option.map (◌∷◌ l) (join_level ls o) in
    if eqb_ℤ l.price o.price then some (record l { orders = l.orders ++ o ∷ [] } ∷ ls) else rest

abbrev pub new_level : Order → BookLevel
new_level o = record { price = o.price; orders = o ∷ [] }

-- `insertLevel`: join a level, or append a new one and sort the slice.
unfoldable pub insert_level : SortSlice → List BookLevel → Order → Bool → List BookLevel
unfolding join_level
insert_level s levels o descending = elim (join_level levels o) [
  | some joined ↦ joined
  | none ↦
      s.slice BookLevel (λ a b. price_less descending a.price b.price) (levels ++ new_level o ∷ [])
]

unfoldable pub add_limit : SortSlice → OrderBook → Order → OrderBook
add_limit s ob o =
    if str_eq o.side "buy"
    then record ob { bids = insert_level s ob.bids o true }
    else record ob { asks = insert_level s ob.asks o false }

best : List BookLevel → Option ℤ
best [] = none
best (l ∷ ls) = some l.price

-- `BestBid` and `BestAsk`: `none` for the result `(0, false)`.
unfoldable pub best_bid : OrderBook → Option ℤ
unfolding best
best_bid ob = best ob.bids

unfoldable pub best_ask : OrderBook → Option ℤ
unfolding best
best_ask ob = best ob.asks

-- The inner loop of `removeFromLevels`: the queue without the first order of that id.
unfoldable pub remove_first : List Order → String → Option (List Order)
remove_first [] id = none
remove_first (o ∷ os) id =
    let rest = Option.map (◌∷◌ o) (remove_first os id) in
    if str_eq o.order_id id then some os else rest

-- The outer loop; a level that has lost its last order goes too.
unfoldable pub remove_from_levels : List BookLevel → String → List BookLevel
unfolding remove_first
remove_from_levels [] id = []
remove_from_levels (l ∷ ls) id = elim (remove_first l.orders id) [
  | none ↦ l ∷ remove_from_levels ls id
  | some [] ↦ ls
  | some (o ∷ os) ↦ record l { orders = o ∷ os } ∷ ls
]

unfoldable pub remove_order : OrderBook → String → OrderBook
remove_order ob id = record {
  bids = remove_from_levels ob.bids id;
  asks = remove_from_levels ob.asks id;
}
