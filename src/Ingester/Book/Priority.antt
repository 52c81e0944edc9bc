-- ===== src/Ingester/Book/Priority.antt =====
-- The order book as a client sees it: on each side one queue of orders by price and time. The
-- levels of orderbook.go implement it.
use trade_bench.Common.{
  Bool, true, false, Option, none, some, String, List, [], ◌∷◌, if◌then◌else◌, str_eq,
}
use trade_bench.Common.Int.{ℤ}
use trade_bench.Common.Sort.{SortSlice}
use trade_bench.Ingester.Book.{Order, OrderBook, price_less, add_limit, remove_order}
use trade_bench.Ingester.Book.Best.{resting}

-- An order goes behind all orders that are not worse.
unfoldable pub enqueue : Bool → Order → List Order → List Order
enqueue d o [] = o ∷ []
enqueue d o (x ∷ xs) =
    let rest = enqueue d o xs in if price_less d o.price x.price then o ∷ x ∷ xs else x ∷ rest

-- The first order of that id goes.
unfoldable pub dequeue : String → List Order → List Order
dequeue id [] = []
dequeue id (x ∷ xs) = let rest = dequeue id xs in if str_eq x.order_id id then xs else x ∷ rest

abbrev pub top_price : List Order → Option ℤ
top_price [] = none
top_price (x ∷ xs) = some x.price

pub record Queues : Type 0 where
  pub bids : List Order
  pub asks : List Order

abbrev pub view : OrderBook → Queues
view ob = record { bids = resting ob.bids; asks = resting ob.asks }

pub data Op : Type 0 where
  limit : Order → Op
  cancel : String → Op

unfoldable pub apply_op : SortSlice → OrderBook → Op → OrderBook
apply_op s ob (limit o) = add_limit s ob o
apply_op s ob (cancel id) = remove_order ob id

unfoldable pub specify_op : Queues → Op → Queues
specify_op q (limit o) =
    if str_eq o.side "buy"
    then record q { bids = enqueue true o q.bids }
    else record q { asks = enqueue false o q.asks }
specify_op q (cancel id) = record { bids = dequeue id q.bids; asks = dequeue id q.asks }

unfoldable pub apply_all : SortSlice → OrderBook → List Op → OrderBook
apply_all s ob [] = ob
apply_all s ob (op ∷ ops) = apply_all s (apply_op s ob op) ops

unfoldable pub specify_all : Queues → List Op → Queues
specify_all q [] = q
specify_all q (op ∷ ops) = specify_all (specify_op q op) ops
