-- ===== src/Ingester/Validator.antt =====
-- apps/ingester/internal/correctness/validator.go: replay of a run's events against the books.
pub mod Counts
pub mod Books
pub mod Arrival
pub mod Verdict
mod Examples
use trade_bench.Common.{
  ℕ, suc, String, Bool, true, false, not, Option, none, some, List, [], ◌∷◌, str_eq, if◌then◌else◌,
  ◌==◌,
}
use trade_bench.Common.Int.{ℤ, pos, ltb_ℤ, leb_ℤ}
use trade_bench.Common.Dict.{Dict, find, put}
use trade_bench.Common.Sort.{SortSlice}
use trade_bench.Common.Float.{Float}
use trade_bench.Ingester.Book.{
  Order, OrderBook, new_order_book, add_limit, best_bid, best_ask, remove_order,
}

pub record FillEvent : Type 0 where
  pub order_id : String
  pub symbol : String
  pub side : String
  pub type : String
  pub quantity : ℤ
  pub price : ℤ
  pub sent_at_ns : ℤ
  pub filled : Bool

-- The validator's books with the two counters of `Validate`, which count events of a slice.
pub record Tally : Type 0 where
  pub books : Dict OrderBook
  pub total : ℕ
  pub correct : ℕ

unfoldable pub new_validator : Dict OrderBook
new_validator = []

-- `book`: the book of a symbol, a new one if there is none yet.
unfoldable pub book : Dict OrderBook → String → OrderBook
book books symbol = elim (find symbol books) [ none ↦ new_order_book | some ob ↦ ob ]

unfoldable pub should_fill : OrderBook → FillEvent → Bool
should_fill ob e =
    if str_eq e.side "buy"
    then elim (best_ask ob) [ none ↦ false | some ask ↦ leb_ℤ ask e.price ]
    else elim (best_bid ob) [ none ↦ false | some bid ↦ leb_ℤ e.price bid ]

unfoldable pub has_liquidity : OrderBook → String → Bool
has_liquidity ob side =
    if str_eq side "buy"
    then elim (best_ask ob) [ none ↦ false | some _ ↦ true ]
    else elim (best_bid ob) [ none ↦ false | some _ ↦ true ]

abbrev pub order_of : FillEvent → Order
order_of e = record {
  order_id = e.order_id;
  symbol = e.symbol;
  side = e.side;
  type = e.type;
  quantity = e.quantity;
  price = e.price;
  sent_at_ns = e.sent_at_ns;
}

abbrev bump : Bool → ℕ → ℕ
bump b n = if b then suc n else n

on_limit : SortSlice → Tally → OrderBook → FillEvent → Tally
on_limit s t ob e =
    let ob' = add_limit s ob (order_of e) in
    let hit = should_fill ob' e in
    record {
      books = put e.symbol ob' t.books;
      total = bump e.filled t.total;
      correct = if e.filled then bump hit t.correct else t.correct;
    }

-- The market case: no fill is right where there is no liquidity, a fill where there is some.
on_market : Tally → OrderBook → FillEvent → Tally
on_market t ob e =
    let liquid = has_liquidity ob e.side in
    record {
      books = put e.symbol ob t.books;
      total = suc t.total;
      correct = if e.filled then bump liquid t.correct else bump (not liquid) t.correct;
    }

on_cancel : Tally → OrderBook → FillEvent → Tally
on_cancel t ob e = record t { books = put e.symbol (remove_order ob e.order_id) t.books }

-- One round of the loop of `Validate`. The `switch` is on the type; another type only makes the
-- book of its symbol. The book is the map's own, so it is written back.
unfoldable pub replay : SortSlice → Tally → FillEvent → Tally
unfolding on_limit on_market on_cancel
replay s t e =
    let ob = book t.books e.symbol in
    if str_eq e.type "limit"
    then on_limit s t ob e
    else if str_eq e.type "market"
    then on_market t ob e
    else if str_eq e.type "cancel"
    then on_cancel t ob e
    else record t { books = put e.symbol ob t.books }

unfoldable pub replay_all : SortSlice → Tally → List FillEvent → Tally
replay_all s t [] = t
replay_all s t (e ∷ es) = replay_all s (replay s t e) es

unfoldable pub sent_before : FillEvent → FillEvent → Bool
sent_before a b = ltb_ℤ a.sent_at_ns b.sent_at_ns

-- The events in the order of sending, then counted.
unfoldable pub tally : SortSlice → Dict OrderBook → List FillEvent → Tally
tally s books events =
    replay_all s (record { books = books; total = 0; correct = 0 })
      (s.slice FillEvent sent_before events)

-- `Validate`: the share of correct fills, 1.0 where nothing counts.
unfoldable pub validate : (f : Float) → SortSlice → Dict OrderBook → List FillEvent → f.F
validate f s books events =
    let t = tally s books events in
    if t.total == 0 then f.lit 1 0 else f.div (f.of_int (pos t.correct)) (f.of_int (pos t.total))
