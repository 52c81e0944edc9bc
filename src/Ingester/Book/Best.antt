-- ===== src/Ingester/Book/Best.antt =====
-- `BestBid` and `BestAsk` of orderbook.go are the best prices of the orders that rest in the book.
use mathlib.Core.List.{Memᴰ}
use trade_bench.Common.{
  ◌≡◌, refl, ◌≢◌, ◌↔◌, Bool, true, false, none, some, List, [], ◌∷◌, ◌++◌, arith, All, All-append,
  All-imp,
}
use trade_bench.Common.Int.{ℤ, ◌≤ℤ◌}
use trade_bench.Ingester.Book.{Order, BookLevel, OrderBook, best, best_bid, best_ask, price_less}
use trade_bench.Ingester.Book.Valid.{IsFilled, IsSide, IsValid}
use trade_bench.Ingester.Book.Prices.{price_less_irrefl, price_less-asym}

-- The orders that rest on one side, best level first, oldest first within a level.
abbrev pub resting : List BookLevel → List Order
resting [] = []
resting (l ∷ ls) = l.orders ++ resting ls

-- No resting order is better than the price, and one has it.
abbrev pub IsBest : Bool → ℤ → List Order → Type 0
IsBest d p os =
    All (λ o. price_less d o.price p ≡ false) os × ((o : Order) × Memᴰ o os × (o.price ≡ p))

first_order :
    (l : BookLevel) (os rest : List Order)
    → os ≢ []
    → All (λ o. o.price ≡ l.price) os
    → (o : Order) × Memᴰ o (os ++ rest) × (o.price ≡ l.price)
first_order l [] rest n h = absurd (n refl)
first_order l (o ∷ os) rest n h = (o, Memᴰ.head refl, h.0)

none_better :
    (d : Bool) (p : ℤ) (ls : List BookLevel)
    → All (λ m. price_less d p m.price ≡ true) ls
    → All IsFilled ls
    → All (λ o. price_less d o.price p ≡ false) (resting ls)
none_better d p [] h f = tt
none_better d p (m ∷ ls) h f =
    All-append _ m.orders (resting ls)
      (All-imp m.orders (λ o e. rw e (price_less-asym d p m.price h.0)) f.0.1)
      (none_better d p ls h.1 f.1)

best-IsBest :
    (d : Bool) (ls : List BookLevel) (p : ℤ)
    → IsSide d ls
    → best ls ≡ some p
    → IsBest d p (resting ls)
unfolding best
best-IsBest d [] p h e = cc
best-IsBest d (l ∷ ls) p h e =
    let top : l.price ≡ p = cc in
    rw (← top) (
      All-append _ l.orders (resting ls)
          (All-imp l.orders (λ o q. rw q (price_less_irrefl d l.price)) h.1.0.1)
          (none_better d l.price ls h.0.0 h.1.1),
      first_order l l.orders (resting ls) h.1.0.0 h.1.0.1,
    )

-- On a valid book the best bid is the highest resting bid price: no bid is above it, one has it.
pub best_bid-IsBest :
    (ob : OrderBook) (p : ℤ)
    → IsValid ob
    → best_bid ob ≡ some p
    → All (λ o. o.price ≤ℤ p) (resting ob.bids)
      × ((o : Order) × Memᴰ o (resting ob.bids) × (o.price ≡ p))
unfolding best_bid price_less
best_bid-IsBest ob p v e =
    let b = best-IsBest true ob.bids p v.bids_ok e in
    (All-imp (resting ob.bids) (λ o h. ground arith) b.0, b.1)

-- On a valid book the best ask is the lowest resting ask price: no ask is below it, one has it.
pub best_ask-IsBest :
    (ob : OrderBook) (p : ℤ)
    → IsValid ob
    → best_ask ob ≡ some p
    → All (λ o. p ≤ℤ o.price) (resting ob.asks)
      × ((o : Order) × Memᴰ o (resting ob.asks) × (o.price ≡ p))
unfolding best_ask price_less
best_ask-IsBest ob p v e =
    let b = best-IsBest false ob.asks p v.asks_ok e in
    (All-imp (resting ob.asks) (λ o h. ground arith) b.0, b.1)

-- On a valid book `BestBid` and `BestAsk` report nothing exactly when that side rests empty.
pub best-none :
    (ob : OrderBook)
    → IsValid ob
    → ((best_bid ob ≡ none) ↔ (resting ob.bids ≡ []))
      × ((best_ask ob ≡ none) ↔ (resting ob.asks ≡ []))
unfolding best_bid best_ask
best-none ob v = (side true ob.bids v.bids_ok, side false ob.asks v.asks_ok)
  where
    append_ne_nil : (os rest : List Order) → os ≢ [] → os ++ rest ≢ []
    append_ne_nil [] rest n e = n refl
    append_ne_nil (o ∷ os) rest n e = cc

    side : (d : Bool) (ls : List BookLevel) → IsSide d ls → (best ls ≡ none) ↔ (resting ls ≡ [])
    side d [] h = (λ e. refl, λ e. refl)
    side d (l ∷ ls) h = (λ e. cc, λ e. absurd (append_ne_nil l.orders (resting ls) h.1.0.0 e))
