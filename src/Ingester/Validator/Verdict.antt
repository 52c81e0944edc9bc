-- ===== src/Ingester/Validator/Verdict.antt =====
-- What the verdicts of validator.go say of the orders that rest on the other side of the book.
use mathlib.Core.List.{Memᴰ}
use trade_bench.Common.{
  ◌≡◌, refl, ◌↔◌, ◌⊎◌, inl, inr, List, [], String, arith, true, false, if◌then◌else◌, str_eq,
  Bool-cases, Option-cases, All, All-imp,
}
use trade_bench.Common.Int.{◌≤ℤ◌, leb_ℤ}
use trade_bench.Ingester.Book.{Order, OrderBook, best_bid, best_ask}
use trade_bench.Ingester.Book.Valid.{IsValid}
use trade_bench.Ingester.Book.Best.{resting, best_bid-IsBest, best_ask-IsBest, best-none}
use trade_bench.Ingester.Validator.{FillEvent, should_fill, has_liquidity}

-- The orders that an order of that side would trade with.
abbrev pub opposite : OrderBook → String → List Order
opposite ob side = if str_eq side "buy" then resting ob.asks else resting ob.bids

-- The prices of the event and of an order on the other side meet.
abbrev pub Crosses : FillEvent → Order → Type 0
Crosses e o = if str_eq e.side "buy" then o.price ≤ℤ e.price else e.price ≤ℤ o.price

-- On a valid book there is liquidity for a side exactly when an order rests on the other one.
pub has_liquidity-opposite :
    (ob : OrderBook) (side : String)
    → IsValid ob
    → (has_liquidity ob side ≡ false) ↔ (opposite ob side ≡ [])
unfolding has_liquidity
has_liquidity-opposite ob side v = elim (Bool-cases (str_eq side "buy")) [
  | inl b ↦ ground (arith, (best-none ob v).1.0, (best-none ob v).1.1)
  | inr b ↦ ground (arith, (best-none ob v).0.0, (best-none ob v).0.1)
]

-- On a valid book the verdict is that a limit order should fill exactly when some order resting on
-- the other side has a price that meets its own.
pub should_fill-Crosses :
    (ob : OrderBook) (e : FillEvent)
    → IsValid ob
    → ((should_fill ob e ≡ true) × ((o : Order) × Memᴰ o (opposite ob e.side) × Crosses e o))
      ⊎ ((should_fill ob e ≡ false) × All (λ o. ¬ Crosses e o) (opposite ob e.side))
unfolding should_fill
should_fill-Crosses ob e v = elim (Bool-cases (str_eq e.side "buy")) [
  | inl b ↦
      rw (b, should_fill)
        (elim (Option-cases (best_ask ob)) [
          | inl n ↦ rw (n, should_fill) (inr (refl, rw ((best-none ob v).1.0 n) tt))
          | inr (p, q) ↦
              let (above, (o, here, same)) = best_ask-IsBest ob p v q in
              elim (Bool-cases (leb_ℤ p e.price)) [
                | inl l ↦ rw (q, should_fill) (inl (l, (o, here, rw same (ground arith))))
                | inr g ↦
                    rw (q, should_fill)
                      (inr (g, All-imp (resting ob.asks) (λ x h c. ground arith) above))
              ]
        ])
  | inr b ↦
      rw (b, should_fill)
        (elim (Option-cases (best_bid ob)) [
          | inl n ↦ rw (n, should_fill) (inr (refl, rw ((best-none ob v).0.0 n) tt))
          | inr (p, q) ↦
              let (below, (o, here, same)) = best_bid-IsBest ob p v q in
              elim (Bool-cases (leb_ℤ e.price p)) [
                | inl l ↦ rw (q, should_fill) (inl (l, (o, here, rw same (ground arith))))
                | inr g ↦
                    rw (q, should_fill)
                      (inr (g, All-imp (resting ob.bids) (λ x h c. ground arith) below))
              ]
        ])
]
