-- ===== src/Ingester/Book/Refines.antt =====
-- The levels of orderbook.go implement the queues by price and time.
use mathlib.Core.List.{append_assoc}
use trade_bench.Common.{
  ◌≡◌, refl, sym, ap, ◌∙◌, ◌≢◌, Bool, true, false, some, inl, inr, String, List, [], ◌∷◌, ◌++◌,
  arith, str_eq, str_iff, All, Bool-cases,
}
use trade_bench.Common.Int.{ℤ, eqb_ℤ, eqb_ℤ→≡}
use trade_bench.Common.Sort.{SortSlice}
use trade_bench.Ingester.Book.{
  Order, BookLevel, OrderBook, price_less, best, best_bid, best_ask, add_limit, remove_order,
  remove_from_levels,
}
use trade_bench.Ingester.Book.Prices.{price_less_irrefl}
use trade_bench.Ingester.Book.Place.{place, insert_level-place}
use trade_bench.Ingester.Book.Valid.{
  IsFilled, IsSide, IsValid, add_limit-IsValid, remove_order-IsValid,
}
use trade_bench.Ingester.Book.Best.{resting}
use trade_bench.Ingester.Book.Queue.{remove_from_levels-resting}
use trade_bench.Ingester.Book.Priority.{
  enqueue, dequeue, top_price, view, Op, limit, cancel, apply_op, specify_op, apply_all,
  specify_all,
}

-- Past orders of one price that the new one does not beat.
enqueue_past :
    (d : Bool) (o : Order) (p : ℤ) (os rest : List Order)
    → price_less d o.price p ≡ false
    → All (λ x. x.price ≡ p) os
    → enqueue d o (os ++ rest) ≡ os ++ enqueue d o rest
unfolding enqueue
enqueue_past d o p [] rest e h = refl
enqueue_past d o p (x ∷ os) rest e h =
    let w : price_less d o.price x.price ≡ false = ap (price_less d o.price) h.0 ∙ e in
    rw w (ap (◌∷◌ x) (enqueue_past d o p os rest e h.1))

-- In front of a level that the new one beats.
enqueue_front :
    (d : Bool) (o : Order) (p : ℤ) (os rest : List Order)
    → price_less d o.price p ≡ true
    → os ≢ []
    → All (λ x. x.price ≡ p) os
    → enqueue d o (os ++ rest) ≡ o ∷ os ++ rest
unfolding enqueue
enqueue_front d o p [] rest e n h = absurd (n refl)
enqueue_front d o p (x ∷ os) rest e n h =
    let w : price_less d o.price x.price ≡ true = ap (price_less d o.price) h.0 ∙ e in rw w refl

enqueue_behind :
    (d : Bool) (o : Order) (ls : List BookLevel)
    → All (λ m. price_less d o.price m.price ≡ true) ls
    → All IsFilled ls
    → enqueue d o (resting ls) ≡ o ∷ resting ls
unfolding enqueue
enqueue_behind d o [] h f = refl
enqueue_behind d o (m ∷ ls) h f = enqueue_front d o m.price m.orders (resting ls) h.0 f.0.0 f.0.1

resting-place :
    (d : Bool) (ls : List BookLevel) (o : Order)
    → IsSide d ls
    → resting (place ls o d) ≡ enqueue d o (resting ls)
unfolding place enqueue
resting-place d [] o h = refl
resting-place d (l ∷ ls) o h = elim (Bool-cases (eqb_ℤ l.price o.price)) [
  | inl t ↦
      let q : l.price ≡ o.price = eqb_ℤ→≡ l.price o.price t in
      let level =
        enqueue_past d o l.price l.orders (resting ls) (rw q (price_less_irrefl d o.price))
          h.1.0.1 in
      let behind = enqueue_behind d o ls (rw (← q) h.0.0) h.1.1 in
      rw (t, level, behind) (append_assoc l.orders (o ∷ []) (resting ls))
  | inr n ↦ elim (Bool-cases (price_less d o.price l.price)) [
    | inl e ↦ rw (n, e) (sym (enqueue_front d o l.price l.orders (resting ls) e h.1.0.0 h.1.0.1))
    | inr e ↦
        rw (n, e, enqueue_past d o l.price l.orders (resting ls) e h.1.0.1)
          (ap (λ r. l.orders ++ r) (resting-place d ls o (h.0.1, h.1.1)))
  ]
]

dequeue_none : (id : String) (os : List Order) → All (λ o. o.order_id ≢ id) os → dequeue id os ≡ os
unfolding dequeue
dequeue_none id [] h = refl
dequeue_none id (x ∷ os) h = ground (arith, str_iff x.order_id id, h.0, dequeue_none id os h.1)

dequeue_first :
    (id : String) (pre : List Order) (o : Order) (post : List Order)
    → o.order_id ≡ id
    → All (λ x. x.order_id ≢ id) pre
    → dequeue id (pre ++ o ∷ post) ≡ pre ++ post
unfolding dequeue
dequeue_first id [] o post e h = ground (arith, str_iff o.order_id id)
dequeue_first id (x ∷ pre) o post e h =
    ground (arith, str_iff x.order_id id, h.0, dequeue_first id pre o post e h.1)

resting-remove_from_levels :
    (ls : List BookLevel) (id : String)
    → resting (remove_from_levels ls id) ≡ dequeue id (resting ls)
resting-remove_from_levels ls id = elim (remove_from_levels-resting ls id) [
  | inl (same, none_has) ↦ ap resting same ∙ sym (dequeue_none id (resting ls) none_has)
  | inr (pre, o, post, before, after, has, none_has) ↦
      after ∙ sym (dequeue_first id pre o post has none_has) ∙ ap (dequeue id) (sym before)
]

best-top_price : (ls : List BookLevel) → All IsFilled ls → best ls ≡ top_price (resting ls)
unfolding best
best-top_price [] h = refl
best-top_price (l ∷ ls) h = first l.orders h.0.0 h.0.1
  where
    first :
        (os : List Order)
        → os ≢ []
        → All (λ o. o.price ≡ l.price) os
        → some l.price ≡ top_price (os ++ resting ls)
    first [] n k = absurd (n refl)
    first (o ∷ os) n k = ap some (sym k.0)

view-apply_op :
    (s : SortSlice) (ob : OrderBook) (op : Op)
    → IsValid ob
    → view (apply_op s ob op) ≡ specify_op (view ob) op
unfolding apply_op specify_op add_limit remove_order
view-apply_op s ob (limit o) v = elim (Bool-cases (str_eq o.side "buy")) [
  | inl b ↦
      rw
        (b, insert_level-place true o s ob.bids v.bids_ok.0, resting-place true ob.bids o v.bids_ok)
        refl
  | inr b ↦
      rw
        (
          b,
          insert_level-place false o s ob.asks v.asks_ok.0,
          resting-place false ob.asks o v.asks_ok,
        )
        refl
]
view-apply_op s ob (cancel id) v =
    rw (resting-remove_from_levels ob.bids id, resting-remove_from_levels ob.asks id) refl

apply_op-IsValid :
    (s : SortSlice) (ob : OrderBook) (op : Op) → IsValid ob → IsValid (apply_op s ob op)
unfolding apply_op
apply_op-IsValid s ob (limit o) v = add_limit-IsValid s ob o v
apply_op-IsValid s ob (cancel id) v = remove_order-IsValid ob id v

apply_all-IsValid :
    (s : SortSlice) (ob : OrderBook) (ops : List Op) → IsValid ob → IsValid (apply_all s ob ops)
unfolding apply_all
apply_all-IsValid s ob [] v = v
apply_all-IsValid s ob (op ∷ ops) v =
    apply_all-IsValid s (apply_op s ob op) ops (apply_op-IsValid s ob op v)

view-apply_all :
    (s : SortSlice) (ob : OrderBook) (ops : List Op)
    → IsValid ob
    → view (apply_all s ob ops) ≡ specify_all (view ob) ops
unfolding apply_all specify_all
view-apply_all s ob [] v = refl
view-apply_all s ob (op ∷ ops) v =
    view-apply_all s (apply_op s ob op) ops (apply_op-IsValid s ob op v)
    ∙ ap (λ q. specify_all q ops) (view-apply_op s ob op v)

-- From a valid book, over any limit orders and cancellations, the levels implement one queue for
-- each side by price and time: the orders that rest are those of the queues, in their order, and
-- `BestBid` and `BestAsk` are the prices at their heads.
pub book_refines :
    (s : SortSlice) (ob : OrderBook) (ops : List Op)
    → IsValid ob
    → (view (apply_all s ob ops) ≡ specify_all (view ob) ops)
      × (best_bid (apply_all s ob ops) ≡ top_price (specify_all (view ob) ops).bids)
      × (best_ask (apply_all s ob ops) ≡ top_price (specify_all (view ob) ops).asks)
unfolding best_bid best_ask
book_refines s ob ops v =
    let same = view-apply_all s ob ops v in
    let valid = apply_all-IsValid s ob ops v in
    (
      same,
      best-top_price (apply_all s ob ops).bids valid.bids_ok.1 ∙ ap (λ q. top_price q.bids) same,
      best-top_price (apply_all s ob ops).asks valid.asks_ok.1 ∙ ap (λ q. top_price q.asks) same,
    )
