-- ===== src/Ingester/Book/Valid.antt =====
-- What holds of an order book between two operations of orderbook.go, and that they keep it.
use mathlib.Core.Path.{subst}
use trade_bench.Common.{
  ◌≡◌, refl, sym, ◌≢◌, Bool, true, false, some, inl, inr, List, [], ◌∷◌, ◌++◌, String, arith, All,
  All-append, All-imp, Bool-cases, Option-cases, str_eq,
}
use trade_bench.Common.Int.{eqb_ℤ, eqb_ℤ→≡}
use trade_bench.Common.Sort.{SortSlice}
use trade_bench.Ingester.Book.{
  Order, BookLevel, OrderBook, new_level, price_less, insert_level, add_limit, new_order_book,
  remove_first, remove_from_levels, remove_order,
}
use trade_bench.Ingester.Book.Prices.{level_less, price_less_trans, price_less-total}
use trade_bench.Ingester.Book.Place.{IsOrdered, place, insert_level-place}

-- A level has orders, all of its price.
abbrev pub IsFilled : BookLevel → Type 0
IsFilled l = (l.orders ≢ []) × All (λ o. o.price ≡ l.price) l.orders

abbrev pub IsSide : Bool → List BookLevel → Type 0
IsSide d ls = IsOrdered d ls × All IsFilled ls

pub record IsValid (ob : OrderBook) : Type 0 where
  pub bids_ok : IsSide true ob.bids
  pub asks_ok : IsSide false ob.asks

pub new_order_book-IsValid : IsValid new_order_book
unfolding new_order_book
new_order_book-IsValid = record { bids_ok = (tt, tt); asks_ok = (tt, tt) }

snoc_ne_nil : (os : List Order) (o : Order) → os ++ o ∷ [] ≢ []
snoc_ne_nil [] o e = cc
snoc_ne_nil (x ∷ os) o e = cc

place_before :
    (d : Bool) (l : BookLevel) (ls : List BookLevel) (o : Order)
    → price_less d l.price o.price ≡ true
    → All (λ m. level_less d l m ≡ true) ls
    → All (λ m. level_less d l m ≡ true) (place ls o d)
unfolding place
place_before d l [] o e h = (e, tt)
place_before d l (m ∷ ls) o e h = ground (arith, place_before d l ls o e h.1)

All-behind :
    (d : Bool) (l : BookLevel) (ls : List BookLevel) (o : Order)
    → price_less d o.price l.price ≡ true
    → All (λ m. level_less d l m ≡ true) ls
    → All (λ m. level_less d (new_level o) m ≡ true) ls
All-behind d l ls o e h = All-imp ls (λ m k. price_less_trans d o.price l.price m.price e k) h

pub place-IsOrdered :
    (d : Bool) (ls : List BookLevel) (o : Order) → IsOrdered d ls → IsOrdered d (place ls o d)
unfolding place
place-IsOrdered d [] o h = (tt, tt)
place-IsOrdered d (l ∷ ls) o h = elim (Bool-cases (eqb_ℤ l.price o.price)) [
  | inl e ↦ rw e h
  | inr n ↦ elim (Bool-cases (price_less d o.price l.price)) [
    | inl e ↦ rw (n, e) ((e, All-behind d l ls o e h.0), h)
    | inr e ↦
        rw (n, e)
          (
            place_before d l ls o (price_less-total d l.price o.price n e) h.0,
            place-IsOrdered d ls o h.1,
          )
  ]
]

place-IsFilled :
    (d : Bool) (ls : List BookLevel) (o : Order) → All IsFilled ls → All IsFilled (place ls o d)
unfolding place
place-IsFilled d [] o h = ((λ e. cc, (refl, tt)), tt)
place-IsFilled d (l ∷ ls) o h = elim (Bool-cases (eqb_ℤ l.price o.price)) [
  | inl e ↦ rw e (
    (
      snoc_ne_nil l.orders o,
      All-append _ l.orders (o ∷ []) h.0.1 (sym (eqb_ℤ→≡ l.price o.price e), tt),
    ),
    h.1,
  )
  | inr n ↦ elim (Bool-cases (price_less d o.price l.price)) [
    | inl e ↦ rw (n, e) ((λ k. cc, (refl, tt)), h)
    | inr e ↦ rw (n, e) (h.0, place-IsFilled d ls o h.1)
  ]
]

insert_level-IsSide :
    (s : SortSlice) (d : Bool) (ls : List BookLevel) (o : Order)
    → IsSide d ls
    → IsSide d (insert_level s ls o d)
insert_level-IsSide s d ls o h =
    rw (insert_level-place d o s ls h.0) (place-IsOrdered d ls o h.0, place-IsFilled d ls o h.1)

-- Adding a limit order to a valid book gives a valid book, whatever `sort.Slice` does.
pub add_limit-IsValid :
    (s : SortSlice) (ob : OrderBook) (o : Order) → IsValid ob → IsValid (add_limit s ob o)
unfolding add_limit
add_limit-IsValid s ob o v = elim (Bool-cases (str_eq o.side "buy")) [
  | inl e ↦
      rw e
        (record { bids_ok = insert_level-IsSide s true ob.bids o v.bids_ok; asks_ok = v.asks_ok })
  | inr e ↦
      rw e
        (record { bids_ok = v.bids_ok; asks_ok = insert_level-IsSide s false ob.asks o v.asks_ok })
]

All-remove_first :
    (P : Order → Type 0) (os rest : List Order) (id : String)
    → remove_first os id ≡ some rest
    → All P os
    → All P rest
unfolding remove_first
All-remove_first P [] rest id e h = cc
All-remove_first P (o ∷ os) rest id e h = elim (Bool-cases (str_eq o.order_id id)) [
  | inl t ↦ let same : os ≡ rest = ground arith in subst (All P) same h.1
  | inr f ↦ elim (Option-cases (remove_first os id)) [
    | inl n ↦ absurd (ground arith)
    | inr (r, q) ↦
        let same : o ∷ r ≡ rest = ground arith in
        subst (All P) same (h.0, All-remove_first P os r id q h.1)
  ]
]

All-remove_from_levels :
    (P : BookLevel → Type 0)
    → ((l : BookLevel) (os : List Order)
        → P l
        → os ≢ []
        → (id : String) → remove_first l.orders id ≡ some os
        → P (record l { orders = os }))
    → (ls : List BookLevel) (id : String) → All P ls
    → All P (remove_from_levels ls id)
unfolding remove_from_levels
All-remove_from_levels P keep [] id h = tt
All-remove_from_levels P keep (l ∷ ls) id h = elim (Option-cases (remove_first l.orders id)) [
  | inl n ↦ rw (n, remove_from_levels) (h.0, All-remove_from_levels P keep ls id h.1)
  | inr ([], e) ↦ rw (e, remove_from_levels) h.1
  | inr (o ∷ os, e) ↦ rw (e, remove_from_levels) (keep l (o ∷ os) h.0 (λ k. cc) id e, h.1)
]

remove_from_levels-IsOrdered :
    (d : Bool) (ls : List BookLevel) (id : String)
    → IsOrdered d ls
    → IsOrdered d (remove_from_levels ls id)
unfolding remove_from_levels
remove_from_levels-IsOrdered d [] id h = tt
remove_from_levels-IsOrdered d (l ∷ ls) id h = elim (Option-cases (remove_first l.orders id)) [
  | inl n ↦
      rw (n, remove_from_levels)
        (
          All-remove_from_levels _ (λ m os p q i e. p) ls id h.0,
          remove_from_levels-IsOrdered d ls id h.1,
        )
  | inr ([], e) ↦ rw (e, remove_from_levels) h.1
  | inr (o ∷ os, e) ↦ rw (e, remove_from_levels) h
]

remove_from_levels-IsSide :
    (d : Bool) (ls : List BookLevel) (id : String)
    → IsSide d ls
    → IsSide d (remove_from_levels ls id)
remove_from_levels-IsSide d ls id h = (
  remove_from_levels-IsOrdered d ls id h.0,
  All-remove_from_levels IsFilled (λ l os f q i e. (q, All-remove_first _ l.orders os i e f.1)) ls
      id h.1,
)

-- Removing an order from a valid book gives a valid book: no level is left empty.
pub remove_order-IsValid :
    (ob : OrderBook) (id : String) → IsValid ob → IsValid (remove_order ob id)
unfolding remove_order
remove_order-IsValid ob id v = record {
  bids_ok = remove_from_levels-IsSide true ob.bids id v.bids_ok;
  asks_ok = remove_from_levels-IsSide false ob.asks id v.asks_ok;
}
