-- ===== src/Ingester/Book/Examples.antt =====
-- The order book at concrete inputs.
use trade_bench.Common.{◌≡◌, refl, true, [], ◌∷◌, String}
use trade_bench.Common.Int.{ℤ, pos}
use trade_bench.Common.Sort.{insertion_slice, insertion_sort}
use trade_bench.Ingester.Book.{
  Order, OrderBook, new_level, insert_level, add_limit, best_bid, best_ask, price_less,
  remove_from_levels, remove_order,
}
use trade_bench.Ingester.Book.Place.{place, insert_level-place}
use trade_bench.Ingester.Book.Valid.{IsValid}
use trade_bench.Ingester.Book.Priority.{limit, cancel, view, apply_all, specify_all, top_price}
use trade_bench.Ingester.Book.Refines.{book_refines}

abbrev bid : String → ℤ → Order
bid id p = record {
  order_id = id;
  symbol = "AAPL";
  side = "buy";
  type = "limit";
  quantity = pos 1;
  price = p;
  sent_at_ns = pos 0;
}

abbrev two_bids : OrderBook
two_bids = record {
  bids = new_level (bid "b" (pos 20)) ∷ new_level (bid "a" (pos 10)) ∷ [];
  asks = [];
}

two_bids-IsValid : IsValid two_bids
unfolding price_less
two_bids-IsValid = record {
  bids_ok = (((refl, tt), (tt, tt)), ((λ e. cc, (refl, tt)), ((λ e. cc, (refl, tt)), tt)));
  asks_ok = (tt, tt);
}

-- A third price goes between the two, by the sort of the standard library.
run_insert : add_limit insertion_slice two_bids (bid "c" (pos 15)) ≡ record {
  bids =
      new_level (bid "b" (pos 20))
      ∷ new_level (bid "c" (pos 15))
      ∷ new_level (bid "a" (pos 10))
      ∷ [];
  asks = [];
}
unfolding add_limit insert_level price_less insertion_sort
run_insert = refl

insert_level-place_example :
    insert_level insertion_slice two_bids.bids (bid "c" (pos 15)) true
    ≡ place two_bids.bids (bid "c" (pos 15)) true
insert_level-place_example =
    insert_level-place true (bid "c" (pos 15)) insertion_slice two_bids.bids
      two_bids-IsValid.bids_ok.0

abbrev one_ask : OrderBook
one_ask = record { bids = []; asks = new_level (record (bid "a" (pos 30)) { side = "sell" }) ∷ [] }

one_ask-IsValid : IsValid one_ask
one_ask-IsValid = record { bids_ok = (tt, tt); asks_ok = ((tt, tt), ((λ e. cc, (refl, tt)), tt)) }

run_remove :
    remove_order two_bids "b" ≡ record { bids = new_level (bid "a" (pos 10)) ∷ []; asks = [] }
unfolding remove_order remove_from_levels
run_remove = refl

book_refines_example :
    let ops = limit (bid "c" (pos 15)) ∷ cancel "b" ∷ [] in
    (view (apply_all insertion_slice two_bids ops) ≡ specify_all (view two_bids) ops)
    × (best_bid (apply_all insertion_slice two_bids ops)
        ≡ top_price (specify_all (view two_bids) ops).bids)
    × (best_ask (apply_all insertion_slice two_bids ops)
        ≡ top_price (specify_all (view two_bids) ops).asks)
book_refines_example =
    book_refines insertion_slice two_bids (limit (bid "c" (pos 15)) ∷ cancel "b" ∷ [])
      two_bids-IsValid
