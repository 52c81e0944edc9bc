-- ===== src/Ingester/Validator/Examples.antt =====
-- The validator at concrete events.
use mathlib.Core.List.{Memᴰ}
use trade_bench.Common.{◌≡◌, refl, ◌⊎◌, true, false, List, [], ◌∷◌, All}
use trade_bench.Common.Int.{pos}
use trade_bench.Common.Dict.{find, put}
use trade_bench.Common.Sort.{insertion_slice, insertion_sort}
use trade_bench.Ingester.Book.{
  Order, OrderBook, new_level, insert_level, add_limit, best_bid, best_ask, price_less,
  new_order_book,
}
use trade_bench.Ingester.Book.Valid.{IsValid}
use trade_bench.Ingester.Validator.{
  FillEvent, Tally, new_validator, book, order_of, should_fill, has_liquidity, replay, replay_all,
  sent_before, tally,
}
use trade_bench.Ingester.Validator.Books.{book_after, of_symbol, book-replay_all}
use trade_bench.Ingester.Validator.Verdict.{opposite, Crosses, should_fill-Crosses}

abbrev resting_ask : FillEvent
resting_ask = record {
  order_id = "a";
  symbol = "AAPL";
  side = "sell";
  type = "limit";
  quantity = pos 5;
  price = pos 10;
  sent_at_ns = pos 1;
  filled = false;
}

abbrev market_buy : FillEvent
market_buy = record resting_ask {
  order_id = "m";
  side = "buy";
  type = "market";
  sent_at_ns = pos 2;
  filled = true;
}

abbrev crossing_bid : FillEvent
crossing_bid = record resting_ask {
  order_id = "b";
  side = "buy";
  price = pos 12;
  sent_at_ns = pos 3;
  filled = true;
}

abbrev late_first : List FillEvent
late_first = crossing_bid ∷ market_buy ∷ resting_ask ∷ []

abbrev one_ask : OrderBook
one_ask = record { bids = []; asks = new_level (order_of resting_ask) ∷ [] }

one_ask-IsValid : IsValid one_ask
one_ask-IsValid = record { bids_ok = (tt, tt); asks_ok = ((tt, tt), ((λ e. cc, (refl, tt)), tt)) }

run_tally : (tally insertion_slice new_validator late_first).correct ≡ 2
unfolding tally replay_all replay sent_before new_validator book find put add_limit insert_level
    price_less should_fill has_liquidity best_ask best_bid insertion_sort new_order_book
run_tally = refl

abbrev fresh : Tally
fresh = record { books = []; total = 0; correct = 0 }

book-replay_all_example :
    book (replay_all insertion_slice fresh late_first).books "AAPL"
    ≡ book_after insertion_slice (book [] "AAPL") (of_symbol "AAPL" late_first)
book-replay_all_example = book-replay_all insertion_slice fresh late_first "AAPL"

should_fill-Crosses_example :
    ((should_fill one_ask crossing_bid ≡ true)
      × ((o : Order) × Memᴰ o (opposite one_ask "buy") × Crosses crossing_bid o))
    ⊎ ((should_fill one_ask crossing_bid ≡ false)
        × All (λ o. ¬ Crosses crossing_bid o) (opposite one_ask "buy"))
should_fill-Crosses_example = should_fill-Crosses one_ask crossing_bid one_ask-IsValid
