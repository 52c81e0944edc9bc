-- ===== src/Ingester/Validator/Books.antt =====
-- The books of validator.go: one for each symbol, each changed by the events of its symbol alone.
use trade_bench.Common.{
  ◌≡◌, refl, inl, inr, List, [], ◌∷◌, String, arith, true, false, if◌then◌else◌, str_eq, str_iff,
  Bool-cases,
}
use trade_bench.Common.Dict.{Dict, find, put, find-put}
use trade_bench.Common.Sort.{SortSlice}
use trade_bench.Ingester.Book.{OrderBook, new_order_book, add_limit, remove_order}
use trade_bench.Ingester.Book.Valid.{
  IsValid, new_order_book-IsValid, add_limit-IsValid, remove_order-IsValid,
}
use trade_bench.Ingester.Validator.{
  FillEvent, Tally, new_validator, book, order_of, replay, replay_all,
}

pub book-put :
    (k j : String) (ob : OrderBook) (m : Dict OrderBook)
    → book (put k ob m) j ≡ (if str_eq k j then ob else book m j)
unfolding book
book-put k j ob m = ground (arith, find-put k j ob m)

-- What an event does to the book of its symbol: a limit order joins it, a cancellation takes the
-- order of its id out, and any other event leaves it.
unfoldable pub next_book : SortSlice → OrderBook → FillEvent → OrderBook
next_book s ob e =
    if str_eq e.type "limit"
    then add_limit s ob (order_of e)
    else if str_eq e.type "cancel"
    then remove_order ob e.order_id
    else ob

unfoldable pub book_after : SortSlice → OrderBook → List FillEvent → OrderBook
unfolding next_book
book_after s ob [] = ob
book_after s ob (e ∷ es) = book_after s (next_book s ob e) es

unfoldable pub of_symbol : String → List FillEvent → List FillEvent
of_symbol symbol [] = []
of_symbol symbol (e ∷ es) =
    let rest = of_symbol symbol es in if str_eq e.symbol symbol then e ∷ rest else rest

cancel-not-market : (type : String) → str_eq type "market" ≡ true → str_eq type "cancel" ≡ false
cancel-not-market type h = rw ((str_iff type "market").0 h) refl

replay-books :
    (s : SortSlice) (t : Tally) (e : FillEvent)
    → (replay s t e).books ≡ put e.symbol (next_book s (book t.books e.symbol) e) t.books
unfolding replay next_book
replay-books s t e = ground (arith, cancel-not-market e.type)

book-replay :
    (s : SortSlice) (t : Tally) (e : FillEvent) (symbol : String)
    → book (replay s t e).books symbol ≡ (
        if str_eq e.symbol symbol then next_book s (book t.books symbol) e else book t.books symbol)
book-replay s t e symbol =
    rw (replay-books s t e, book-put e.symbol symbol _ t.books)
      (elim (Bool-cases (str_eq e.symbol symbol)) [
        | inl h ↦ rw (h, (str_iff e.symbol symbol).0 h)
        | inr h ↦ rw h
      ])

-- After any events, the book of a symbol is what the events of that symbol alone make of the book
-- that it had: limit orders join it, cancellations leave it, market orders do not change it.
pub book-replay_all :
    (s : SortSlice) (t : Tally) (es : List FillEvent) (symbol : String)
    → book (replay_all s t es).books symbol
      ≡ book_after s (book t.books symbol) (of_symbol symbol es)
unfolding replay_all book_after of_symbol
book-replay_all s t [] symbol = refl
book-replay_all s t (e ∷ es) symbol = elim (Bool-cases (str_eq e.symbol symbol)) [
  | inl h ↦ ground (arith, book-replay_all s (replay s t e) es symbol, book-replay s t e symbol)
  | inr h ↦ ground (arith, book-replay_all s (replay s t e) es symbol, book-replay s t e symbol)
]

next_book-IsValid :
    (s : SortSlice) (ob : OrderBook) (e : FillEvent) → IsValid ob → IsValid (next_book s ob e)
unfolding next_book
next_book-IsValid s ob e v = elim (Bool-cases (str_eq e.type "limit")) [
  | inl l ↦ rw l (add_limit-IsValid s ob (order_of e) v)
  | inr n ↦ elim (Bool-cases (str_eq e.type "cancel")) [
    | inl c ↦ rw (n, c) (remove_order-IsValid ob e.order_id v)
    | inr k ↦ rw (n, k) v
  ]
]

book_after-IsValid :
    (s : SortSlice) (ob : OrderBook) (es : List FillEvent)
    → IsValid ob
    → IsValid (book_after s ob es)
unfolding book_after
book_after-IsValid s ob [] v = v
book_after-IsValid s ob (e ∷ es) v =
    book_after-IsValid s (next_book s ob e) es (next_book-IsValid s ob e v)

-- Whatever events a new validator has replayed, the book of every symbol is valid.
replay_all-IsValid :
    (s : SortSlice) (es : List FillEvent) (symbol : String)
    → IsValid (
        book
          (replay_all s (record { books = new_validator; total = 0; correct = 0 }) es).books
          symbol)
unfolding new_validator book find
replay_all-IsValid s es symbol =
    rw (book-replay_all s (record { books = []; total = 0; correct = 0 }) es symbol)
      (book_after-IsValid s new_order_book (of_symbol symbol es) new_order_book-IsValid)
