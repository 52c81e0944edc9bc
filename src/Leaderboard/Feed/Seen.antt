-- ===== src/Leaderboard/Feed/Seen.antt =====
-- What is known of the updates in a snapshot, and the account of all updates.
use trade_bench.Common.{
  ℕ, zero, suc, ◌+◌, ◌≤◌, ◌<◌, ◌≡◌, refl, ap, String, false, Option, none, some, List, [], ◌∷◌,
  ◌++◌, length, length-append, take, arith,
}
use trade_bench.Common.Float.{Float}
use trade_bench.Leaderboard.Board.{Redis, ParseFloat, Message}
use trade_bench.Leaderboard.Hub.{is_in}
use trade_bench.Leaderboard.Hub.Broadcast.{same}
use trade_bench.Leaderboard.Feed.{Site, show_all}
use trade_bench.Leaderboard.Feed.Numbers.{Counts}

pub take-all {ℓ} : {A : Type ℓ} (xs : List A) → take (length xs) xs ≡ xs
take-all [] = refl
take-all (x ∷ xs) = ap (λ t. x ∷ t) (take-all xs)

take-append {ℓ} :
    {A : Type ℓ} (k : ℕ) (xs ys : List A) → k ≤ length xs → take k (xs ++ ys) ≡ take k xs
take-append zero xs ys h = refl
take-append (suc k) [] ys h = absurd (omega arith)
take-append (suc k) (x ∷ xs) ys h = ap (λ t. x ∷ t) (take-append k xs ys (omega arith))

abbrev pub listed : Option ℕ → List ℕ
listed none = []
listed (some n) = n ∷ []

module _ (f : Float) (redis : Redis f.F) (parse : ParseFloat f.F) (key : String) where
  open redis use {S, zscore}

  -- What is known of a client that has read its snapshot: the updates in it are a beginning of all,
  -- and that reaches as far as the first update that the client gets.
  pub record Seen (init : S) (s : Site f.F S) (from : ℕ) (c : ℕ) (b : S) : Type 0 where
    pub count : ℕ
    pub after : from ≤ count
    pub within : count ≤ length s.updates
    pub scores :
        (id : String) → zscore b key id ≡ show_all id (zscore init key id) (take count s.updates)
    pub registered : is_in c s.hub.registering ≡ false
    pub given : c < s.hub.next_client

  -- The updates go out in their order; `done` of them have left the queue.
  pub record Books (init : S) (s : Site f.F S) (since : ℕ → List ℕ) : Type 0 where
    pub done : ℕ
    pub pending : Counts done (s.queue ++ listed s.sending)
    pub total : done + length (s.queue ++ listed s.sending) ≡ length s.updates
    pub from : ℕ → ℕ
    pub counted : (c : ℕ) → Counts (from c) (since c)
    pub reached : (c : ℕ) → from c + length (since c) ≡ done
    pub held : (id : String) → zscore s.store key id ≡ show_all id (zscore init key id) s.updates
    pub seen : (c : ℕ) (b : S) → s.greeted c ≡ some b → Seen init s (from c) c b

  module _ (init : S) (s : Site f.F S) where
    pub Seen-updates :
        (us : List (Message f.F)) (store : S) (n : Option ℕ) (k c : ℕ) (b : S)
        → Seen init s k c b
        → Seen init (record s { store = store; updates = s.updates ++ us; sending = n }) k c b
    Seen-updates us store n k c b e = record {
      count = e.count;
      after = e.after;
      within = omega (arith, e.within, length-append s.updates us);
      scores = λ id. rw (take-append e.count s.updates us e.within) (e.scores id);
      registered = e.registered;
      given = e.given;
    }

    pub Seen-same :
        {t : Site f.F S} {k c : ℕ} {b : S}
        → t.updates ≡ s.updates
        → (is_in c s.hub.registering ≡ false
            → c < s.hub.next_client
            → (is_in c t.hub.registering ≡ false) × (c < t.hub.next_client))
        → Seen init s k c b
        → Seen init t k c b
    Seen-same same stays e = record {
      count = e.count;
      after = e.after;
      within = rw same e.within;
      scores = λ id. rw same (e.scores id);
      registered = (stays e.registered e.given).0;
      given = (stays e.registered e.given).1;
    }
