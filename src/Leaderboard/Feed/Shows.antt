-- ===== src/Leaderboard/Feed/Shows.antt =====
-- Updates that a snapshot holds already may be shown again.
use trade_bench.Common.{
  ℕ, zero, suc, ◌≤◌, ◌≡◌, refl, String, Option, none, some, List, [], ◌∷◌, ◌++◌, inl, inr, ◌⊎◌,
  str_eq, take, drop, arith, Bool-cases,
}
use trade_bench.Leaderboard.Board.{Message, snapshot, update}
use trade_bench.Leaderboard.Feed.{score_in, show_message, show_all}

module _ {F : Type 0} (id : String) where
  pub show_all-append :
      (old : Option F) (ms ns : List (Message F))
      → show_all id old (ms ++ ns) ≡ show_all id (show_all id old ms) ns
  show_all-append old [] ns = refl
  show_all-append old (m ∷ ms) ns = show_all-append (show_message id old m) ms ns

  -- A message decides what is shown, or leaves it.
  show_message-cases :
      (m : Message F)
      → ((v : Option F) × ((old : Option F) → show_message id old m ≡ v))
        ⊎ ((old : Option F) → show_message id old m ≡ old)
  show_message-cases (snapshot es) = inl (score_in id es, λ old. refl)
  show_message-cases (update e) = elim (Bool-cases (str_eq e.contestant_id id)) [
    | inl h ↦ inl (some e.score, λ old. rw h refl)
    | inr h ↦ inr (λ old. rw h refl)
  ]

  -- Showing a beginning of the messages and then all of them.
  show_again :
      (old : Option F) (k : ℕ) (ms : List (Message F))
      → show_all id (show_all id old (take k ms)) ms ≡ show_all id old ms
  show_again old zero ms = refl
  show_again old (suc k) [] = refl
  show_again old (suc k) (m ∷ ms) = elim (show_message-cases m) [
    | inl (v, h) ↦ rw (h (show_all id (show_message id old m) (take k ms))) (rw (h old) refl)
    | inr h ↦
        rw (h (show_all id (show_message id old m) (take k ms))) (rw (h old) (show_again old k ms))
  ]

  -- The same, from a place within that beginning on.
  pub show_again-from :
      (old : Option F) (b k : ℕ) (ms : List (Message F))
      → b ≤ k
      → show_all id (show_all id old (take k ms)) (drop b ms) ≡ show_all id old ms
  show_again-from old zero k ms h = show_again old k ms
  show_again-from old (suc b) zero ms h = absurd (omega arith)
  show_again-from old (suc b) (suc k) [] h = refl
  show_again-from old (suc b) (suc k) (m ∷ ms) h =
      show_again-from (show_message id old m) b k ms (omega arith)

  -- What some messages show when nothing was shown before, they show after anything.
  pub show_anew :
      (v : F) (old : Option F) (ms : List (Message F))
      → show_all id none ms ≡ some v
      → show_all id old ms ≡ some v
  show_anew v old [] e = absurd (cc)
  show_anew v old (m ∷ ms) e = elim (show_message-cases m) [
    | inl (w, h) ↦ rw (h old) (rw (h none) at e)
    | inr h ↦ rw (h old) (show_anew v old ms (rw (h none) at e))
  ]

  pub show_anew-from :
      (v : F) (old : Option F) (b : ℕ) (ms : List (Message F))
      → show_all id none (drop b ms) ≡ some v
      → show_all id old ms ≡ some v
  show_anew-from v old zero ms e = show_anew v old ms e
  show_anew-from v old (suc b) [] e = absurd (cc)
  show_anew-from v old (suc b) (m ∷ ms) e = show_anew-from v (show_message id old m) b ms e
