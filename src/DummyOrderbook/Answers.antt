-- ===== src/DummyOrderbook/Answers.antt =====
-- What the sandbox and the bots make of the dummy order book.
use trade_bench.Common.{
  ◌≡◌, refl, ◌↔◌, String, true, false, none, some, List, ◌∷◌, Bool-cases, inl, inr, str_eq, arith,
}
use trade_bench.Common.Int.{ℤ, ltb_ℤ}
use trade_bench.Common.Float.{Float}
use trade_bench.Common.Process.{finds}
use trade_bench.Sandbox.Runner.{Poll, wait_for_healthy}
use trade_bench.Bots.Orders.{Draws}
use trade_bench.Bots.Bot as Bot
use trade_bench.Bots.Events.{decode_answer}
use trade_bench.DummyOrderbook.{Answer, plain, json, answer}
use trade_bench.DummyOrderbook.Main.{main}

module _ (f : Float) where
  -- The paths that its multiplexer has no handler for, and no others, are answered 404.
  answer-finds :
      (path : String) → ((answer {F = f.F} path).code ≡ 404) ↔ (finds main.routes path ≡ false)
  unfolding answer finds main
  answer-finds path = elim (Bool-cases (str_eq path "/health")) [
    | inl h ↦ rw h (ground arith)
    | inr h ↦ rw h (elim (Bool-cases (str_eq path "/orders")) [
      | inl o ↦ rw o (ground arith)
      | inr o ↦ rw o (ground arith)
    ])
  ]

  -- Its first answer makes it healthy, if it comes before the deadline.
  answer-wait_for_healthy :
      (deadline : ℤ) (p : Poll) (ps : List Poll)
      → ltb_ℤ p.now deadline ≡ true
      → p.status ≡ some (answer {F = f.F} "/health").code
      → wait_for_healthy deadline (p ∷ ps) ≡ true
  unfolding wait_for_healthy answer
  answer-wait_for_healthy deadline p ps h e = rw (h, e) refl

  -- What a bot gets of an answer: its code, and its body decoded.
  abbrev received : Answer f.F → Bot.Response
  received a = record {
    status_code = a.code;
    body = elim a.body [ plain t ↦ none | json o ↦ decode_answer f o ];
  }

  -- A bot reports every order that the dummy answers as not rejected and filled correctly, though it
  -- fills none.
  send_order-answer :
      (id run_id : String) (draws : Draws f.F) (x : Bot.Exchange)
      → x.request_ok ≡ true
      → x.response ≡ some (received (answer "/orders"))
      → ((Bot.send_order f id run_id draws x).rejected ≡ false)
        × ((Bot.send_order f id run_id draws x).correct_fill ≡ true)
  unfolding Bot.send_order decode_answer answer
  send_order-answer id run_id draws x ok e = rw (ok, e) (refl, refl)
