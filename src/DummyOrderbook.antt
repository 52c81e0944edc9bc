-- ===== src/DummyOrderbook.antt =====
-- apps/dummy-orderbook: an order book that takes every order and answers none of them, for trying
-- out the bots (api/router.go and cmd/main.go).
pub mod Main
mod Answers
use trade_bench.Common.{ℕ, String, [], ◌∷◌, if◌then◌else◌, str_eq, Option, none, some}
use trade_bench.Common.Json.{Object, text}

-- The body is plain text or JSON.
pub data Body (F : Type 0) : Type 0 where
  plain : String → Body F
  json : Object F → Body F

pub record Answer (F : Type 0) : Type 0 where
  pub code : ℕ
  pub content_type : Option String
  pub body : Body F

-- The multiplexer of `SetupRouter`, for any method.
unfoldable pub answer : {F : Type 0} → String → Answer F
answer path =
    if str_eq path "/health"
    then record { code = 200; content_type = none; body = plain "OK" }
    else if str_eq path "/orders"
    then record {
      code = 200;
      content_type = some "application/json";
      body = json (("status", text "dummy orders") ∷ []);
    }
    else record {
      code = 404;
      content_type = some "text/plain; charset=utf-8";
      body = plain "404 page not found";
    }
