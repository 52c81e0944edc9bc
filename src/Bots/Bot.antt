-- ===== src/Bots/Bot.antt =====
-- apps/bots/internal/bot/bot.go: one order sent, and the telemetry made of the answer. The request,
-- the HTTP client and the JSON decoder answer through the record Exchange.
use mathlib.Core.Bool.{false≢true}
use trade_bench.Common.{
  sym, ◌∙◌, ℕ, ◌≡◌, ◌<◌, ◌≢◌, inl, inr, ◌↔◌, refl, String, Bool, true, false, Option, none, some,
  if◌then◌else◌, leb, str_eq, str_iff, arith, Option-cases, Bool-cases,
}
use trade_bench.Common.Int.{ℤ}
use trade_bench.Common.Float.{Float}
use trade_bench.Bots.Orders.{Draws, generate}

pub record TelemetryEvent (F : Type 0) : Type 0 where
  pub run_id : String
  pub bot_id : String
  pub order_id : String
  pub sent_at_ns : ℤ
  pub ack_at_ns : ℤ
  pub correct_fill : Bool
  pub order_type : String
  pub rejected : Bool
  pub symbol : String
  pub side : String
  pub price : F
  pub quantity : ℤ

-- The decoded body of an answer: `correct_fill`, which may be missing, and `status`.
pub record Body : Type 0 where
  pub correct_fill : Option Bool
  pub status : String

pub record Response : Type 0 where
  pub status_code : ℕ
  -- `none` where the body does not decode.
  pub body : Option Body

-- The clock before and after, whether the request can be made, and the response if one comes.
pub record Exchange : Type 0 where
  pub sent : ℤ
  pub acknowledged : ℤ
  pub request_ok : Bool
  pub response : Option Response

-- The verdict on a response: whether the order is rejected, and whether it was filled correctly.
judge_body : Option Body → Bool × Bool
judge_body none = (false, true)
judge_body (some b) =
    if str_eq b.status "rejected"
    then (true, false)
    else (false, elim b.correct_fill [ none ↦ true | some c ↦ c ])

judge : Bool → Option Response → Bool × Bool
unfolding judge_body
judge false response = (true, false)
judge true none = (true, false)
judge true (some r) = if leb 400 r.status_code then (true, false) else judge_body r.body

-- A body that does not turn the order down; one that does not call the fill wrong.
abbrev IsConsent : Option Body → Type 0
IsConsent none = Unit
IsConsent (some b) = b.status ≢ "rejected"

abbrev IsPraise : Option Body → Type 0
IsPraise none = Unit
IsPraise (some b) = b.correct_fill ≢ some false

-- The order got a response below 400 whose body has the property.
abbrev IsAnswered : (Option Body → Type 0) → Bool → Option Response → Type 0
IsAnswered P ok none = ⊥
IsAnswered P ok (some r) = (ok ≡ true) × (r.status_code < 400) × P r.body

judge_body_verdict :
    (o : Option Body)
    → (((judge_body o).0 ≡ false) ↔ IsConsent o)
      × (((judge_body o).1 ≡ true) ↔ (IsConsent o × IsPraise o))
unfolding judge_body
judge_body_verdict none = ((λ h. tt, λ h. refl), (λ h. (tt, tt), λ h. refl))
judge_body_verdict (some b) = elim (Bool-cases (str_eq b.status "rejected")) [
  | inl e ↦ rw e (
      let p = (str_iff b.status "rejected").0 e in
      ((λ h. cc, λ n. absurd (n p)), (λ h. cc, λ h. absurd (h.0 p))))
  | inr e ↦
      let differs =
        (λ (q : b.status ≡ "rejected"). false≢true (sym e ∙ (str_iff b.status "rejected").1 q)) in
      elim (Option-cases b.correct_fill) [
        | inl n ↦ rw (e, n) ((λ h. differs, λ h. refl), (λ h. (differs, λ q. cc), λ h. refl))
        | inr (true, m) ↦
            rw (e, m) ((λ h. differs, λ h. refl), (λ h. (differs, λ q. cc), λ h. refl))
        | inr (false, m) ↦ rw (e, m) ((λ h. differs, λ h. refl), (λ h. cc, λ h. absurd (h.1 refl)))
      ]
]

judge_verdict :
    (ok : Bool) (o : Option Response)
    → (((judge ok o).0 ≡ false) ↔ IsAnswered IsConsent ok o)
      × (((judge ok o).1 ≡ true) ↔ IsAnswered (λ b. IsConsent b × IsPraise b) ok o)
unfolding judge
judge_verdict false none = ((λ h. cc, λ h. absurd h), (λ h. cc, λ h. absurd h))
judge_verdict true none = ((λ h. cc, λ h. absurd h), (λ h. cc, λ h. absurd h))
judge_verdict false (some r) =
    ((λ h. cc, λ h. absurd (false≢true h.0)), (λ h. cc, λ h. absurd (false≢true h.0)))
judge_verdict true (some r) = elim (Bool-cases (leb 400 r.status_code)) [
  | inl e ↦ rw e ((λ h. cc, λ h. absurd (ground arith)), (λ h. cc, λ h. absurd (ground arith)))
  | inr e ↦
      let v = judge_body_verdict r.body in
      rw e (
        (λ h. (refl, ground arith, v.0.0 h), λ h. v.0.1 h.2),
        (λ h. (refl, ground arith, v.1.0 h), λ h. v.1.1 h.2),
      )
]

module _ (f : Float) where
  -- `SendOrder` of the bot `id`.
  unfoldable pub send_order : String → String → Draws f.F → Exchange → TelemetryEvent f.F
  unfolding judge
  send_order id run_id draws x =
      let order = generate f draws in
      let (rejected, correct) = judge x.request_ok x.response in
      record {
        run_id = run_id;
        bot_id = id;
        order_id = order.order_id;
        sent_at_ns = x.sent;
        ack_at_ns = x.acknowledged;
        correct_fill = correct;
        order_type = order.type;
        rejected = rejected;
        symbol = order.symbol;
        side = order.side;
        price = order.price;
        quantity = order.quantity;
      }

  -- An order is marked as not rejected exactly if it got a response below 400 that did not turn it
  -- down, and as filled correctly exactly if that response did not call the fill wrong either. In
  -- particular no order is marked as both.
  send_order_verdict :
      (id run_id : String) (draws : Draws f.F) (x : Exchange)
      → (((send_order id run_id draws x).rejected ≡ false)
          ↔ IsAnswered IsConsent x.request_ok x.response)
        × (((send_order id run_id draws x).correct_fill ≡ true)
            ↔ IsAnswered (λ b. IsConsent b × IsPraise b) x.request_ok x.response)
  unfolding send_order
  send_order_verdict id run_id draws x = judge_verdict x.request_ok x.response
