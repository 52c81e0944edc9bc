-- ===== src/Pipeline/Load.antt =====
-- From the bots of a run to the window of the run at the ingester.
mod Examples
use mathlib.Core.List.{Permᴰ}
use mathlib.Core.List.Perm
use mathlib.Core.Option.{some-injective, none-ne-some}
use mathlib.Core.Logic.{∥∥₁_elim}
use trade_bench.Common.{
  suc, ◌≡◌, ◌≢◌, refl, sym, ap, ◌∙◌, String, Bool, true, Option, none, some, List, [], ◌∷◌, ◌++◌,
  map, if◌then◌else◌, str_eq, length, Bool-cases, Option-cases, inl, inr, All, Perm, Pairwise,
  length-perm, arith,
}
use trade_bench.Common.Int.{ℤ, pos, wrap_64}
use trade_bench.Common.Dict.{find}
use trade_bench.Common.Float.{Float}
use trade_bench.Common.Fetched.{Fetched, bad_message, event}
use trade_bench.Common.Json.{encodes, read_message, ◌>>=◌}
use trade_bench.Common.Sort.{SortSlice}
use trade_bench.Bots.Bot.{TelemetryEvent}
use trade_bench.Bots.Events.{publish, encode_telemetry}
use trade_bench.Ingester.Events.{decode_telemetry}
use trade_bench.Ingester.Histogram.{Hdr}
use trade_bench.Ingester.Validator.{FillEvent, validate, new_validator}
use trade_bench.Ingester.Validator.Arrival.{SentApart, validate-perm}
use trade_bench.Ingester.Window.{RunWindow, Manager, new_manager, fill_of, add_event}
use trade_bench.Ingester.Window as Window
use trade_bench.Ingester.Window.Account.{fills, of_run, add_events, add_events-Accounts}
use trade_bench.Ingester.Consumer.{Round, telemetry, on_telemetry, consume, consume_all}
use trade_bench.Pipeline.Messages.{telemetry_read}
use trade_bench.Pipeline.Messages.Fields.{to_window, arriving}

-- The reports of a run, among those of many.
abbrev pub reports_of_run :
    {F : Type 0} → String → List (ℤ × TelemetryEvent F) → List (TelemetryEvent F)
reports_of_run r [] = []
reports_of_run r ((now, e) ∷ es) =
    if str_eq e.run_id r then e ∷ reports_of_run r es else reports_of_run r es

abbrev pub fetched_of : {A : Type 0} → Option A → Fetched A
fetched_of none = bad_message
fetched_of (some a) = event a

fills-permᴰ : {es fs : List Window.TelemetryEvent} → Permᴰ es fs → Perm (fills es) (fills fs)
fills-permᴰ Permᴰ.nil = Perm.nil
fills-permᴰ (Permᴰ.cons {a} {b} e p) = rw (← e) (elim (Bool-cases a.rejected) [
  | inl q ↦ rw q (fills-permᴰ p)
  | inr q ↦ rw q (Perm.cons (fill_of a) (fills-permᴰ p))
])
fills-permᴰ (Permᴰ.swap {a} {b} {l = l} p q) =
    rw (← p, ← q)
      (elim (Bool-cases a.rejected) [
        | inl h ↦ rw h (Perm.refl _)
        | inr h ↦ elim (Bool-cases b.rejected) [
          | inl k ↦ rw (h, k) (Perm.refl _)
          | inr k ↦ rw (h, k) (Perm.swap (fill_of b) (fill_of a) (fills l))
        ]
      ])
fills-permᴰ (Permᴰ.trans p q) = Perm.trans (fills-permᴰ p) (fills-permᴰ q)

fills-perm : {es fs : List Window.TelemetryEvent} → Perm es fs → Perm (fills es) (fills fs)
fills-perm {es} {fs} p = ∥∥₁_elim {P = Perm (fills es) (fills fs)} p (λ a b. hlevel) fills-permᴰ

empty-length : {A : Type 0} (xs : List A) → length xs ≡ 0 → xs ≡ []
empty-length [] h = refl
empty-length (x ∷ xs) h = absurd (omega arith)

module _ (f : Float) (hdr : Hdr f.F) (s : SortSlice) (is_zero finite : f.F → Bool)
    (units : f.F → ℤ) where
  open hdr use {H}

  -- The round of the ingester for the message of a report, if there is one, when it is read at a
  -- time.
  unfoldable pub rounds_of : List (ℤ × TelemetryEvent f.F) → List Round
  rounds_of [] = []
  rounds_of ((now, e) ∷ es) = elim (publish f is_zero finite true e) [
    | none ↦ rounds_of es
    | some m ↦ telemetry now (fetched_of (read_message (decode_telemetry f units) m)) ∷ rounds_of es
  ]

  abbrev pub at_window : List (TelemetryEvent f.F) → List Window.TelemetryEvent
  at_window = map (to_window f is_zero units)

  abbrev arrivals : List (ℤ × TelemetryEvent f.F) → List (ℤ × Window.TelemetryEvent)
  arrivals [] = []
  arrivals ((now, e) ∷ es) = (now, to_window f is_zero units e) ∷ arrivals es

  telemetry-encodes :
      (e : TelemetryEvent f.F)
      → finite e.price ≡ true
      → encodes finite (encode_telemetry f is_zero e) ≡ true
  unfolding encode_telemetry
  telemetry-encodes e h = elim (Bool-cases (is_zero e.price)) [
    | inl z ↦ rw z refl
    | inr z ↦ rw (z, h) refl
  ]

  telemetry-arrives :
      (e : TelemetryEvent f.F)
      → finite e.price ≡ true
      → arriving f finite true (encode_telemetry f is_zero e) (to_window f is_zero units e)
        ≡ some (to_window f is_zero units e)
  telemetry-arrives e h = rw (telemetry-encodes e h) refl

  length-at_window : (es : List (TelemetryEvent f.F)) → length (at_window es) ≡ length es
  length-at_window [] = refl
  length-at_window (e ∷ es) = ap suc (length-at_window es)

  of_run-arrivals :
      (r : String) (es : List (ℤ × TelemetryEvent f.F))
      → of_run r (arrivals es) ≡ at_window (reports_of_run r es)
  of_run-arrivals r [] = refl
  of_run-arrivals r ((now, e) ∷ es) = elim (Bool-cases (str_eq e.run_id r)) [
    | inl q ↦ rw q (ap (λ t. to_window f is_zero units e ∷ t) (of_run-arrivals r es))
    | inr q ↦ rw q (of_run-arrivals r es)
  ]

  -- A report with a finite price reaches the ingester with its fields.
  rounds_of-cons :
      (now : ℤ) (e : TelemetryEvent f.F) (es : List (ℤ × TelemetryEvent f.F))
      → finite e.price ≡ true
      → rounds_of ((now, e) ∷ es)
        ≡ telemetry now (event (to_window f is_zero units e)) ∷ rounds_of es
  unfolding rounds_of
  rounds_of-cons now e es h =
      let read : (publish f is_zero finite true e >>= read_message (decode_telemetry f units))
          ≡ some (to_window f is_zero units e) =
        telemetry_read f finite true is_zero units e ∙ telemetry-arrives e h in
      elim (Option-cases (publish f is_zero finite true e)) [
        | inl q ↦ absurd (none-ne-some _ (rw q at read))
        | inr (msg, q) ↦
            rw (q, rounds_of) (ap (λ t. telemetry now (fetched_of t) ∷ rounds_of es) (rw q at read))
      ]

  consume_all-rounds_of :
      (m : Manager H) (es : List (ℤ × TelemetryEvent f.F))
      → All (λ e. finite e.1.price ≡ true) es
      → (consume_all f hdr s m (rounds_of es)).0 ≡ add_events f hdr m (arrivals es)
  unfolding consume_all add_events consume on_telemetry rounds_of
  consume_all-rounds_of m [] h = refl
  consume_all-rounds_of m ((now, e) ∷ es) h =
      rw (rounds_of-cons now e es h.0)
        (consume_all-rounds_of (add_event f hdr m now (to_window f is_zero units e)) es h.1)

  -- Of an ingester that has read, from its start on and with no flush yet, messages of any runs in
  -- any order, each message of this run once, where all prices are finite and no two orders of the
  -- run that were not rejected were sent at the same nanosecond: a run with reports has a window,
  -- which counts them all, in 64 bits, and from which the validator gets the ratio that it gets from
  -- the reports in the order in which the bots' channel delivered them.
  pub consume_all-publish :
      (d : ℤ) (run_id : String) (sent : List (TelemetryEvent f.F))
      (read : List (ℤ × TelemetryEvent f.F))
      → Perm (reports_of_run run_id read) sent
      → All (λ e. finite e.1.price ≡ true) read
      → Pairwise SentApart (fills (at_window sent))
      → sent ≢ []
      → (w : RunWindow H) × (find run_id
            (consume_all f hdr s (new_manager H d) (rounds_of read)).0.windows
          ≡ some w)
        × (w.order_count ≡ wrap_64 (pos (length sent)))
        × (validate f s new_validator w.events
            ≡ validate f s new_validator (fills (at_window sent)))
  consume_all-publish d run_id sent read p h apart some_sent =
      let perm : Perm (of_run run_id (arrivals read)) (at_window sent) =
        rw (of_run-arrivals run_id read) (Perm.map (to_window f is_zero units) p) in
      let number : length (of_run run_id (arrivals read)) ≡ length sent =
        length-perm perm ∙ length-at_window sent in
      rw (consume_all-rounds_of (new_manager H d) read h)
        (elim (add_events-Accounts f hdr d run_id (arrivals read)) [
          | inl (none_read, n) ↦
              absurd (some_sent (empty-length sent (sym number ∙ ap length none_read)))
          | inr (w, found, a) ↦ (
            w,
            found,
            a.counted ∙ ap (λ n. wrap_64 (pos n)) number,
            rw a.kept (
                sym (
                  validate-perm s f new_validator (fills (at_window sent))
                    (fills (of_run run_id (arrivals read))) (Perm.symm (fills-perm perm)) apart)),
          )
        ])
