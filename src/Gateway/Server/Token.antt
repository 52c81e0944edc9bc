-- ===== src/Gateway/Server/Token.antt =====
-- The handler of `/api/v1/auth/token` in cmd/main.go, and what becomes of the tokens that it gives.
use trade_bench.Common.{
  ℕ, String, ◌≡◌, ◌≢◌, refl, inl, inr, true, false, not, Option, none, some, List, ◌∷◌, arith,
  if◌then◌else◌, str_eq, str_iff, str_refl, Bool-cases, Option-cases,
}
use trade_bench.Common.Int.{ℤ, ◌+ℤ◌, ltb_ℤ, quot_ℤ, rem_ℤ}
use trade_bench.Common.Float.{Float}
use trade_bench.Gateway.Auth.{Jwt, Claims, issue_token, verify_token, split_space, folds_to}
use trade_bench.Gateway.RateLimit.{Rate}
use trade_bench.Gateway.Server.{
  Request, invalid_token, Limits, is_public, authenticate, handle, global_rate_limit,
}

pub data TokenReply : Type 0 where
  method_not_allowed id_required issue_failed : TokenReply
  -- The token, and its lifetime in seconds.
  issued : List ℕ → ℤ → TokenReply

-- `int(d.Seconds())` of a duration in nanoseconds.
unfoldable pub duration_seconds : Float → ℤ → ℤ
duration_seconds f d = f.to_int (
    f.add (f.of_int (quot_ℤ d 1_000_000_000))
      (f.div (f.of_int (rem_ℤ d 1_000_000_000)) (f.lit 1_000_000_000 0)))

-- The handler at the time `now`. `body` is the field `contestant_id` of the body, empty where it is
-- missing, or `none` where the body does not decode.
unfoldable pub serve_token :
    (f : Float) (jwt : Jwt) → jwt.Secret → ℤ → ℤ → String → Option String → TokenReply
serve_token f jwt secret expiry now method body =
    if not (str_eq method "POST") then method_not_allowed else elim body [
      | none ↦ id_required
      | some contestant_id ↦
          if str_eq contestant_id ""
          then id_required
          else elim (issue_token jwt secret expiry now contestant_id) [
            | none ↦ issue_failed
            | some token ↦ issued token (duration_seconds f expiry)
          ]
    ]

-- `Authorization: Bearer ` and a token.
abbrev pub bearer_header : List ℕ → List ℕ
bearer_header token = b'B' ∷ b'e' ∷ b'a' ∷ b'r' ∷ b'e' ∷ b'r' ∷ b' ' ∷ token

-- The documented behaviour of golang-jwt: what is signed decodes to an HMAC token with its
-- registered claims, and checks under the same secret as long as it has not expired.
pub record SignLaws (jwt : Jwt) : Type 0 where
  pub decodes :
      (secret : jwt.Secret) (c : Claims) (text : List ℕ)
      → jwt.sign secret c ≡ some text
      → jwt.decode text
        ≡ some (record { is_hmac = true; has_registered_claims = true; subject = c.subject })
  pub checks :
      (secret : jwt.Secret) (c : Claims) (text : List ℕ) (now : ℤ)
      → jwt.sign secret c ≡ some text
      → jwt.checks secret now text ≡ ltb_ℤ now c.expires_at

verify_token-issue_token :
    (jwt : Jwt) (secret : jwt.Secret) (expiry issued_at now : ℤ) (id : String) (text : List ℕ)
    → SignLaws jwt
    → issue_token jwt secret expiry issued_at id ≡ some text
    → verify_token jwt secret now text
      ≡ (if ltb_ℤ now (jwt.numeric_date (issued_at +ℤ expiry)) then some id else none)
unfolding issue_token verify_token
verify_token-issue_token jwt secret expiry issued_at now id text laws e =
    rw (laws.decodes secret _ text e, verify_token)
      (rw (laws.checks secret _ text now e) (ground arith))

serve_token_issued :
    (f : Float) (jwt : Jwt) (secret : jwt.Secret) (expiry now : ℤ) (method : String)
    (body : Option String) (text : List ℕ) (seconds : ℤ)
    → serve_token f jwt secret expiry now method body ≡ issued text seconds
    → (id : String) × (body ≡ some id)
      × (id ≢ "")
      × (issue_token jwt secret expiry now id ≡ some text)
unfolding serve_token
serve_token_issued f jwt secret expiry now method none text seconds e = absurd (ground arith)
serve_token_issued f jwt secret expiry now method (some id) text seconds e =
    elim (Option-cases (issue_token jwt secret expiry now id)) [
      | inl n ↦ absurd (ground arith)
      | inr (t, q) ↦ (id, refl, ground (arith, str_refl id, str_iff id ""), ground arith)
    ]

authenticate-bearer_header :
    (f : Float) (rate : Rate f.F) (jwt : Jwt) (secret : jwt.Secret) (now : ℤ) (text : List ℕ)
    → authenticate f rate jwt secret now (bearer_header text)
      ≡ (elim (verify_token jwt secret now text) [ none ↦ inl invalid_token | some id ↦ inr id ])
unfolding authenticate split_space folds_to
authenticate-bearer_header f rate jwt secret now text = refl

-- A token that the handler gave out, sent back as a bearer token on a path that is not public, lets
-- the request through to the limiters in the name of the contestant that asked for it, a name that
-- is not empty, until the token expires; from then on the request is refused as invalid.
pub handle-serve_token :
    (f : Float) (rate : Rate f.F) (jwt : Jwt) (secret : jwt.Secret) (expiry issued_at now : ℤ)
    (method path verb : String) (body : Option String) (text : List ℕ) (seconds : ℤ)
    (ls : Limits rate.Bucket)
    → SignLaws jwt
    → serve_token f jwt secret expiry issued_at verb body ≡ issued text seconds
    → is_public f rate jwt secret path ≡ false
    → let r : Request = record {
      method = method;
      path = path;
      authorization = bearer_header text;
    } in
      (id : String) × (body ≡ some id)
      × (id ≢ "")
      × (handle f rate jwt secret ls now r ≡ (
          if ltb_ℤ now (jwt.numeric_date (issued_at +ℤ expiry))
          then global_rate_limit f rate jwt secret ls now r (some id)
          else (invalid_token, ls)))
unfolding handle
handle-serve_token f rate jwt secret expiry issued_at now method path verb body text seconds ls laws
      e p =
    let (id, q, named, t) =
      serve_token_issued f jwt secret expiry issued_at verb body text seconds e in
    (
      id,
      q,
      named,
      rw
          (
            p,
            authenticate-bearer_header f rate jwt secret now text,
            verify_token-issue_token jwt secret expiry issued_at now id text laws t,
          )
          (elim (Bool-cases (ltb_ℤ now (jwt.numeric_date (issued_at +ℤ expiry)))) [
            | inl h ↦ rw h refl
            | inr h ↦ rw h refl
          ]),
    )
