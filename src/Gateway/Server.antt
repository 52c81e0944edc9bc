-- ===== src/Gateway/Server.antt =====
-- apps/gateway/cmd/main.go: the routes and the chain of handlers: the token check, the limit for
-- all requests, the limit for uploads, the multiplexer.
pub mod Access
pub mod Token
mod Examples
use text.Mathlib.Text.{starts_with}
use trade_bench.Common.{
  ℕ, String, Bool, true, false, not, ◌&&◌, ◌||◌, ◌⊎◌, inl, inr, Option, none, some, List, [], ◌∷◌,
  if◌then◌else◌, str_eq,
}
use trade_bench.Common.Int.{ℤ}
use trade_bench.Common.Float.{Float}
use trade_bench.Gateway.Auth.{Jwt, verify_token, split_space, folds_to, bearer}
use trade_bench.Gateway.RateLimit.{Rate, Limiter, admit, allow}

pub record Request : Type 0 where
  pub method : String
  pub path : String
  -- The Authorization header, empty where there is none.
  pub authorization : List ℕ

-- Who serves a request. The two handlers of the gateway itself, and the proxied services.
pub data Backend : Type 0 where
  health issue_token submission_service ingester leaderboard leaderboard_socket not_found : Backend

pub data Answer : Type 0 where
  missing_header invalid_header invalid_token rate_limited submission_rate_limited : Answer
  served : Backend → Option String → Answer

pub record Limits (Bucket : Type 0) : Type 0 where
  pub global : Limiter Bucket
  pub submission : Limiter Bucket

-- The multiplexer on a clean path: a pattern that ends in `/` matches by prefix, the others whole.
unfoldable pub route : String → Backend
route path =
    if str_eq path "/health"
    then health
    else if str_eq path "/api/v1/auth/token"
    then issue_token
    else if str_eq path "/api/v1/submissions"
    then submission_service
    else if starts_with path "/api/v1/submissions/"
    then submission_service
    else if starts_with path "/api/v1/runs/"
    then ingester
    else if str_eq path "/api/v1/leaderboard"
    then leaderboard
    else if str_eq path "/ws/leaderboard"
    then leaderboard_socket
    else not_found

-- `keyFn`: the contestant in the request's context, or the empty string.
abbrev pub key_of : Option String → String
key_of none = ""
key_of (some id) = id

module _ (f : Float) (rate : Rate f.F) (jwt : Jwt) (secret : jwt.Secret) where
  open rate use {Bucket}

  -- `submissionRateLimit` around the multiplexer.
  submission_rate_limit : Limits Bucket → ℤ → Request → Option String → Answer × Limits Bucket
  submission_rate_limit ls now r who =
      if str_eq r.path "/api/v1/submissions" && str_eq r.method "POST"
      then (let (ok, l) = admit f rate ls.submission (key_of who) now in
          (
            if ok then served (route r.path) who else submission_rate_limited,
            record ls { submission = l },
          ))
      else (served (route r.path) who, ls)

  -- `ratelimit.Middleware` for the global limiter.
  unfoldable pub global_rate_limit :
      Limits Bucket → ℤ → Request → Option String → Answer × Limits Bucket
  unfolding submission_rate_limit
  global_rate_limit ls now r who =
      let (ok, l) = admit f rate ls.global (key_of who) now in
      let rest = submission_rate_limit (record ls { global = l }) now r who in
      if ok then rest else (rate_limited, record ls { global = l })

  abbrev is_public : String → Bool
  is_public path =
      str_eq path "/health" || str_eq path "/ws/leaderboard" || str_eq path "/api/v1/auth/token"

  -- `jwtMiddleware` past the public paths.
  authenticate : ℤ → List ℕ → Answer ⊎ String
  authenticate now [] = inl missing_header
  authenticate now (c ∷ cs) = elim (split_space (c ∷ cs)) [
    | none ↦ inl invalid_header
    | some (scheme, token) ↦
        if not (folds_to scheme bearer)
        then inl invalid_header
        else elim (verify_token jwt secret now token) [
          | none ↦ inl invalid_token
          | some id ↦ inr id
        ]
  ]

  -- The whole chain.
  unfoldable pub handle : Limits Bucket → ℤ → Request → Answer × Limits Bucket
  unfolding global_rate_limit authenticate
  handle ls now r =
      if is_public r.path
      then global_rate_limit ls now r none
      else elim (authenticate now r.authorization) [
        | inl refusal ↦ (refusal, ls)
        | inr id ↦ global_rate_limit ls now r (some id)
      ]
