-- ===== src/Gateway/Server/Examples.antt =====
-- The gateway at concrete requests.
use trade_bench.Common.{
  ℕ, ◌-◌, String, ◌≡◌, refl, ◌⊎◌, true, Option, none, some, List, [], ◌∷◌, arith, if◌then◌else◌,
  str_iff, ◌≢◌, ap, ◌∙◌, str_eq, Bool-cases, inl, inr,
}
use trade_bench.Common.Int.{negsuc, ◌+ℤ◌, quot_ℤ, rem_ℤ, ℤ, pos, pos_part, ltb_ℤ}
use trade_bench.Common.Whole.{whole}
use trade_bench.Gateway.Auth.{issue_token, Jwt, verify_token, split_space, folds_to}
use trade_bench.Gateway.RateLimit.{Rate, Limiter, allow, get_limiter, admit}
use trade_bench.Common.Dict.{find}
use trade_bench.Gateway.Server.Token.{
  SignLaws, serve_token, bearer_header, duration_seconds, handle-serve_token,
}
use trade_bench.Gateway.Server.{
  invalid_token, global_rate_limit, Request, leaderboard, submission_service, served, rate_limited,
  submission_rate_limited, Limits, route, handle,
}
use trade_bench.Gateway.Server.Access.{
  HasToken, HasGoodToken, is_at, IsPublic, handle-served, handle-upload,
}

-- A bucket that counts down and never refills.
abbrev countdown : Rate ℕ
countdown = record {
  Bucket = ℤ;
  new_limiter = λ rps burst. burst;
  allow = λ b now. (ltb_ℤ (pos 0) b, pos (pos_part b - 1));
}

-- Every token is good, and names alice.
abbrev alice_only : Jwt
alice_only = record {
  Secret = ℕ;
  sign = λ k c. some [];
  numeric_date = λ t. t;
  decode = λ t. some (record { is_hmac = true; has_registered_claims = true; subject = "alice" });
  checks = λ k now t. true;
}

abbrev limiter : Limiter ℤ
limiter = record { limiters = []; rpm = pos 2 }

abbrev limits : Limits ℤ
limits = record { global = limiter; submission = limiter }

abbrev bearer_x : List ℕ
bearer_x = b'B' ∷ b'e' ∷ b'a' ∷ b'r' ∷ b'e' ∷ b'r' ∷ b' ' ∷ b'x' ∷ []

abbrev read_board : Request
read_board = record { method = "GET"; path = "/api/v1/leaderboard"; authorization = bearer_x }

alice-HasToken : HasToken whole countdown alice_only 0 (pos 1) bearer_x "alice"
unfolding split_space folds_to verify_token
alice-HasToken = (b'B' ∷ b'e' ∷ b'a' ∷ b'r' ∷ b'e' ∷ b'r' ∷ [], b'x' ∷ [], refl, refl, refl)

handle-served_example :
    (is_at leaderboard "/api/v1/leaderboard" ≡ true)
    × ((IsPublic "/api/v1/leaderboard" × (◌≡◌ {A = Option String} (some "alice") none))
        ⊎ ((id : String) × (◌≡◌ {A = Option String} (some "alice") (some id))
            × HasGoodToken whole countdown alice_only 0 (pos 1) bearer_x id))
unfolding handle route admit allow get_limiter find verify_token split_space folds_to
handle-served_example =
    handle-served whole countdown alice_only 0 limits (pos 1) read_board leaderboard (some "alice")
      refl

handle-upload_example :
    (handle whole countdown alice_only 0 limits
      (pos 1)
      (record { method = "POST"; path = "/api/v1/submissions"; authorization = bearer_x })).0
    ≡ (if (admit whole countdown limiter "alice" (pos 1)).0
        then (if (admit whole countdown limiter "alice" (pos 1)).0
            then served submission_service (some "alice")
            else submission_rate_limited)
        else rate_limited)
handle-upload_example =
    handle-upload whole countdown alice_only 0 limits (pos 1) bearer_x "alice" alice-HasToken

abbrev encode : ℤ → List ℕ
encode (pos n) = n ∷ []
encode (negsuc n) = n ∷ 0 ∷ []

abbrev expiry_of : List ℕ → ℤ
expiry_of [] = pos 0
expiry_of (n ∷ []) = pos n
expiry_of (n ∷ m ∷ ms) = negsuc n

expiry_of-encode : (a : ℤ) → expiry_of (encode a) ≡ a
expiry_of-encode (pos n) = refl
expiry_of-encode (negsuc n) = refl

-- A token for alice alone: it is the time when it expires.
abbrev expiring : Jwt
expiring = record {
  Secret = ℕ;
  sign = λ k c. if str_eq c.subject "alice" then some (encode c.expires_at) else none;
  numeric_date = λ t. t;
  decode = λ t. some (record { is_hmac = true; has_registered_claims = true; subject = "alice" });
  checks = λ k now t. ltb_ℤ now (expiry_of t);
}

expiring-SignLaws : SignLaws expiring
expiring-SignLaws = record {
  decodes = λ k c t e. ground (arith, str_iff c.subject "alice");
  checks = λ k c t now e. elim (Bool-cases (str_eq c.subject "alice")) [
    | inl h ↦
        ap (λ x. ltb_ℤ now (expiry_of x)) (signed (encode c.expires_at) t (rw h at e))
        ∙ ap (ltb_ℤ now) (expiry_of-encode c.expires_at)
    | inr h ↦ absurd (ground arith)
  ];
}
  where
    signed : (a b : List ℕ) → some a ≡ some b → b ≡ a
    signed a b e = cc

handle-serve_token_example :
    (id : String) × (◌≡◌ {A = Option String} (some "alice") (some id))
    × (id ≢ "")
    × (handle whole countdown expiring 0 limits (pos 7) (record {
      method = "GET";
      path = "/api/v1/leaderboard";
      authorization = bearer_header (encode (pos 5_000_000_003));
    })
        ≡ (if ltb_ℤ (pos 7) (expiring.numeric_date (pos 3 +ℤ pos 5_000_000_000))
            then global_rate_limit whole countdown expiring 0 limits
                (pos 7)
                (record {
                  method = "GET";
                  path = "/api/v1/leaderboard";
                  authorization = bearer_header (encode (pos 5_000_000_003));
                })
                (some id)
            else (invalid_token, limits)))
unfolding serve_token issue_token duration_seconds quot_ℤ rem_ℤ ◌+ℤ◌
handle-serve_token_example =
    handle-serve_token whole countdown expiring 0 (pos 5_000_000_000) (pos 3) (pos 7) "GET"
      "/api/v1/leaderboard" "POST" (some "alice") (encode (pos 5_000_000_003)) (pos 5) limits
      expiring-SignLaws refl refl
