-- ===== src/Gateway/Auth.antt =====
-- apps/gateway/internal/auth/jwt.go over golang-jwt, and the reading of the Authorization header
-- in apps/gateway/cmd/main.go. A header is its code points.
use trade_bench.Common.{
  ℕ, ◌+◌, String, Bool, true, false, not, ◌&&◌, Option, none, some, List, [], ◌∷◌, if◌then◌else◌,
  leb, ◌==◌,
}
use trade_bench.Common.Int.{ℤ, ◌+ℤ◌}

-- A token that decodes: whether its header names an HMAC method, its claims are registered claims,
-- and whom they name.
pub record Token : Type 0 where
  pub is_hmac : Bool
  pub has_registered_claims : Bool
  pub subject : String

-- `jwt.RegisteredClaims` as `IssueToken` fills them, the times in nanoseconds.
pub record Claims : Type 0 where
  pub subject : String
  pub issued_at : ℤ
  pub expires_at : ℤ

-- The calls of github.com/golang-jwt/jwt: signing with HS256, decoding, the check of signature and
-- times by a key at a time, and `NewNumericDate`.
pub record Jwt : Type 1 where
  pub Secret : Type 0
  pub sign : Secret → Claims → Option (List ℕ)
  pub decode : List ℕ → Option Token
  pub checks : Secret → ℤ → List ℕ → Bool
  pub numeric_date : ℤ → ℤ

-- `IssueToken` at the time `now`; `expiry` is the configured lifetime.
unfoldable pub issue_token : (jwt : Jwt) → jwt.Secret → ℤ → ℤ → String → Option (List ℕ)
issue_token jwt secret expiry now contestant_id = jwt.sign secret (record {
  subject = contestant_id;
  issued_at = jwt.numeric_date now;
  expires_at = jwt.numeric_date (now +ℤ expiry);
})

-- `VerifyToken`: the key function gives the secret for an HMAC method alone.
unfoldable pub verify_token : (jwt : Jwt) → jwt.Secret → ℤ → List ℕ → Option String
verify_token jwt secret now text = elim (jwt.decode text) [
  | none ↦ none
  | some token ↦
      if not (token.is_hmac && jwt.checks secret now text)
      then none
      else if not token.has_registered_claims
      then none
      else some token.subject
]

abbrev extend : ℕ → Option (List ℕ × List ℕ) → Option (List ℕ × List ℕ)
extend c none = none
extend c (some (a, b)) = some (c ∷ a, b)

-- `strings.SplitN(h, " ", 2)`, where it gives two parts: those around the first space.
unfoldable pub split_space : List ℕ → Option (List ℕ × List ℕ)
split_space [] = none
split_space (c ∷ cs) =
    let rest = extend c (split_space cs) in if c == 32 then some ([], cs) else rest

unfoldable pub lower : ℕ → ℕ
lower c = if leb b'A' c && leb c b'Z' then c + 32 else c

-- `strings.EqualFold` against a word of ASCII letters other than k and s.
unfoldable pub folds_to : List ℕ → List ℕ → Bool
unfolding lower
folds_to [] [] = true
folds_to (c ∷ cs) (d ∷ ds) = lower c == d && folds_to cs ds
folds_to _ _ = false

abbrev pub bearer : List ℕ
bearer = b'b' ∷ b'e' ∷ b'a' ∷ b'r' ∷ b'e' ∷ b'r' ∷ []
