-- ===== src/Gateway/Server/Access.antt =====
-- What the chain of handlers in cmd/main.go lets through.
use text.Mathlib.Text.{starts_with}
use trade_bench.Common.{
  ℕ, ◌+◌, ◌==◌, String, ◌≡◌, refl, ◌⊎◌, inl, inr, Bool, true, false, not, ◌||◌, ◌&&◌, Option, none,
  some, List, [], ◌∷◌, ◌++◌, arith, if◌then◌else◌, Bool-cases, Option-cases, str_eq, str_iff, leb,
}
use trade_bench.Common.Int.{ℤ}
use trade_bench.Common.Float.{Float}
use trade_bench.Gateway.Auth.{Jwt, Token, lower, verify_token, split_space, folds_to, bearer}
use trade_bench.Gateway.RateLimit.{Rate, admit}
use trade_bench.Gateway.Server.{
  Request, Backend, health, issue_token, submission_service, ingester, leaderboard,
  leaderboard_socket, not_found, Answer, rate_limited, submission_rate_limited, served,
  missing_header, invalid_header, invalid_token, Limits, route, is_public, authenticate, handle,
  global_rate_limit,
}

-- The table of paths: who serves which, and the paths that nobody does.
abbrev pub is_at : Backend → String → Bool
is_at health path = str_eq path "/health"
is_at issue_token path = str_eq path "/api/v1/auth/token"
is_at submission_service path =
    str_eq path "/api/v1/submissions" || starts_with path "/api/v1/submissions/"
is_at ingester path = starts_with path "/api/v1/runs/"
is_at leaderboard path = str_eq path "/api/v1/leaderboard"
is_at leaderboard_socket path = str_eq path "/ws/leaderboard"
is_at not_found path = not (
    str_eq path "/health"
    || str_eq path "/api/v1/auth/token"
    || str_eq path "/api/v1/submissions"
    || starts_with path "/api/v1/submissions/"
    || starts_with path "/api/v1/runs/"
    || str_eq path "/api/v1/leaderboard"
    || str_eq path "/ws/leaderboard")

route-is_at : (path : String) → is_at (route path) path ≡ true
unfolding route
route-is_at path = elim (Bool-cases (str_eq path "/health")) [
  | inl a ↦ rw a (rw a refl)
  | inr a ↦ rw a (elim (Bool-cases (str_eq path "/api/v1/auth/token")) [
    | inl b ↦ rw b (rw b refl)
    | inr b ↦ rw b (elim (Bool-cases (str_eq path "/api/v1/submissions")) [
      | inl c ↦ rw c (rw c refl)
      | inr c ↦ rw c (elim (Bool-cases (starts_with path "/api/v1/submissions/")) [
        | inl d ↦ rw d (rw (c, d) refl)
        | inr d ↦ rw d (elim (Bool-cases (starts_with path "/api/v1/runs/")) [
          | inl e ↦ rw e (rw e refl)
          | inr e ↦ rw e (elim (Bool-cases (str_eq path "/api/v1/leaderboard")) [
            | inl g ↦ rw g (rw g refl)
            | inr g ↦ rw g (elim (Bool-cases (str_eq path "/ws/leaderboard")) [
              | inl h ↦ rw h (rw h refl)
              | inr h ↦ rw h (rw (a, b, c, d, e, g, h) refl)
            ])
          ])
        ])
      ])
    ])
  ])
]

abbrev pub IsPublic : String → Type 0
IsPublic path = (path ≡ "/health") ⊎ ((path ≡ "/ws/leaderboard") ⊎ (path ≡ "/api/v1/auth/token"))

-- A text that is a word of small letters, each in either case.
abbrev pub IsEitherCase : List ℕ → List ℕ → Type 0
IsEitherCase [] [] = Unit
IsEitherCase [] (d ∷ ds) = ⊥
IsEitherCase (c ∷ cs) [] = ⊥
IsEitherCase (c ∷ cs) (d ∷ ds) = ((c ≡ d) ⊎ (c + 32 ≡ d)) × IsEitherCase cs ds

lower-cases : (c d : ℕ) → lower c == d ≡ true → (c ≡ d) ⊎ (c + 32 ≡ d)
unfolding lower
lower-cases c d h = elim (Bool-cases (leb b'A' c && leb c b'Z')) [
  | inl q ↦ inr (ground arith)
  | inr q ↦ inl (ground arith)
]

folds_to-IsEitherCase : (cs ds : List ℕ) → folds_to cs ds ≡ true → IsEitherCase cs ds
unfolding folds_to
folds_to-IsEitherCase [] [] h = tt
folds_to-IsEitherCase [] (d ∷ ds) h = absurd (ground arith)
folds_to-IsEitherCase (c ∷ cs) [] h = absurd (ground arith)
folds_to-IsEitherCase (c ∷ cs) (d ∷ ds) h = elim (Bool-cases (lower c == d)) [
  | inl q ↦ (lower-cases c d q, folds_to-IsEitherCase cs ds (rw q at h))
  | inr q ↦ absurd (ground arith)
]

split_space-append :
    (header scheme token : List ℕ)
    → split_space header ≡ some (scheme, token)
    → header ≡ scheme ++ 32 ∷ token
unfolding split_space
split_space-append [] scheme token h = absurd (ground arith)
split_space-append (c ∷ cs) scheme token h = elim (Bool-cases (c == 32)) [
  | inl q ↦ ground arith
  | inr q ↦ elim (Option-cases (split_space cs)) [
    | inl n ↦ absurd (ground arith)
    | inr ((a, b), s) ↦ ground (arith, split_space-append cs a b s)
  ]
]

module _ (f : Float) (rate : Rate f.F) (jwt : Jwt) (secret : jwt.Secret) where
  open rate use {Bucket}

  -- The header is `bearer`, in any case, a space, and a token that verifies for the contestant.
  abbrev pub HasToken : ℤ → List ℕ → String → Type 0
  HasToken now header id =
      (scheme : List ℕ) × (token : List ℕ) × (split_space header ≡ some (scheme, token))
      × (folds_to scheme bearer ≡ true)
      × (verify_token jwt secret now token ≡ some id)

  authenticate-HasToken :
      (now : ℤ) (header : List ℕ) (id : String)
      → authenticate f rate jwt secret now header ≡ inr id
      → HasToken now header id
  unfolding authenticate
  authenticate-HasToken now [] id e = cc
  authenticate-HasToken now (c ∷ cs) id e = elim (Option-cases (split_space (c ∷ cs))) [
    | inl n ↦ absurd (ground arith)
    | inr ((scheme, token), q) ↦ elim (Bool-cases (folds_to scheme bearer)) [
      | inr n ↦ absurd (ground arith)
      | inl b ↦ elim (Option-cases (verify_token jwt secret now token)) [
        | inl n ↦ absurd (ground arith)
        | inr (who, v) ↦ (scheme, token, q, b, ground arith)
      ]
    ]
  ]

  HasToken-authenticate :
      (now : ℤ) (header : List ℕ) (id : String)
      → HasToken now header id
      → authenticate f rate jwt secret now header ≡ inr id
  unfolding authenticate split_space
  HasToken-authenticate now [] id (scheme, token, q, b, v) = cc
  HasToken-authenticate now (c ∷ cs) id (scheme, token, q, b, v) = rw (q, authenticate) (rw (b, v))

  abbrev IsUnauthorized : Answer → Type 0
  IsUnauthorized a = (a ≡ missing_header) ⊎ ((a ≡ invalid_header) ⊎ (a ≡ invalid_token))

  authenticate-cases :
      (now : ℤ) (header : List ℕ)
      → ((a : Answer) × (authenticate f rate jwt secret now header ≡ inl a) × IsUnauthorized a)
        ⊎ ((id : String) × (authenticate f rate jwt secret now header ≡ inr id))
  unfolding authenticate
  authenticate-cases now [] = inl (missing_header, refl, inl refl)
  authenticate-cases now (c ∷ cs) = elim (Option-cases (split_space (c ∷ cs))) [
    | inl n ↦ inl (invalid_header, rw (n, authenticate), inr (inl refl))
    | inr ((scheme, token), q) ↦ elim (Bool-cases (folds_to scheme bearer)) [
      | inr n ↦ inl (invalid_header, rw (q, authenticate) (rw n), inr (inl refl))
      | inl b ↦ elim (Option-cases (verify_token jwt secret now token)) [
        | inl n ↦ inl (invalid_token, rw (q, authenticate) (rw (b, n)), inr (inr refl))
        | inr (id, v) ↦ inr (id, rw (q, authenticate) (rw (b, v)))
      ]
    ]
  ]

  limits-served :
      (ls : Limits Bucket) (now : ℤ) (r : Request) (who asked : Option String) (b : Backend)
      → (global_rate_limit f rate jwt secret ls now r who).0 ≡ served b asked
      → (b ≡ route r.path) × (asked ≡ who)
  unfolding global_rate_limit
  limits-served ls now r who asked b e = ground arith

  -- The header is the word bearer, each letter in either case, a space, and a token that decodes, is
  -- signed by an HMAC method, passes the checks with the gateway's secret, and holds the name.
  abbrev pub HasGoodToken : ℤ → List ℕ → String → Type 0
  HasGoodToken now header id =
      (scheme : List ℕ) × (token : List ℕ) × (t : Token) × (header ≡ scheme ++ 32 ∷ token)
      × IsEitherCase scheme bearer
      × (jwt.decode token ≡ some t)
      × (t.is_hmac ≡ true)
      × (jwt.checks secret now token ≡ true)
      × (t.has_registered_claims ≡ true)
      × (t.subject ≡ id)

  HasToken-HasGoodToken :
      (now : ℤ) (header : List ℕ) (id : String)
      → HasToken now header id
      → HasGoodToken now header id
  unfolding verify_token
  HasToken-HasGoodToken now header id (scheme, token, q, b, v) =
      elim (Option-cases (jwt.decode token)) [
        | inl n ↦ absurd (ground arith)
        | inr (t, d) ↦ elim (Bool-cases t.is_hmac) [
          | inr n ↦ absurd (ground arith)
          | inl m ↦ elim (Bool-cases (jwt.checks secret now token)) [
            | inr n ↦ absurd (ground arith)
            | inl k ↦ elim (Bool-cases t.has_registered_claims) [
              | inr n ↦ absurd (ground arith)
              | inl r ↦ (
                scheme,
                token,
                t,
                split_space-append header scheme token q,
                folds_to-IsEitherCase scheme bearer b,
                d,
                m,
                k,
                r,
                ground arith,
              )
            ]
          ]
        ]
      ]

  is_public-IsPublic : (path : String) → is_public f rate jwt secret path ≡ true → IsPublic path
  is_public-IsPublic path h = elim (Bool-cases (str_eq path "/health")) [
    | inl e ↦ inl ((str_iff path "/health").0 e)
    | inr n ↦ elim (Bool-cases (str_eq path "/ws/leaderboard")) [
      | inl e ↦ inr (inl ((str_iff path "/ws/leaderboard").0 e))
      | inr m ↦ inr (inr ((str_iff path "/api/v1/auth/token").0 (rw (n, m) at h)))
    ]
  ]

  -- A request reaches a handler only on the path `/health`, `/ws/leaderboard` or
  -- `/api/v1/auth/token`, then in nobody's name, or with a header of the word bearer, in any case, a
  -- space and a token that decodes, is signed by an HMAC method and passes the checks of golang-jwt
  -- with the gateway's secret, in the name that the token holds; and the handler is that of the
  -- table of paths.
  pub handle-served :
      (ls : Limits Bucket) (now : ℤ) (r : Request) (b : Backend) (who : Option String)
      → (handle f rate jwt secret ls now r).0 ≡ served b who
      → (is_at b r.path ≡ true)
        × ((IsPublic r.path × (who ≡ none))
            ⊎ ((id : String) × (who ≡ some id) × HasGoodToken now r.authorization id))
  unfolding handle
  handle-served ls now r b who e = elim (Bool-cases (is_public f rate jwt secret r.path)) [
    | inl p ↦
        let (at, as_asked) = limits-served ls now r none who b (rw p at e) in
        (rw at (route-is_at r.path), inl (is_public-IsPublic r.path p, as_asked))
    | inr n ↦ elim (authenticate-cases now r.authorization) [
      | inl (a, q, u) ↦ absurd (ground arith)
      | inr (id, q) ↦
          let through : (global_rate_limit f rate jwt secret ls now r (some id)).0 ≡ served b who =
            rw (n, q) at e in
          let (at, as_asked) = limits-served ls now r (some id) who b through in
          (
            rw at (route-is_at r.path),
            inr (
              id,
              as_asked,
              HasToken-HasGoodToken now r.authorization id
                  (authenticate-HasToken now r.authorization id q),
            ),
          )
    ]
  ]

  -- A request without a valid token on another path is answered by one of the three refusals, and
  -- no limiter counts it.
  handle-IsUnauthorized :
      (ls : Limits Bucket) (now : ℤ) (r : Request)
      → is_public f rate jwt secret r.path ≡ false
      → ((id : String) → ¬ HasToken now r.authorization id)
      → IsUnauthorized (handle f rate jwt secret ls now r).0
        × ((handle f rate jwt secret ls now r).1 ≡ ls)
  unfolding handle
  handle-IsUnauthorized ls now r p n = elim (authenticate-cases now r.authorization) [
    | inl (a, q, u) ↦ rw (p, handle) (rw q (u, refl))
    | inr (id, q) ↦ absurd (n id (authenticate-HasToken now r.authorization id q))
  ]

  -- An upload with a valid token reaches the submission service exactly if the limiter for all
  -- requests and then the limiter for uploads admit its contestant.
  pub handle-upload :
      (ls : Limits Bucket) (now : ℤ) (header : List ℕ) (id : String)
      → HasToken now header id
      → let r : Request = record {
        method = "POST";
        path = "/api/v1/submissions";
        authorization = header;
      } in
        (handle f rate jwt secret ls now r).0 ≡ (
          if (admit f rate ls.global id now).0
          then (if (admit f rate ls.submission id now).0
              then served submission_service (some id)
              else submission_rate_limited)
          else rate_limited)
  unfolding handle route
  handle-upload ls now header id h =
      rw (HasToken-authenticate now header id h, handle) (ground arith)
