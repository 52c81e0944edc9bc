-- ===== src/Gateway/RateLimit/Isolation.antt =====
-- Buckets of limiter.go do not affect one another.
use trade_bench.Common.{
  String, ◌≡◌, ◌≢◌, refl, ◌∙◌, List, [], ◌∷◌, str_eq, str_ne, Bool-cases, inl, inr, All,
}
use trade_bench.Common.Int.{ℤ}
use trade_bench.Common.Dict.{put, find-put}
use trade_bench.Common.Float.{Float}
use trade_bench.Gateway.RateLimit.{Rate, Limiter, get_limiter, allow, admit}

module _ (f : Float) (rate : Rate f.F) where
  open rate use {Bucket}

  get_limiter-admit :
      (l : Limiter Bucket) (key other : String) (now : ℤ)
      → key ≢ other
      → get_limiter f rate (admit f rate l key now).1 other ≡ get_limiter f rate l other
  unfolding get_limiter admit allow
  get_limiter-admit l key other now n = elim (Bool-cases (str_eq key "")) [
    | inl e ↦ rw e
    | inr e ↦ rw e (other_bucket (rate.allow (get_limiter f rate l key) now).1)
  ]
    where
      other_bucket :
          (b : Bucket)
          → get_limiter f rate (record l { limiters = put key b l.limiters }) other
            ≡ get_limiter f rate l other
      other_bucket b = rw (find-put key other b l.limiters, str_ne key other n, get_limiter)

  admit-bucket :
      (l l' : Limiter Bucket) (key : String) (now : ℤ)
      → get_limiter f rate l key ≡ get_limiter f rate l' key
      → (admit f rate l key now).0 ≡ (admit f rate l' key now).0
  unfolding admit allow
  admit-bucket l l' key now e = elim (Bool-cases (str_eq key "")) [
    | inl t ↦ rw t
    | inr t ↦ rw (t, e)
  ]

  -- Requests in a row, each with its key and its time: the limiter that they leave.
  unfoldable admit_all : Limiter Bucket → List (String × ℤ) → Limiter Bucket
  admit_all l [] = l
  admit_all l ((key, now) ∷ rs) = admit_all (admit f rate l key now).1 rs

  get_limiter-admit_all :
      (l : Limiter Bucket) (rs : List (String × ℤ)) (key : String)
      → All (λ r. r.0 ≢ key) rs
      → get_limiter f rate (admit_all l rs) key ≡ get_limiter f rate l key
  unfolding admit_all
  get_limiter-admit_all l [] key h = refl
  get_limiter-admit_all l ((other, now) ∷ rs) key h =
      get_limiter-admit_all (admit f rate l other now).1 rs key h.1
      ∙ get_limiter-admit l other key now h.0

  -- Whether a request is admitted does not depend on what other keys have asked before it.
  admit-others :
      (l : Limiter Bucket) (rs : List (String × ℤ)) (key : String) (now : ℤ)
      → All (λ r. r.0 ≢ key) rs
      → (admit f rate (admit_all l rs) key now).0 ≡ (admit f rate l key now).0
  admit-others l rs key now h =
      admit-bucket (admit_all l rs) l key now (get_limiter-admit_all l rs key h)
