-- ===== src/Common/Env.antt =====
-- The readers of environment variables that each service's config.go has.
use Prim.Native.String.{String}
use mathlib.Core.Bool.{Bool}
use mathlib.Core.Option.{Option, none, some}
use trade_bench.Common.Tests.{if◌then◌else◌, str_eq}
use trade_bench.Common.Int.{ℤ}

-- `os.Getenv`, the empty text where a variable is not set, and the parsers of the standard library,
-- `none` where they report an error; a duration is in nanoseconds.
pub record Env : Type 0 where
  pub get : String → String
  pub atoi : String → Option ℤ
  pub parse_int_64 : String → Option ℤ
  pub parse_bool : String → Option Bool
  pub parse_duration : String → Option ℤ

unfoldable pub env_or : Env → String → String → String
env_or env key fallback = let v = env.get key in if str_eq v "" then fallback else v

abbrev or_else : {A : Type 0} → Option A → A → A
or_else none fallback = fallback
or_else (some a) fallback = a

unfoldable pub env_or_int : Env → String → ℤ → ℤ
env_or_int env key fallback =
    let v = env.get key in if str_eq v "" then fallback else or_else (env.atoi v) fallback

unfoldable pub env_or_int64 : Env → String → ℤ → ℤ
env_or_int64 env key fallback =
    let v = env.get key in if str_eq v "" then fallback else or_else (env.parse_int_64 v) fallback

unfoldable pub env_or_bool : Env → String → Bool → Bool
env_or_bool env key fallback =
    let v = env.get key in if str_eq v "" then fallback else or_else (env.parse_bool v) fallback
