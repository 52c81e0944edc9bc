-- ===== src/Common/ObjectStore.antt =====
-- MinIO behind minio-go, as the services use it.
use Prim.Native.String.{String}
use mathlib.Core.Path.{◌≡◌}
use mathlib.Core.Logic.{◌≢◌}
use mathlib.Core.Bool.{Bool, true}
use mathlib.Core.Option.{Option, some}
use mathlib.Core.List.{List}
use Prim.Native.Nat.{ℕ}
use trade_bench.Common.Lists.{length}
use trade_bench.Common.Int.{ℤ, pos}

-- The calls, each on a bucket; `none` and `false` stand for an error. `put_object` takes a key, what
-- the reader gives and the size; `get_object` is what reading the object of a key gives.
pub record ObjectStore : Type 1 where
  pub S : Type 0
  pub bucket_exists : S → String → Option Bool
  pub make_bucket : S → String → Bool × S
  pub put_object : S → String → String → List ℕ → ℤ → Bool × S
  pub get_object : S → String → String → Option (List ℕ)

-- The documented behaviour: an object that was put whole is what is got, and no other changes.
pub record StoreLaws (m : ObjectStore) : Type 0 where
  pub get-put_same :
      (s : m.S) (bucket key : String) (content : List ℕ)
      → (m.put_object s bucket key content (pos (length content))).0 ≡ true
      → m.get_object (m.put_object s bucket key content (pos (length content))).1 bucket key
        ≡ some content
  pub get-put_other :
      (s : m.S) (bucket key other : String) (content : List ℕ) (size : ℤ)
      → key ≢ other
      → m.get_object (m.put_object s bucket key content size).1 bucket other
        ≡ m.get_object s bucket other
