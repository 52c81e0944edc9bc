-- ===== src/Common/Json.antt =====
-- encoding/json on flat structs, and the publishers that all services have: `Marshal` of a struct is
-- an object with a member for each field, under the name of its tag, and fails on a number that is
-- NaN or infinite; `Unmarshal` reads each field from the member of that name, leaves it zero where
-- there is none, and fails on a member of another type. The text between them is left out, and so
-- are members named with other capitals, which no service writes.
use Prim.Native.String.{String}
use mathlib.Core.Path.{◌≡◌}
use mathlib.Core.Bool.{Bool, true, false, ◌&&◌}
use mathlib.Core.Option.{Option, none, some}
use mathlib.Core.List.{[], ◌∷◌}
use native.Mathlib.Omega.{arith}
use trade_bench.Common.Tests.{if◌then◌else◌}
use trade_bench.Common.Int.{ℤ, pos}
use trade_bench.Common.Float.{Float}
use trade_bench.Common.Dict.{Dict, find}

pub data Value (F : Type 0) : Type 0 where
  text : String → Value F
  int : ℤ → Value F
  real : F → Value F
  flag : Bool → Value F

abbrev pub Object : Type 0 → Type 0
Object F = Dict (Value F)

-- A message of Kafka: its key and its value.
abbrev pub KafkaMessage : Type 0 → Type 0
KafkaMessage F = String × Object F

infixl 5 ◌>>=◌
abbrev pub ◌>>=◌ {ℓ κ} : {A : Type ℓ} {B : Type κ} → Option A → (A → Option B) → Option B
none >>= g = none
some a >>= g = g a

abbrev pub as_text : {F : Type 0} → Value F → Option String
as_text (text s) = some s
as_text (int n) = none
as_text (real x) = none
as_text (flag b) = none

-- A float64 is never read into an integer here.
abbrev pub as_int : {F : Type 0} → Value F → Option ℤ
as_int (text s) = none
as_int (int n) = some n
as_int (real x) = none
as_int (flag b) = none

abbrev pub as_flag : {F : Type 0} → Value F → Option Bool
as_flag (text s) = none
as_flag (int n) = none
as_flag (real x) = none
as_flag (flag b) = some b

abbrev field : {F A : Type 0} → (Value F → Option A) → A → Option (Value F) → Option A
field read zero none = some zero
field read zero (some v) = read v

unfoldable pub read_text : {F : Type 0} → String → Object F → Option String
unfolding find
read_text name o = field as_text "" (find name o)

unfoldable pub read_int : {F : Type 0} → String → Object F → Option ℤ
unfolding find
read_int name o = field as_int (pos 0) (find name o)

unfoldable pub read_flag : {F : Type 0} → String → Object F → Option Bool
unfolding find
read_flag name o = field as_flag false (find name o)

module _ (f : Float) where
  abbrev pub as_real : Value f.F → Option f.F
  as_real (text s) = none
  as_real (int n) = some (f.of_int n)
  as_real (real x) = some x
  as_real (flag b) = none

  unfoldable pub read_real : String → Object f.F → Option f.F
  unfolding find
  read_real name o = field as_real (f.lit 0 0) (find name o)

-- `finite`: whether a float64 is neither NaN nor infinite.
abbrev pub encodes : {F : Type 0} → (F → Bool) → Object F → Bool
encodes finite [] = true
encodes finite ((name, text s) ∷ o) = encodes finite o
encodes finite ((name, int n) ∷ o) = encodes finite o
encodes finite ((name, real x) ∷ o) = finite x && encodes finite o
encodes finite ((name, flag b) ∷ o) = encodes finite o

-- The `Publish` of each publisher, with its key: what goes out, if it encodes and is written.
unfoldable pub publish_json :
    {F : Type 0} → (F → Bool) → Bool → String → Object F → Option (KafkaMessage F)
publish_json finite writes key o =
    if encodes finite o then (if writes then some (key, o) else none) else none

-- A reader decodes the value of a message.
abbrev pub read_message : {F A : Type 0} → (Object F → Option A) → KafkaMessage F → Option A
read_message decode m = decode m.1

pub publish_json-read :
    {F A : Type 0} (finite : F → Bool) (writes : Bool) (key : String) (o : Object F)
    (decode : Object F → Option A) (a : A)
    → decode o ≡ some a
    → (publish_json finite writes key o >>= read_message decode)
      ≡ (if encodes finite o && writes then some a else none)
unfolding publish_json
publish_json-read finite writes key o decode a e = ground arith
