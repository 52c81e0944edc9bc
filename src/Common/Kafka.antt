-- ===== src/Common/Kafka.antt =====
-- The readers and writers of kafka-go as the services configure them. Times are in milliseconds.
use Prim.Native.Nat.{ℕ}
use Prim.Native.Char.{code}
use Prim.Native.String.{String}
use mathlib.Core.Bool.{Bool}
use mathlib.Core.List.{List, [], ◌∷◌}
use trade_bench.Common.Tests.{◌==◌, if◌then◌else◌}

abbrev add_first : String → List String → List String
add_first c [] = c ∷ []
add_first c (word ∷ words) = Prim.Native.String.◌++◌ c word ∷ words

-- `strings.Split(s, ",")`.
unfoldable pub split_commas : String → List String
split_commas String.[] = "" ∷ []
split_commas (String.◌∷◌ c s) =
    let rest = split_commas s in
    if code c == b',' then "" ∷ rest else add_first (String.◌∷◌ c String.[]) rest

-- A commit interval of 0 commits at once.
pub record ReaderConfig : Type 0 where
  pub brokers : List String
  pub topic : String
  pub group_id : String
  pub min_bytes : ℕ
  pub max_bytes : ℕ
  pub commit_interval : ℕ

-- How many brokers are to confirm a message.
pub data Acks : Type 0 where
  require_none require_one : Acks

-- Every writer takes the partition that has got the fewest bytes, whatever the key of a message is.
pub record WriterConfig : Type 0 where
  pub addr : List String
  pub topic : String
  pub batch_timeout : ℕ
  -- 0 for the default.
  pub batch_size : ℕ
  pub required_acks : Acks
  pub async : Bool
