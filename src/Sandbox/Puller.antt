-- ===== src/Sandbox/Puller.antt =====
-- apps/sandbox/internal/puller/minio.go over the object store: where the answers to `Pull` come
-- from, and what is in the file that it leaves. `Pull` itself is in Consumer.
use trade_bench.Common.{
  String, Bool, true, false, not, ◌&&◌, Option, none, some, List, ℕ, if◌then◌else◌,
}
use trade_bench.Common.ObjectStore.{ObjectStore}
use trade_bench.Sandbox.Consumer.{Files}

pub data PullerInit : Type 0 where
  client_failed tmp_failed : PullerInit
  -- The temporary root.
  puller : String → PullerInit

-- `NewMinioPuller`; `tmp`: the directory that `os.MkdirTemp` makes.
unfoldable pub new_minio_puller : Bool → Option String → PullerInit
new_minio_puller client_ok none = if not client_ok then client_failed else tmp_failed
new_minio_puller client_ok (some dir) = if not client_ok then client_failed else puller dir

-- What the file system answers, and the local path; `reads`: whether the runner can read the file.
pub record Disk : Type 0 where
  pub mkdirs : Bool
  pub creates : Bool
  pub writes : Bool
  pub chmods : Bool
  pub reads : Bool
  pub local_path : String

abbrev pub is_there : {A : Type 0} → Option A → Bool
is_there none = false
is_there (some a) = true

module _ (m : ObjectStore) where
  open m use {S}

  -- `GetObject` only checks its arguments; a missing object fails the copy.
  unfoldable pub files_of : S → String → String → Bool → Disk → Files
  files_of s bucket key valid d = record {
    gets = valid;
    mkdirs = d.mkdirs;
    creates = d.creates;
    downloads = is_there (m.get_object s bucket key) && d.writes;
    chmods = d.chmods;
    local_path = d.local_path;
  }

  -- What `os.ReadFile` gives of the local file after a pull that succeeded.
  unfoldable pub local_file : S → String → String → Disk → Option (List ℕ)
  local_file s bucket key d = if d.reads then m.get_object s bucket key else none
