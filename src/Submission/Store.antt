-- ===== src/Submission/Store.antt =====
-- apps/submission/internal/store/minio.go: the bucket, and the objects of the submissions in it.
-- minio-go is the parameter ObjectStore.
pub mod Keys
use trade_bench.Common.{
  ℕ, String, Bool, true, false, not, Option, none, some, List, [], ◌∷◌, if◌then◌else◌, length,
}
use trade_bench.Common.Int.{ℤ, pos}
use trade_bench.Common.ObjectStore.{ObjectStore}
use trade_bench.Submission.Upload.{object_key}

pub data StoreInit : Type 0 where
  init_failed check_failed create_failed ready : StoreInit

module _ (m : ObjectStore) where
  open m use {S}

  -- `NewMinIO`; `client_ok`: whether `minio.New` takes the endpoint and the credentials.
  unfoldable pub new_minio : Bool → S → String → StoreInit × S
  new_minio client_ok s bucket =
      if not client_ok then (init_failed, s) else elim (m.bucket_exists s bucket) [
        | none ↦ (check_failed, s)
        | some true ↦ (ready, s)
        | some false ↦
            let (made, s') = m.make_bucket s bucket in (if made then ready else create_failed, s')
      ]

  -- `Upload`: the object's key, unless the store refuses it.
  unfoldable pub upload : S → String → String → String → List ℕ → ℤ → Option String × S
  upload s bucket id filename content size =
      let key = object_key id filename in
      let (put, s') = m.put_object s bucket key content size in (if put then some key else none, s')

-- An upload of another submission: its id, its file and the content of that.
pub record Sent : Type 0 where
  pub id : String
  pub filename : String
  pub content : List ℕ

-- Uploads one after the other, whether the store takes them or not.
unfoldable pub upload_all : (m : ObjectStore) → m.S → String → List Sent → m.S
unfolding upload
upload_all m s bucket [] = s
upload_all m s bucket (u ∷ us) =
    upload_all m (upload m s bucket u.id u.filename u.content (pos (length u.content))).1 bucket us
