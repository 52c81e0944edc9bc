-- ===== src/Submission/FileCheck.antt =====
-- apps/submission/internal/validator/validator.go: what an uploaded file must be. The sniffing of
-- the media type and SHA-256 are Go's, taken as two functions; hashing a slice never fails.
pub mod Laws
use trade_bench.Common.{
  ℕ, String, Bool, true, false, not, ◌||◌, Option, none, some, List, [], ◌∷◌, if◌then◌else◌, str_eq,
  length,
}
use trade_bench.Common.Int.{ℤ, pos, ltb_ℤ}

unfoldable pub is_among : String → List String → Bool
is_among s [] = false
is_among s (x ∷ xs) = str_eq s x || is_among s xs

abbrev pub allowed_mime : List String
allowed_mime =
    "application/octet-stream" ∷ "application/zip" ∷ "text/x-csrc" ∷ "text/x-c"
    ∷ "text/plain; charset=utf-8" ∷ []

abbrev pub allowed_languages : List String
allowed_languages = "cpp" ∷ "rust" ∷ "go" ∷ "python" ∷ []

pub record ValidationResult : Type 0 where
  pub hash : String
  pub mime : String
  pub size : ℤ

pub data FileError : Type 0 where
  invalid_language : FileError
  file_too_large : ℤ → ℤ → FileError
  invalid_mime : String → FileError
  read_failed : FileError

pub data Checked : Type 0 where
  valid : ValidationResult → Checked
  refused : FileError → Checked

module _ (detect : List ℕ → String) (sha256_hex : List ℕ → String) where
  -- `Validate`.
  unfoldable pub validate : List ℕ → String → ℤ → Checked
  validate content language max_size_bytes =
      let size = pos (length content) in
      let mime = detect content in
      if not (is_among language allowed_languages)
      then refused invalid_language
      else if ltb_ℤ max_size_bytes size
      then refused (file_too_large size max_size_bytes)
      else if not (is_among mime allowed_mime)
      then refused (invalid_mime mime)
      else valid (record { hash = sha256_hex content; mime = mime; size = size })

  -- `ValidateReader`, given what reading the body gave.
  unfoldable pub validate_reader : Option (List ℕ) → String → ℤ → Checked
  unfolding validate
  validate_reader none language max_size_bytes = refused read_failed
  validate_reader (some content) language max_size_bytes = validate content language max_size_bytes
