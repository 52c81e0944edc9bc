-- ===== src/Submission/FileCheck/Laws.antt =====
-- Which files validator.go accepts.
use trade_bench.Common.{ℕ, String, ◌≡◌, ◌↔◌, true, List, arith, length}
use trade_bench.Common.Int.{ℤ, pos, ◌≤ℤ◌}
use trade_bench.Submission.FileCheck.{
  is_among, allowed_mime, allowed_languages, ValidationResult, valid, validate,
}

module _ (detect : List ℕ → String) (sha256_hex : List ℕ → String) where
  -- A file is accepted exactly if its language and sniffed media type are among the allowed ones
  -- and it is no larger than the limit; the result then has its hash, type and size.
  pub validate_iff :
      (content : List ℕ) (language : String) (max : ℤ) (r : ValidationResult)
      → (validate detect sha256_hex content language max ≡ valid r) ↔ (
          (is_among language allowed_languages ≡ true)
          × (pos (length content) ≤ℤ max)
          × (is_among (detect content) allowed_mime ≡ true)
          × (r ≡ record {
            hash = sha256_hex content;
            mime = detect content;
            size = pos (length content);
          }))
  unfolding validate
  validate_iff content language max r =
      (λ h. (ground arith, ground arith, ground arith, ground arith), λ (l, m, d, e). ground arith)
