-- ===== src/Submission/Store/Keys.antt =====
-- Submissions do not overwrite each other's objects.
use Prim.Native.String.{[] as empty, ◌∷◌ as cons, ◌++◌ as append, count}
use text.Mathlib.TextLemmas.{
  cons-append, length-cons, length-nil, head-eq_of_cons-eq, tail-eq_of_cons-eq, append_cancel_left,
}
use mathlib.Core.Path.{ap₂}
use trade_bench.Common.{String, ◌≡◌, ◌≢◌, refl, sym, ◌∙◌, List, [], ◌∷◌, length, All, arith}
use trade_bench.Common.Int.{pos}
use trade_bench.Common.ObjectStore.{ObjectStore, StoreLaws}
use trade_bench.Submission.Upload.{object_key}
use trade_bench.Submission.Store.{upload, Sent, upload_all}

-- Of two equal texts, the parts of equal length in front are equal.
front-append : (s t x y : String) → count s ≡ count t → append s x ≡ append t y → s ≡ t
front-append empty empty x y n e = refl
front-append empty (cons b t) x y n e = absurd (omega (arith, n, length-nil, length-cons b t))
front-append (cons a s) empty x y n e = absurd (omega (arith, n, length-nil, length-cons a s))
front-append (cons a s) (cons b t) x y n e =
    let q = sym (cons-append a s x) ∙ e ∙ cons-append b t y in
    ap₂ cons (head-eq_of_cons-eq q) (
      front-append s t x y (omega (arith, n, length-cons a s, length-cons b t))
        (tail-eq_of_cons-eq q))

-- Ids of one length give keys of their own, whatever the files are called.
pub object_key_own :
    (id other filename name : String)
    → count other ≡ count id
    → other ≢ id
    → object_key other name ≢ object_key id filename
unfolding object_key
object_key_own id other filename name n d e =
    d (front-append other id _ _ n (append_cancel_left "submissions/" _ _ e))

-- Another submission than `id`, with an id of the same length.
abbrev pub IsOther : String → Sent → Type 0
IsOther id u = (count u.id ≡ count id) × (u.id ≢ id)

-- The object of a submission stays as it is, whatever other submissions are uploaded.
pub get-upload_all :
    (m : ObjectStore) (s : m.S) (bucket id filename : String) (us : List Sent)
    → StoreLaws m
    → All (IsOther id) us
    → m.get_object (upload_all m s bucket us) bucket (object_key id filename)
      ≡ m.get_object s bucket (object_key id filename)
unfolding upload_all upload
get-upload_all m s bucket id filename [] laws a = refl
get-upload_all m s bucket id filename (u ∷ us) laws a =
    get-upload_all m (upload m s bucket u.id u.filename u.content (pos (length u.content))).1 bucket
      id filename us laws a.1
    ∙ laws.get-put_other s bucket (object_key u.id u.filename) (object_key id filename) u.content
        (pos (length u.content)) (object_key_own id u.id filename u.filename a.0.0 a.0.1)
