-- ===== src/Common/Sort/Slice.antt =====
-- The interface of `sort.Slice`: a permutation of the slice in which nothing stands behind an
-- element that it is less than. Stability is not promised.
use mathlib.Core.Path.{◌≡◌}
use mathlib.Core.Bool.{Bool, true, false}
use mathlib.Core.List.{List, Mem, Perm, Pairwise}

-- What a `less` function has to satisfy.
pub record IsStrictWeak (A : Type 0) (less : A → A → Bool) : Type 0 where
  pub asym : (a b : A) → less a b ≡ true → less b a ≡ false
  pub chain : (a b c : A) → less a b ≡ false → less b c ≡ false → less a c ≡ false

-- The same for the elements of one slice: a `less` on floats has it where none of them is NaN.
pub record IsStrictWeakOn (A : Type 0) (less : A → A → Bool) (xs : List A) : Type 0 where
  pub asym : (a b : A) → Mem a xs → Mem b xs → less a b ≡ true → less b a ≡ false
  pub chain :
      (a b c : A)
      → Mem a xs
      → Mem b xs
      → Mem c xs
      → less a b ≡ false
      → less b c ≡ false
      → less a c ≡ false

pub IsStrictWeak-on :
    {A : Type 0} {less : A → A → Bool} (xs : List A)
    → IsStrictWeak A less
    → IsStrictWeakOn A less xs
IsStrictWeak-on xs w = record { asym = λ a b m n. w.asym a b; chain = λ a b c m n o. w.chain a b c }

abbrev pub IsSorted : {A : Type 0} → (A → A → Bool) → List A → Type 0
IsSorted less = Pairwise (λ a b. less b a ≡ false)

pub record SortSlice : Type 1 where
  pub slice : (A : Type 0) → (A → A → Bool) → List A → List A
  pub slice-perm : (A : Type 0) (less : A → A → Bool) (xs : List A) → Perm (slice A less xs) xs
  pub slice-sorted :
      (A : Type 0) (less : A → A → Bool) (xs : List A)
      → IsStrictWeakOn A less xs
      → IsSorted less (slice A less xs)
