-- ===== src/Common/Sort/Insertion.antt =====
-- Insertion sort, the routine that `sort.Slice` uses on short slices, meets the interface.
use mathlib.Core.Path.{◌≡◌, sym, subst}
use mathlib.Core.Bool.{Bool, true, false}
use mathlib.Core.Logic.{inl, inr}
use mathlib.Core.Logic.Or
use mathlib.Core.List.{List, [], ◌∷◌, Mem, Perm, Pairwise, mem-cons, mem-cons_self, not-mem-nil}
use mathlib.Core.List.Perm
use trade_bench.Common.Tests.{if◌then◌else◌, Bool-cases}
use trade_bench.Common.Sort.Slice.{IsStrictWeakOn, IsSorted, SortSlice}

Bool-set : IsSet Bool
Bool-set = hlevel

module _ {A : Type 0} (less : A → A → Bool) where
  unfoldable pub insert : A → List A → List A
  insert x [] = x ∷ []
  insert x (y ∷ ys) = let rest = insert x ys in if less x y then x ∷ y ∷ ys else y ∷ rest

  unfoldable pub insertion_sort : List A → List A
  unfolding insert
  insertion_sort [] = []
  insertion_sort (x ∷ xs) = insert x (insertion_sort xs)

  insert-perm : (x : A) (ys : List A) → Perm (insert x ys) (x ∷ ys)
  unfolding insert
  insert-perm x [] = Perm.refl (x ∷ [])
  insert-perm x (y ∷ ys) = elim (Bool-cases (less x y)) [
    | inl e ↦ rw e (Perm.refl (x ∷ y ∷ ys))
    | inr e ↦ rw e (Perm.trans (Perm.cons y (insert-perm x ys)) (Perm.swap x y ys))
  ]

  pub insertion_sort-perm : (xs : List A) → Perm (insertion_sort xs) xs
  unfolding insertion_sort
  insertion_sort-perm [] = Perm.nil
  insertion_sort-perm (x ∷ xs) =
      Perm.trans (insert-perm x (insertion_sort xs)) (Perm.cons x (insertion_sort-perm xs))

  -- On fewer elements.
  IsStrictWeakOn-sub :
      (xs ys : List A)
      → ((a : A) → Mem a ys → Mem a xs)
      → IsStrictWeakOn A less xs
      → IsStrictWeakOn A less ys
  IsStrictWeakOn-sub xs ys k w = record {
    asym = λ a b m n. w.asym a b (k a m) (k b n);
    chain = λ a b c m n o. w.chain a b c (k a m) (k b n) (k c o);
  }

  before_rest :
      (x y z : A) (ys : List A)
      → IsStrictWeakOn A less (x ∷ y ∷ ys)
      → less x y ≡ true
      → ((a : A) → Mem a ys → less a y ≡ false)
      → Mem z (y ∷ ys)
      → less z x ≡ false
  before_rest x y z ys w e h m =
      let in_x : Mem x (x ∷ y ∷ ys) = mem-cons_self in
      let in_y : Mem y (x ∷ y ∷ ys) = mem-cons.1 (Or.inr mem-cons_self) in
      let back = w.asym x y in_x in_y e in
      Or.elim (Bool-set _ _) (mem-cons.0 m) (λ p. subst (λ t. less t x ≡ false) (sym p) back)
        (λ k. w.chain z y x (mem-cons.1 (Or.inr m)) in_y in_x (h z k) back)

  insert-IsSorted :
      (x : A) {ys : List A}
      → IsStrictWeakOn A less (x ∷ ys)
      → IsSorted less ys
      → IsSorted less (insert x ys)
  unfolding insert
  insert-IsSorted x w Pairwise.nil = Pairwise.cons (λ a m. absurd (not-mem-nil m)) Pairwise.nil
  insert-IsSorted x w (Pairwise.cons {a = y} {l = ys} h p) = elim (Bool-cases (less x y)) [
    | inl e ↦ rw e (Pairwise.cons (λ z m. before_rest x y z ys w e h m) (Pairwise.cons h p))
    | inr e ↦ rw e (
        Pairwise.cons
          (λ z m.
            Or.elim (Bool-set _ _) (mem-cons.0 ((Perm.mem_iff (insert-perm x ys)).0 m))
              (λ q. subst (λ t. less t y ≡ false) (sym q) e) (h z))
          (insert-IsSorted x (IsStrictWeakOn-sub (x ∷ y ∷ ys) (x ∷ ys) (keeps x y ys) w) p))
  ]
    where
      keeps : (x y : A) (ys : List A) (a : A) → Mem a (x ∷ ys) → Mem a (x ∷ y ∷ ys)
      keeps x y ys a m =
          Or.elim (hlevel) (mem-cons.0 m) (λ e. mem-cons.1 (Or.inl e))
            (λ k. mem-cons.1 (Or.inr (mem-cons.1 (Or.inr k))))

  pub insertion_sort-IsSorted :
      (xs : List A) → IsStrictWeakOn A less xs → IsSorted less (insertion_sort xs)
  unfolding insertion_sort
  insertion_sort-IsSorted [] w = Pairwise.nil
  insertion_sort-IsSorted (x ∷ xs) w =
      insert-IsSorted x
        (IsStrictWeakOn-sub (x ∷ xs) (x ∷ insertion_sort xs)
          (λ a. (Perm.mem_iff (Perm.cons x (insertion_sort-perm xs))).0) w)
        (insertion_sort-IsSorted xs
          (IsStrictWeakOn-sub (x ∷ xs) xs (λ a m. mem-cons.1 (Or.inr m)) w))

abbrev pub insertion_slice : SortSlice
insertion_slice = record {
  slice = λ A less xs. insertion_sort less xs;
  slice-perm = λ A less xs. insertion_sort-perm less xs;
  slice-sorted = λ A less xs w. insertion_sort-IsSorted less xs w;
}
