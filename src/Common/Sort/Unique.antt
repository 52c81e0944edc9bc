-- ===== src/Common/Sort/Unique.antt =====
-- Two slices with the same elements, both strictly in order, are equal.
use mathlib.Core.Path.{◌≡◌, refl, sym, ap₂, subst}
use mathlib.Core.Logic.Or
use mathlib.Core.List.{List, [], ◌∷◌, Mem, Perm, Pairwise, mem-cons, mem-cons_self, perm-cons}
use mathlib.Core.List.Perm

module _ {A : Type 0} {R : A → A → Type 0} where
  head_of_perm :
      (A-set : IsSet A) (asym : (a b : A) → R a b → ¬ R b a) {x y : A} {xs ys : List A}
      → ((a : A) → Mem a xs → R x a)
      → ((a : A) → Mem a ys → R y a)
      → Perm (x ∷ xs) (y ∷ ys)
      → x ≡ y
  head_of_perm A-set asym {x} {y} h k p =
      Or.elim (A-set x y) (mem-cons.0 ((Perm.mem_iff p).0 mem-cons_self)) (λ e. e)
        λ m.
          Or.elim (A-set x y) (mem-cons.0 ((Perm.mem_iff p).1 mem-cons_self)) (λ e. sym e)
            λ n. absurd (asym x y (h y n) (k x m))

  pub sorted_unique :
      (A-set : IsSet A) (asym : (a b : A) → R a b → ¬ R b a) (xs ys : List A)
      → Pairwise R xs
      → Pairwise R ys
      → Perm xs ys
      → xs ≡ ys
  sorted_unique A-set asym [] [] Pairwise.nil Pairwise.nil p = refl
  sorted_unique A-set asym [] (y ∷ ys) Pairwise.nil q p = sym (Perm.eq-nil (Perm.symm p))
  sorted_unique A-set asym (x ∷ xs) [] q Pairwise.nil p = Perm.eq-nil p
  sorted_unique A-set asym (x ∷ xs) (y ∷ ys) (Pairwise.cons h f) (Pairwise.cons k g) p =
      let e : x ≡ y = head_of_perm A-set asym h k p in
      ap₂ ◌∷◌ e (
        sorted_unique A-set asym xs ys f g
          ((perm-cons y).0 (subst (λ t. Perm (t ∷ xs) (y ∷ ys)) e p)))
