-- ===== src/Ingester/Book/Place.antt =====
-- `insertLevel` against a reference: walk to the level's place and put the order there.
-- On a slice in order the two agree, whatever `sort.Slice` does with equal elements.
use mathlib.Core.Bool.{false≢true}
use mathlib.Core.Path.{subst}
use mathlib.Core.List.{Pairwise-append, perm_append_singleton, Pairwise-singleton, mem-singleton}
use mathlib.Core.List.Perm
use mathlib.Core.List.Pairwise as PairwiseLaws
use trade_bench.Common.{
  ◌≡◌, sym, ap, ◌∙◌, ◌≢◌, Bool, true, false, none, some, inl, inr, List, [], ◌∷◌, ◌++◌, Mem, Perm,
  Pairwise, arith, if◌then◌else◌, All, All-mem, Bool-cases, Option-cases, String-set,
}
use trade_bench.Common.Int.{eqb_ℤ, eqb_ℤ→≡, eqb_ℤ-refl}
use trade_bench.Common.Sort.{SortSlice, sorted_unique, IsStrictWeak-on}
use trade_bench.Ingester.Book.{Order, BookLevel, new_level, price_less, join_level, insert_level}
use trade_bench.Ingester.Book.Prices.{
  level_less, price_less-asym, price_less_trans, price_less_irrefl, price_less-total,
  level_less-IsStrictWeak,
}

-- Every level stands strictly before all later ones.
abbrev pub IsOrdered : Bool → List BookLevel → Type 0
IsOrdered d [] = Unit
IsOrdered d (l ∷ ls) = All (λ m. level_less d l m ≡ true) ls × IsOrdered d ls

unfoldable pub place : List BookLevel → Order → Bool → List BookLevel
place [] o d = new_level o ∷ []
place (l ∷ ls) o d =
    let rest = place ls o d in
    if eqb_ℤ l.price o.price
    then record l { orders = l.orders ++ o ∷ [] } ∷ ls
    else if price_less d o.price l.price
    then new_level o ∷ l ∷ ls
    else l ∷ rest

BookLevel-set : IsSet BookLevel
BookLevel-set = hlevel String-set

Bool-set : IsSet Bool
Bool-set = hlevel

ordered_pairs :
    (d : Bool) (ls : List BookLevel) → IsOrdered d ls → Pairwise (λ a b. level_less d a b ≡ true) ls
ordered_pairs d [] h = Pairwise.nil
ordered_pairs d (l ∷ ls) h =
    Pairwise.cons (λ m k. All-mem _ (λ a. Bool-set _ _) ls h.0 k) (ordered_pairs d ls h.1)

-- No level has the price of the order.
abbrev IsNew : Order → List BookLevel → Type 0
IsNew o = All (λ l. eqb_ℤ l.price o.price ≡ false)

module _ (d : Bool) (o : Order) where
  joined_behind :
      (l : BookLevel) (ls joined : List BookLevel)
      → All (λ m. level_less d l m ≡ true) ls
      → join_level ls o ≡ some joined
      → price_less d l.price o.price ≡ true
  unfolding join_level
  joined_behind l [] joined h e = cc
  joined_behind l (m ∷ ls) joined h e = elim (Bool-cases (eqb_ℤ m.price o.price)) [
    | inl t ↦ rw (← eqb_ℤ→≡ m.price o.price t) h.0
    | inr f ↦ elim (Option-cases (join_level ls o)) [
      | inl n ↦ ground arith
      | inr (rest, r) ↦ joined_behind l ls rest h.1 r
    ]
  ]

  -- The level that an order joins stands where the reference finds it.
  joins_place :
      (ls joined : List BookLevel)
      → IsOrdered d ls
      → join_level ls o ≡ some joined
      → joined ≡ place ls o d
  unfolding join_level place
  joins_place [] joined h e = cc
  joins_place (l ∷ ls) joined h e = elim (Option-cases (join_level ls o)) [
    | inl n ↦ ground arith
    | inr (rest, r) ↦ ground (
      arith,
      joins_place ls rest h.1 r,
      price_less-asym d l.price o.price (joined_behind l ls rest h.0 r),
    )
  ]

  IsNew-of_none : (ls : List BookLevel) → join_level ls o ≡ none → IsNew o ls
  unfolding join_level
  IsNew-of_none [] e = tt
  IsNew-of_none (l ∷ ls) e = ground (arith, IsNew-of_none ls)

  place-perm : (ls : List BookLevel) → IsNew o ls → Perm (place ls o d) (new_level o ∷ ls)
  unfolding place
  place-perm [] h = Perm.refl _
  place-perm (l ∷ ls) h = elim (Bool-cases (price_less d o.price l.price)) [
    | inl e ↦ rw (h.0, e) (Perm.refl _)
    | inr e ↦
        rw (h.0, e) (Perm.trans (Perm.cons l (place-perm ls h.1)) (Perm.swap (new_level o) l ls))
  ]

  new_behind :
      (l : BookLevel) (ls : List BookLevel)
      → IsOrdered d (l ∷ ls)
      → IsNew o ls
      → price_less d o.price l.price ≡ true
      → All (λ m. price_less d o.price m.price ≡ true) ls
  new_behind l [] h k e = tt
  new_behind l (m ∷ ls) h k e =
      let b = price_less_trans d o.price l.price m.price e h.0.0 in (b, new_behind m ls h.1 k.1 b)

  All-place :
      (P : BookLevel → Type 0) (ls : List BookLevel)
      → P (new_level o)
      → All P ls
      → IsNew o ls
      → All P (place ls o d)
  unfolding place
  All-place P [] n h k = (n, tt)
  All-place P (l ∷ ls) n h k = elim (Bool-cases (price_less d o.price l.price)) [
    | inl e ↦ rw (k.0, e) (n, h)
    | inr e ↦ rw (k.0, e) (h.0, All-place P ls n h.1 k.1)
  ]

  place_new-IsOrdered :
      (ls : List BookLevel) → IsOrdered d ls → IsNew o ls → IsOrdered d (place ls o d)
  unfolding place
  place_new-IsOrdered [] h k = (tt, tt)
  place_new-IsOrdered (l ∷ ls) h k = elim (Bool-cases (price_less d o.price l.price)) [
    | inl e ↦ rw (k.0, e) ((e, new_behind l ls h k.1 e), h)
    | inr e ↦
        rw (k.0, e)
          (
            All-place _ ls (price_less-total d l.price o.price k.0 e) h.0 k.1,
            place_new-IsOrdered ls h.1 k.1,
          )
  ]

  abbrev Apart : BookLevel → BookLevel → Type 0
  Apart a b = a.price ≢ b.price

  apart : (ls : List BookLevel) → IsOrdered d ls → Pairwise Apart ls
  apart ls h = PairwiseLaws.imp distinct (ordered_pairs d ls h)
    where
      distinct : (a b : BookLevel) → level_less d a b ≡ true → a.price ≢ b.price
      distinct a b e p =
          let t : price_less d b.price b.price ≡ true =
            subst (λ q. price_less d q b.price ≡ true) p e in
          false≢true (sym (price_less_irrefl d b.price) ∙ t)

  Apart-prop : (a b : BookLevel) → IsProp (Apart a b)
  Apart-prop a b = hlevel

  Apart-new :
      (ls : List BookLevel) → IsOrdered d ls → IsNew o ls → Pairwise Apart (ls ++ new_level o ∷ [])
  Apart-new ls h k =
      (Pairwise-append Apart-prop).1 (apart ls h, Pairwise-singleton _ (new_level o), behind)
    where
      behind : (a : BookLevel) → Mem a ls → (b : BookLevel) → Mem b (new_level o ∷ []) → Apart a b
      behind a m b n p =
          let same : eqb_ℤ a.price o.price ≡ true =
            subst (λ q. eqb_ℤ a.price q ≡ true)
              (p ∙ ap (λ l. l.price) ((mem-singleton BookLevel-set).0 n)) (eqb_ℤ-refl a.price) in
          false≢true (sym (All-mem _ (λ l. Bool-set _ _) ls k m) ∙ same)

  -- With distinct prices, nothing behind being less leaves only strictly less.
  strictly_sorted :
      (rs : List BookLevel)
      → Pairwise Apart rs
      → Pairwise (λ a b. level_less d b a ≡ false) rs
      → Pairwise (λ a b. level_less d a b ≡ true) rs
  strictly_sorted rs p q = PairwiseLaws.imp₂ strict p q
    where
      strict :
          (a b : BookLevel) → a.price ≢ b.price → level_less d b a ≡ false → level_less d a b ≡ true
      strict a b n e = ground (arith, price_less-total d a.price b.price, eqb_ℤ→≡ a.price b.price)

  module _ (s : SortSlice) where
    sorts_place :
        (ls : List BookLevel)
        → IsOrdered d ls
        → IsNew o ls
        → s.slice BookLevel (level_less d) (ls ++ new_level o ∷ []) ≡ place ls o d
    sorts_place ls h k =
        sorted_unique BookLevel-set asym _ _
          (strictly_sorted _
            (Perm.pairwise Apart-prop (λ a b p e. p (sym e)) (Perm.symm (s.slice-perm _ _ _))
              (Apart-new ls h k))
            (s.slice-sorted _ _ _ (IsStrictWeak-on _ (level_less-IsStrictWeak d))))
          (ordered_pairs d _ (place_new-IsOrdered ls h k))
          (Perm.trans (s.slice-perm _ _ _)
            (Perm.trans (perm_append_singleton (new_level o) ls) (Perm.symm (place-perm ls k))))
      where
        asym : (a b : BookLevel) → level_less d a b ≡ true → ¬ (level_less d b a ≡ true)
        asym a b e f = false≢true (sym (price_less-asym d a.price b.price e) ∙ f)

    -- On levels in order, `insertLevel` is the reference insertion.
    pub insert_level-place :
        (ls : List BookLevel) → IsOrdered d ls → insert_level s ls o d ≡ place ls o d
    unfolding insert_level
    insert_level-place ls h = elim (Option-cases (join_level ls o)) [
      | inl n ↦ rw (n, insert_level) (sorts_place ls h (IsNew-of_none ls n))
      | inr (joined, e) ↦ rw (e, insert_level) (joins_place ls joined h e)
    ]
