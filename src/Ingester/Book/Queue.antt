-- ===== src/Ingester/Book/Queue.antt =====
-- A side of orderbook.go as a queue of orders for each price: what inserting and removing do to it.
use mathlib.Core.List.{append_assoc}
use mathlib.Core.Path.{subst}
use trade_bench.Common.{
  ◌≡◌, refl, sym, ap, ◌≢◌, ◌⊎◌, Bool, true, none, some, inl, inr, List, [], ◌∷◌, ◌++◌, String,
  arith, if◌then◌else◌, All, All-append, All-imp, Bool-cases, Option-cases, str_eq, str_iff,
}
use trade_bench.Common.Int.{ℤ, eqb_ℤ, eqb_ℤ→≡}
use trade_bench.Common.Sort.{SortSlice}
use trade_bench.Ingester.Book.{
  Order, BookLevel, new_level, price_less, insert_level, remove_first, remove_from_levels,
}
use trade_bench.Ingester.Book.Prices.{price_less_trans}
use trade_bench.Ingester.Book.Place.{IsOrdered, place, insert_level-place}
use trade_bench.Ingester.Book.Best.{resting}

-- The queue at a price, oldest first; empty where the side has no such level.
abbrev pub orders_at : ℤ → List BookLevel → List Order
orders_at p [] = []
orders_at p (l ∷ ls) = if eqb_ℤ l.price p then l.orders else orders_at p ls

none_at :
    (p : ℤ) (ls : List BookLevel) (d : Bool)
    → All (λ m. price_less d p m.price ≡ true) ls
    → orders_at p ls ≡ []
unfolding price_less
none_at p [] d h = refl
none_at p (m ∷ ls) d h = ground (arith, none_at p ls d)

new_at :
    (p : ℤ) (l : BookLevel) (ls : List BookLevel) (o : Order) (d : Bool)
    → IsOrdered d (l ∷ ls)
    → price_less d o.price l.price ≡ true
    → orders_at p (new_level o ∷ l ∷ ls)
      ≡ (if eqb_ℤ o.price p then orders_at p (l ∷ ls) ++ o ∷ [] else orders_at p (l ∷ ls))
new_at p l ls o d h e = elim (Bool-cases (eqb_ℤ o.price p)) [
  | inl t ↦
      let q : o.price ≡ p = eqb_ℤ→≡ o.price p t in
      let behind : All (λ m. price_less d p m.price ≡ true) (l ∷ ls) =
        subst (λ r. All (λ m. price_less d r m.price ≡ true) (l ∷ ls)) q
          (e, All-imp ls (λ m k. price_less_trans d o.price l.price m.price e k) h.0) in
      rw (t, none_at p (l ∷ ls) d behind)
  | inr f ↦ rw f
]

orders_at-place :
    (p : ℤ) (ls : List BookLevel) (o : Order) (d : Bool)
    → IsOrdered d ls
    → orders_at p (place ls o d)
      ≡ (if eqb_ℤ o.price p then orders_at p ls ++ o ∷ [] else orders_at p ls)
unfolding place
orders_at-place p [] o d h = ground arith
orders_at-place p (l ∷ ls) o d h = elim (Bool-cases (eqb_ℤ l.price o.price)) [
  | inl t ↦ rw t (rw (← eqb_ℤ→≡ l.price o.price t) (ground arith))
  | inr n ↦ elim (Bool-cases (price_less d o.price l.price)) [
    | inl e ↦ rw (n, e) (new_at p l ls o d h e)
    | inr e ↦ rw (n, e) (ground (arith, orders_at-place p ls o d h.1))
  ]
]

-- On a side in order, an inserted order goes to the back of the queue of its price, and every
-- other queue stays as it was.
pub orders_at-insert_level :
    (s : SortSlice) (p : ℤ) (ls : List BookLevel) (o : Order) (d : Bool)
    → IsOrdered d ls
    → orders_at p (insert_level s ls o d)
      ≡ (if eqb_ℤ o.price p then orders_at p ls ++ o ∷ [] else orders_at p ls)
orders_at-insert_level s p ls o d h =
    rw (insert_level-place d o s ls h) (orders_at-place p ls o d h)

-- `after` is `before` without the first order of that id.
abbrev pub IsRemoval : String → List Order → List Order → Type 0
IsRemoval id before after =
    (pre : List Order) × (o : Order) × (post : List Order) × (before ≡ pre ++ o ∷ post)
    × (after ≡ pre ++ post)
    × (o.order_id ≡ id)
    × All (λ x. x.order_id ≢ id) pre

remove_first-IsRemoval :
    (os rest : List Order) (id : String) → remove_first os id ≡ some rest → IsRemoval id os rest
unfolding remove_first
remove_first-IsRemoval [] rest id e = cc
remove_first-IsRemoval (o ∷ os) rest id e = elim (Bool-cases (str_eq o.order_id id)) [
  | inl t ↦ ([], o, os, refl, ground arith, (str_iff o.order_id id).0 t, tt)
  | inr f ↦ elim (Option-cases (remove_first os id)) [
    | inl n ↦ absurd (ground arith)
    | inr (r, q) ↦
        let (pre, x, post, b, a, same, none_before) = remove_first-IsRemoval os r id q in
        (
          o ∷ pre,
          x,
          post,
          ap (◌∷◌ o) b,
          ground arith,
          same,
          (λ k. ground (arith, str_iff o.order_id id), none_before),
        )
  ]
]

remove_first-none :
    (os : List Order) (id : String) → remove_first os id ≡ none → All (λ o. o.order_id ≢ id) os
unfolding remove_first
remove_first-none [] id e = tt
remove_first-none (o ∷ os) id e = elim (Option-cases (remove_first os id)) [
  | inl n ↦ (λ k. ground (arith, str_iff o.order_id id), remove_first-none os id n)
  | inr (r, q) ↦ absurd (ground arith)
]

IsRemoval-tail :
    (id : String) (before after rest : List Order)
    → IsRemoval id before after
    → IsRemoval id (before ++ rest) (after ++ rest)
IsRemoval-tail id before after rest (pre, o, post, b, a, e, k) = (
  pre,
  o,
  post ++ rest,
  rw b (append_assoc pre (o ∷ post) rest),
  rw a (append_assoc pre post rest),
  e,
  k,
)

IsRemoval-behind :
    (id : String) (os before after : List Order)
    → All (λ o. o.order_id ≢ id) os
    → IsRemoval id before after
    → IsRemoval id (os ++ before) (os ++ after)
IsRemoval-behind id os before after h (pre, o, post, b, a, e, k) = (
  os ++ pre,
  o,
  post,
  rw b (sym (append_assoc os pre (o ∷ post))),
  rw a (sym (append_assoc os pre post)),
  e,
  All-append _ os pre h k,
)

-- `RemoveOrder` on one side: either no resting order has the id and nothing changes, or exactly
-- the first resting order with the id is gone and all others stand as before.
pub remove_from_levels-resting :
    (ls : List BookLevel) (id : String)
    → ((remove_from_levels ls id ≡ ls) × All (λ o. o.order_id ≢ id) (resting ls))
      ⊎ IsRemoval id (resting ls) (resting (remove_from_levels ls id))
unfolding remove_from_levels
remove_from_levels-resting [] id = inl (refl, tt)
remove_from_levels-resting (l ∷ ls) id = elim (Option-cases (remove_first l.orders id)) [
  | inl n ↦ elim (remove_from_levels-resting ls id) [
    | inl unchanged ↦
        rw (n, remove_from_levels)
          (inl (
            ap (◌∷◌ l) unchanged.0,
            All-append _ l.orders (resting ls) (remove_first-none l.orders id n) unchanged.1,
          ))
    | inr removed ↦
        rw (n, remove_from_levels)
          (inr (IsRemoval-behind id l.orders _ _ (remove_first-none l.orders id n) removed))
  ]
  | inr ([], q) ↦
      rw (q, remove_from_levels)
        (inr (IsRemoval-tail id l.orders [] (resting ls) (remove_first-IsRemoval l.orders [] id q)))
  | inr (x ∷ xs, q) ↦
      rw (q, remove_from_levels)
        (inr (
          IsRemoval-tail id l.orders (x ∷ xs) (resting ls)
            (remove_first-IsRemoval l.orders (x ∷ xs) id q)))
]
