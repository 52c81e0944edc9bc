-- ===== src/Leaderboard/Feed/Numbers.antt =====
-- The hub's messages are numbered one after the other.
use trade_bench.Common.{
  ℕ, zero, suc, ◌+◌, ◌≡◌, refl, ◌∙◌, ap, List, [], ◌∷◌, ◌++◌, length, drop, arith,
}
use trade_bench.Leaderboard.Feed.{numbered}

-- The list counts up from a number.
abbrev pub Counts : ℕ → List ℕ → Type 0
Counts d [] = Unit
Counts d (x ∷ xs) = (x ≡ d) × Counts (suc d) xs

pub Counts-append :
    (d n : ℕ) (xs : List ℕ) → Counts d xs → n ≡ d + length xs → Counts d (xs ++ n ∷ [])
Counts-append d n [] c e = (omega arith, tt)
Counts-append d n (x ∷ xs) c e = (c.0, Counts-append (suc d) n xs c.1 (omega arith))

module _ {A : Type 0} where
  -- In a longer list a number one higher names the same.
  numbered-suc :
      (m : A) (us : List A) (b : ℕ) (ns : List ℕ)
      → Counts (suc b) ns
      → (ks : List ℕ) × Counts b ks
        × (length ks ≡ length ns)
        × (numbered (m ∷ us) ns ≡ numbered us ks)
  numbered-suc m us b [] c = ([], tt, refl, refl)
  numbered-suc m us b (n ∷ ns) c =
      let (ks, k, l, e) = numbered-suc m us (suc b) ns c.1 in
      (b ∷ ks, (refl, k), ap suc l, rw (c.0, e) refl)

  -- All numbers from `b` on name the list from `b` on.
  pub numbered-Counts :
      (us : List A) (b : ℕ) (ns : List ℕ)
      → Counts b ns
      → b + length ns ≡ length us
      → numbered us ns ≡ drop b us
  numbered-Counts [] zero [] c e = refl
  numbered-Counts [] (suc b) [] c e = absurd (omega arith)
  numbered-Counts [] b (n ∷ ns) c e = absurd (omega arith)
  numbered-Counts (m ∷ us) zero [] c e = absurd (omega arith)
  numbered-Counts (m ∷ us) zero (n ∷ ns) c e =
      let (ks, k, l, p) = numbered-suc m us zero ns c.1 in
      rw (c.0, p) (ap (λ t. m ∷ t) (numbered-Counts us zero ks k (omega arith)))
  numbered-Counts (m ∷ us) (suc b) ns c e =
      let (ks, k, l, p) = numbered-suc m us b ns c in p ∙ numbered-Counts us b ks k (omega arith)
