-- ===== src/Ingester/Validator/Arrival.antt =====
-- `Validate` in validator.go does not depend on the order in which events arrive: it sorts them.
use mathlib.Core.Bool.{false≢true}
use mathlib.Core.List.Perm
use mathlib.Core.List.Pairwise as PairwiseLaws
use trade_bench.Common.{◌≡◌, sym, ◌∙◌, ◌≢◌, List, arith, true, false, Perm, Pairwise, String-set}
use trade_bench.Common.Int.{eqb_ℤ→≡}
use trade_bench.Common.Dict.{Dict}
use trade_bench.Common.Float.{Float}
use trade_bench.Common.Sort.{SortSlice, IsStrictWeak, IsStrictWeak-on, sorted_unique}
use trade_bench.Ingester.Book.{OrderBook}
use trade_bench.Ingester.Validator.{FillEvent, sent_before, tally, validate}

FillEvent-set : IsSet FillEvent
FillEvent-set = hlevel String-set

abbrev SentBefore : FillEvent → FillEvent → Type 0
SentBefore a b = sent_before a b ≡ true

abbrev pub SentApart : FillEvent → FillEvent → Type 0
SentApart a b = a.sent_at_ns ≢ b.sent_at_ns

pub SentApart-prop : (a b : FillEvent) → IsProp (SentApart a b)
SentApart-prop a b = hlevel

sent_before-IsStrictWeak : IsStrictWeak FillEvent sent_before
unfolding sent_before
sent_before-IsStrictWeak = record {
  asym = λ a b h. ground arith;
  chain = λ a b c h k. ground arith;
}

SentBefore-asym : (a b : FillEvent) → SentBefore a b → ¬ SentBefore b a
SentBefore-asym a b h k = false≢true (sym (sent_before-IsStrictWeak.asym a b h) ∙ k)

strictly_before : (a b : FillEvent) → SentApart a b → sent_before b a ≡ false → SentBefore a b
unfolding sent_before
strictly_before a b n h = ground (arith, eqb_ℤ→≡ a.sent_at_ns b.sent_at_ns)

module _ (s : SortSlice) where
  slice_strict :
      (es : List FillEvent)
      → Pairwise SentApart es
      → Pairwise SentBefore (s.slice FillEvent sent_before es)
  slice_strict es h =
      PairwiseLaws.imp₂ strictly_before
        (Perm.pairwise SentApart-prop (λ a b n e. n (sym e))
          (Perm.symm (s.slice-perm FillEvent sent_before es)) h)
        (s.slice-sorted FillEvent sent_before es (IsStrictWeak-on es sent_before-IsStrictWeak))

  slice_same :
      (es fs : List FillEvent)
      → Perm es fs
      → Pairwise SentApart es
      → s.slice FillEvent sent_before es ≡ s.slice FillEvent sent_before fs
  slice_same es fs p h =
      sorted_unique FillEvent-set SentBefore-asym _ _ (slice_strict es h)
        (slice_strict fs (Perm.pairwise SentApart-prop (λ a b n e. n (sym e)) p h))
        (Perm.trans (s.slice-perm FillEvent sent_before es)
          (Perm.trans p (Perm.symm (s.slice-perm FillEvent sent_before fs))))

  -- Where no two events were sent at the same nanosecond, two arrivals of the same events in
  -- different orders get the same ratio.
  pub validate-perm :
      (f : Float) (books : Dict OrderBook) (es fs : List FillEvent)
      → Perm es fs
      → Pairwise SentApart es
      → validate f s books es ≡ validate f s books fs
  unfolding validate tally
  validate-perm f books es fs p h = rw (slice_same es fs p h)
