-- ===== src/Bots/Consumer/Starts.antt =====
-- How often the run of a message is started, and which messages are heard of.
use mathlib.Core.Bool.{false≢true}
use trade_bench.Common.{
  sym, ◌∙◌, Bool-cases, ltb, inl, inr, ℕ, suc, ◌+◌, ◌≤◌, ◌<◌, ◌≡◌, ap, Bool, true, false, Option,
  none, some, List, [], ◌∷◌, arith, length,
}
use trade_bench.Common.Bag.{contains, remove_one, count, count_waiting, length-remove_one}
use trade_bench.Bots.Consumer.{
  Service, new_service, commit, read_message, receive, skip, read_error, stop, dispatch, finish,
  drop_waiting, restart, Step, received, skipped, read_failed, returned, dispatched, ended, crashed,
  Steps, here, next,
}

-- How often a message waits, has been started or has been let go.
abbrev pub heard : ℕ → Service → ℕ
heard n s = count_waiting n s.waiting + count n s.started + count n s.dropped

record Inv (max : ℕ) (decodes : ℕ → Bool) (s : Service) : Type 0 where
  pub bounded : length s.running ≤ max
  pub behind : s.offset ≤ s.position
  pub running : (n : ℕ) → contains n s.running ≡ true → n < s.position
  pub waiting : (n : ℕ) → s.waiting ≡ some n → n < s.position
  -- A message that the reader has not returned in this life has not been started in it.
  pub ahead : (n : ℕ) → s.position ≤ n → count n s.started ≤ s.restarts
  pub times : (n : ℕ) → count_waiting n s.waiting + count n s.started ≤ suc s.restarts
  pub known : (n : ℕ) → n < s.position → decodes n ≡ true → 1 ≤ heard n s

contains-remove_one :
    (m n : ℕ) (xs : List ℕ) → contains m (remove_one n xs) ≡ true → contains m xs ≡ true
contains-remove_one m n [] h = h
contains-remove_one m n (x ∷ xs) h = ground (arith, contains-remove_one m n xs)

heard-drop_waiting :
    (n : ℕ) (o : Option ℕ) (ns : List ℕ)
    → count n (drop_waiting o ns) ≡ count_waiting n o + count n ns
heard-drop_waiting n none ns = omega arith
heard-drop_waiting n (some m) ns = omega arith

module _ (max : ℕ) (decodes : ℕ → Bool) where
  before : (p n : ℕ) → n < suc p → decodes p ≡ false → decodes n ≡ true → n < p
  before p n lt d k = elim (Bool-cases (ltb n p)) [
    | inl e ↦ ground arith
    | inr e ↦
        let same : n ≡ p = ground arith in absurd (false≢true (sym d ∙ sym (ap decodes same) ∙ k))
  ]

  new_service-Inv : Inv max decodes new_service
  unfolding new_service
  new_service-Inv = record {
    bounded = omega arith;
    behind = omega arith;
    running = λ n h. ground arith;
    waiting = λ n h. ground arith;
    ahead = λ n h. omega arith;
    times = λ n. omega arith;
    known = λ n lt d. omega arith;
  }

  Inv-Step : {h k : Service} → Step max decodes h k → Inv max decodes h → Inv max decodes k
  unfolding receive skip read_message commit read_error stop dispatch finish restart
  Inv-Step (received s o w d) i = record {
    bounded = i.bounded;
    behind = omega arith;
    running = λ n h. omega (arith, i.running n h);
    waiting = λ n h. ground arith;
    ahead = λ n h. omega (arith, i.ahead n);
    times = λ n. ground (arith, i.times n, i.ahead n);
    known = λ n lt k. ground (arith, i.known n, ap (count_waiting n) w);
  }
  Inv-Step (skipped s o w d) i = record {
    bounded = i.bounded;
    behind = omega arith;
    running = λ n h. omega (arith, i.running n h);
    waiting = λ n h. omega (arith, i.waiting n h);
    ahead = λ n h. omega (arith, i.ahead n);
    times = i.times;
    known = λ n lt k. i.known n (before s.position n lt d k) k;
  }
  Inv-Step (read_failed s false o w) i = i
  Inv-Step (read_failed s true o w) i = record {
    bounded = i.bounded;
    behind = omega (arith, i.behind);
    running = λ n h. omega (arith, i.running n h);
    waiting = λ n h. omega (arith, i.waiting n h);
    ahead = λ n h. omega (arith, i.ahead n);
    times = i.times;
    known = λ n lt k. ground (arith, i.known n);
  }
  Inv-Step (returned s o w) i = record {
    bounded = i.bounded;
    behind = i.behind;
    running = i.running;
    waiting = i.waiting;
    ahead = i.ahead;
    times = i.times;
    known = i.known;
  }
  Inv-Step (dispatched s m w room) i = record {
    bounded = room;
    behind = i.behind;
    running = λ n h. ground (arith, i.running n, i.waiting n);
    waiting = λ n h. ground arith;
    ahead = λ n h. ground (arith, i.ahead n, i.waiting m w);
    times = λ n. ground (arith, i.times n, ap (count_waiting n) w);
    known = λ n lt k. ground (arith, i.known n lt k, ap (count_waiting n) w);
  }
  Inv-Step (ended s m false c) i = record {
    bounded = omega (arith, i.bounded, length-remove_one m s.running c);
    behind = i.behind;
    running = λ n h. i.running n (contains-remove_one n m s.running h);
    waiting = i.waiting;
    ahead = i.ahead;
    times = i.times;
    known = i.known;
  }
  Inv-Step (ended s m true c) i = record {
    bounded = omega (arith, i.bounded, length-remove_one m s.running c);
    behind = omega (arith, i.running m c);
    running = λ n h. i.running n (contains-remove_one n m s.running h);
    waiting = i.waiting;
    ahead = i.ahead;
    times = i.times;
    known = i.known;
  }
  Inv-Step (crashed s) i = record {
    bounded = omega arith;
    behind = omega arith;
    running = λ n h. ground arith;
    waiting = λ n h. ground arith;
    ahead = λ n h. omega (arith, i.times n);
    times = λ n. omega (arith, i.times n);
    known = λ n lt k.
        omega
          (arith, i.known n (omega (arith, i.behind)) k, heard-drop_waiting n s.waiting s.dropped);
  }

  Inv-Steps : {h k : Service} → Steps max decodes h k → Inv max decodes h → Inv max decodes k
  Inv-Steps here i = i
  Inv-Steps (next r s) i = Inv-Step s (Inv-Steps r i)

  -- While the service has not been started again since a state in which the run of a message `n`
  -- had been started `base` times.
  record Life (n base restarts : ℕ) (s : Service) : Type 0 where
    pub grown : restarts ≤ s.restarts
    pub passed : (m : ℕ) → s.waiting ≡ some m → m < s.position
    pub once : s.restarts ≡ restarts → count_waiting n s.waiting + count n s.started ≤ suc base
    pub unread : s.restarts ≡ restarts → s.position ≤ n → count n s.started ≤ base

  Life-Step :
      (n base restarts : ℕ) {h k : Service}
      → Step max decodes h k
      → Life n base restarts h
      → Life n base restarts k
  unfolding receive skip read_message commit read_error stop dispatch finish restart
  Life-Step n base restarts (received s o w d) i = record {
    grown = i.grown;
    passed = λ m h. ground arith;
    once = λ e. ground (arith, i.once e, i.unread e);
    unread = λ e h. omega (arith, i.unread e);
  }
  Life-Step n base restarts (skipped s o w d) i = record {
    grown = i.grown;
    passed = λ m h. omega (arith, i.passed m h);
    once = i.once;
    unread = λ e h. omega (arith, i.unread e);
  }
  Life-Step n base restarts (read_failed s false o w) i = i
  Life-Step n base restarts (read_failed s true o w) i = record {
    grown = i.grown;
    passed = λ m h. omega (arith, i.passed m h);
    once = i.once;
    unread = λ e h. omega (arith, i.unread e);
  }
  Life-Step n base restarts (returned s o w) i = record {
    grown = i.grown;
    passed = i.passed;
    once = i.once;
    unread = i.unread;
  }
  Life-Step n base restarts (dispatched s m w room) i = record {
    grown = i.grown;
    passed = λ j h. ground arith;
    once = λ e. ground (arith, i.once e, ap (count_waiting n) w);
    unread = λ e h. ground (arith, i.unread e h, i.passed m w);
  }
  Life-Step n base restarts (ended s m false c) i = record {
    grown = i.grown;
    passed = i.passed;
    once = i.once;
    unread = i.unread;
  }
  Life-Step n base restarts (ended s m true c) i = record {
    grown = i.grown;
    passed = i.passed;
    once = i.once;
    unread = i.unread;
  }
  Life-Step n base restarts (crashed s) i = record {
    grown = omega (arith, i.grown);
    passed = λ m h. ground arith;
    once = λ e. omega (arith, i.grown);
    unread = λ e h. omega (arith, i.grown);
  }

  Life-Steps :
      (n base restarts : ℕ) {h k : Service}
      → Steps max decodes h k
      → Life n base restarts h
      → Life n base restarts k
  Life-Steps n base restarts here i = i
  Life-Steps n base restarts (next r s) i =
      Life-Step n base restarts s (Life-Steps n base restarts r i)

  in_one_life :
      (n : ℕ) (s k : Service)
      → Inv max decodes s
      → Steps max decodes s k
      → k.restarts ≡ s.restarts
      → count n k.started ≤ suc (count n s.started)
  in_one_life n s k i r e =
      let life = Life-Steps n (count n s.started) s.restarts r (record {
        grown = omega arith;
        passed = i.waiting;
        once = λ e. at_most_one s.waiting;
        unread = λ e h. omega arith;
      }) in
      omega (arith, life.once e)
    where
      at_most_one : (o : Option ℕ) → count_waiting n o + count n s.started ≤ suc (count n s.started)
      at_most_one none = omega arith
      at_most_one (some m) = ground arith

  Steps-trans :
      {s h k : Service} → Steps max decodes s h → Steps max decodes h k → Steps max decodes s k
  Steps-trans r here = r
  Steps-trans r (next q s) = next (Steps-trans r q) s

  -- On one partition that no rebalance takes from the service, under every interleaving of reads,
  -- workers and restarts, where `s` is any state that the service comes to and `k` any later one of
  -- the same life: at most as many runs are under way as the semaphore has places; the group's
  -- offset is never ahead of the reader; from `s` to `k` the run of a message starts at most once, and
  -- from the first life on at most once more than there were restarts; and a message that decodes
  -- and that the reader has passed waits, has been started, or was let go when a commit failed or
  -- the service ended.
  pub service_starts :
      (s k : Service) (n : ℕ)
      → Steps max decodes new_service s
      → Steps max decodes s k
      → k.restarts ≡ s.restarts
      → (length k.running ≤ max)
        × (k.offset ≤ k.position)
        × (count n k.started ≤ suc (count n s.started))
        × (count n k.started ≤ suc k.restarts)
        × (n < k.position → decodes n ≡ true → 1 ≤ heard n k)
  service_starts s k n r q e =
      let i = Inv-Steps (Steps-trans r q) new_service-Inv in
      (
        i.bounded,
        i.behind,
        in_one_life n s k (Inv-Steps r new_service-Inv) q e,
        omega (arith, i.times n),
        i.known n,
      )
