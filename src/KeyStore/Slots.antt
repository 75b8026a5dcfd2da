-- ===== src/KeyStore/Slots.antt =====
-- Acquire and Release of internal/proxy/auth.go on one semaphore, turn by turn: the test that there is
-- a limit at all, a load, then the test of the limit and CompareAndSwap. Goroutines take turns in any
-- order. The loop of AcquireKeyConcurrency is the same with the limit of a key.
use cc_gateway.Base.{
  ℕ, zero, suc, ◌+◌, ℤ, pos, negsuc, ◌+ℤ◌, ◌≤ℤ◌, ◌<ℤ◌, leb_ℤ, pos_part, neg_part, ◌≡◌, subst, Bool,
  ◌&&◌, ◌==◌, List, [], ◌∷◌, some, if◌then◌else◌, arith,
}
use cc_gateway.KeyStore.{
  KeyStore, Semaphore, Acquired, slot, rejected, concurrency_limit, acquire_semaphore, write,
}

-- `loading` has found that there is a limit; `seen n` has loaded n; `refused` is about to return false, `holding` has returned true.
pub data Goroutine : Type 0 where
  idle loading holding refused : Goroutine
  seen : ℤ → Goroutine

abbrev pub same : ℤ → ℤ → Bool
same a b = pos_part a == pos_part b && neg_part a == neg_part b

unfoldable pub turn : Semaphore → Goroutine → Semaphore × Goroutine
turn s idle = if leb_ℤ s.limit (pos 0) then (s, holding) else (s, loading)
turn s loading = (s, seen s.inflight)
turn s (seen n) =
    if leb_ℤ s.limit n
    then (s, refused)
    else if same s.inflight n
    then (record s { inflight = n +ℤ pos 1 }, holding)
    else (s, loading)
turn s holding = (record s { inflight = s.inflight +ℤ negsuc 0 }, idle)
turn s refused = (s, idle)

unfoldable pub turn_at : ℕ → Semaphore → List Goroutine → Semaphore × List Goroutine
turn_at i s [] = (s, [])
turn_at zero s (g ∷ gs) = ((turn s g).0, (turn s g).1 ∷ gs)
turn_at (suc i) s (g ∷ gs) = let rest = turn_at i s gs in (rest.0, g ∷ rest.1)

-- A schedule names the goroutine of each turn.
unfoldable pub play : List ℕ → Semaphore → List Goroutine → Semaphore × List Goroutine
play [] s gs = (s, gs)
play (i ∷ is) s gs = let after = turn_at i s gs in play is after.0 after.1

abbrev pub held_by : Goroutine → ℕ
held_by holding = 1
held_by idle = 0
held_by loading = 0
held_by refused = 0
held_by (seen n) = 0

abbrev pub holders : List Goroutine → ℕ
holders [] = 0
holders (g ∷ gs) = held_by g + holders gs

-- The semaphore counts `n` holders, and they are within the limit, which is positive.
pub record IsCounting (limit : ℤ) (n : ℕ) (s : Semaphore) : Type 0 where
  pub same_limit : s.limit ≡ limit
  pub counted : s.inflight ≡ pos n
  pub within : pos n ≤ℤ limit
  pub positive : pos 0 <ℤ limit

turn-IsCounting :
    (limit : ℤ) (k : ℕ) (s : Semaphore) (g : Goroutine)
    → IsCounting limit (k + held_by g) s
    → IsCounting limit (k + held_by (turn s g).1) (turn s g).0
unfolding turn ◌+ℤ◌
turn-IsCounting limit k s idle c = record {
  same_limit = ground (arith, c.same_limit);
  counted = ground (arith, c.counted, c.same_limit, c.positive);
  within = ground (arith, c.within, c.same_limit, c.positive);
  positive = c.positive;
}
turn-IsCounting limit k s loading c = record {
  same_limit = c.same_limit;
  counted = c.counted;
  within = c.within;
  positive = c.positive;
}
turn-IsCounting limit k s (seen n) c = record {
  same_limit = ground (arith, c.same_limit);
  counted = ground (arith, c.counted);
  within = ground (arith, c.counted, c.same_limit, c.within);
  positive = c.positive;
}
turn-IsCounting limit k s holding c = record {
  same_limit = c.same_limit;
  counted = ground (arith, c.counted);
  within = ground (arith, c.within);
  positive = c.positive;
}
turn-IsCounting limit k s refused c = record {
  same_limit = c.same_limit;
  counted = c.counted;
  within = c.within;
  positive = c.positive;
}

turn_at-IsCounting :
    (limit : ℤ) (i k : ℕ) (s : Semaphore) (gs : List Goroutine)
    → IsCounting limit (k + holders gs) s
    → IsCounting limit (k + holders (turn_at i s gs).1) (turn_at i s gs).0
unfolding turn_at
turn_at-IsCounting limit i k s [] c = c
turn_at-IsCounting limit zero k s (g ∷ gs) c =
    subst (λ (n : ℕ). IsCounting limit n (turn s g).0) (omega arith)
      (turn-IsCounting limit (k + holders gs) s g
        (subst (λ (n : ℕ). IsCounting limit n s) (omega arith) c))
turn_at-IsCounting limit (suc i) k s (g ∷ gs) c =
    subst (λ (n : ℕ). IsCounting limit n (turn_at i s gs).0) (omega arith)
      (turn_at-IsCounting limit i (k + held_by g) s gs
        (subst (λ (n : ℕ). IsCounting limit n s) (omega arith) c))

-- Whatever the order of the turns, the semaphore counts the goroutines that hold a slot, and there
-- are never more of them than its limit, if that is so at the start and the limit is positive.
pub play-IsCounting :
    (limit : ℤ) (is : List ℕ) (s : Semaphore) (gs : List Goroutine)
    → IsCounting limit (holders gs) s
    → IsCounting limit (holders (play is s gs).1) (play is s gs).0
unfolding play
play-IsCounting limit [] s gs c = c
play-IsCounting limit (i ∷ is) s gs c =
    let after = turn_at i s gs in
    play-IsCounting limit is after.0 after.1 (
      subst (λ (n : ℕ). IsCounting limit n after.0) (omega arith)
        (turn_at-IsCounting limit i 0 s gs
          (subst (λ (n : ℕ). IsCounting limit n s) (omega arith) c)))

-- What a goroutine has got when it returns.
abbrev pub got : ℕ → Goroutine → Acquired
got at holding = slot at
got at idle = rejected concurrency_limit
got at loading = rejected concurrency_limit
got at refused = rejected concurrency_limit
got at (seen n) = rejected concurrency_limit

-- An acquisition as one step is what a goroutine comes to that nobody disturbs between its load
-- and its CompareAndSwap, if the limit is positive.
pub acquire_semaphore-turn :
    (ks : KeyStore) (at : ℕ)
    → pos 0 <ℤ (ks.semaphores at).limit
    → let undisturbed = turn (ks.semaphores at) (seen (ks.semaphores at).inflight) in
      let taken = acquire_semaphore ks (some at) in
      (taken.1 ≡ got at undisturbed.1) × (taken.0.semaphores at ≡ undisturbed.0)
unfolding turn acquire_semaphore write
acquire_semaphore-turn ks at h = (ground arith, ground arith)
