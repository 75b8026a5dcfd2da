-- ===== src/Breaker/Traces.antt =====
-- What a breaker does over sequences of calls.
use Prim.Native.Nat.{max}
use cc_gateway.Base.{
  ℕ, zero, suc, ℤ, pos, ◌+◌, ◌-ℤ◌, ◌≤ℤ◌, ◌<ℤ◌, leb_ℤ, ◌≡◌, ◌≢◌, refl, false, List, [], ◌∷◌, map,
  length, All, arith, if◌then◌else◌, Bool-cases, inl, inr, replicate, ◌≤◌, subst, sym,
}
use cc_gateway.Breaker.{
  Breaker, Config, Call, closed, tripped, half_open, allows, fails, succeeds, resets, new, allow,
  step, run,
}
use cc_gateway.Breaker.Invariant.{IsValid, step-IsValid}

-- The time `now` is before the open period of `b` has passed.
abbrev pub IsEarly : Breaker → ℕ → Type 0
IsEarly b now = (pos now -ℤ pos b.opened_at) <ℤ b.config.open_duration

-- A call that cannot end the open period of `b`.
abbrev pub IsEarlyCall : Breaker → Call → Type 0
IsEarlyCall b (allows now) = IsEarly b now
IsEarlyCall b (fails now) = Unit {0}
IsEarlyCall b succeeds = Unit {0}
IsEarlyCall b resets = ⊥

abbrev StaysOpen : Breaker → Breaker → Type 0
StaysOpen b c = (c.state ≡ tripped) × (c.opened_at ≡ b.opened_at) × (c.config ≡ b.config)

step-StaysOpen :
    (b c : Breaker) (k : Call) → StaysOpen b c → IsEarlyCall b k → StaysOpen b (step c k)
unfolding step ◌-ℤ◌
step-StaysOpen b c (allows now) s h = ground arith
step-StaysOpen b c (fails now) s h = ground arith
step-StaysOpen b c succeeds s h = ground arith
step-StaysOpen b c resets s h = absurd h

run-StaysOpen :
    (b c : Breaker) (ks : List Call)
    → StaysOpen b c
    → All (IsEarlyCall b) ks
    → StaysOpen b (run c ks)
unfolding run
run-StaysOpen b c [] s h = s
run-StaysOpen b c (k ∷ ks) s h = run-StaysOpen b (step c k) ks (step-StaysOpen b c k s h.0) h.1

allow-StaysOpen :
    (b c : Breaker) (now : ℕ) → StaysOpen b c → IsEarly b now → (allow now c).1 ≡ false
unfolding allow ◌-ℤ◌
allow-StaysOpen b c now s h = ground arith

-- From the moment a breaker is open until its open period has passed, every request is refused,
-- whatever successes, failures and other requests come between, if nobody resets it.
pub open_refuses :
    (b : Breaker) (ks : List Call) (now : ℕ)
    → b.state ≡ tripped
    → All (IsEarlyCall b) ks
    → IsEarly b now
    → (allow now (run b ks)).1 ≡ false
open_refuses b ks now t h e =
    allow-StaysOpen b (run b ks) now (run-StaysOpen b b ks (t, refl, refl) h) e

run-tripped-fails :
    (b : Breaker) (ts : List ℕ) → b.state ≡ tripped → (run b (map fails ts)).state ≡ tripped
unfolding run step
run-tripped-fails b [] t = t
run-tripped-fails b (x ∷ ts) t = run-tripped-fails (step b (fails x)) ts (ground arith)

step-fails-stays :
    (b : Breaker) (t : ℕ)
    → b.state ≡ closed
    → pos (suc b.consecutive_failures) <ℤ b.config.failure_threshold
    → step b (fails t)
      ≡ record b { last_failure_at = t; consecutive_failures = suc b.consecutive_failures }
unfolding step
step-fails-stays b t c h = ground arith

step-fails-trips :
    (b : Breaker) (t : ℕ)
    → b.state ≡ closed
    → b.config.failure_threshold ≤ℤ pos (suc b.consecutive_failures)
    → (step b (fails t)).state ≡ tripped
unfolding step
step-fails-trips b t c h = ground arith

-- A closed breaker trips on the failure that makes its count reach the threshold, and not before:
-- after any further failures in a row it is open exactly if the count has got that far.
pub trips_at_threshold :
    (ts : List ℕ) (b : Breaker)
    → b.state ≡ closed
    → IsValid b
    → (run b (map fails ts)).state ≡ (
        if leb_ℤ b.config.failure_threshold (pos (b.consecutive_failures + length ts))
        then tripped
        else closed)
unfolding run
trips_at_threshold [] b c v = ground arith
trips_at_threshold (t ∷ ts) b c v =
    elim (Bool-cases (leb_ℤ b.config.failure_threshold (pos (suc b.consecutive_failures)))) [
      | inl e ↦ ground (arith, run-tripped-fails (step b (fails t)) ts, step-fails-trips b t c)
      | inr e ↦ ground (
        arith,
        trips_at_threshold ts (step b (fails t)),
        step-IsValid b (fails t) v,
        step-fails-stays b t c,
      )
    ]

step-succeeds-probing :
    (b : Breaker)
    → b.state ≡ half_open
    → pos (suc b.consecutive_successes) <ℤ b.config.success_threshold
    → step b succeeds ≡ record b { consecutive_successes = suc b.consecutive_successes }
unfolding step
step-succeeds-probing b h l = ground arith

abbrev pub HasRecovered : Breaker → Type 0
HasRecovered c = (c.state ≡ closed) × (c.consecutive_failures ≡ 0) × (c.consecutive_successes ≡ 0)

-- A half-open breaker closes, with its counts at 0, on the success that makes the count of
-- successes reach the threshold.
pub recovers :
    (k : ℕ) (b : Breaker)
    → b.state ≡ half_open
    → b.config.success_threshold ≡ pos (b.consecutive_successes + suc k)
    → HasRecovered (run b (replicate (suc k) succeeds))
unfolding run
recovers zero b h e = unfold step in ground arith
recovers (suc k) b h e =
    let c = record b { consecutive_successes = suc b.consecutive_successes } in
    subst (λ (x : Breaker). HasRecovered (run x (replicate (suc k) succeeds)))
      (sym (step-succeeds-probing b h (ground arith))) (recovers k c h (ground arith))

-- The longest row of failures with no success and no reset between them, given the length of the
-- row that goes on and the longest so far.
abbrev pub longest_row : ℕ → ℕ → List Call → ℕ
longest_row row best [] = best
longest_row row best (allows now ∷ cs) = longest_row row best cs
longest_row row best (fails now ∷ cs) = longest_row (suc row) (max best (suc row)) cs
longest_row row best (succeeds ∷ cs) = longest_row 0 best cs
longest_row row best (resets ∷ cs) = longest_row 0 best cs

-- What the rows of failures so far say of the breaker.
abbrev Counted : ℤ → Breaker → ℕ → ℕ → Type 0
Counted threshold b row best =
    (b.config.failure_threshold ≡ threshold)
    × (b.state ≡ closed → b.consecutive_failures ≤ row)
    × (b.state ≢ closed → threshold ≤ℤ pos best)

run-Counted :
    (threshold : ℤ) (cs : List Call) (b : Breaker) (row best : ℕ)
    → Counted threshold b row best
    → (run b cs).state ≢ closed
    → threshold ≤ℤ pos (longest_row row best cs)
unfolding run
run-Counted n [] b row best k h = k.2 h
run-Counted n (allows now ∷ cs) b row best k h =
    run-Counted n cs (step b (allows now)) row best (unfold step in ground arith) h
run-Counted n (fails now ∷ cs) b row best k h =
    run-Counted n cs (step b (fails now)) (suc row) (max best (suc row))
      (unfold step in ground arith) h
run-Counted n (succeeds ∷ cs) b row best k h =
    run-Counted n cs (step b succeeds) 0 best (unfold step in ground arith) h
run-Counted n (resets ∷ cs) b row best k h =
    run-Counted n cs (step b resets) 0 best (unfold step in ground arith) h

-- A new breaker is closed unless its calls hold a row of failures, with no success and no reset
-- between them, as long as the failure threshold.
pub leaves_closed_by_failures :
    (c : Config) (cs : List Call)
    → (run (new c) cs).state ≢ closed
    → (new c).config.failure_threshold ≤ℤ pos (longest_row 0 0 cs)
unfolding new
leaves_closed_by_failures c cs h =
    run-Counted _ cs (new c) 0 0 (refl, λ e. omega arith, λ e. absurd (e refl)) h
