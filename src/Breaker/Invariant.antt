-- ===== src/Breaker/Invariant.antt =====
-- What holds of a breaker between two calls.
use cc_gateway.Base.{pos, ◌<ℤ◌, ◌≡◌, ◌≢◌, List, [], ◌∷◌, arith, refl}
use cc_gateway.Breaker.{
  Breaker, Config, Call, closed, half_open, allows, fails, succeeds, resets, new, step, run,
}

pub record IsValid (b : Breaker) : Type 0 where
  pub failure_positive : pos 0 <ℤ b.config.failure_threshold
  pub success_positive : pos 0 <ℤ b.config.success_threshold
  pub duration_positive : pos 0 <ℤ b.config.open_duration
  pub failures_below : b.state ≡ closed → pos b.consecutive_failures <ℤ b.config.failure_threshold
  pub successes_below : pos b.consecutive_successes <ℤ b.config.success_threshold
  pub successes_probing : b.state ≢ half_open → b.consecutive_successes ≡ 0

pub new-IsValid : (c : Config) → IsValid (new c)
unfolding new
new-IsValid c = record {
  failure_positive = ground arith;
  success_positive = ground arith;
  duration_positive = ground arith;
  failures_below = λ h. ground arith;
  successes_below = ground arith;
  successes_probing = λ h. refl;
}

-- Every call, in every state and at every time, keeps the invariant.
pub step-IsValid : (b : Breaker) (c : Call) → IsValid b → IsValid (step b c)
unfolding step
step-IsValid b (allows now) v = ground arith
step-IsValid b (fails now) v = ground arith
step-IsValid b succeeds v = ground arith
step-IsValid b resets v = ground arith

run-IsValid : (b : Breaker) (cs : List Call) → IsValid b → IsValid (run b cs)
unfolding run
run-IsValid b [] v = v
run-IsValid b (c ∷ cs) v = run-IsValid (step b c) cs (step-IsValid b c v)

-- After any calls on a new breaker, whatever its configuration: the bounds are positive, a closed
-- breaker has counted fewer failures than the threshold, the successes counted stay below theirs,
-- and they are 0 outside the half-open state.
pub run-new-IsValid : (c : Config) (cs : List Call) → IsValid (run (new c) cs)
run-new-IsValid c cs = run-IsValid (new c) cs (new-IsValid c)
