-- ===== src/Breaker.antt =====
-- internal/breaker/breaker.go: the circuit breaker of one account. A method that changes `*Breaker`
-- returns the new record; the clock that `time.Now` reads is an argument, in nanoseconds. Each
-- method holds the mutex throughout, so a run is a sequence of calls.
pub mod Invariant
pub mod Traces
pub mod Tests
use cc_gateway.Base.{
  ℕ, suc, ℤ, pos, ◌+◌, ◌-ℤ◌, leb_ℤ, Bool, true, false, String, List, [], ◌∷◌, if◌then◌else◌,
}

pub data State : Type 0 where
  closed tripped half_open : State

unfoldable pub to_string : State → String
to_string closed = "closed"
to_string tripped = "open"
to_string half_open = "half_open"

pub record Config : Type 0 where
  pub failure_threshold : ℤ
  pub success_threshold : ℤ
  pub open_duration : ℤ

pub record Breaker : Type 0 where
  pub state : State
  pub config : Config
  pub consecutive_failures : ℕ
  pub consecutive_successes : ℕ
  pub opened_at : ℕ
  pub last_failure_at : ℕ

abbrev pub second : ℕ
second = 1000000000

-- A bound that is not positive gives way to its default.
unfoldable pub or_default : ℤ → ℕ → ℤ
or_default n d = if leb_ℤ n (pos 0) then pos d else n

unfoldable pub new : Config → Breaker
unfolding or_default
new c = record {
  state = closed;
  config = record {
    failure_threshold = or_default c.failure_threshold 5;
    success_threshold = or_default c.success_threshold 2;
    open_duration = or_default c.open_duration 60000000000;
  };
  consecutive_failures = 0;
  consecutive_successes = 0;
  opened_at = 0;
  last_failure_at = 0;
}

allow_in : State → ℕ → Breaker → Breaker × Bool
unfolding ◌-ℤ◌
allow_in closed now b = (b, true)
allow_in tripped now b =
    if leb_ℤ b.config.open_duration (pos now -ℤ pos b.opened_at)
    then (record b { state = half_open; consecutive_successes = 0 }, true)
    else (b, false)
allow_in half_open now b = (b, true)

unfoldable pub allow : ℕ → Breaker → Breaker × Bool
unfolding allow_in
allow now b = allow_in b.state now b

success_in : State → Breaker → Breaker
success_in closed b = record b { consecutive_failures = 0 }
success_in tripped b = b
success_in half_open b =
    let n = suc b.consecutive_successes in
    if leb_ℤ b.config.success_threshold (pos n)
    then record b { state = closed; consecutive_failures = 0; consecutive_successes = 0 }
    else record b { consecutive_successes = n }

unfoldable pub record_success : Breaker → Breaker
unfolding success_in
record_success b = success_in b.state b

failure_in : State → ℕ → Breaker → Breaker
failure_in closed now b =
    let n = suc b.consecutive_failures in
    if leb_ℤ b.config.failure_threshold (pos n)
    then record b { consecutive_failures = n; state = tripped; opened_at = now }
    else record b { consecutive_failures = n }
failure_in tripped now b = b
failure_in half_open now b = record b {
  state = tripped;
  opened_at = now;
  consecutive_successes = 0;
}

unfoldable pub record_failure : ℕ → Breaker → Breaker
unfolding failure_in
record_failure now b = failure_in b.state now (record b { last_failure_at = now })

unfoldable pub reset : Breaker → Breaker
reset b = record b { state = closed; consecutive_failures = 0; consecutive_successes = 0 }

pub data Call : Type 0 where
  allows fails : ℕ → Call
  succeeds resets : Call

unfoldable pub step : Breaker → Call → Breaker
unfolding allow record_success record_failure reset
step b (allows now) = (allow now b).0
step b (fails now) = record_failure now b
step b succeeds = record_success b
step b resets = reset b

unfoldable pub run : Breaker → List Call → Breaker
unfolding step
run b [] = b
run b (c ∷ cs) = run (step b c) cs
