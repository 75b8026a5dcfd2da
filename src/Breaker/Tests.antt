-- ===== src/Breaker/Tests.antt =====
-- Three lives of a breaker.
use cc_gateway.Base.{pos, ◌-ℤ◌, ◌≤ℤ◌, ◌≡◌, refl, List, [], ◌∷◌, map, false, arith}
use cc_gateway.Breaker.{Config, Call, tripped, half_open, allows, fails, succeeds, new, allow, run}
use cc_gateway.Breaker.Invariant.{IsValid, new-IsValid, run-new-IsValid}
use cc_gateway.Breaker.Traces.{
  open_refuses, trips_at_threshold, longest_row, leaves_closed_by_failures,
}

-- Two failures trip it, two successes close it, and it stays open for ten nanoseconds.
abbrev config : Config
config = record { failure_threshold = pos 2; success_threshold = pos 2; open_duration = pos 10 }

abbrev failing : List Call
failing = fails 3 ∷ fails 5 ∷ []

failing_trips : (run (new config) failing).state ≡ tripped
unfolding run new
failing_trips = refl

abbrev probing : List Call
probing = fails 3 ∷ fails 5 ∷ allows 15 ∷ []

probing_recovers : (run (new config) probing).state ≡ half_open
unfolding run new
probing_recovers = refl

run-new-IsValid_example : IsValid (run (new config) probing)
run-new-IsValid_example = run-new-IsValid config probing

open_refuses_example :
    (allow 14 (run (run (new config) failing) (succeeds ∷ fails 9 ∷ allows 12 ∷ []))).1 ≡ false
unfolding run new ◌-ℤ◌
open_refuses_example =
    open_refuses (run (new config) failing) (succeeds ∷ fails 9 ∷ allows 12 ∷ []) 14 refl
      (tt, (tt, (omega arith, tt))) (omega arith)

trips_at_threshold_example : (run (new config) (map fails (3 ∷ 5 ∷ []))).state ≡ tripped
unfolding new
trips_at_threshold_example = trips_at_threshold (3 ∷ 5 ∷ []) (new config) refl (new-IsValid config)

leaves_closed_by_failures_example :
    (new config).config.failure_threshold ≤ℤ pos (longest_row 0 0 failing)
unfolding run new
leaves_closed_by_failures_example = leaves_closed_by_failures config failing (λ e. cc)
