-- ===== src/Balancer.antt =====
-- internal/router/balancer.go: the four ways to choose one of the candidates. A balancer is a value
-- that holds its atomic counter; `Select` returns the new balancer and the choice, `none` for nil.
-- The counter is a uint64 and wraps; one call adds to it once, atomically.
pub mod Choice
pub mod Rotation
pub mod Weights
pub mod Tests
use cc_gateway.Base.{
  ℕ, suc, ℤ, pos, negsuc, pos_part, neg_part, ◌+ℤ◌, ◌+◌, ◌-◌, ◌%◌, ◌^◌, ltb, leb_ℤ, ltb_ℤ, Bool,
  true, false, String, List, [], ◌∷◌, Option, none, some, get_elem?, length, if◌then◌else◌,
}
use cc_gateway.Domain.{Account}

abbrev pub u64 : ℕ → ℕ
u64 n = n % 2 ^ 64

-- `int(n)` of a uint64 that may have its top bit set.
unfoldable pub int_of_u64 : ℕ → ℤ
int_of_u64 n = if ltb n (2 ^ 63) then pos n else negsuc (2 ^ 64 - n - 1)

-- What an int64 keeps of a sum.
unfoldable pub wrap_int64 : ℤ → ℤ
unfolding int_of_u64
wrap_int64 (pos n) = int_of_u64 (n % 2 ^ 64)
wrap_int64 (negsuc n) = int_of_u64 (2 ^ 64 - 1 - n % 2 ^ 64)

abbrev pub magnitude : ℤ → ℕ
magnitude n = pos_part n + neg_part n

-- `n % m` on int: the sign is that of `n`. The source panics where m is 0; here `% 0` then stands.
unfoldable pub rem : ℤ → ℤ → ℤ
rem (pos n) m = pos (n % magnitude m)
rem (negsuc n) m = let r = suc n % magnitude m in if ltb 0 r then negsuc (r - 1) else pos 0

pub data Balancer : Type 0 where
  round_robin weighted : ℕ → Balancer
  least_connections priority : Balancer

unfoldable pub select_round_robin : ℕ → List Account → Balancer × Option Account
select_round_robin n [] = (round_robin n, none)
select_round_robin n (a ∷ accts) =
    (round_robin (u64 (n + 1)), get_elem? (a ∷ accts) (n % length (a ∷ accts)))

-- The loop over `candidates[1:]` with `best` and `bestCount`.
unfoldable pub least : (String → ℤ) → Account → ℤ → List Account → Account
least inflight best n [] = best
least inflight best n (a ∷ rest) =
    let count = inflight a.id in
    least inflight (if ltb_ℤ count n then a else best) (if ltb_ℤ count n then count else n) rest

unfoldable pub select_least : (String → ℤ) → List Account → Option Account
unfolding least
select_least inflight [] = none
select_least inflight (a ∷ rest) = some (least inflight a (inflight a.id) rest)

-- MaxConcurrent, or 100 where that is not positive.
unfoldable pub weight : Account → ℕ
weight a = if leb_ℤ a.max_concurrent (pos 0) then 100 else pos_part a.max_concurrent

-- The first loop of Weighted.Select; `totalWeight` is an int, and wraps.
unfoldable pub total_weight : ℤ → List Account → ℤ
unfolding weight wrap_int64
total_weight total [] = total
total_weight total (a ∷ accts) = total_weight (wrap_int64 (total +ℤ pos (weight a))) accts

-- The second loop of Weighted.Select; `last` is what stands behind it.
unfoldable pub pick : Account → ℤ → ℤ → List Account → Account
unfolding weight wrap_int64
pick last idx cumulative [] = last
pick last idx cumulative (a ∷ accts) =
    let reached = wrap_int64 (cumulative +ℤ pos (weight a)) in
    let later = pick last idx reached accts in if ltb_ℤ idx reached then a else later

unfoldable pub last_of : Account → List Account → Account
last_of a [] = a
last_of a (b ∷ bs) = last_of b bs

unfoldable pub select_weighted : ℕ → List Account → Balancer × Option Account
unfolding total_weight pick last_of rem int_of_u64
select_weighted n [] = (weighted n, none)
select_weighted n (a ∷ []) = (weighted n, some a)
select_weighted n (a ∷ b ∷ cs) = (
  weighted (u64 (n + 1)),
  some (
      pick (last_of b cs) (rem (int_of_u64 n) (total_weight (pos 0) (a ∷ b ∷ cs))) (pos 0)
        (a ∷ b ∷ cs)),
)

unfoldable pub select_priority : List Account → Option Account
select_priority [] = none
select_priority (a ∷ accts) = some a

-- `inflight` is the closure that NewLeastConnections is given.
unfoldable pub select : (String → ℤ) → Balancer → List Account → Balancer × Option Account
unfolding select_round_robin select_least select_weighted select_priority
select inflight (round_robin n) accts = select_round_robin n accts
select inflight (weighted n) accts = select_weighted n accts
select inflight least_connections accts = (least_connections, select_least inflight accts)
select inflight priority accts = (priority, select_priority accts)
