-- ===== src/KeyStore/Int64.antt =====
-- The counts of tokens of internal/proxy/auth.go are int64 and wrap: sums of wrapped counts.
use cc_gateway.Base.{ℤ, pos, negsuc, ◌+ℤ◌, ◌-◌, ◌^◌, ◌≤ℤ◌, ◌≡◌, arith}
use cc_gateway.Balancer.{int_of_u64, wrap_int64}

pub wrap_int64-again : (a b : ℤ) → wrap_int64 (wrap_int64 a +ℤ b) ≡ wrap_int64 (a +ℤ b)
unfolding wrap_int64 int_of_u64 ◌+ℤ◌
wrap_int64-again (pos a) (pos b) = ground arith
wrap_int64-again (pos a) (negsuc b) = ground arith
wrap_int64-again (negsuc a) (pos b) = ground arith
wrap_int64-again (negsuc a) (negsuc b) = ground arith

pub wrap_int64-twice : (a : ℤ) → wrap_int64 (wrap_int64 a) ≡ wrap_int64 a
unfolding wrap_int64 int_of_u64
wrap_int64-twice (pos a) = ground arith
wrap_int64-twice (negsuc a) = ground arith

-- The numbers that an int64 holds.
abbrev pub IsInt64 : ℤ → Type 0
IsInt64 n = (negsuc (2 ^ 63 - 1) ≤ℤ n) × (n ≤ℤ pos (2 ^ 63 - 1))

pub wrap_int64-held : (a : ℤ) → IsInt64 a → wrap_int64 a ≡ a
unfolding wrap_int64 int_of_u64
wrap_int64-held (pos a) h = ground (arith, h.1)
wrap_int64-held (negsuc a) h = ground (arith, h.0)
