-- ===== src/Retry/Bounds.antt =====
-- The bounds of a retry configuration and of the delay.
use Prim.Native.Nat.{min}
use native.Mathlib.Nat.{mul-le-mul_left}
use cc_gateway.Base.{
  ℕ, suc, ◌+◌, ◌*◌, ◌/◌, ◌%◌, ◌^◌, ◌≤◌, ◌<◌, ℤ, pos, ◌≤ℤ◌, ltb_ℤ, ◌≡◌, ◌≢◌, ◌⊎◌, refl, ap, ◌∙◌,
  String, [], Option, none, some, if◌then◌else◌, arith, Bool-cases, inl, inr, lookup,
}
use cc_gateway.Domain.{Account}
use cc_gateway.Domain.Value.{
  Any, Fields, nil, boolean, text, integer, float, array, object, get_field, int_of_float,
}
use cc_gateway.Balancer.{int_of_u64}
use cc_gateway.Retry.{
  RetryConfig, no_retries, clamp_int, max_retries_of, codes_of, is_zero, read_config, read_raw,
  extract_retry_config, scaled, max_backoff, shift_of, backoff, jittered,
}

clamped :
    (n : ℤ) → (pos 0 ≤ℤ clamp_int n (pos 0) (pos 10)) × (clamp_int n (pos 0) (pos 10) ≤ℤ pos 10)
unfolding clamp_int
clamped n = (ground arith, ground arith)

max_retries_of-bounds :
    (o : Option Any) → (pos 0 ≤ℤ max_retries_of o) × (max_retries_of o ≤ℤ pos 10)
unfolding max_retries_of
max_retries_of-bounds none = (omega arith, omega arith)
max_retries_of-bounds (some nil) = (omega arith, omega arith)
max_retries_of-bounds (some (boolean b)) = (omega arith, omega arith)
max_retries_of-bounds (some (text s)) = (omega arith, omega arith)
max_retries_of-bounds (some (integer n)) = clamped n
max_retries_of-bounds (some (float f)) = clamped (int_of_float f)
max_retries_of-bounds (some (array vs)) = (omega arith, omega arith)
max_retries_of-bounds (some (object fs)) = (omega arith, omega arith)

codes_of-filled : (o : Option Any) → codes_of o ≢ []
unfolding codes_of
codes_of-filled none = λ e. cc
codes_of-filled (some nil) = λ e. cc
codes_of-filled (some (boolean b)) = λ e. cc
codes_of-filled (some (text s)) = λ e. cc
codes_of-filled (some (integer n)) = λ e. cc
codes_of-filled (some (float f)) = λ e. cc
codes_of-filled (some (array vs)) = λ e. ground arith
codes_of-filled (some (object fs)) = λ e. cc

-- What a configuration with retries looks like.
pub record IsUsable (rc : RetryConfig) : Type 0 where
  pub at_least_one : pos 1 ≤ℤ rc.max_retries
  pub at_most_ten : rc.max_retries ≤ℤ pos 10
  pub some_codes : rc.retryable_status_codes ≢ []

read_config-IsUsable :
    (parse : String → Option ℤ) (cfg : Fields)
    → (read_config parse cfg ≡ no_retries) ⊎ IsUsable (read_config parse cfg)
unfolding read_config
read_config-IsUsable parse cfg =
    let o = get_field "max_retries" cfg in
    elim (Bool-cases (is_zero (max_retries_of o))) [
      | inl e ↦ rw e (inl refl)
      | inr e ↦ rw e (
          inr (record {
            at_least_one = ground (arith, max_retries_of-bounds o);
            at_most_ten = (max_retries_of-bounds o).1;
            some_codes = codes_of-filled (get_field "retryable_status_codes" cfg);
          }))
    ]

read_raw-IsUsable :
    (parse : String → Option ℤ) (o : Option Any)
    → (read_raw parse o ≡ no_retries) ⊎ IsUsable (read_raw parse o)
unfolding read_raw
read_raw-IsUsable parse none = inl refl
read_raw-IsUsable parse (some nil) = inl refl
read_raw-IsUsable parse (some (boolean b)) = inl refl
read_raw-IsUsable parse (some (text s)) = inl refl
read_raw-IsUsable parse (some (integer n)) = inl refl
read_raw-IsUsable parse (some (float f)) = inl refl
read_raw-IsUsable parse (some (array vs)) = inl refl
read_raw-IsUsable parse (some (object fs)) = read_config-IsUsable parse fs

-- Whatever an account's extra values hold, its retry configuration is the empty one, or has
-- between one and ten retries and at least one status code.
pub extract_retry_config-IsUsable :
    (parse : String → Option ℤ) (a : Option Account)
    → (extract_retry_config parse a ≡ no_retries) ⊎ IsUsable (extract_retry_config parse a)
unfolding extract_retry_config
extract_retry_config-IsUsable parse none = inl refl
extract_retry_config-IsUsable parse (some a) =
    read_raw-IsUsable parse (lookup "retry_config" a.extra)

unwrapped : (x : ℕ) → x < 2 ^ 63 → int_of_u64 (x % 2 ^ 64) ≡ pos x
unfolding int_of_u64
unwrapped x h = ground arith

scaled-pos : (d k : ℕ) → d * k < 2 ^ 63 → scaled (pos d) k ≡ pos (d * k)
unfolding scaled
scaled-pos d k h = unwrapped (d * k) h

jittered-bounds :
    (m x : ℕ)
    → m < 2 ^ 53
    → x < 2 ^ 62
    → (y : ℕ) × (jittered m (pos x) ≡ pos y) × (4 * x < 5 * (y + 1)) × (5 * y ≤ 6 * x)
unfolding jittered
jittered-bounds m x h l =
    let p : x * m ≤ x * 2 ^ 53 = mul-le-mul_left x (omega arith) in
    let y : ℕ = x * (4 * 2 ^ 53 + 2 * m) / (5 * 2 ^ 53) in
    let parts : x * (4 * 2 ^ 53 + 2 * m) ≡ 4 * 2 ^ 53 * x + 2 * (x * m) = omega arith in
    (y, ground (arith, p, parts, l), omega (arith, p, parts), omega (arith, p, parts))

-- For an attempt above 0 and a base delay that, doubled as often as the attempt says, stays below
-- 2 ^ 62 nanoseconds: the delay is that product times a factor between 4/5 and 6/5, cut to whole
-- nanoseconds, or 30 seconds if that is more.
pub backoff-bounds :
    (m : ℕ) (rc : RetryConfig) (d n : ℕ)
    → m < 2 ^ 53
    → rc.base_delay ≡ pos d
    → d * 2 ^ shift_of n < 2 ^ 62
    → (y : ℕ) × (backoff m rc (pos (suc n)) ≡ pos (min y 30000000000))
      × (4 * (d * 2 ^ shift_of n) < 5 * (y + 1))
      × (5 * y ≤ 6 * (d * 2 ^ shift_of n))
unfolding backoff
backoff-bounds m rc d n h e l =
    let (y, r, low, high) = jittered-bounds m (d * 2 ^ shift_of n) h l in
    let same : scaled rc.base_delay (2 ^ shift_of n) ≡ pos (d * 2 ^ shift_of n) =
      ap (λ (x : ℤ). scaled x (2 ^ shift_of n)) e
      ∙ scaled-pos d (2 ^ shift_of n) (omega (arith, l)) in
    (y, ap capped (ap (jittered m) same ∙ r) ∙ capped-min y, low, high)
  where
    capped : ℤ → ℤ
    capped x = if ltb_ℤ max_backoff x then max_backoff else x

    capped-min : (y : ℕ) → capped (pos y) ≡ pos (min y 30000000000)
    capped-min y = ground arith
