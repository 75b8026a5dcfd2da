-- ===== src/Retry.antt =====
-- internal/proxy/retry.go: the retries that an account's configuration asks for. A set of status
-- codes is the list of them. time.ParseDuration and the random number are arguments; a duration is an int64 in nanoseconds.
pub mod Bounds
pub mod Statuses
pub mod Tests
use cc_gateway.Base.{
  ℕ, zero, suc, ◌+◌, ◌-◌, ◌*◌, ◌/◌, ◌%◌, ◌^◌, ltb, leb, ◌==◌, ℤ, pos, negsuc, pos_part, neg_part,
  leb_ℤ, ltb_ℤ, String, Bool, true, false, ◌&&◌, ◌||◌, not, List, [], ◌∷◌, Option, none, some,
  str_eq, if◌then◌else◌, lookup,
}
use cc_gateway.Domain.{Account}
use cc_gateway.Domain.Glob.{codes}
use cc_gateway.Domain.Value.{
  Any, Fields, text, integer, float, array, object, int_of_float, get_field, items_of,
}
use cc_gateway.Balancer.{int_of_u64}

pub record RetryConfig : Type 0 where
  pub max_retries : ℤ
  pub base_delay : ℤ
  pub retryable_status_codes : List ℤ

abbrev pub no_retries : RetryConfig
no_retries = record { max_retries = pos 0; base_delay = pos 0; retryable_status_codes = [] }

abbrev pub default_retryable_status_codes : List ℤ
default_retryable_status_codes = pos 500 ∷ pos 502 ∷ pos 503 ∷ pos 504 ∷ []

unfoldable pub clamp_int : ℤ → ℤ → ℤ → ℤ
clamp_int v lo hi = if ltb_ℤ v lo then lo else if ltb_ℤ hi v then hi else v

unfoldable pub max_retries_of : Option Any → ℤ
max_retries_of (some (float n)) = clamp_int (int_of_float n) (pos 0) (pos 10)
max_retries_of (some (integer n)) = clamp_int n (pos 0) (pos 10)
max_retries_of _ = pos 0

abbrev or_second : Option ℤ → ℤ
or_second none = pos 1000000000
or_second (some d) = d

unfoldable pub base_delay_of : (String → Option ℤ) → Option Any → ℤ
base_delay_of parse (some (text s)) = if str_eq s "" then pos 1000000000 else or_second (parse s)
base_delay_of parse _ = pos 1000000000

-- The loop over the list: what is no number is passed over.
unfoldable pub codes_in : List Any → List ℤ
codes_in [] = []
codes_in (float n ∷ vs) = int_of_float n ∷ codes_in vs
codes_in (integer n ∷ vs) = n ∷ codes_in vs
codes_in (v ∷ vs) = codes_in vs

abbrev or_default_codes : List ℤ → List ℤ
or_default_codes [] = default_retryable_status_codes
or_default_codes (c ∷ cs) = c ∷ cs

unfoldable pub codes_of : Option Any → List ℤ
codes_of (some (array vs)) = or_default_codes (codes_in (items_of vs))
codes_of _ = default_retryable_status_codes

abbrev pub is_zero : ℤ → Bool
is_zero n = pos_part n == 0 && neg_part n == 0

unfoldable pub read_config : (String → Option ℤ) → Fields → RetryConfig
read_config parse cfg =
    let retries = max_retries_of (get_field "max_retries" cfg) in
    if is_zero retries then no_retries else record {
      max_retries = retries;
      base_delay = base_delay_of parse (get_field "retry_base_delay" cfg);
      retryable_status_codes = codes_of (get_field "retryable_status_codes" cfg);
    }

unfoldable pub read_raw : (String → Option ℤ) → Option Any → RetryConfig
read_raw parse (some (object cfg)) = read_config parse cfg
read_raw parse _ = no_retries

-- A nil account, or a nil Extra, which is empty, has no configuration.
unfoldable pub extract_retry_config : (String → Option ℤ) → Option Account → RetryConfig
extract_retry_config parse none = no_retries
extract_retry_config parse (some a) = read_raw parse (lookup "retry_config" a.extra)

-- An error: what errors.Is says of it, and its text in code points.
pub record Error : Type 0 where
  pub is_canceled : Bool
  pub is_deadline_exceeded : Bool
  pub message : List ℕ

abbrev pub is_digit : ℕ → Bool
is_digit c = leb 48 c && leb c 57

-- The rest of `(\d+):` behind some digits, newest first.
unfoldable pub digits_then_colon : List ℕ → List ℕ → Option (List ℕ)
digits_then_colon seen [] = none
digits_then_colon seen (c ∷ cs) =
    let more = digits_then_colon (c ∷ seen) cs in
    if is_digit c
    then more
    else elim seen [ [] ↦ none | d ∷ ds ↦ if c == 58 then some (d ∷ ds) else none ]

-- A match of the expression at the beginning of a text, from the rest of its fixed part.
unfoldable pub match_here : List ℕ → List ℕ → Option (List ℕ)
unfolding digits_then_colon
match_here [] cs = digits_then_colon [] cs
match_here (p ∷ ps) [] = none
match_here (p ∷ ps) (c ∷ cs) = let rest = match_here ps cs in if p == c then rest else none

abbrev pub or_later : Option (List ℕ) → Option (List ℕ) → Option (List ℕ)
or_later none later = later
or_later (some ds) later = some ds

-- FindStringSubmatch: the leftmost match.
unfoldable pub find_status : List ℕ → List ℕ → Option (List ℕ)
find_status phrase [] = match_here phrase []
find_status phrase (c ∷ cs) = or_later (match_here phrase (c ∷ cs)) (find_status phrase cs)

-- The number of the digits, newest first.
unfoldable pub value : List ℕ → ℕ
value [] = 0
value (d ∷ ds) = (d - 48) + 10 * value ds

unfoldable pub has_code : ℕ → List ℤ → Bool
has_code n [] = false
has_code n (c ∷ cs) = if neg_part c == 0 && pos_part c == n then true else has_code n cs

-- strconv.Atoi fails on a number that an int does not hold.
unfoldable pub retry_status : List ℤ → Option (List ℕ) → Bool
retry_status cs none = true
retry_status cs (some ds) = if ltb (value ds) (2 ^ 63) then has_code (value ds) cs else true

unfoldable pub phrase : List ℕ
phrase = codes "upstream returned "

unfoldable pub is_retryable : RetryConfig → Option Error → Bool
is_retryable rc none = false
is_retryable rc (some err) =
    if is_zero rc.max_retries
    then false
    else if err.is_canceled || err.is_deadline_exceeded
    then false
    else retry_status rc.retryable_status_codes (find_status phrase err.message)

-- The bits of an int64 product with a power of two.
unfoldable pub scaled : ℤ → ℕ → ℤ
scaled (pos n) k = int_of_u64 (n * k % 2 ^ 64)
scaled (negsuc n) k = int_of_u64 ((2 ^ 64 - suc n * k % 2 ^ 64) % 2 ^ 64)

abbrev pub max_backoff : ℤ
max_backoff = pos 30000000000

abbrev pub shift_of : ℕ → ℕ
shift_of n = if ltb 30 n then 30 else n

-- `time.Duration(f)`: an f that an int64 does not hold is the least one, as on amd64.
abbrev pub positive : ℕ → ℤ
positive n = if ltb n (2 ^ 63) then pos n else negsuc (2 ^ 63 - 1)

abbrev pub negative : ℕ → ℤ
negative zero = pos 0
negative (suc n) = negsuc (if ltb n (2 ^ 63) then n else 2 ^ 63 - 1)

-- The product with 0.8 + rand.Float64() * 0.4, cut towards 0; the random number is `m / 2 ^ 53`.
-- Both are computed here without the rounding of float64.
unfoldable pub jittered : ℕ → ℤ → ℤ
jittered m (pos n) = positive (n * (4 * 2 ^ 53 + 2 * m) / (5 * 2 ^ 53))
jittered m (negsuc n) = negative (suc n * (4 * 2 ^ 53 + 2 * m) / (5 * 2 ^ 53))

-- `m` is the random number that is drawn.
unfoldable pub backoff : ℕ → RetryConfig → ℤ → ℤ
backoff m rc (pos (suc n)) =
    let result = jittered m (scaled rc.base_delay (2 ^ shift_of n)) in
    if ltb_ℤ max_backoff result then max_backoff else result
backoff m rc (pos zero) = pos 0
backoff m rc (negsuc n) = pos 0
