-- ===== src/Retry/Tests.antt =====
-- A retry configuration, and an upstream that is overloaded.
use Prim.Native.Nat.{min}
use cc_gateway.Base.{
  ℕ, ◌+◌, ◌*◌, ◌^◌, ◌≤◌, ◌<◌, ℤ, pos, ◌≡◌, ◌⊎◌, refl, String, false, [], ◌∷◌, Option, none, some,
  arith,
}
use cc_gateway.Domain.{Account}
use cc_gateway.Domain.Glob.{codes}
use cc_gateway.Domain.Value.{integer, array, object, end_items, item, end_fields, field}
use cc_gateway.Balancer.Tests.{small}
use cc_gateway.Retry.{
  RetryConfig, no_retries, extract_retry_config, Error, phrase, is_retryable, has_code, backoff,
  value,
}
use cc_gateway.Retry.Bounds.{IsUsable, extract_retry_config-IsUsable, backoff-bounds}
use cc_gateway.Retry.Statuses.{is_retryable-status}

abbrev parse : String → Option ℤ
parse s = none

abbrev config : RetryConfig
config = record {
  max_retries = pos 3;
  base_delay = pos 1000000000;
  retryable_status_codes = pos 500 ∷ pos 529 ∷ [];
}

abbrev configured : Account
configured = record small {
  extra =
      (
        "retry_config",
        object (
            field "max_retries" (integer (pos 40)) (
              field "retryable_status_codes" (array (item (integer (pos 529)) end_items))
                end_fields)),
      )
      ∷ [];
}

extract_retry_config-IsUsable_example :
    (extract_retry_config parse (some configured) ≡ no_retries)
    ⊎ IsUsable (extract_retry_config parse (some configured))
extract_retry_config-IsUsable_example = extract_retry_config-IsUsable parse (some configured)

backoff-bounds_example :
    (y : ℕ) × (backoff (2 ^ 52) config (pos 3) ≡ pos (min y 30000000000))
    × (4 * (1000000000 * 2 ^ 2) < 5 * (y + 1))
    × (5 * y ≤ 6 * (1000000000 * 2 ^ 2))
backoff-bounds_example =
    backoff-bounds (2 ^ 52) config 1000000000 2 (omega arith) refl (omega arith)

overloaded : Error
overloaded = record {
  is_canceled = false;
  is_deadline_exceeded = false;
  message = codes "upstream returned 529: overloaded";
}

is_retryable-status_example :
    is_retryable config (some overloaded) ≡ has_code 529 config.retryable_status_codes
unfolding overloaded phrase value
is_retryable-status_example =
    is_retryable-status config overloaded (codes "529") (codes " overloaded") refl
      (refl, (refl, (refl, tt))) (λ e. cc) (omega arith) refl refl
