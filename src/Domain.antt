-- ===== src/Domain.antt =====
-- internal/domain: the configuration and request types that the other components share.
-- A Go map is an association list, a nil map the empty one. An `int` is an integer with no bound.
pub mod Value
pub mod Glob
pub mod Models
mod Tests
use cc_gateway.Base.{ℤ, String, List, Map}
use Value.{Any}

pub record CircuitBreakerConfig : Type 0 where
  pub failure_threshold : ℤ
  pub success_threshold : ℤ
  pub open_duration : String

pub record Account : Type 0 where
  pub id : String
  pub name : String
  pub provider : String
  pub base_url : String
  pub api_key : String
  pub proxy_url : String
  pub user_agent : String
  pub status : String
  pub health : String
  pub allowed_models : List String
  pub model_aliases : Map String
  pub max_concurrent : ℤ
  pub extra : Map Any
  pub circuit_breaker : CircuitBreakerConfig

-- `CreatedAt` is left out: no modelled code reads it.
pub record ExternalApiKey : Type 0 where
  pub id : String
  pub key : String
  pub key_hash : String
  pub key_hint : String
  pub group_id : String
  pub status : String
  pub allowed_models : List String
  pub max_input_tokens : ℤ
  pub max_output_tokens : ℤ
  pub used_input_tokens : ℤ
  pub used_output_tokens : ℤ
  pub max_concurrent : ℤ

pub record KeyGroup : Type 0 where
  pub id : String
  pub name : String
  pub account_ids : List String
  pub allowed_models : List String
  pub balancer : String

pub record Usage : Type 0 where
  pub input_tokens : ℤ
  pub output_tokens : ℤ
  pub thinking_tokens : ℤ
  pub cache_read_tokens : ℤ
  pub cache_write_tokens : ℤ

abbrev pub account_enabled : String
account_enabled = "enabled"
