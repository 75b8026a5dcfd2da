-- ===== src/Handler.antt =====
-- internal/proxy/handler.go: ServeHTTP, from a request to the response and the record of it. The
-- router and the key store are those of Router and KeyStore, and no other request uses them in
-- between; a nil key store is one without keys and accounts. What other code does is a record of
-- functions, the environment. A text is a list of code points or bytes. Logging, metrics, cost and
-- latency are left out, and the deferred functions stand at the end of `serve_http`.
pub mod Response
pub mod Capture
pub mod StopReason
pub mod Attempts
pub mod Serve
pub mod Relay
pub mod Answers
pub mod Single
pub mod Counts
pub mod Balance
pub mod GivesBack
pub mod Bound
pub mod Tests
use cc_gateway.Base.{
  ℕ, zero, suc, ◌+◌, ℤ, pos, pos_part, ltb, leb, ◌==◌, length, take, drop, String, Bool, true,
  false, not, ◌&&◌, ◌||◌, List, [], ◌∷◌, ◌++◌, Option, none, some, str_eq, if◌then◌else◌,
}
use cc_gateway.Domain.{Account, ExternalApiKey, KeyGroup, Usage}
use cc_gateway.Domain.Value.{Any}
use cc_gateway.Domain.Glob.{codes}
use cc_gateway.Domain.Models.{resolve_model}
use cc_gateway.Router
use cc_gateway.Router.{
  Router, RouterError, no_healthy_account, no_group, Selected, account, refused, member,
  select_account_except, select_account_from_all, increment_inflight, decrement_inflight,
}
use cc_gateway.KeyStore.{
  KeyStore, KeyError, invalid_api_key, key_disabled, model_not_allowed, concurrency_limit,
  usage_limit, Authenticated, admitted, denied, Acquired, unlimited, slot, rejected, has_keys,
  authenticate, check_model_allowed, check_usage_limit, acquire_key_concurrency, release_key,
  acquire_account_concurrency, release_account, record_usage,
}
use cc_gateway.Retry.{Error, RetryConfig, extract_retry_config, is_retryable, backoff}
use cc_gateway.Sse.Reader.{has_prefix}
use cc_gateway.Sse.Writer.{Writer, Takes, new_buffered_writer, write_raw_event, flush_buffered}
use Response.{
  ResponseState, new_response, truncate_for_storage, write_response, write_error, status_of,
}
use StopReason.{StopPayload, extract_stop_reason}

abbrev pub max_request_body_bytes : ℕ
max_request_body_bytes = 10485760

abbrev pub stream_prelude_buffer_bytes : ℤ
stream_prelude_buffer_bytes = pos 1024

-- The adapters in the map of providers.
pub data Provider : Type 0 where
  anthropic openai gemini : Provider

-- h.providers of NewHandler
unfoldable pub provider_of : String → Option Provider
provider_of type =
    if str_eq type "anthropic"
    then some anthropic
    else if str_eq type "custom_anthropic"
    then some anthropic
    else if str_eq type "openai"
    then some openai
    else if str_eq type "custom_openai"
    then some openai
    else if str_eq type "gemini"
    then some gemini
    else none

-- The fields that the handler reads or sets; `rest` are the others.
pub record CanonicalRequest : Type 0 where
  pub model : String
  pub original_model : String
  pub stream : Bool
  pub rest : Any

pub data Decoded : Type 0 where
  malformed : List ℕ → Decoded
  decoded : CanonicalRequest → Decoded

-- What Stream of a provider does: it writes events, as long as the writes succeed, and returns the
-- usage and an error; if a write fails it returns that error.
pub record Streamed : Type 0 where
  pub events : List (List ℕ)
  pub usage : Option Usage
  pub error : Option Error
  pub write_error : Error

-- A request: `none` is a body whose reading fails.
pub record Request : Type 0 where
  pub method : String
  pub body : Option (List ℕ)
  pub x_api_key : String
  pub authorization : String

-- Code that is not of this file: the connection, json, hashKey, the clock reading by reading, the
-- month, time.ParseDuration, the random number that is drawn in front of the n-th call, whether the
-- context is done within the delay in front of a call, the %q of a text, and Stream of a provider in
-- its n-th call.
pub record Environment : Type 0 where
  pub takes : Takes
  pub encode_error : String → List ℕ → List ℕ
  pub decode_request : List ℕ → Decoded
  pub decode_stop : List ℕ → Option StopPayload
  pub hash : String → String
  pub month : String
  pub now : ℕ → ℕ
  pub parse_duration : String → Option ℤ
  pub random : ℕ → ℕ
  pub is_done : ℤ → ℕ → Bool
  pub quote : String → List ℕ
  pub stream : Provider → ℕ → Account → CanonicalRequest → Streamed
  pub flush_error : Error

pub data Failure : Type 0 where
  key_failure : KeyError → Failure
  upstream : Error → Failure

-- Error() of the sentinel errors.
unfoldable pub key_error_text : KeyError → List ℕ
key_error_text invalid_api_key = codes "invalid api key"
key_error_text key_disabled = codes "api key is disabled"
key_error_text model_not_allowed = codes "model not allowed for this api key"
key_error_text concurrency_limit = codes "concurrency limit exceeded"
key_error_text usage_limit = codes "monthly usage limit exceeded"

unfoldable pub router_error_text : RouterError → List ℕ
router_error_text no_healthy_account = codes "no healthy account available for model"
router_error_text no_group = codes "group not found"

unfoldable pub failure_text : Failure → List ℕ
failure_text (key_failure e) = key_error_text e
failure_text (upstream e) = e.message

-- The variables of ServeHTTP, what they point to, and the calls of Stream so far.
pub record Progress : Type 0 where
  pub router : Router
  pub key_store : KeyStore
  pub response : ResponseState
  pub calls : ℕ
  pub readings : ℕ
  pub request_body : List ℕ
  pub requested_model : String
  pub actual_model : String
  pub stop_reason : String
  pub record_err : List ℕ
  pub api_key : Option ExternalApiKey
  pub record_account : Option Account
  pub record_usage : Usage

-- writeError, with the text kept for the record.
unfoldable pub fail : Environment → ℕ → String → List ℕ → Progress → Progress
fail env status type text h = record h {
  record_err = text;
  response = write_error env.takes env.encode_error status type text h.response;
}

-- The status and the type that writeMappedError chooses.
unfoldable pub mapped : Failure → ℕ × String
mapped (key_failure invalid_api_key) = (401, "authentication_error")
mapped (key_failure key_disabled) = (401, "authentication_error")
mapped (key_failure model_not_allowed) = (403, "permission_error")
mapped (key_failure concurrency_limit) = (429, "rate_limit_error")
mapped (key_failure usage_limit) = (429, "rate_limit_error")
mapped (upstream e) = (400, "invalid_request_error")

unfoldable pub fail_mapped : Environment → Failure → Progress → Progress
fail_mapped env e h = let (status, type) = mapped e in fail env status type (failure_text e) h

-- The answer if no account can be selected: that of the last attempt's error, if there was one.
unfoldable pub fail_unselected : Environment → Option Failure → RouterError → Progress → Progress
fail_unselected env none e h = fail env 400 "invalid_request_error" (router_error_text e) h
fail_unselected env (some (key_failure concurrency_limit)) e h =
    fail_mapped env (key_failure concurrency_limit) h
fail_unselected env (some (key_failure usage_limit)) e h =
    fail_mapped env (key_failure usage_limit) h
fail_unselected env (some last) e h = fail env 502 "api_error" (failure_text last) h
