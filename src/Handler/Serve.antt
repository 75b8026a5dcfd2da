-- ===== src/Handler/Serve.antt =====
-- ServeHTTP of internal/proxy/handler.go around its loops, and the record of the request.
use cc_gateway.Base.{
  ℕ, pos, take, String, true, List, [], ◌++◌, Option, none, some, str_eq, if◌then◌else◌,
  strip_prefix,
}
use cc_gateway.Domain.{Account, ExternalApiKey, KeyGroup, Usage}
use cc_gateway.Domain.Glob.{codes}
use cc_gateway.Accounting.Recorder.{RequestRecord}
use cc_gateway.Router.{Router}
use cc_gateway.KeyStore.{
  KeyStore, KeyError, invalid_api_key, Authenticated, admitted, denied, Acquired, unlimited, slot,
  rejected, has_keys, authenticate, check_model_allowed, check_usage_limit, acquire_key_concurrency,
  release_key,
}
use cc_gateway.Handler.Response.{new_response, truncate_for_storage, status_of}
use cc_gateway.Handler.StopReason.{extract_stop_reason}
use cc_gateway.Handler.{
  CanonicalRequest, Decoded, malformed, decoded, Request, Environment, key_failure, Progress, fail,
  fail_mapped, max_request_body_bytes,
}
use cc_gateway.Handler.Attempts.{attempts, max_attempts}

abbrev behind_bearer : Option String → String
behind_bearer none = ""
behind_bearer (some key) = key

unfoldable pub raw_api_key : Request → String
raw_api_key req =
    if str_eq req.x_api_key ""
    then behind_bearer (strip_prefix "Bearer " req.authorization)
    else req.x_api_key

abbrev pub run_attempts : Environment → Option KeyGroup → CanonicalRequest → Progress → Progress
run_attempts env group c h =
    attempts env group (max_attempts group) c (max_attempts group) [] none h

abbrev give_back : Acquired → Progress → Progress
give_back acquired h = record h { key_store = release_key acquired h.key_store }

-- With the answer of AcquireKeyConcurrency; the slot is given back at the end.
unfoldable pub with_key_slot :
    Environment → KeyGroup → CanonicalRequest → Progress → Acquired → Progress
with_key_slot env group c h (rejected e) = fail_mapped env (key_failure e) h
with_key_slot env group c h unlimited = give_back unlimited (run_attempts env (some group) c h)
with_key_slot env group c h (slot at) = give_back (slot at) (run_attempts env (some group) c h)

-- With the answer of CheckUsageLimit.
unfoldable pub within_usage :
    Environment
    → ExternalApiKey
    → KeyGroup
    → CanonicalRequest
    → Progress
    → Option KeyError
    → Progress
within_usage env key group c h (some e) = fail_mapped env (key_failure e) h
within_usage env key group c h none =
    let taken = acquire_key_concurrency env.hash key h.key_store in
    with_key_slot env group c (record h { key_store = taken.0 }) taken.1

-- With the answer of CheckModelAllowed.
unfoldable pub with_model :
    Environment
    → ExternalApiKey
    → KeyGroup
    → CanonicalRequest
    → Progress
    → Option KeyError
    → Progress
with_model env key group c h (some e) = fail_mapped env (key_failure e) h
with_model env key group c h none =
    let checked = check_usage_limit env.hash env.month key h.key_store in
    within_usage env key group c (record h { key_store = checked.0 }) checked.1

unfoldable pub on_authenticated :
    Environment → CanonicalRequest → Progress → Authenticated → Progress
on_authenticated env c h (denied e) = fail_mapped env (key_failure e) h
on_authenticated env c h (admitted key group) =
    with_model env key group c (record h { api_key = some key })
      (check_model_allowed key h.requested_model)

unfoldable pub with_auth : Environment → Request → CanonicalRequest → Progress → Progress
with_auth env req c h =
    if str_eq (raw_api_key req) ""
    then fail_mapped env (key_failure invalid_api_key) h
    else on_authenticated env c h (authenticate env.hash (raw_api_key req) h.key_store)

-- authEnabled is that the store has keys.
unfoldable pub serve_model : Environment → Request → CanonicalRequest → Progress → Progress
serve_model env req c h =
    if has_keys h.key_store then with_auth env req c h else run_attempts env none c h

unfoldable pub on_decoded : Environment → Request → Progress → Decoded → Progress
on_decoded env req h (malformed e) =
    fail env 400 "invalid_request_error" (codes "invalid JSON: " ++ e) h
on_decoded env req h (decoded c) =
    if str_eq c.model ""
    then fail env 400 "invalid_request_error" (codes "model is required") h
    else serve_model env req (record c { stream = true }) (record h { requested_model = c.model })

unfoldable pub on_body : Environment → Request → Progress → Option (List ℕ) → Progress
on_body env req h none =
    fail env 400 "invalid_request_error" (codes "failed to read request body") h
on_body env req h (some raw) =
    let body = take max_request_body_bytes raw in
    on_decoded env req (record h { request_body = truncate_for_storage body })
      (env.decode_request body)

unfoldable pub serve : Environment → Request → Progress → Progress
serve env req h =
    if str_eq req.method "POST"
    then on_body env req h req.body
    else fail env 405 "method_not_allowed" (codes "only POST is supported") h

abbrev no_usage : Usage
no_usage = record {
  input_tokens = pos 0;
  output_tokens = pos 0;
  thinking_tokens = pos 0;
  cache_read_tokens = pos 0;
  cache_write_tokens = pos 0;
}

abbrev pub start : Router → KeyStore → Progress
start r ks = record {
  router = r;
  key_store = ks;
  response = new_response;
  calls = 0;
  readings = 0;
  request_body = [];
  requested_model = "";
  actual_model = "";
  stop_reason = "";
  record_err = [];
  api_key = none;
  record_account = none;
  record_usage = no_usage;
}

abbrev of_key : (ExternalApiKey → String) → Option ExternalApiKey → String
of_key f none = ""
of_key f (some key) = f key

abbrev of_account : (Account → String) → Option Account → String
of_account f none = ""
of_account f (some a) = f a

unfoldable pub record_request : Environment → Progress → RequestRecord
record_request env h = record {
  key_id = of_key (λ k. k.id) h.api_key;
  key_hint = of_key (λ k. k.key_hint) h.api_key;
  account_id = of_account (λ a. a.id) h.record_account;
  account_name = of_account (λ a. a.name) h.record_account;
  provider = of_account (λ a. a.provider) h.record_account;
  model_requested = h.requested_model;
  model_actual = h.actual_model;
  usage = h.record_usage;
  stop_reason =
      if str_eq h.stop_reason ""
      then extract_stop_reason env.decode_stop h.response.body
      else h.stop_reason;
  error = h.record_err;
  status_code = status_of h.response;
  request_body = h.request_body;
  response_body = h.response.body;
}

-- The end of the request, and its record.
unfoldable pub serve_http : Environment → Request → Router → KeyStore → Progress × RequestRecord
serve_http env req r ks = let h = serve env req (start r ks) in (h, record_request env h)
