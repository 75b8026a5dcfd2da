-- ===== src/Handler/Tests.antt =====
-- A request that fails on one account and succeeds on the next.
use cc_gateway.Base.{
  ℕ, zero, suc, ◌^◌, ◌≡◌, refl, String, true, false, [], ◌∷◌, none, some, lookup, insert,
}
use cc_gateway.Domain.{Account}
use cc_gateway.Domain.Value.{nil}
use cc_gateway.Domain.Glob.{codes}
use cc_gateway.Balancer.Tests.{small, large}
use cc_gateway.Retry.{Error, extract_retry_config, read_raw, is_retryable}
use cc_gateway.Router
use cc_gateway.Router.{
  Router, reload, load_accounts, load_account, select_account_from_all, all_candidates, visited,
  unseen, group_ids, ungrouped, candidates, account_candidate, check_account, ask_breaker, member,
  balance_default, get_account_inflight, increment_inflight, decrement_inflight, decrement_counter,
  on_breaker, update_breaker, breaker_config, choice,
}
use cc_gateway.Breaker
use cc_gateway.Balancer.{select, select_round_robin}
use cc_gateway.Domain.Models.{can_serve_model, match_alias, first_glob, resolve_model}
use cc_gateway.Sse.Writer.{
  write_raw_event, write, flush_buffered, flush_held, pass_on, new_buffered_writer,
}
use cc_gateway.Handler.Attempts.{
  attempts, attempt, max_attempts, select_account, on_selected, on_acquired, with_slot,
  with_provider, tries, call_stream, send_events, passed, pass_new, flush_unless, tries_again,
  after_tries, release_inflight, keep_usage, conclude,
}
use cc_gateway.KeyStore
use cc_gateway.KeyStore.{
  KeyStore, has_keys, reload_locked, load_keys, load_semaphores, acquire_account_concurrency,
  acquire_semaphore, release_account,
}
use cc_gateway.Handler.Response.{
  write_response, capture, capture_more, status_of, truncate_for_storage,
  max_recorded_payload_bytes, new_response,
}
use cc_gateway.Handler.Capture.{Keeps, write_all, write_all-Keeps, new_response-Keeps}
use cc_gateway.Handler.StopReason.{extract_stop_reason, split, stop_in, stop_after}
use cc_gateway.Handler.{
  provider_of, Provider, CanonicalRequest, decoded, Streamed, Request, Environment,
}
use cc_gateway.Handler.Serve.{
  start, serve_http, serve, on_body, on_decoded, serve_model, record_request,
}
use cc_gateway.Handler.Answers.{Answer}
use cc_gateway.Handler.Single.{serve_http-Answer}
use cc_gateway.Handler.Balance.{Balanced}
use cc_gateway.Handler.Bound.{run_attempts-calls}
use cc_gateway.Handler.Serve.{run_attempts}
use cc_gateway.Base.{◌≤◌, ◌*◌, ◌+◌}
use cc_gateway.Handler.GivesBack.{serve_http-Balanced}

abbrev error_of : String → Error
error_of text = record { is_canceled = false; is_deadline_exceeded = false; message = codes text }

-- The first call of Stream fails, the others send an event.
abbrev stream : Provider → ℕ → Account → CanonicalRequest → Streamed
stream p zero a req = record {
  events = codes "lost" ∷ [];
  usage = none;
  error = some (error_of "boom");
  write_error = error_of "write";
}
stream p (suc n) a req = record {
  events = codes "data: {}\n\n" ∷ [];
  usage = none;
  error = none;
  write_error = error_of "write";
}

abbrev env : Environment
env = record {
  takes = λ sent raw. true;
  encode_error = λ type message. message;
  decode_request =
      λ raw. decoded (record { model = "gpt-5"; original_model = ""; stream = false; rest = nil });
  decode_stop = λ raw. none;
  hash = λ s. s;
  month = "2025-01";
  now = λ n. n;
  parse_duration = λ s. none;
  random = λ n. 2 ^ 52;
  is_done = λ d n. false;
  quote = codes;
  stream = stream;
  flush_error = error_of "flush";
}

abbrev request : Request
request = record { method = "POST"; body = some (codes "{}"); x_api_key = ""; authorization = "" }

abbrev router : Router
router =
    Router.new (λ s. none)
      (record small { provider = "openai" } ∷ record large { provider = "gemini" } ∷ []) []

abbrev store : KeyStore
store = KeyStore.new (λ s. s) "2025-01" [] [] [] []

serve_http-Answer_example : Answer env (serve_http env request router store).0.response
serve_http-Answer_example = serve_http-Answer env request router store

serve_http-Balanced_example : Balanced (start router store) (serve_http env request router store).0
serve_http-Balanced_example = serve_http-Balanced env request router store

write_all-Keeps_example :
    Keeps (write_all (λ sent raw. true) (codes "data" ∷ codes "more" ∷ []) new_response)
write_all-Keeps_example =
    write_all-Keeps (λ sent raw. true) (codes "data" ∷ codes "more" ∷ []) new_response
      new_response-Keeps

-- The event of the call that failed is not sent, and the record of the request, which has succeeded,
-- keeps the error of the first attempt.
failed_over :
    (serve_http env request router store).0.response.written ≡ codes "data: {}\n\n"
    × ((serve_http env request router store).0.calls ≡ 2)
    × ((serve_http env request router store).1.account_id ≡ "large")
    × ((serve_http env request router store).1.status_code ≡ 200)
    × ((serve_http env request router store).1.error ≡ codes "boom")
unfolding serve_http serve on_body on_decoded serve_model has_keys attempts attempt max_attempts
    select_account on_selected on_acquired with_slot with_provider provider_of tries call_stream
    send_events passed pass_new flush_unless tries_again after_tries release_inflight keep_usage
    conclude record_request write_response capture capture_more status_of truncate_for_storage
    max_recorded_payload_bytes extract_stop_reason split stop_in stop_after KeyStore.new
    reload_locked load_keys load_semaphores KeyStore.load_groups Router.load_groups
    acquire_account_concurrency acquire_semaphore release_account Router.new reload load_accounts
    load_account lookup insert select_account_from_all all_candidates visited unseen group_ids
    ungrouped candidates account_candidate check_account ask_breaker member balance_default select
    select_round_robin get_account_inflight increment_inflight decrement_inflight decrement_counter
    Router.record_success Router.record_failure on_breaker update_breaker breaker_config choice
    Breaker.new Breaker.or_default Breaker.allow can_serve_model match_alias first_glob
    resolve_model extract_retry_config read_raw write_raw_event write flush_buffered flush_held
    pass_on new_buffered_writer is_retryable
failed_over = (refl, refl, refl, refl, refl)

run_attempts-calls_example :
    (run_attempts env none
      (record { model = "gpt-5"; original_model = ""; stream = true; rest = nil })
      (start router store)).calls
    ≤ 0 + 11 * 2
run_attempts-calls_example =
    run_attempts-calls env none
      (record { model = "gpt-5"; original_model = ""; stream = true; rest = nil })
      (start router store)
