-- ===== src/Handler/Attempts.antt =====
-- The two loops of ServeHTTP in internal/proxy/handler.go: the attempts with one account after the
-- other, and the retries on the same account.
use cc_gateway.Base.{
  ℕ, zero, suc, pos, pos_part, ltb, leb, ◌==◌, length, drop, String, Bool, true, false, not, ◌||◌,
  List, [], ◌∷◌, ◌++◌, Option, none, some, if◌then◌else◌,
}
use cc_gateway.Domain.{Account, ExternalApiKey, KeyGroup, Usage}
use cc_gateway.Domain.Glob.{codes}
use cc_gateway.Domain.Models.{resolve_model}
use cc_gateway.Router
use cc_gateway.Router.{
  Router, Selected, account, refused, member, select_account_except, select_account_from_all,
  increment_inflight, decrement_inflight,
}
use cc_gateway.KeyStore.{
  Acquired, unlimited, slot, rejected, acquire_account_concurrency, release_account, record_usage,
}
use cc_gateway.Retry.{Error, RetryConfig, extract_retry_config, is_retryable, backoff}
use cc_gateway.Sse.Writer.{Writer, Takes, new_buffered_writer, write_raw_event, flush_buffered}
use cc_gateway.Handler.Response.{ResponseState, write_response}
use cc_gateway.Handler.StopReason.{extract_stop_reason}
use cc_gateway.Handler.{
  Provider, provider_of, CanonicalRequest, Environment, Failure, key_failure, upstream, Progress,
  fail, fail_mapped, fail_unselected, stream_prelude_buffer_bytes,
}

-- What the response makes of a step of the SSE writer on it, which is one Write at most: the bytes
-- that the connection has taken, or a Write that it has refused.
unfoldable pub pass_new : List ℕ → ResponseState → ResponseState
pass_new [] rw = rw
pass_new (b ∷ bs) rw = (write_response (λ sent raw. true) (b ∷ bs) rw).0

unfoldable pub passed : Writer → Writer × Bool → ResponseState → ResponseState
passed w (w', true) rw = pass_new (drop (length w.sent) w'.sent) rw
passed w (w', false) rw = (write_response (λ sent raw. false) [] rw).0

-- The events that a provider writes, until a write fails.
unfoldable pub send_events :
    Takes → List (List ℕ) → Writer → ResponseState → (Writer × ResponseState) × Bool
send_events takes [] w rw = ((w, rw), true)
send_events takes (e ∷ es) w rw =
    let r = write_raw_event takes e w in
    let rw' = passed w r rw in
    let rest = send_events takes es r.0 rw' in if r.1 then rest else ((r.0, rw'), false)

-- What FlushBuffered does after Stream, if there is no error yet.
unfoldable pub flush_unless :
    Takes → Option Error → Error → Writer → ResponseState → ResponseState × Option Error
flush_unless takes (some e) flush_error w rw = (rw, some e)
flush_unless takes none flush_error w rw =
    let r = flush_buffered takes w in (passed w r rw, if r.1 then none else some flush_error)

-- One call of Stream with a new buffered writer, and the flush behind it.
unfoldable pub call_stream :
    Environment
    → Provider
    → Account
    → CanonicalRequest
    → Progress
    → Progress × (Option Usage × Option Error)
call_stream env provider a req h =
    let start = h.response.written in
    let takes : Takes = λ sent raw. env.takes (start ++ sent) raw in
    let s = env.stream provider h.calls a req in
    let sent =
      send_events takes s.events (new_buffered_writer stream_prelude_buffer_bytes) h.response in
    let error = if sent.1 then s.error else some s.write_error in
    let flushed = flush_unless takes error env.flush_error sent.0.0 sent.0.1 in
    (record h { response = flushed.0; calls = suc h.calls }, (s.usage, flushed.1))

-- The retries end with the context, or with an answer of Stream.
pub data Tried : Type 0 where
  canceled : Tried
  ended : Option Usage → Option Error → Tried

-- An error after which the same account is tried again.
unfoldable pub tries_again : RetryConfig → ResponseState → Option Error → Bool
tries_again rc rw none = false
tries_again rc rw (some e) =
    not (ltb 0 rw.write_count || (rw.wrote_header || not (is_retryable rc (some e))))

-- The loop over the retries, with so many left.
unfoldable pub tries :
    Environment
    → Provider
    → Account
    → CanonicalRequest
    → RetryConfig
    → ℕ
    → ℕ
    → Progress
    → Progress × Tried
tries env provider a req rc zero retry h =
    let c = call_stream env provider a req h in (c.0, ended c.1.0 c.1.1)
tries env provider a req rc (suc left) retry h =
    let c = call_stream env provider a req h in
    let later = tries env provider a req rc left (suc retry) c.0 in
    if tries_again rc c.0.response c.1.1
    then (if env.is_done (backoff (env.random c.0.calls) rc (pos (suc retry))) c.0.calls
        then (c.0, canceled)
        else later)
    else (c.0, ended c.1.0 c.1.1)

-- An attempt answers the request, or leaves it to the next one.
pub data Next : Type 0 where
  answered : Progress → Next
  again : Progress → List String → Failure → Next

abbrev pub exclude : String → List String → List String
exclude id excluded = if member id excluded then excluded else id ∷ excluded

abbrev pub charge : Environment → Usage → Option ExternalApiKey → Progress → Progress
charge env u none h = h
charge env u (some key) h = record h {
  key_store = record_usage env.hash env.month key u.input_tokens u.output_tokens h.key_store;
}

unfoldable pub keep_usage : Environment → Option Usage → Progress → Progress
keep_usage env none h = h
keep_usage env (some u) h = charge env u h.api_key (record h { record_usage = u })

abbrev pub keep_stop_reason : Environment → Progress → Progress
keep_stop_reason env h = record h {
  stop_reason = extract_stop_reason env.decode_stop h.response.body;
}

abbrev pub fail_unwritten : Environment → List ℕ → Progress → Progress
fail_unwritten env text h = if h.response.wrote_header then h else fail env 502 "api_error" text h

-- What is behind the retries and the record of the usage.
unfoldable pub conclude :
    Environment → Bool → Account → List String → Option Error → Progress → Next
conclude env last a excluded none h =
    answered (keep_stop_reason env (record h { router = Router.record_success a.id h.router }))
conclude env last a excluded (some e) h =
    let failed = record h {
      router = Router.record_failure (env.now h.readings) a.id h.router;
      readings = suc h.readings;
      record_err = e.message;
    } in
    if ltb 0 h.response.write_count || (h.response.wrote_header || last)
    then answered (keep_stop_reason env (fail_unwritten env e.message failed))
    else again failed (exclude a.id excluded) (upstream e)

-- releaseInflight
unfoldable pub release_inflight : Acquired → Account → Progress → Progress
release_inflight acquired a h = record h {
  router = decrement_inflight a.id h.router;
  key_store = release_account acquired h.key_store;
}

unfoldable pub after_tries :
    Environment → Bool → Account → List String → Acquired → Progress × Tried → Next
after_tries env last a excluded acquired (h, canceled) = answered (
    fail env 502 "api_error" (codes "context cancelled during retry backoff")
      (release_inflight acquired a h))
after_tries env last a excluded acquired (h, ended usage error) =
    conclude env last a excluded error (keep_usage env usage (release_inflight acquired a h))

unfoldable pub with_provider :
    Environment
    → Bool
    → Account
    → List String
    → Acquired
    → CanonicalRequest
    → Progress
    → Option Provider
    → Next
with_provider env last a excluded acquired req h none = answered (
    fail env 500 "api_error" (codes "no provider configured for " ++ env.quote a.provider)
      (release_inflight acquired a h))
with_provider env last a excluded acquired req h (some provider) =
    let rc = extract_retry_config env.parse_duration (some a) in
    after_tries env last a excluded acquired
      (tries env provider a req rc (pos_part rc.max_retries) 0 h)

-- With a slot of the account.
unfoldable pub with_slot :
    Environment → Bool → Account → List String → Acquired → CanonicalRequest → Progress → Next
with_slot env last a excluded acquired req h =
    let model = resolve_model a h.requested_model in
    with_provider env last a excluded acquired
      (record req { original_model = h.requested_model; model = model })
      (record h { router = increment_inflight a.id h.router; actual_model = model })
      (provider_of a.provider)

unfoldable pub on_acquired :
    Environment → ℕ → Bool → Account → List String → CanonicalRequest → Progress → Acquired → Next
on_acquired env max last a excluded req h (rejected e) =
    let without = exclude a.id excluded in
    if leb max (length without)
    then answered (fail_mapped env (key_failure e) h)
    else again h without (key_failure e)
on_acquired env max last a excluded req h unlimited = with_slot env last a excluded unlimited req h
on_acquired env max last a excluded req h (slot at) = with_slot env last a excluded (slot at) req h

unfoldable pub on_selected :
    Environment
    → ℕ
    → Bool
    → List String
    → Option Failure
    → CanonicalRequest
    → Progress
    → Selected
    → Next
on_selected env max last excluded before req h (refused e) =
    answered (fail_unselected env before e h)
on_selected env max last excluded before req h (account a) =
    let taken = acquire_account_concurrency a.id h.key_store in
    on_acquired env max last a excluded req
      (record h { record_account = some a; key_store = taken.0 }) taken.1

-- selectAccount, on a router that there is.
unfoldable pub select_account :
    ℕ → Option KeyGroup → String → List String → Router → Router × Selected
select_account now none model excluded r = select_account_from_all now model excluded r
select_account now (some g) model excluded r = select_account_except now g.id model excluded r

unfoldable pub attempt :
    Environment
    → Option KeyGroup
    → ℕ
    → Bool
    → List String
    → Option Failure
    → CanonicalRequest
    → Progress
    → Next
attempt env group max last excluded before req h =
    let chosen = select_account (env.now h.readings) group h.requested_model excluded h.router in
    on_selected env max last excluded before req
      (record h { router = chosen.0; readings = suc h.readings }) chosen.1

-- What is behind the loop.
unfoldable pub exhausted : Environment → Option Failure → Progress → Progress
exhausted env none h = fail env 502 "api_error" (codes "no account available") h
exhausted env (some e) h = fail_mapped env e h

-- The loop over the attempts, with so many left.
unfoldable pub attempts :
    Environment
    → Option KeyGroup
    → ℕ
    → CanonicalRequest
    → ℕ
    → List String
    → Option Failure
    → Progress
    → Progress
attempts env group max req zero excluded before h = exhausted env before h
attempts env group max req (suc left) excluded before h =
    elim (attempt env group max (left == 0) excluded before req h) [
      | answered h' ↦ h'
      | again h' without e ↦ attempts env group max req left without (some e) h'
    ]

unfoldable pub max_attempts : Option KeyGroup → ℕ
max_attempts none = 2
max_attempts (some g) = if ltb 2 (length g.account_ids) then length g.account_ids else 2
