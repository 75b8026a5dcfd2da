-- ===== src/Handler/Single.antt =====
-- ServeHTTP answers a request once.
use cc_gateway.Domain.Glob.{codes}
use cc_gateway.Base.{
  leb, ℕ, zero, suc, ◌==◌, pos_part, ◌≡◌, refl, sym, subst, length, String, Bool, true, false, List,
  [], Option, none, some, str_eq, take, if◌then◌else◌,
}
use cc_gateway.Domain.{Account, ExternalApiKey, KeyGroup}
use cc_gateway.Router.{Router, Selected, account, refused}
use cc_gateway.KeyStore.{
  KeyStore, KeyError, invalid_api_key, Acquired, unlimited, slot, rejected, Authenticated, admitted,
  denied, acquire_account_concurrency, has_keys, authenticate, check_model_allowed,
  check_usage_limit, acquire_key_concurrency,
}
use cc_gateway.Retry.{extract_retry_config}
use cc_gateway.Handler.Response.{new_response}
use cc_gateway.Handler.{
  Provider, provider_of, CanonicalRequest, Decoded, malformed, decoded, Request, Environment,
  Failure, key_failure, Progress, fail, fail_mapped, max_request_body_bytes,
}
use cc_gateway.Handler.Attempts.{
  Tried, canceled, ended, Next, answered, again, keep_usage, release_inflight, after_tries,
  with_provider, with_slot, on_acquired, on_selected, select_account, attempt, exhausted, attempts,
  max_attempts, exclude,
}
use cc_gateway.Handler.Serve.{
  raw_api_key, run_attempts, with_key_slot, within_usage, with_model, on_authenticated, with_auth,
  serve_model, on_decoded, on_body, serve, start, serve_http,
}
use cc_gateway.Handler.Answers.{
  Answer, fail-Answer, fail_mapped-Answer, fail_unselected-Answer, TriedAnswer, tries-Answer,
  NextAnswer, keep_usage-response, conclude-Answer,
}

module _ (env : Environment) where
  after_tries-Answer :
      (last : Bool) (a : Account) (excluded : List String) (acquired : Acquired)
      (r : Progress × Tried)
      → TriedAnswer env r
      → NextAnswer env (after_tries env last a excluded acquired r)
  unfolding after_tries release_inflight
  after_tries-Answer last a excluded acquired (h, canceled) n =
      fail-Answer env 502 "api_error" _ (release_inflight acquired a h) n
  after_tries-Answer last a excluded acquired (h, ended usage error) x =
      conclude-Answer env last a excluded error
        (keep_usage env usage (release_inflight acquired a h))
        (subst (Answer env) (sym (keep_usage-response env usage (release_inflight acquired a h))) x)

  with_provider-Answer :
      (last : Bool) (a : Account) (excluded : List String) (acquired : Acquired)
      (req : CanonicalRequest) (h : Progress) (o : Option Provider)
      → h.response ≡ new_response
      → NextAnswer env (with_provider env last a excluded acquired req h o)
  unfolding with_provider release_inflight
  with_provider-Answer last a excluded acquired req h none n =
      fail-Answer env 500 "api_error" _ (release_inflight acquired a h) n
  with_provider-Answer last a excluded acquired req h (some provider) n =
      let rc = extract_retry_config env.parse_duration (some a) in
      after_tries-Answer last a excluded acquired _
        (tries-Answer env provider a req rc (pos_part rc.max_retries) 0 h n)

  with_slot-Answer :
      (last : Bool) (a : Account) (excluded : List String) (acquired : Acquired)
      (req : CanonicalRequest) (h : Progress)
      → h.response ≡ new_response
      → NextAnswer env (with_slot env last a excluded acquired req h)
  unfolding with_slot
  with_slot-Answer last a excluded acquired req h n =
      with_provider-Answer last a excluded acquired _ _ (provider_of a.provider) n

  on_acquired-Answer :
      (max : ℕ) (last : Bool) (a : Account) (excluded : List String) (req : CanonicalRequest)
      (h : Progress) (o : Acquired)
      → h.response ≡ new_response
      → NextAnswer env (on_acquired env max last a excluded req h o)
  unfolding on_acquired
  on_acquired-Answer max last a excluded req h unlimited n =
      with_slot-Answer last a excluded unlimited req h n
  on_acquired-Answer max last a excluded req h (slot at) n =
      with_slot-Answer last a excluded (slot at) req h n
  on_acquired-Answer max last a excluded req h (rejected e) n =
      choose (leb max (length (exclude a.id excluded)))
    where
      choose :
          (b : Bool)
          → NextAnswer env (
              if b
              then answered (fail_mapped env (key_failure e) h)
              else again h (exclude a.id excluded) (key_failure e))
      choose true = fail_mapped-Answer env (key_failure e) h n
      choose false = n

  on_selected-Answer :
      (max : ℕ) (last : Bool) (excluded : List String) (before : Option Failure)
      (req : CanonicalRequest) (h : Progress) (s : Selected)
      → h.response ≡ new_response
      → NextAnswer env (on_selected env max last excluded before req h s)
  unfolding on_selected
  on_selected-Answer max last excluded before req h (refused e) n =
      fail_unselected-Answer env before e h n
  on_selected-Answer max last excluded before req h (account a) n =
      on_acquired-Answer max last a excluded req _ (acquire_account_concurrency a.id h.key_store).1
        n

  attempt-Answer :
      (group : Option KeyGroup) (max : ℕ) (last : Bool) (excluded : List String)
      (before : Option Failure) (req : CanonicalRequest) (h : Progress)
      → h.response ≡ new_response
      → NextAnswer env (attempt env group max last excluded before req h)
  unfolding attempt
  attempt-Answer group max last excluded before req h n =
      on_selected-Answer max last excluded before req _
        (select_account (env.now h.readings) group h.requested_model excluded h.router).1 n

  attempts-Answer :
      (group : Option KeyGroup) (max : ℕ) (req : CanonicalRequest) (left : ℕ)
      (excluded : List String) (before : Option Failure) (h : Progress)
      → h.response ≡ new_response
      → Answer env (attempts env group max req left excluded before h).response
  unfolding attempts exhausted
  attempts-Answer group max req zero excluded none h n = fail-Answer env 502 "api_error" _ h n
  attempts-Answer group max req zero excluded (some e) h n = fail_mapped-Answer env e h n
  attempts-Answer group max req (suc left) excluded before h n =
      choose (attempt env group max (left == 0) excluded before req h)
        (attempt-Answer group max (left == 0) excluded before req h n)
        (λ without e h' m. attempts-Answer group max req left without (some e) h' m)
    where
      choose :
          (x : Next)
          → NextAnswer env x
          → ((without : List String) (e : Failure) (h' : Progress)
              → h'.response ≡ new_response
              → Answer env (attempts env group max req left without (some e) h').response)
          → Answer env
              (elim x as (λ y. Progress) [
                | answered h' ↦ h'
                | again h' without e ↦ attempts env group max req left without (some e) h'
              ]).response
      choose (answered h') x later = x
      choose (again h' without e) x later = later without e h' x

  run_attempts-Answer :
      (group : Option KeyGroup) (c : CanonicalRequest) (h : Progress)
      → h.response ≡ new_response
      → Answer env (run_attempts env group c h).response
  run_attempts-Answer group c h n =
      attempts-Answer group (max_attempts group) c (max_attempts group) [] none h n

  with_key_slot-Answer :
      (group : KeyGroup) (c : CanonicalRequest) (h : Progress) (o : Acquired)
      → h.response ≡ new_response
      → Answer env (with_key_slot env group c h o).response
  unfolding with_key_slot
  with_key_slot-Answer group c h (rejected e) n = fail_mapped-Answer env (key_failure e) h n
  with_key_slot-Answer group c h unlimited n = run_attempts-Answer (some group) c h n
  with_key_slot-Answer group c h (slot at) n = run_attempts-Answer (some group) c h n

  within_usage-Answer :
      (key : ExternalApiKey) (group : KeyGroup) (c : CanonicalRequest) (h : Progress)
      (o : Option KeyError)
      → h.response ≡ new_response
      → Answer env (within_usage env key group c h o).response
  unfolding within_usage
  within_usage-Answer key group c h (some e) n = fail_mapped-Answer env (key_failure e) h n
  within_usage-Answer key group c h none n =
      with_key_slot-Answer group c _ (acquire_key_concurrency env.hash key h.key_store).1 n

  with_model-Answer :
      (key : ExternalApiKey) (group : KeyGroup) (c : CanonicalRequest) (h : Progress)
      (o : Option KeyError)
      → h.response ≡ new_response
      → Answer env (with_model env key group c h o).response
  unfolding with_model
  with_model-Answer key group c h (some e) n = fail_mapped-Answer env (key_failure e) h n
  with_model-Answer key group c h none n =
      within_usage-Answer key group c _ (check_usage_limit env.hash env.month key h.key_store).1 n

  on_authenticated-Answer :
      (c : CanonicalRequest) (h : Progress) (o : Authenticated)
      → h.response ≡ new_response
      → Answer env (on_authenticated env c h o).response
  unfolding on_authenticated
  on_authenticated-Answer c h (denied e) n = fail_mapped-Answer env (key_failure e) h n
  on_authenticated-Answer c h (admitted key group) n =
      with_model-Answer key group c _ (check_model_allowed key h.requested_model) n

  serve_model-Answer :
      (req : Request) (c : CanonicalRequest) (h : Progress)
      → h.response ≡ new_response
      → Answer env (serve_model env req c h).response
  unfolding serve_model with_auth
  serve_model-Answer req c h n = choose (has_keys h.key_store) (str_eq (raw_api_key req) "")
    where
      choose :
          (a b : Bool)
          → Answer env
              (if a
                then (if b
                    then fail_mapped env (key_failure invalid_api_key) h
                    else on_authenticated env c h
                        (authenticate env.hash (raw_api_key req) h.key_store))
                else run_attempts env none c h).response
      choose false b = run_attempts-Answer none c h n
      choose true true = fail_mapped-Answer env (key_failure invalid_api_key) h n
      choose true false =
          on_authenticated-Answer c h (authenticate env.hash (raw_api_key req) h.key_store) n

  on_decoded-Answer :
      (req : Request) (h : Progress) (o : Decoded)
      → h.response ≡ new_response
      → Answer env (on_decoded env req h o).response
  unfolding on_decoded
  on_decoded-Answer req h (malformed e) n = fail-Answer env 400 "invalid_request_error" _ h n
  on_decoded-Answer req h (decoded c) n = choose (str_eq c.model "")
    where
      choose :
          (b : Bool)
          → Answer env
              (if b
                then fail env 400 "invalid_request_error" (codes "model is required") h
                else serve_model env req
                    (record c { stream = true })
                    (record h { requested_model = c.model })).response
      choose true = fail-Answer env 400 "invalid_request_error" _ h n
      choose false =
          serve_model-Answer req (record c { stream = true })
            (record h { requested_model = c.model }) n

  on_body-Answer :
      (req : Request) (h : Progress) (o : Option (List ℕ))
      → h.response ≡ new_response
      → Answer env (on_body env req h o).response
  unfolding on_body
  on_body-Answer req h none n = fail-Answer env 400 "invalid_request_error" _ h n
  on_body-Answer req h (some raw) n =
      on_decoded-Answer req _ (env.decode_request (take max_request_body_bytes raw)) n

  serve-Answer :
      (req : Request) (h : Progress)
      → h.response ≡ new_response
      → Answer env (serve env req h).response
  unfolding serve
  serve-Answer req h n = choose (str_eq req.method "POST")
    where
      choose :
          (b : Bool)
          → Answer env
              (if b
                then on_body env req h req.body
                else fail env 405 "method_not_allowed" (codes "only POST is supported") h).response
      choose true = on_body-Answer req h req.body n
      choose false = fail-Answer env 405 "method_not_allowed" _ h n

-- Whatever the request, the state, and what the providers do, over all attempts and retries: the client
-- gets nothing, or one error to which no other byte is added, or the events of one single call of
-- Stream, from their beginning up to some byte, with the status 200; and in the last case what is
-- kept of them for the record is all of them up to the limit, with a mark behind it if there are more.
pub serve_http-Answer :
    (env : Environment) (req : Request) (r : Router) (ks : KeyStore)
    → Answer env (serve_http env req r ks).0.response
unfolding serve_http
serve_http-Answer env req r ks = serve-Answer env req (start r ks) refl
