-- ===== src/Handler/GivesBack.antt =====
-- ServeHTTP gives back all that it takes.
use cc_gateway.Domain.Glob.{codes}
use cc_gateway.Base.{
  leb, ℕ, zero, suc, ◌==◌, ◌≡◌, refl, ap, ◌∙◌, length, String, Bool, true, false, List, [], Option,
  none, some, str_eq, take, if◌then◌else◌,
}
use cc_gateway.Domain.{Account, ExternalApiKey, KeyGroup}
use cc_gateway.Router.{Router, Selected, account, refused}
use cc_gateway.KeyStore.{
  KeyStore, KeyError, invalid_api_key, Acquired, unlimited, slot, rejected, Authenticated, admitted,
  denied, acquire_account_concurrency, has_keys, authenticate, check_model_allowed,
  check_usage_limit, acquire_key_concurrency,
}
use cc_gateway.Handler.Response.{truncate_for_storage}
use cc_gateway.Handler.{
  CanonicalRequest, Decoded, malformed, decoded, Request, Environment, Failure, key_failure,
  Progress, fail, fail_mapped, max_request_body_bytes,
}
use cc_gateway.Handler.Attempts.{
  Next, answered, again, on_acquired, on_selected, attempt, exhausted, attempts, max_attempts,
  exclude,
}
use cc_gateway.Handler.Serve.{
  raw_api_key, run_attempts, with_key_slot, within_usage, with_model, on_authenticated, with_auth,
  serve_model, on_decoded, on_body, serve, start, serve_http,
}
use cc_gateway.KeyStore.{release_account, release_key}
use cc_gateway.Router.{get_account_inflight}
use cc_gateway.Handler.Counts.{
  SameSlots, SameSlots-refl, SameSlots-trans, select_account-counts, check_usage_limit-SameSlots,
  acquire_key-SameSlots, acquire_account-SameSlots,
}
use cc_gateway.Handler.Balance.{
  Balanced, Balanced-refl, only, recounted, fail-Balanced, fail_mapped-Balanced,
  fail_unselected-Balanced, NextBalanced, with_slot-Balanced,
}

module _ (env : Environment) where
  on_acquired-Balanced :
      (max : ℕ) (last : Bool) (a : Account) (excluded : List String) (req : CanonicalRequest)
      (h i : Progress) (o : Acquired)
      → ((id : String) → get_account_inflight i.router id ≡ get_account_inflight h.router id)
      → SameSlots h.key_store (release_account o i.key_store)
      → NextBalanced h (on_acquired env max last a excluded req i o)
  unfolding on_acquired release_account
  on_acquired-Balanced max last a excluded req h i unlimited c s =
      with_slot-Balanced env last a excluded unlimited req h i c s
  on_acquired-Balanced max last a excluded req h i (slot at) c s =
      with_slot-Balanced env last a excluded (slot at) req h i c s
  on_acquired-Balanced max last a excluded req h i (rejected e) c s =
      choose (leb max (length (exclude a.id excluded)))
    where
      kept : Balanced h i
      kept = record { in_flight = c; slots = s }

      choose :
          (x : Bool)
          → NextBalanced h (
              if x
              then answered (fail_mapped env (key_failure e) i)
              else again i (exclude a.id excluded) (key_failure e))
      choose true = fail_mapped-Balanced env (key_failure e) h i kept
      choose false = kept

  on_selected-Balanced :
      (max : ℕ) (last : Bool) (excluded : List String) (before : Option Failure)
      (req : CanonicalRequest) (h i : Progress) (s : Selected)
      → Balanced h i
      → NextBalanced h (on_selected env max last excluded before req i s)
  unfolding on_selected
  on_selected-Balanced max last excluded before req h i (refused e) b =
      fail_unselected-Balanced env before e h i b
  on_selected-Balanced max last excluded before req h i (account a) b =
      on_acquired-Balanced max last a excluded req h _
        (acquire_account_concurrency a.id i.key_store).1 b.in_flight
        (SameSlots-trans b.slots (acquire_account-SameSlots a.id i.key_store))

  attempt-Balanced :
      (group : Option KeyGroup) (max : ℕ) (last : Bool) (excluded : List String)
      (before : Option Failure) (req : CanonicalRequest) (h i : Progress)
      → Balanced h i
      → NextBalanced h (attempt env group max last excluded before req i)
  unfolding attempt
  attempt-Balanced group max last excluded before req h i b =
      on_selected-Balanced max last excluded before req h _ _ (
        recounted h i _ b
          (select_account-counts (env.now i.readings) group i.requested_model excluded i.router)
          refl)

  attempts-Balanced :
      (group : Option KeyGroup) (max : ℕ) (req : CanonicalRequest) (left : ℕ)
      (excluded : List String) (before : Option Failure) (h i : Progress)
      → Balanced h i
      → Balanced h (attempts env group max req left excluded before i)
  unfolding attempts exhausted
  attempts-Balanced group max req zero excluded none h i b =
      fail-Balanced env 502 "api_error" _ h i b
  attempts-Balanced group max req zero excluded (some e) h i b = fail_mapped-Balanced env e h i b
  attempts-Balanced group max req (suc left) excluded before h i b =
      choose (attempt env group max (left == 0) excluded before req i)
        (attempt-Balanced group max (left == 0) excluded before req h i b)
        (λ without e j c. attempts-Balanced group max req left without (some e) h j c)
    where
      choose :
          (x : Next)
          → NextBalanced h x
          → ((without : List String) (e : Failure) (j : Progress)
              → Balanced h j
              → Balanced h (attempts env group max req left without (some e) j))
          → Balanced h (elim x as (λ y. Progress) [
            | answered j ↦ j
            | again j without e ↦ attempts env group max req left without (some e) j
          ])
      choose (answered j) c later = c
      choose (again j without e) c later = later without e j c

  run_attempts-Balanced :
      (group : Option KeyGroup) (c : CanonicalRequest) (h i : Progress)
      → Balanced h i
      → Balanced h (run_attempts env group c i)
  run_attempts-Balanced group c h i b =
      attempts-Balanced group (max_attempts group) c (max_attempts group) [] none h i b

  -- The key's slot is given back at the end.
  with_key_slot-Balanced :
      (group : KeyGroup) (c : CanonicalRequest) (h i held : Progress) (o : Acquired)
      → Balanced h i
      → held.router ≡ i.router
      → ((ks : KeyStore) → SameSlots held.key_store ks → SameSlots i.key_store (release_key o ks))
      → Balanced h (with_key_slot env group c held o)
  unfolding with_key_slot release_key
  with_key_slot-Balanced group c h i held (rejected e) b r s =
      fail_mapped-Balanced env (key_failure e) h held (record {
        in_flight = λ id. ap (λ (x : Router). get_account_inflight x id) r ∙ b.in_flight id;
        slots = SameSlots-trans b.slots (s held.key_store (SameSlots-refl held.key_store));
      })
  with_key_slot-Balanced group c h i held unlimited b r s =
      let run = run_attempts-Balanced (some group) c held held (Balanced-refl held) in
      record {
        in_flight = λ id.
            run.in_flight id ∙ ap (λ (x : Router). get_account_inflight x id) r ∙ b.in_flight id;
        slots = SameSlots-trans b.slots (s _ run.slots);
      }
  with_key_slot-Balanced group c h i held (slot at) b r s =
      let run = run_attempts-Balanced (some group) c held held (Balanced-refl held) in
      record {
        in_flight = λ id.
            run.in_flight id ∙ ap (λ (x : Router). get_account_inflight x id) r ∙ b.in_flight id;
        slots = SameSlots-trans b.slots (s _ run.slots);
      }

  within_usage-Balanced :
      (key : ExternalApiKey) (group : KeyGroup) (c : CanonicalRequest) (h i : Progress)
      (o : Option KeyError)
      → Balanced h i
      → Balanced h (within_usage env key group c i o)
  unfolding within_usage
  within_usage-Balanced key group c h i (some e) b = fail_mapped-Balanced env (key_failure e) h i b
  within_usage-Balanced key group c h i none b =
      with_key_slot-Balanced group c h i _ (acquire_key_concurrency env.hash key i.key_store).1 b
        refl (λ ks s. acquire_key-SameSlots env.hash key i.key_store ks s)

  with_model-Balanced :
      (key : ExternalApiKey) (group : KeyGroup) (c : CanonicalRequest) (h i : Progress)
      (o : Option KeyError)
      → Balanced h i
      → Balanced h (with_model env key group c i o)
  unfolding with_model
  with_model-Balanced key group c h i (some e) b = fail_mapped-Balanced env (key_failure e) h i b
  with_model-Balanced key group c h i none b =
      within_usage-Balanced key group c h _ (check_usage_limit env.hash env.month key i.key_store).1
        (record {
          in_flight = b.in_flight;
          slots =
              SameSlots-trans b.slots
                (check_usage_limit-SameSlots env.hash env.month key i.key_store);
        })

  on_authenticated-Balanced :
      (c : CanonicalRequest) (h i : Progress) (o : Authenticated)
      → Balanced h i
      → Balanced h (on_authenticated env c i o)
  unfolding on_authenticated
  on_authenticated-Balanced c h i (denied e) b = fail_mapped-Balanced env (key_failure e) h i b
  on_authenticated-Balanced c h i (admitted key group) b =
      with_model-Balanced key group c h _ (check_model_allowed key i.requested_model)
        (only h i (record i { api_key = some key }) b refl refl)

  serve_model-Balanced :
      (req : Request) (c : CanonicalRequest) (h i : Progress)
      → Balanced h i
      → Balanced h (serve_model env req c i)
  unfolding serve_model with_auth
  serve_model-Balanced req c h i b = choose (has_keys i.key_store) (str_eq (raw_api_key req) "")
    where
      choose :
          (x y : Bool)
          → Balanced h (
              if x
              then (if y
                  then fail_mapped env (key_failure invalid_api_key) i
                  else on_authenticated env c i
                      (authenticate env.hash (raw_api_key req) i.key_store))
              else run_attempts env none c i)
      choose false y = run_attempts-Balanced none c h i b
      choose true true = fail_mapped-Balanced env (key_failure invalid_api_key) h i b
      choose true false =
          on_authenticated-Balanced c h i (authenticate env.hash (raw_api_key req) i.key_store) b

  on_decoded-Balanced :
      (req : Request) (h i : Progress) (o : Decoded)
      → Balanced h i
      → Balanced h (on_decoded env req i o)
  unfolding on_decoded
  on_decoded-Balanced req h i (malformed e) b =
      fail-Balanced env 400 "invalid_request_error" _ h i b
  on_decoded-Balanced req h i (decoded c) b = choose (str_eq c.model "")
    where
      named : Progress
      named = record i { requested_model = c.model }

      choose :
          (x : Bool)
          → Balanced h (
              if x
              then fail env 400 "invalid_request_error" (codes "model is required") i
              else serve_model env req (record c { stream = true }) named)
      choose true = fail-Balanced env 400 "invalid_request_error" _ h i b
      choose false =
          serve_model-Balanced req (record c { stream = true }) h named (only h i named b refl refl)

  on_body-Balanced :
      (req : Request) (h i : Progress) (o : Option (List ℕ))
      → Balanced h i
      → Balanced h (on_body env req i o)
  unfolding on_body
  on_body-Balanced req h i none b = fail-Balanced env 400 "invalid_request_error" _ h i b
  on_body-Balanced req h i (some raw) b =
      on_decoded-Balanced req h _ (env.decode_request (take max_request_body_bytes raw)) (
        only h i
          (record i { request_body = truncate_for_storage (take max_request_body_bytes raw) }) b
          refl refl)

  serve-Balanced : (req : Request) (h : Progress) → Balanced h (serve env req h)
  unfolding serve
  serve-Balanced req h = choose (str_eq req.method "POST")
    where
      choose :
          (x : Bool)
          → Balanced h (
              if x
              then on_body env req h req.body
              else fail env 405 "method_not_allowed" (codes "only POST is supported") h)
      choose true = on_body-Balanced req h h req.body (Balanced-refl h)
      choose false = fail-Balanced env 405 "method_not_allowed" _ h h (Balanced-refl h)

-- On every path of a request, errors, retries and the end of its context included, and with no other
-- request in between: the counts of all accounts' requests in flight, of all keys' slots and of all
-- accounts' slots are at its end what they were at its beginning.
pub serve_http-Balanced :
    (env : Environment) (req : Request) (r : Router) (ks : KeyStore)
    → Balanced (start r ks) (serve_http env req r ks).0
unfolding serve_http
serve_http-Balanced env req r ks = serve-Balanced env req (start r ks)
