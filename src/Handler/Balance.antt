-- ===== src/Handler/Balance.antt =====
-- Whatever a request takes, it gives back.
use cc_gateway.Base.{
  ℕ, zero, suc, pos, pos_part, ◌≡◌, refl, sym, ap, ◌∙◌, subst, ltb, String, Bool, true, false, ◌||◌,
  List, Option, none, some, if◌then◌else◌, arith,
}
use cc_gateway.Domain.{Account, ExternalApiKey, Usage}
use cc_gateway.Router
use cc_gateway.Domain.Models.{resolve_model}
use cc_gateway.Router.{Router, RouterError, Selected, account, refused, increment_inflight}
use cc_gateway.KeyStore.{
  KeyStore, concurrency_limit, usage_limit, invalid_api_key, key_disabled, model_not_allowed,
  Acquired,
}
use cc_gateway.Retry.{Error, RetryConfig, extract_retry_config, backoff}
use cc_gateway.Handler.{
  Provider, provider_of, CanonicalRequest, Environment, Failure, key_failure, upstream, Progress,
  fail, fail_mapped, fail_unselected, mapped, failure_text,
}
use cc_gateway.Handler.Attempts.{
  call_stream, Tried, canceled, ended, tries_again, tries, Next, answered, again, keep_usage,
  charge, keep_stop_reason, conclude, release_inflight, after_tries, with_provider, with_slot,
  exclude,
}
use cc_gateway.KeyStore.{release_account}
use cc_gateway.Router.{get_account_inflight, decrement_inflight, record_success, record_failure}
use cc_gateway.Handler.Attempts.{charge}
use cc_gateway.Handler.Counts.{
  SameSlots, SameSlots-refl, SameSlots-trans, on_breaker-counts, decrement-increment,
  record_usage-SameSlots,
}

-- The counts of requests in flight and of slots in use are the same.
pub record Balanced (h h' : Progress) : Type 0 where
  pub in_flight :
      (id : String) → get_account_inflight h'.router id ≡ get_account_inflight h.router id
  pub slots : SameSlots h.key_store h'.key_store

pub Balanced-refl : (h : Progress) → Balanced h h
Balanced-refl h = record { in_flight = λ id. refl; slots = SameSlots-refl h.key_store }

pub Balanced-trans : (h i j : Progress) → Balanced h i → Balanced i j → Balanced h j
Balanced-trans h i j p q = record {
  in_flight = λ id. q.in_flight id ∙ p.in_flight id;
  slots = SameSlots-trans p.slots q.slots;
}

-- Only the router and the key store count.
pub only :
    (h i j : Progress)
    → Balanced h i
    → j.router ≡ i.router
    → j.key_store ≡ i.key_store
    → Balanced h j
only h i j p r k = record {
  in_flight = λ id. ap (λ (x : Router). get_account_inflight x id) r ∙ p.in_flight id;
  slots = subst (SameSlots h.key_store) (sym k) p.slots;
}

same_counts :
    (r r' : Router) (id : String)
    → r'.inflight_counts ≡ r.inflight_counts
    → get_account_inflight r' id ≡ get_account_inflight r id
unfolding get_account_inflight
same_counts r r' id e = ground arith

-- The router has asked or told its breakers.
pub recounted :
    (h i j : Progress)
    → Balanced h i
    → j.router.inflight_counts ≡ i.router.inflight_counts
    → j.key_store ≡ i.key_store
    → Balanced h j
recounted h i j p r k = record {
  in_flight = λ id. same_counts i.router j.router id r ∙ p.in_flight id;
  slots = subst (SameSlots h.key_store) (sym k) p.slots;
}

abbrev pub NextBalanced : Progress → Next → Type 0
NextBalanced h (answered i) = Balanced h i
NextBalanced h (again i without e) = Balanced h i

module _ (env : Environment) where
  pub fail-Balanced :
      (status : ℕ) (type : String) (text : List ℕ) (h i : Progress)
      → Balanced h i
      → Balanced h (fail env status type text i)
  unfolding fail
  fail-Balanced status type text h i b = only h i (fail env status type text i) b refl refl

  pub fail_mapped-Balanced :
      (e : Failure) (h i : Progress) → Balanced h i → Balanced h (fail_mapped env e i)
  unfolding fail_mapped
  fail_mapped-Balanced e h i b = fail-Balanced (mapped e).0 (mapped e).1 (failure_text e) h i b

  pub fail_unselected-Balanced :
      (before : Option Failure) (e : RouterError) (h i : Progress)
      → Balanced h i
      → Balanced h (fail_unselected env before e i)
  unfolding fail_unselected
  fail_unselected-Balanced none e h i b = fail-Balanced _ _ _ h i b
  fail_unselected-Balanced (some (key_failure concurrency_limit)) e h i b =
      fail_mapped-Balanced _ h i b
  fail_unselected-Balanced (some (key_failure usage_limit)) e h i b = fail_mapped-Balanced _ h i b
  fail_unselected-Balanced (some (key_failure invalid_api_key)) e h i b = fail-Balanced _ _ _ h i b
  fail_unselected-Balanced (some (key_failure key_disabled)) e h i b = fail-Balanced _ _ _ h i b
  fail_unselected-Balanced (some (key_failure model_not_allowed)) e h i b =
      fail-Balanced _ _ _ h i b
  fail_unselected-Balanced (some (upstream x)) e h i b = fail-Balanced _ _ _ h i b

  -- Calls of Stream leave the router and the key store alone.
  tries-same :
      (provider : Provider) (a : Account) (req : CanonicalRequest) (rc : RetryConfig)
      (left retry : ℕ) (h : Progress)
      → ((tries env provider a req rc left retry h).0.router ≡ h.router)
        × ((tries env provider a req rc left retry h).0.key_store ≡ h.key_store)
  unfolding tries call_stream
  tries-same provider a req rc zero retry h = (refl, refl)
  tries-same provider a req rc (suc left) retry h =
      choose (tries_again rc c.0.response c.1.1)
        (env.is_done (backoff (env.random c.0.calls) rc (pos (suc retry))) c.0.calls)
        (tries-same provider a req rc left (suc retry) c.0)
    where
      c : Progress × (Option Usage × Option Error)
      c = call_stream env provider a req h

      later : Progress × Tried
      later = tries env provider a req rc left (suc retry) c.0

      after : Bool → Bool → Progress × Tried
      after b done =
          if b then (if done then (c.0, canceled) else later) else (c.0, ended c.1.0 c.1.1)

      choose :
          (b done : Bool)
          → (later.0.router ≡ h.router) × (later.0.key_store ≡ h.key_store)
          → ((after b done).0.router ≡ h.router) × ((after b done).0.key_store ≡ h.key_store)
      choose false done s = (refl, refl)
      choose true true s = (refl, refl)
      choose true false s = s

  keep_usage-Balanced : (u : Option Usage) (h : Progress) → Balanced h (keep_usage env u h)
  unfolding keep_usage
  keep_usage-Balanced none h = Balanced-refl h
  keep_usage-Balanced (some u) h = charged h.api_key
    where
      charged :
          (k : Option ExternalApiKey) → Balanced h (charge env u k (record h { record_usage = u }))
      charged none = record { in_flight = λ id. refl; slots = SameSlots-refl h.key_store }
      charged (some key) = record {
        in_flight = λ id. refl;
        slots =
            record_usage-SameSlots env.hash env.month key u.input_tokens u.output_tokens
              h.key_store;
      }

  conclude-Balanced :
      (last : Bool) (a : Account) (excluded : List String) (e : Option Error) (h i : Progress)
      → Balanced h i
      → NextBalanced h (conclude env last a excluded e i)
  unfolding conclude record_success record_failure
  conclude-Balanced last a excluded none h i b =
      recounted h i _ b (on_breaker-counts _ a.id i.router) refl
  conclude-Balanced last a excluded (some e) h i b =
      choose (ltb 0 i.response.write_count || (i.response.wrote_header || last))
        i.response.wrote_header
    where
      marked : Progress
      marked = record i {
        router = Router.record_failure (env.now i.readings) a.id i.router;
        readings = suc i.readings;
        record_err = e.message;
      }

      told : Balanced h marked
      told = recounted h i marked b (on_breaker-counts _ a.id i.router) refl

      choose :
          (x y : Bool)
          → NextBalanced h (
              if x
              then answered (
                  keep_stop_reason env
                    (if y then marked else fail env 502 "api_error" e.message marked))
              else again marked (exclude a.id excluded) (upstream e))
      choose true true = only h marked _ told refl refl
      choose true false =
          only h _ _ (fail-Balanced 502 "api_error" e.message h marked told) refl refl
      choose false y = told

  after_tries-Balanced :
      (last : Bool) (a : Account) (excluded : List String) (acquired : Acquired) (h : Progress)
      (r : Progress × Tried)
      → Balanced h (release_inflight acquired a r.0)
      → NextBalanced h (after_tries env last a excluded acquired r)
  unfolding after_tries
  after_tries-Balanced last a excluded acquired h (i, canceled) b =
      fail-Balanced 502 "api_error" _ h _ b
  after_tries-Balanced last a excluded acquired h (i, ended usage error) b =
      conclude-Balanced last a excluded error h _
        (Balanced-trans h (release_inflight acquired a i) _ b (keep_usage-Balanced usage _))

  -- The account's slot and its count are given back.
  released :
      (a : Account) (acquired : Acquired) (h i j : Progress)
      → ((id : String) → get_account_inflight i.router id ≡ get_account_inflight h.router id)
      → SameSlots h.key_store (release_account acquired i.key_store)
      → j.router ≡ increment_inflight a.id i.router
      → j.key_store ≡ i.key_store
      → Balanced h (release_inflight acquired a j)
  unfolding release_inflight
  released a acquired h i j c s r k = record {
    in_flight = λ id.
        ap (λ (x : Router). get_account_inflight (decrement_inflight a.id x) id) r
        ∙ decrement-increment a.id id i.router
        ∙ c id;
    slots = subst (λ (x : KeyStore). SameSlots h.key_store (release_account acquired x)) (sym k) s;
  }

  pub with_slot-Balanced :
      (last : Bool) (a : Account) (excluded : List String) (acquired : Acquired)
      (req : CanonicalRequest) (h i : Progress)
      → ((id : String) → get_account_inflight i.router id ≡ get_account_inflight h.router id)
      → SameSlots h.key_store (release_account acquired i.key_store)
      → NextBalanced h (with_slot env last a excluded acquired req i)
  unfolding with_slot with_provider
  with_slot-Balanced last a excluded acquired req h i c s = by_provider (provider_of a.provider)
    where
      model : String
      model = resolve_model a i.requested_model

      begun : Progress
      begun = record i { router = increment_inflight a.id i.router; actual_model = model }

      named : CanonicalRequest
      named = record req { original_model = i.requested_model; model = model }

      by_provider :
          (o : Option Provider)
          → NextBalanced h (with_provider env last a excluded acquired named begun o)
      by_provider none =
          fail-Balanced 500 "api_error" _ h _ (released a acquired h i begun c s refl refl)
      by_provider (some provider) =
          let rc = extract_retry_config env.parse_duration (some a) in
          let (r, k) = tries-same provider a named rc (pos_part rc.max_retries) 0 begun in
          after_tries-Balanced last a excluded acquired h _ (released a acquired h i _ c s r k)
