-- ===== src/Handler/Bound.antt =====
-- How often a request calls Stream.
use Prim.Native.Nat.{max}
use cc_gateway.Base.{
  ℤ, negsuc, ◌≤ℤ◌, ℕ, zero, suc, ◌+◌, ◌*◌, ◌≤◌, ◌==◌, pos, pos_part, ◌≡◌, ◌⊎◌, inl, inr, refl, sym,
  ◌∙◌, subst, ltb, leb, length, String, Bool, true, false, ◌||◌, List, [], Option, none, some,
  if◌then◌else◌, arith,
}
use cc_gateway.Domain.{Account, ExternalApiKey, KeyGroup, Usage}
use cc_gateway.Domain.Models.{resolve_model}
use cc_gateway.Router
use cc_gateway.Router.{Router, RouterError, Selected, account, refused, increment_inflight}
use cc_gateway.KeyStore.{
  concurrency_limit, usage_limit, invalid_api_key, key_disabled, model_not_allowed, Acquired,
  unlimited, slot, rejected, acquire_account_concurrency,
}
use cc_gateway.Retry.{Error, RetryConfig, no_retries, extract_retry_config, backoff}
use cc_gateway.Retry.Bounds.{IsUsable, extract_retry_config-IsUsable}
use cc_gateway.Handler.{
  Provider, provider_of, CanonicalRequest, Environment, Failure, key_failure, upstream, Progress,
  fail, fail_mapped, fail_unselected,
}
use cc_gateway.Handler.Attempts.{
  call_stream, Tried, canceled, ended, tries_again, tries, Next, answered, again, keep_usage,
  charge, keep_stop_reason, conclude, release_inflight, after_tries, with_provider, with_slot,
  on_acquired, on_selected, select_account, attempt, exhausted, attempts, max_attempts, exclude,
}
use cc_gateway.Handler.Serve.{run_attempts}

-- How many accounts a request may come to: two for a key without a group, and as many as its group
-- has, but two at least.
abbrev pub accounts_tried : Option KeyGroup → ℕ
accounts_tried none = 2
accounts_tried (some g) = max (length g.account_ids) 2

max_attempts-accounts_tried : (group : Option KeyGroup) → max_attempts group ≡ accounts_tried group
unfolding max_attempts
max_attempts-accounts_tried none = refl
max_attempts-accounts_tried (some g) = ground arith

pos_part_ten : (n : ℤ) → n ≤ℤ pos 10 → pos_part n ≤ 10
pos_part_ten (pos n) h = omega arith
pos_part_ten (negsuc n) h = omega arith

module _ (env : Environment) where
  -- One call, and one more for each retry that is left.
  tries-calls :
      (provider : Provider) (a : Account) (req : CanonicalRequest) (rc : RetryConfig)
      (left retry : ℕ) (h : Progress)
      → (tries env provider a req rc left retry h).0.calls ≤ h.calls + suc left
  unfolding tries call_stream
  tries-calls provider a req rc zero retry h = omega arith
  tries-calls provider a req rc (suc left) retry h =
      choose (tries_again rc c.0.response c.1.1)
        (env.is_done (backoff (env.random c.0.calls) rc (pos (suc retry))) c.0.calls)
        (tries-calls provider a req rc left (suc retry) c.0)
    where
      c : Progress × (Option Usage × Option Error)
      c = call_stream env provider a req h

      later : Progress × Tried
      later = tries env provider a req rc left (suc retry) c.0

      after : Bool → Bool → Progress × Tried
      after b done =
          if b then (if done then (c.0, canceled) else later) else (c.0, ended c.1.0 c.1.1)

      choose :
          (b done : Bool)
          → later.0.calls ≤ suc h.calls + suc left
          → (after b done).0.calls ≤ h.calls + suc (suc left)
      choose false done l = omega arith
      choose true true l = omega arith
      choose true false l = omega (arith, l)

  fail_mapped-calls : (e : Failure) (h : Progress) → (fail_mapped env e h).calls ≡ h.calls
  unfolding fail_mapped fail
  fail_mapped-calls e h = refl

  fail_unselected-calls :
      (before : Option Failure) (e : RouterError) (h : Progress)
      → (fail_unselected env before e h).calls ≡ h.calls
  unfolding fail_unselected fail_mapped fail
  fail_unselected-calls none e h = refl
  fail_unselected-calls (some (key_failure concurrency_limit)) e h = refl
  fail_unselected-calls (some (key_failure usage_limit)) e h = refl
  fail_unselected-calls (some (key_failure invalid_api_key)) e h = refl
  fail_unselected-calls (some (key_failure key_disabled)) e h = refl
  fail_unselected-calls (some (key_failure model_not_allowed)) e h = refl
  fail_unselected-calls (some (upstream x)) e h = refl

  keep_usage-calls : (u : Option Usage) (h : Progress) → (keep_usage env u h).calls ≡ h.calls
  unfolding keep_usage
  keep_usage-calls none h = refl
  keep_usage-calls (some u) h = charged h.api_key
    where
      charged :
          (k : Option ExternalApiKey)
          → (charge env u k (record h { record_usage = u })).calls ≡ h.calls
      charged none = refl
      charged (some key) = refl

  abbrev calls_of : Next → ℕ
  calls_of (answered h) = h.calls
  calls_of (again h without e) = h.calls

  conclude-calls :
      (last : Bool) (a : Account) (excluded : List String) (e : Option Error) (h : Progress)
      → calls_of (conclude env last a excluded e h) ≡ h.calls
  unfolding conclude fail
  conclude-calls last a excluded none h = refl
  conclude-calls last a excluded (some e) h =
      choose (ltb 0 h.response.write_count || (h.response.wrote_header || last))
        h.response.wrote_header
    where
      marked : Progress
      marked = record h {
        router = Router.record_failure (env.now h.readings) a.id h.router;
        readings = suc h.readings;
        record_err = e.message;
      }

      choose :
          (x y : Bool)
          → calls_of (
              if x
              then answered (
                  keep_stop_reason env
                    (if y then marked else fail env 502 "api_error" e.message marked))
              else again marked (exclude a.id excluded) (upstream e))
            ≡ h.calls
      choose true true = refl
      choose true false = refl
      choose false y = refl

  after_tries-calls :
      (last : Bool) (a : Account) (excluded : List String) (acquired : Acquired)
      (r : Progress × Tried)
      → calls_of (after_tries env last a excluded acquired r) ≡ r.0.calls
  unfolding after_tries fail release_inflight
  after_tries-calls last a excluded acquired (h, canceled) = refl
  after_tries-calls last a excluded acquired (h, ended usage error) =
      conclude-calls last a excluded error (keep_usage env usage (release_inflight acquired a h))
      ∙ keep_usage-calls usage (release_inflight acquired a h)

  ten_retries :
      (a : Account) → pos_part (extract_retry_config env.parse_duration (some a)).max_retries ≤ 10
  ten_retries a = bounded (extract_retry_config-IsUsable env.parse_duration (some a))
    where
      rc : RetryConfig
      rc = extract_retry_config env.parse_duration (some a)

      bounded : (rc ≡ no_retries) ⊎ IsUsable rc → pos_part rc.max_retries ≤ 10
      bounded (inl e) =
          subst (λ (x : RetryConfig). pos_part x.max_retries ≤ 10) (sym e) (omega arith)
      bounded (inr u) = pos_part_ten rc.max_retries u.at_most_ten

  with_slot-calls :
      (last : Bool) (a : Account) (excluded : List String) (acquired : Acquired)
      (req : CanonicalRequest) (h : Progress)
      → calls_of (with_slot env last a excluded acquired req h) ≤ h.calls + 11
  unfolding with_slot with_provider fail release_inflight
  with_slot-calls last a excluded acquired req h = by_provider (provider_of a.provider)
    where
      model : String
      model = resolve_model a h.requested_model

      begun : Progress
      begun = record h { router = increment_inflight a.id h.router; actual_model = model }

      named : CanonicalRequest
      named = record req { original_model = h.requested_model; model = model }

      by_provider :
          (o : Option Provider)
          → calls_of (with_provider env last a excluded acquired named begun o) ≤ h.calls + 11
      by_provider none = omega arith
      by_provider (some provider) =
          let rc = extract_retry_config env.parse_duration (some a) in
          omega (
            arith,
            after_tries-calls last a excluded acquired
                (tries env provider a named rc (pos_part rc.max_retries) 0 begun),
            tries-calls provider a named rc (pos_part rc.max_retries) 0 begun,
            ten_retries a,
          )

  on_acquired-calls :
      (max : ℕ) (last : Bool) (a : Account) (excluded : List String) (req : CanonicalRequest)
      (h : Progress) (o : Acquired)
      → calls_of (on_acquired env max last a excluded req h o) ≤ h.calls + 11
  unfolding on_acquired fail_mapped fail
  on_acquired-calls max last a excluded req h unlimited =
      with_slot-calls last a excluded unlimited req h
  on_acquired-calls max last a excluded req h (slot at) =
      with_slot-calls last a excluded (slot at) req h
  on_acquired-calls max last a excluded req h (rejected e) =
      choose (leb max (length (exclude a.id excluded)))
    where
      choose :
          (b : Bool)
          → calls_of (
              if b
              then answered (fail_mapped env (key_failure e) h)
              else again h (exclude a.id excluded) (key_failure e))
            ≤ h.calls + 11
      choose true = omega arith
      choose false = omega arith

  on_selected-calls :
      (max : ℕ) (last : Bool) (excluded : List String) (before : Option Failure)
      (req : CanonicalRequest) (h : Progress) (s : Selected)
      → calls_of (on_selected env max last excluded before req h s) ≤ h.calls + 11
  unfolding on_selected
  on_selected-calls max last excluded before req h (refused e) =
      omega (arith, fail_unselected-calls before e h)
  on_selected-calls max last excluded before req h (account a) =
      on_acquired-calls max last a excluded req _ (acquire_account_concurrency a.id h.key_store).1

  attempt-calls :
      (group : Option KeyGroup) (max : ℕ) (last : Bool) (excluded : List String)
      (before : Option Failure) (req : CanonicalRequest) (h : Progress)
      → calls_of (attempt env group max last excluded before req h) ≤ h.calls + 11
  unfolding attempt
  attempt-calls group max last excluded before req h =
      on_selected-calls max last excluded before req _
        (select_account (env.now h.readings) group h.requested_model excluded h.router).1

  attempts-calls :
      (group : Option KeyGroup) (max : ℕ) (req : CanonicalRequest) (left : ℕ)
      (excluded : List String) (before : Option Failure) (h : Progress)
      → (attempts env group max req left excluded before h).calls ≤ h.calls + 11 * left
  unfolding attempts exhausted fail_mapped fail
  attempts-calls group max req zero excluded none h = omega arith
  attempts-calls group max req zero excluded (some e) h = omega arith
  attempts-calls group max req (suc left) excluded before h =
      choose (attempt env group max (left == 0) excluded before req h)
        (attempt-calls group max (left == 0) excluded before req h)
        (λ without e h'. attempts-calls group max req left without (some e) h')
    where
      choose :
          (x : Next)
          → calls_of x ≤ h.calls + 11
          → ((without : List String) (e : Failure) (h' : Progress)
              → (attempts env group max req left without (some e) h').calls ≤ h'.calls + 11 * left)
          → (elim x as (λ y. Progress) [
            | answered h' ↦ h'
            | again h' without e ↦ attempts env group max req left without (some e) h'
          ]).calls
            ≤ h.calls + 11 * suc left
      choose (answered h') l later = omega (arith, l)
      choose (again h' without e) l later = omega (arith, l, later without e h')

-- A request makes at most eleven calls of Stream for each account it may come to, and those are two for
-- a key without a group, and otherwise as many as the group has accounts, but two at least.
pub run_attempts-calls :
    (env : Environment) (group : Option KeyGroup) (c : CanonicalRequest) (h : Progress)
    → (run_attempts env group c h).calls ≤ h.calls + 11 * accounts_tried group
run_attempts-calls env group c h =
    subst (λ (n : ℕ). (run_attempts env group c h).calls ≤ h.calls + 11 * n)
      (max_attempts-accounts_tried group)
      (attempts-calls env group (max_attempts group) c (max_attempts group) [] none h)
