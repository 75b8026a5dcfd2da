-- ===== src/Handler/Answers.antt =====
-- What a client gets for a request.
use cc_gateway.Base.{
  ℕ, zero, suc, ◌+◌, ◌==◌, pos, ◌≡◌, inl, inr, refl, sym, ap, ◌∙◌, ltb, length, String, Bool, true,
  false, ◌||◌, List, ◌++◌, Option, none, some, if◌then◌else◌, arith,
}
use cc_gateway.Domain.{Account, ExternalApiKey, Usage}
use cc_gateway.Router
use cc_gateway.Router.{Router, RouterError, Selected, account, refused, increment_inflight}
use cc_gateway.KeyStore.{
  concurrency_limit, usage_limit, invalid_api_key, key_disabled, model_not_allowed,
}
use cc_gateway.Retry.{Error, RetryConfig, backoff}
use cc_gateway.Sse.Writer.{Takes}
use cc_gateway.Sse.Writer.Order.{joined}
use cc_gateway.Handler.Response.{
  ResponseState, new_response, write_response, write_error, capture, write_header,
}
use cc_gateway.Handler.Capture.{capture-same}
use cc_gateway.Handler.Relay.{IsTouched, IsPrefix, call_stream-Seen, Seen}
use cc_gateway.Handler.{
  Provider, CanonicalRequest, Environment, Failure, key_failure, upstream, Progress, fail,
  fail_mapped, fail_unselected, mapped, failure_text,
}
use cc_gateway.Handler.Attempts.{
  call_stream, Tried, canceled, ended, tries_again, tries, Next, answered, again, keep_usage,
  charge, keep_stop_reason, fail_unwritten, conclude, exclude,
}

-- Nothing; or one error, written to a response on which nothing was written; or a part of the events
-- of one call of Stream, from their beginning, with the status 200.
pub data Answer (env : Environment) (w : ResponseState) : Type 0 where
  silent : w ≡ new_response → Answer env w
  failed :
      (status : ℕ) (type : String) (text : List ℕ)
      → w ≡ write_error env.takes env.encode_error status type text new_response
      → Answer env w
  streamed :
      (provider : Provider) (n : ℕ) (a : Account) (req : CanonicalRequest)
      → IsPrefix w.written (joined (env.stream provider n a req).events)
      → IsTouched w
      → Answer env w

write_response-header :
    (takes : Takes) (p : List ℕ) (w : ResponseState)
    → (write_response takes p w).0.wrote_header ≡ true
unfolding write_response
write_response-header takes p w = choose (takes w.written p)
  where
    sent : ResponseState
    sent = record w {
      wrote_header = true;
      status_code = if w.status_code == 0 then 200 else w.status_code;
    }

    longer : ResponseState
    longer = record sent { written = w.written ++ p; write_count = w.write_count + length p }

    answer : Bool → ResponseState × Bool
    answer b = if b then (capture p longer, true) else (sent, false)

    choose : (b : Bool) → (answer b).0.wrote_header ≡ true
    choose true = let (written, count, header, status) = capture-same p longer in header
    choose false = refl

module _ (env : Environment) where
  write_error-header :
      (status : ℕ) (type : String) (text : List ℕ) (w : ResponseState)
      → (write_error env.takes env.encode_error status type text w).wrote_header ≡ true
  unfolding write_error
  write_error-header status type text w =
      write_response-header env.takes (env.encode_error type text) (write_header status w)

  -- Without a header nothing has been written.
  unwritten : (w : ResponseState) → Answer env w → w.wrote_header ≡ false → w ≡ new_response
  unwritten w (silent e) h = e
  unwritten w (failed status type text e) h = absurd (
      clash (
        sym h
        ∙ ap (λ (v : ResponseState). v.wrote_header) e
        ∙ write_error-header status type text new_response))
    where
      clash : false ≡ true → ⊥
      clash q = ground arith
  unwritten w (streamed provider n a req p t) h = absurd (clash (sym h ∙ t.header))
    where
      clash : false ≡ true → ⊥
      clash q = ground arith

  pub fail-Answer :
      (status : ℕ) (type : String) (text : List ℕ) (h : Progress)
      → h.response ≡ new_response
      → Answer env (fail env status type text h).response
  unfolding fail
  fail-Answer status type text h e =
      failed status type text (ap (write_error env.takes env.encode_error status type text) e)

  pub fail_mapped-Answer :
      (e : Failure) (h : Progress)
      → h.response ≡ new_response
      → Answer env (fail_mapped env e h).response
  unfolding fail_mapped
  fail_mapped-Answer e h n = fail-Answer (mapped e).0 (mapped e).1 (failure_text e) h n

  pub fail_unselected-Answer :
      (before : Option Failure) (e : RouterError) (h : Progress)
      → h.response ≡ new_response
      → Answer env (fail_unselected env before e h).response
  unfolding fail_unselected
  fail_unselected-Answer none e h n = fail-Answer _ _ _ h n
  fail_unselected-Answer (some (key_failure concurrency_limit)) e h n = fail_mapped-Answer _ h n
  fail_unselected-Answer (some (key_failure usage_limit)) e h n = fail_mapped-Answer _ h n
  fail_unselected-Answer (some (key_failure invalid_api_key)) e h n = fail-Answer _ _ _ h n
  fail_unselected-Answer (some (key_failure key_disabled)) e h n = fail-Answer _ _ _ h n
  fail_unselected-Answer (some (key_failure model_not_allowed)) e h n = fail-Answer _ _ _ h n
  fail_unselected-Answer (some (upstream x)) e h n = fail-Answer _ _ _ h n

  call_stream-Answer :
      (provider : Provider) (a : Account) (req : CanonicalRequest) (h : Progress)
      → h.response ≡ new_response
      → Answer env (call_stream env provider a req h).0.response
  call_stream-Answer provider a req h n =
      let (seen, part) = call_stream-Seen env provider a req h n in from seen part
    where
      from :
          Seen (call_stream env provider a req h).0.response
          → IsPrefix
              (call_stream env provider a req h).0.response.written
              (joined (env.stream provider h.calls a req).events)
          → Answer env (call_stream env provider a req h).0.response
      from (inl e) part = silent e
      from (inr t) part = streamed provider h.calls a req part t

  abbrev pub TriedAnswer : Progress × Tried → Type 0
  TriedAnswer (h, canceled) = h.response ≡ new_response
  TriedAnswer (h, ended usage error) = Answer env h.response

  tries_again-header :
      (rc : RetryConfig) (w : ResponseState) (e : Option Error)
      → tries_again rc w e ≡ true
      → w.wrote_header ≡ false
  unfolding tries_again
  tries_again-header rc w none t = absurd (ground arith)
  tries_again-header rc w (some e) t = ground arith

  -- The same account is tried again only while nothing has been written.
  pub tries-Answer :
      (provider : Provider) (a : Account) (req : CanonicalRequest) (rc : RetryConfig)
      (left retry : ℕ) (h : Progress)
      → h.response ≡ new_response
      → TriedAnswer (tries env provider a req rc left retry h)
  unfolding tries
  tries-Answer provider a req rc zero retry h n = call_stream-Answer provider a req h n
  tries-Answer provider a req rc (suc left) retry h n =
      choose (tries_again rc c.0.response c.1.1) refl
        (env.is_done (backoff (env.random c.0.calls) rc (pos (suc retry))) c.0.calls)
        (tries-Answer provider a req rc left (suc retry) c.0)
    where
      c : Progress × (Option Usage × Option Error)
      c = call_stream env provider a req h

      choose :
          (b : Bool)
          → tries_again rc c.0.response c.1.1 ≡ b
          → (done : Bool)
          → (c.0.response ≡ new_response
              → TriedAnswer (tries env provider a req rc left (suc retry) c.0))
          → TriedAnswer (
              if b
              then (if done
                  then (c.0, canceled)
                  else tries env provider a req rc left (suc retry) c.0)
              else (c.0, ended c.1.0 c.1.1))
      choose false t done later = call_stream-Answer provider a req h n
      choose true t true later =
          unwritten c.0.response (call_stream-Answer provider a req h n)
            (tries_again-header rc c.0.response c.1.1 t)
      choose true t false later = later (
          unwritten c.0.response (call_stream-Answer provider a req h n)
            (tries_again-header rc c.0.response c.1.1 t))

  abbrev pub NextAnswer : Next → Type 0
  NextAnswer (answered h) = Answer env h.response
  NextAnswer (again h without e) = h.response ≡ new_response

  pub keep_usage-response :
      (u : Option Usage) (h : Progress) → (keep_usage env u h).response ≡ h.response
  unfolding keep_usage
  keep_usage-response none h = refl
  keep_usage-response (some u) h = charged h.api_key
    where
      charged :
          (k : Option ExternalApiKey)
          → (charge env u k (record h { record_usage = u })).response ≡ h.response
      charged none = refl
      charged (some key) = refl

  fail_unwritten-Answer :
      (text : List ℕ) (h : Progress)
      → Answer env h.response
      → Answer env (fail_unwritten env text h).response
  fail_unwritten-Answer text h x = choose h.response.wrote_header refl
    where
      choose :
          (b : Bool)
          → h.response.wrote_header ≡ b
          → Answer env (if b then h else fail env 502 "api_error" text h).response
      choose true e = x
      choose false e = fail-Answer 502 "api_error" text h (unwritten h.response x e)

  pub conclude-Answer :
      (last : Bool) (a : Account) (excluded : List String) (e : Option Error) (h : Progress)
      → Answer env h.response
      → NextAnswer (conclude env last a excluded e h)
  unfolding conclude
  conclude-Answer last a excluded none h x = x
  conclude-Answer last a excluded (some e) h x =
      choose (ltb 0 h.response.write_count || (h.response.wrote_header || last)) refl
    where
      marked : Progress
      marked = record h {
        router = Router.record_failure (env.now h.readings) a.id h.router;
        readings = suc h.readings;
        record_err = e.message;
      }

      choose :
          (b : Bool)
          → (ltb 0 h.response.write_count || (h.response.wrote_header || last)) ≡ b
          → NextAnswer (
              if b
              then answered (keep_stop_reason env (fail_unwritten env e.message marked))
              else again marked (exclude a.id excluded) (upstream e))
      choose true q = fail_unwritten-Answer e.message marked x
      choose false q = unwritten h.response x (ground arith)
