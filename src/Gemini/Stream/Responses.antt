-- ===== src/Gemini/Stream/Responses.antt =====
-- The converter against a client of the Messages API: what a response does to a message.
use cc_gateway.Base.{
  ℕ, ◌≡◌, refl, sym, ap, subst, ◌∙◌, String, Bool, true, false, not, List, [], ◌∷◌, ◌++◌,
  append-nil, Option, none, some, str_eq, if◌then◌else◌,
}
use cc_gateway.Domain.Value.{Any}
use cc_gateway.Anthropic.{Payload}
use cc_gateway.Anthropic.Client.{Client, receive, receive-append}
use cc_gateway.Gemini.Stream.Events.{Candidate, UsageMetadata, Response}
use cc_gateway.Gemini.Stream.{
  Converter, count_usage, start_unless, on_parts, finish, finish_if, on_candidates,
  process_response,
}
use cc_gateway.Gemini.Stream.Ordered.{
  IsLive, client_of, Follows, Sends, Sends-nothing, Sends-then, again,
}
use cc_gateway.Gemini.Stream.Steps.{on_parts-Sends}
use cc_gateway.Gemini.Stream.Closing.{HasEnded, Stops, finish-Stops, finish-HasEnded}

-- Whether a response ends the message, and whether it can say nothing more.
abbrev pub finishes : List Candidate → Bool
finishes [] = false
finishes (x ∷ xs) = not (str_eq x.finish_reason "")

abbrev pub no_candidates : List Candidate → Bool
no_candidates [] = true
no_candidates (x ∷ xs) = false

-- What a step makes of a running message: it goes on, or it ends.
pub data Goes (final : Bool) (c : Converter) (r : Converter × List Payload) : Type 0 where
  goes_on : Sends c r → Goes final c r
  ends :
      final ≡ true → ((os : List ℕ) → Follows c os → Stops c os r.1) → HasEnded r.0 → Goes final c r

-- What is sent before goes first.
pub Stops-after :
    (c d : Converter) (ps qs : List Payload)
    → Sends c (d, ps)
    → ((os : List ℕ) → Follows d os → Stops d os qs)
    → (os : List ℕ) → Follows c os
    → Stops c os (ps ++ qs)
Stops-after c d ps qs s next os f =
    let (os', t, g) = s.taken os f in
    let (k, u, e) = next os' g in
    (
      k,
      receive-append (some (client_of c os)) ps qs ∙ ap (λ (o : Option Client). receive o qs) t ∙ u,
      e,
    )

finish_if-Goes :
    (reason : String) (c : Converter) (d : Converter) (ps : List Payload)
    → Sends c (d, ps)
    → Goes (not (str_eq reason "")) c ((finish_if reason d).0, ps ++ (finish_if reason d).1)
unfolding finish_if
finish_if-Goes reason c d ps s = choose (str_eq reason "")
  where
    result : Bool → Converter × List Payload
    result b = if b then (d, []) else finish reason d

    choose : (b : Bool) → Goes (not b) c ((result b).0, ps ++ (result b).1)
    choose true = goes_on (subst (λ (qs : List Payload). Sends c (d, qs)) (sym (append-nil ps)) s)
    choose false =
        ends refl
          (Stops-after c d ps (finish reason d).1 s (λ os f. finish-Stops reason d os s.live f))
          (finish-HasEnded reason d s.live)

module _ (clock : ℕ → ℕ) (marshal : Any → String) where
  pub on_candidates-Goes :
      (xs : List Candidate) (c : Converter)
      → IsLive c
      → Goes (finishes xs) c (on_candidates clock marshal xs c)
  unfolding on_candidates
  on_candidates-Goes [] c l = goes_on (Sends-nothing c l)
  on_candidates-Goes (x ∷ xs) c l =
      let r = on_parts clock marshal 0 x.parts c in
      finish_if-Goes x.finish_reason c r.0 r.1 (on_parts-Sends clock marshal 0 x.parts c l)

pub count_usage-Sends :
    (u : Option UsageMetadata) (c : Converter) → IsLive c → Sends c (count_usage u c, [])
unfolding count_usage
count_usage-Sends none c l = Sends-nothing c l
count_usage-Sends (some u) c l = again c _ l refl refl refl refl l.all_open refl

pub Goes-after :
    (b : Bool) (c d : Converter) (ps : List Payload) (r : Converter × List Payload)
    → Sends c (d, ps)
    → Goes b d r
    → Goes b c (r.0, ps ++ r.1)
Goes-after b c d ps r s (goes_on t) = goes_on (Sends-then c (d, ps) r s t)
Goes-after b c d ps r s (ends e t h) = ends e (Stops-after c d ps r.1 s t) h

module _ (clock : ℕ → ℕ) (marshal : Any → String) where
  pub process_response-Goes :
      (r : Response) (c : Converter)
      → IsLive c
      → Goes (finishes r.candidates) c (process_response clock marshal r c)
  unfolding process_response start_unless
  process_response-Goes r c l =
      let d = count_usage r.usage_metadata c in
      let s = count_usage-Sends r.usage_metadata c l in
      subst
        (λ (b : Bool). Goes (finishes r.candidates) c (
          (on_candidates clock marshal r.candidates (start_unless b d).0).0,
          (start_unless b d).1 ++ (on_candidates clock marshal r.candidates (start_unless b d).0).1,
        ))
        (sym s.live.running)
        (Goes-after (finishes r.candidates) c d [] (on_candidates clock marshal r.candidates d) s
          (on_candidates-Goes clock marshal r.candidates d s.live))

  quiet_candidates :
      (xs : List Candidate) (c : Converter)
      → no_candidates xs ≡ true
      → on_candidates clock marshal xs c ≡ (c, [])
  unfolding on_candidates
  quiet_candidates [] c q = refl
  quiet_candidates (x ∷ xs) c q = absurd (cc)

  count_usage-HasEnded :
      (u : Option UsageMetadata) (c : Converter) → HasEnded c → HasEnded (count_usage u c)
  unfolding count_usage
  count_usage-HasEnded none c h = h
  count_usage-HasEnded (some u) c h = record {
    started = h.started;
    finished = h.finished;
    text_closed = h.text_closed;
    tools_closed = h.tools_closed;
  }

  -- A response without candidates after the end.
  pub quiet_process :
      (r : Response) (c : Converter)
      → HasEnded c
      → no_candidates r.candidates ≡ true
      → HasEnded (process_response clock marshal r c).0
        × ((process_response clock marshal r c).1 ≡ [])
  unfolding process_response start_unless
  quiet_process r c h q =
      let d = count_usage r.usage_metadata c in
      let h' = count_usage-HasEnded r.usage_metadata c h in
      let both : HasEnded d × ([] ≡ []) = (h', refl) in
      subst
        (λ (b : Bool).
          HasEnded (on_candidates clock marshal r.candidates (start_unless b d).0).0
          × ((start_unless b d).1
                ++ (on_candidates clock marshal r.candidates (start_unless b d).0).1
              ≡ []))
        (sym h'.started)
        (subst (λ (x : Converter × List Payload). HasEnded x.0 × (x.1 ≡ []))
          (sym (quiet_candidates r.candidates d q)) both)
