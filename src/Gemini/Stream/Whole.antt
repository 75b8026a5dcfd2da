-- ===== src/Gemini/Stream/Whole.antt =====
-- A whole converted Gemini stream against a client of the Messages API.
use cc_gateway.Base.{
  ℕ, ℤ, ◌≡◌, inl, inr, refl, sym, ap, subst, ◌∙◌, String, Bool, true, false, ◌||◌, List, [], ◌∷◌,
  ◌++◌, append-nil, Option, none, some, str_eq, if◌then◌else◌, All, Bool-cases,
}
use cc_gateway.Domain.Value.{Any}
use cc_gateway.Anthropic.{Payload, message_start}
use cc_gateway.Anthropic.Client.{Client, idle, receive, receive-nil, take_in, has}
use cc_gateway.Anthropic.Receiving.{IsWhole, midway}
use cc_gateway.Gemini.Stream.Events.{UsageMetadata, Response}
use cc_gateway.Gemini.Stream.{
  Converter, new, count_usage, start_unless, on_candidates, process_response, finalize,
  convert_next, convert,
}
use cc_gateway.Gemini.Stream.Ordered.{IsLive, client_of, Follows, known, with_text}
use cc_gateway.Anthropic.Indices.{AreBelow, AreDistinct}
use cc_gateway.Gemini.Stream.Tools.{tool_indices, AllOpen}
use cc_gateway.Gemini.Stream.Closing.{HasEnded, Stops, finalize-Stops, ended_finalize}
use cc_gateway.Gemini.Stream.Responses.{
  finishes, no_candidates, Goes, goes_on, ends, Stops-after, on_candidates-Goes,
  process_response-Goes, quiet_process,
}

abbrev pub final_response : Option Response → Bool
final_response none = false
final_response (some r) = finishes r.candidates

abbrev pub quiet_response : Option Response → Bool
quiet_response none = true
quiet_response (some r) = no_candidates r.candidates

abbrev pub IsQuiet : (String → Option Response) → String → Type 0
IsQuiet decode p = (str_eq p "" || (str_eq p "[DONE]" || quiet_response (decode p))) ≡ true

-- After the response with the finish reason come none with candidates.
abbrev pub FinishesOnce : (String → Option Response) → List String → Type 0
FinishesOnce decode [] = Unit {0}
FinishesOnce decode (p ∷ ps) =
    (final_response (decode p) ≡ true → All (IsQuiet decode) ps) × FinishesOnce decode ps

module _ (clock : ℕ → ℕ) (marshal : Any → String) (decode : String → Option Response) where
  ended-next :
      (o : Option Response) (c : Converter) (next : Converter → List Payload × Bool)
      → HasEnded c
      → quiet_response o ≡ true
      → ((d : Converter) → HasEnded d → (next d).0 ≡ [])
      → (convert_next clock marshal c o next).0 ≡ []
  unfolding convert_next
  ended-next none c next h q n = ended_finalize c h
  ended-next (some r) c next h q n =
      let (h', e) = quiet_process clock marshal r c h q in
      ap (λ (ps : List Payload). ps ++ (next (process_response clock marshal r c).0).0) e ∙ n _ h'

  ended-convert :
      (ps : List String) (c : Converter)
      → HasEnded c
      → All (IsQuiet decode) ps
      → (convert clock marshal decode ps c).0 ≡ []
  unfolding convert
  ended-convert [] c h q = ended_finalize c h
  ended-convert (p ∷ ps) c h q = elim (Bool-cases (str_eq p "")) [
    | inl e ↦ rw e (ended-convert ps c h q.1)
    | inr e ↦ elim (Bool-cases (str_eq p "[DONE]")) [
      | inl f ↦ rw (e, f) (ended-convert ps c h q.1)
      | inr f ↦
          rw (e, f)
            (ended-next (decode p) c (convert clock marshal decode ps) h (rw (e, f) at q.0)
              (λ d h'. ended-convert ps d h' q.1))
    ]
  ]

  Goes-Stops :
      (ps : List String) (b : Bool) (c : Converter) (r : Converter × List Payload)
      → Goes b c r
      → (b ≡ true → All (IsQuiet decode) ps)
      → ((d : Converter)
          → IsLive d
          → (os : List ℕ) → Follows d os
          → Stops d os (convert clock marshal decode ps d).0)
      → (os : List ℕ) → Follows c os
      → Stops c os (r.1 ++ (convert clock marshal decode ps r.0).0)
  Goes-Stops ps b c r (goes_on s) q next os f =
      Stops-after c r.0 r.1 (convert clock marshal decode ps r.0).0 s (next r.0 s.live) os f
  Goes-Stops ps b c r (ends e s h) q next os f =
      subst (Stops c os)
        (sym (append-nil r.1)
          ∙ ap (λ (qs : List Payload). r.1 ++ qs) (sym (ended-convert ps r.0 h (q e))))
        (s os f)

  -- What follows the payloads that are skipped, or a payload that is not.
  by_payload :
      (p : String) (P : List Payload × Bool → Type 0) (x y : List Payload × Bool)
      → P x
      → P y
      → P (if str_eq p "" then x else if str_eq p "[DONE]" then x else y)
  by_payload p P x y k l = choose (str_eq p "") (str_eq p "[DONE]")
    where
      choose : (a b : Bool) → P (if a then x else if b then x else y)
      choose true b = k
      choose false true = k
      choose false false = l

  next-Stops :
      (o : Option Response) (ps : List String) (c : Converter)
      → IsLive c
      → (final_response o ≡ true → All (IsQuiet decode) ps)
      → ((d : Converter)
          → IsLive d
          → (os : List ℕ) → Follows d os
          → Stops d os (convert clock marshal decode ps d).0)
      → (os : List ℕ) → Follows c os
      → Stops c os (convert_next clock marshal c o (convert clock marshal decode ps)).0
  unfolding convert_next
  next-Stops none ps c l q next os f = finalize-Stops c os l f
  next-Stops (some r) ps c l q next os f =
      Goes-Stops ps (finishes r.candidates) c (process_response clock marshal r c)
        (process_response-Goes clock marshal r c l) q next os f

  live-convert :
      (ps : List String) (c : Converter)
      → IsLive c
      → FinishesOnce decode ps
      → (os : List ℕ) → Follows c os
      → Stops c os (convert clock marshal decode ps c).0
  unfolding convert
  live-convert [] c l q os f = finalize-Stops c os l f
  live-convert (p ∷ ps) c l q os f =
      by_payload p (λ (r : List Payload × Bool). Stops c os r.0) (convert clock marshal decode ps c)
        _ (live-convert ps c l q.1 os f)
        (next-Stops (decode p) ps c l q.0 (λ d l' os' f'. live-convert ps d l' q.1 os' f') os f)

  -- A converter that has sent nothing yet.
  record IsFresh (c : Converter) : Type 0 where
    unstarted : c.started ≡ false
    unfinished : c.finished ≡ false
    no_index : c.next_index ≡ 0
    none_completed : c.content_block_completed ≡ false
    no_text : c.text_block_open ≡ false
    no_tools : c.tool_states ≡ []

  count_usage-IsFresh :
      (u : Option UsageMetadata) (c : Converter) → IsFresh c → IsFresh (count_usage u c)
  unfolding count_usage
  count_usage-IsFresh none c n = n
  count_usage-IsFresh (some u) c n = record {
    unstarted = n.unstarted;
    unfinished = n.unfinished;
    no_index = n.no_index;
    none_completed = n.none_completed;
    no_text = n.no_text;
    no_tools = n.no_tools;
  }

  no_known : (c : Converter) → IsFresh c → known c ≡ []
  no_known c n =
      ap (λ (b : Bool). with_text b c.text_index (tool_indices c.tool_states)) n.no_text
      ∙ ap tool_indices n.no_tools

  started_fresh-IsLive : (c : Converter) → IsFresh c → IsLive (record c { started = true })
  started_fresh-IsLive c n = record {
    running = refl;
    unfinished = n.unfinished;
    all_open = subst AllOpen (sym n.no_tools) tt;
    below = subst (AreBelow c.next_index) (sym (no_known c n)) tt;
    distinct = subst AreDistinct (sym (no_known c n)) tt;
  }

  -- The client after the start of the message.
  first_client :
      (c : Converter) (id model : String) (i o : ℤ) (ps : List Payload)
      → IsFresh c
      → receive (some idle) (message_start id model i o ∷ ps)
        ≡ receive (some (client_of (record c { started = true }) [])) ps
  unfolding receive take_in
  first_client c id model i o ps n =
      ap (λ (k : Client). receive (some k) ps)
        (ap (λ (x : ℕ). midway x [] false) (sym n.no_index)
          ∙ ap (midway c.next_index []) (sym n.none_completed))

  first-IsWhole :
      (r : Response) (ps : List String) (c : Converter)
      → IsFresh c
      → (finishes r.candidates ≡ true → All (IsQuiet decode) ps)
      → FinishesOnce decode ps
      → IsWhole idle (
          (process_response clock marshal r c).1
          ++ (convert clock marshal decode ps (process_response clock marshal r c).0).0)
  unfolding process_response start_unless
  first-IsWhole r ps c n q z =
      let d = count_usage r.usage_metadata c in
      let m = count_usage-IsFresh r.usage_metadata c n in
      let l = started_fresh-IsLive d m in
      let e : Converter = record d { started = true } in
      let sent = on_candidates clock marshal r.candidates e in
      let (k, t, h) =
        Goes-Stops ps (finishes r.candidates) e sent
          (on_candidates-Goes clock marshal r.candidates e l) q
          (λ d' l' os f. live-convert ps d' l' z os f) [] (λ i. ap (has i) (sym (no_known d m))) in
      subst
        (λ (b : Bool). IsWhole idle (
          ((start_unless b d).1
            ++ (on_candidates clock marshal r.candidates (start_unless b d).0).1)
          ++ (convert clock marshal decode ps
              (on_candidates clock marshal r.candidates (start_unless b d).0).0).0))
        (sym m.unstarted)
        (
          k,
          first_client d _ _ _ _ (sent.1 ++ (convert clock marshal decode ps sent.0).0) m ∙ t,
          inl h,
        )

  fresh-finalize : (c : Converter) → IsFresh c → (finalize c).1 ≡ []
  unfolding finalize
  fresh-finalize c n = rw n.unstarted refl

  fresh-IsWhole : (c : Converter) (ps : List Payload) → (ps ≡ []) → IsWhole idle ps
  fresh-IsWhole c ps e = (idle, ap (receive (some idle)) e ∙ receive-nil idle, inr e)

  next-IsWhole :
      (o : Option Response) (ps : List String) (c : Converter)
      → IsFresh c
      → (final_response o ≡ true → All (IsQuiet decode) ps)
      → FinishesOnce decode ps
      → IsWhole idle (convert_next clock marshal c o (convert clock marshal decode ps)).0
  unfolding convert_next
  next-IsWhole none ps c n q z = fresh-IsWhole c (finalize c).1 (fresh-finalize c n)
  next-IsWhole (some r) ps c n q z = first-IsWhole r ps c n q z

  fresh-convert :
      (ps : List String) (c : Converter)
      → IsFresh c
      → FinishesOnce decode ps
      → IsWhole idle (convert clock marshal decode ps c).0
  unfolding convert
  fresh-convert [] c n z = fresh-IsWhole c (finalize c).1 (fresh-finalize c n)
  fresh-convert (p ∷ ps) c n z =
      by_payload p (λ (r : List Payload × Bool). IsWhole idle r.0)
        (convert clock marshal decode ps c) _ (fresh-convert ps c n z.1)
        (next-IsWhole (decode p) ps c n z.0 z.1)

  -- A stream of Gemini responses in which none with candidates follows the one with the finish reason,
  -- converted by a new converter and finalized at its end or at data that does not decode, is a
  -- whole message to a client, or nothing: it begins with `message_start`, its blocks are numbered
  -- from 0, started once and stopped once, at least one is completed, and `message_delta` and
  -- `message_stop` come last.
  pub converted-IsWhole :
      (model : String) (ps : List String)
      → FinishesOnce decode ps
      → IsWhole idle (convert clock marshal decode ps (new clock model)).0
  unfolding new
  converted-IsWhole model ps z = fresh-convert ps (new clock model) fresh z
    where
      fresh : IsFresh (new clock model)
      fresh = record {
        unstarted = refl;
        unfinished = refl;
        no_index = refl;
        none_completed = refl;
        no_text = refl;
        no_tools = refl;
      }
