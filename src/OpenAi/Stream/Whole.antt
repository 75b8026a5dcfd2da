-- ===== src/OpenAi/Stream/Whole.antt =====
-- A whole converted stream against a client of the Messages API.
use cc_gateway.Base.{
  ◌≡◌, ◌⊎◌, inl, inr, refl, sym, ap, subst, ◌∙◌, String, Bool, true, false, List, [], ◌∷◌, ◌++◌,
  Option, none, some, str_eq, eq_iff, if◌then◌else◌, lookup, All, arith, Bool-cases,
}
use cc_gateway.Anthropic.{Payload}
use cc_gateway.Anthropic.Client.{
  Client, stopped, idle, lenient, receive, receive-append, receive-waiting, take_in,
}
use cc_gateway.Anthropic.Receiving.{IsWhole}
use cc_gateway.OpenAi.Events.{Event, Decoder, CompletedEvent, ArgumentsDeltaEvent}
use cc_gateway.OpenAi.Stream.{
  Converter, new, sort_reverse, close_blocks, close_open_blocks, end_unless, end_message,
  close_and_end, finalize, start_unless, ensure_message_start, fill_unless, ensure_content_block,
}
use cc_gateway.OpenAi.Stream.Handlers.{
  StreamError, decode, missing_text_block, missing_function_block, Outcome, sent, failed, Handled,
  delta_found, on_arguments_delta, on_completed, dispatch, process_event, convert_next, convert,
}
use cc_gateway.OpenAi.Stream.Ordered.{client_of, IsSound}
use cc_gateway.OpenAi.Stream.Closing.{close_and_end-Sends, HasEnded}
use cc_gateway.OpenAi.Stream.Steps.{
  Handles, Handling, by, on_completed-Sends, dispatch-Handles, dispatch-completed,
}

-- Nothing but the end marker follows a completed event.
abbrev pub IsDone : Event → Type 0
IsDone e = str_eq e.payload "[DONE]" ≡ true

abbrev pub EndsOnce : List Event → Type 0
EndsOnce [] = Unit {0}
EndsOnce (e ∷ es) = (str_eq e.type "response.completed" ≡ true → All IsDone es) × EndsOnce es

abbrev pub MissesBlock : Option StreamError → Type 0
MissesBlock none = ⊥
MissesBlock (some (decode s)) = ⊥
MissesBlock (some (missing_text_block s n)) = ⊥
MissesBlock (some (missing_function_block s n)) = Unit {0}

-- What the converter still sends is taken, and ends the message if it has started.
abbrev Ends : Converter → List Payload → Type 0
Ends c ps =
    (k : Client) × (receive (some (client_of c)) ps ≡ some k)
    × ((k.phase ≡ stopped) ⊎ ((ps ≡ []) × (c.message_started ≡ false)))

finalize-Ends : (c : Converter) → IsSound c → c.stop_reason_sent ≡ false → Ends c (finalize c).1
unfolding finalize
finalize-Ends c s h = elim (Bool-cases c.message_started) [
  | inl e ↦
      let (sends, ended) = close_and_end-Sends c s (e, h) in
      subst (λ (b : Bool). Ends c (if b then close_and_end c else (c, [])).1) (sym e)
        (client_of (close_and_end c).0, sends.taken, inl (ground arith))
  | inr e ↦
      subst (λ (b : Bool). Ends c (if b then close_and_end c else (c, [])).1) (sym e)
        (client_of c, unfold receive in refl, inr (refl, e))
]

ended-finalize : (c : Converter) → HasEnded c → (finalize c).1 ≡ []
unfolding finalize close_and_end close_open_blocks close_blocks sort_reverse end_message end_unless
ended-finalize c h = ground arith

ended-convert :
    (d : Decoder) (es : List Event) (c : Converter)
    → HasEnded c
    → All IsDone es
    → convert d es c ≡ ((finalize c).1, none)
unfolding convert
ended-convert d [] c h a = refl
ended-convert d (e ∷ es) c h a = ground (arith, ended-convert d es c h a.1)

-- Behind what was sent before: nothing has been sent to a client that still waits.
phase_after :
    (d : Decoder) (es : List Event) (c c' : Converter) (ps qs : List Payload) (k : Client)
    → receive (some (client_of c)) ps ≡ some (client_of c')
    → (k.phase ≡ stopped) ⊎ ((qs ≡ []) × (c'.message_started ≡ false))
    → (k.phase ≡ stopped) ⊎ ((ps ++ qs ≡ []) × (c.message_started ≡ false))
phase_after d es c c' ps qs k t (inl e) = inl e
phase_after d es c c' ps qs k t (inr (q, w)) =
    let p = receive-waiting ps (client_of c) (client_of c') t (ground arith) in
    let same : receive (some (client_of c)) [] ≡ some (client_of c') =
      ap (receive (some (client_of c))) (sym p) ∙ t in
    inr (ground arith, unfold receive in ground arith)

-- What comes of an event, and of those after it.
module _ (d : Decoder) (es : List Event) where
  next-Ends :
      (c : Converter) (o : Handled)
      → IsSound c
      → c.stop_reason_sent ≡ false
      → Handles c o
      → ((c' : Converter)
          → IsSound c'
          → c'.stop_reason_sent ≡ false
          → ¬ MissesBlock (convert d es c').1
          → Ends c' (convert d es c').0)
      → ¬ MissesBlock (convert_next o (convert d es)).1
      → Ends c (convert_next o (convert d es)).0
  unfolding convert_next
  next-Ends c (c', failed (decode x)) s h l next n = rw l (finalize-Ends c s h)
  next-Ends c (c', failed (missing_text_block x y)) s h l next n = rw l (finalize-Ends c s h)
  next-Ends c (c', failed (missing_function_block x y)) s h l next n = absurd (n tt)
  next-Ends c (c', sent ps) s h l next n =
      let (k, t, e) = next c' l.0.sound l.1 n in
      (
        k,
        receive-append (some (client_of c)) ps (convert d es c').0
            ∙ ap (λ (o : Option Client). receive o (convert d es c').0) l.0.taken
            ∙ t,
        phase_after d es c c' ps (convert d es c').0 k l.0.taken e,
      )

-- A completed event that decodes is followed by nothing, and one that does not by an error.
completed-Ends :
    (d : Decoder) (es : List Event) (c : Converter) (o : Option CompletedEvent)
    → IsSound c
    → c.stop_reason_sent ≡ false
    → All IsDone es
    → Ends c (convert_next (on_completed o c) (convert d es)).0
unfolding convert_next
completed-Ends d es c none s h a = unfold on_completed in finalize-Ends c s h
completed-Ends d es c (some e) s h a =
    let (ps, o, sends, ended) = on_completed-Sends c s h e in
    let c' = (on_completed (some e) c).0 in
    subst (λ (x : Outcome). Ends c (convert_next (c', x) (convert d es)).0) (sym o)
      (
        client_of c',
        receive-append (some (client_of c)) ps (convert d es c').0
            ∙ ap (λ (x : Option Client). receive x (convert d es c').0) sends.taken
            ∙ ap (receive (some (client_of c'))) (nothing c' ended)
            ∙ unfold receive in refl,
        inl (ground arith),
      )
  where
    nothing : (c' : Converter) → HasEnded c' → (convert d es c').0 ≡ []
    nothing c' ended =
        ap (λ (x : List Payload × Option StreamError). x.0) (ended-convert d es c' ended a)
        ∙ ended-finalize c' ended

handled-Ends :
    (d : Decoder) (es : List Event) (c : Converter) (o : Handled)
    → IsSound c
    → c.stop_reason_sent ≡ false
    → Handling c o
    → ((c' : Converter)
        → IsSound c'
        → c'.stop_reason_sent ≡ false
        → ¬ MissesBlock (convert d es c').1
        → Ends c' (convert d es c').0)
    → ¬ MissesBlock (convert_next o (convert d es)).1
    → Ends c (convert_next o (convert d es)).0
handled-Ends d es c o s h (by l) = next-Ends d es c o s h l

event-Ends :
    (d : Decoder) (e : Event) (es : List Event) (c : Converter)
    → IsSound c
    → c.stop_reason_sent ≡ false
    → (str_eq e.type "response.completed" ≡ true → All IsDone es)
    → ((c' : Converter)
        → IsSound c'
        → c'.stop_reason_sent ≡ false
        → ¬ MissesBlock (convert d es c').1
        → Ends c' (convert d es c').0)
    → ¬ MissesBlock (convert_next (process_event d e c) (convert d es)).1
    → Ends c (convert_next (process_event d e c) (convert d es)).0
unfolding process_event
event-Ends d e es c s h a next n = elim (Bool-cases (str_eq e.type "response.completed")) [
  | inl q ↦
      subst (λ (o : Handled). Ends c (convert_next o (convert d es)).0)
        (sym (
          ap (λ (t : String). dispatch d t e.payload c) ((eq_iff e.type "response.completed").0 q)
          ∙ dispatch-completed d e.payload c))
        (completed-Ends d es c (d.completed e.payload) s h (a q))
  | inr q ↦
      handled-Ends d es c (dispatch d e.type e.payload c) s h
        (dispatch-Handles c s h d e.type e.payload q) next n
]

convert-Ends :
    (d : Decoder) (es : List Event) (c : Converter)
    → IsSound c
    → c.stop_reason_sent ≡ false
    → EndsOnce es
    → ¬ MissesBlock (convert d es c).1
    → Ends c (convert d es c).0
unfolding convert
convert-Ends d [] c s h a n = finalize-Ends c s h
convert-Ends d (e ∷ es) c s h a n = elim (Bool-cases (str_eq e.payload "[DONE]")) [
  | inl q ↦ rw q (convert-Ends d es c s h a.1 (rw q at n))
  | inr q ↦
      rw q
        (event-Ends d e es c s h a.0 (λ c' s' h' n'. convert-Ends d es c' s' h' a.1 n') (rw q at n))
]

new-IsSound : (model : String) → IsSound (new model)
unfolding new
new-IsSound model = record {
  unstarted = λ e. refl;
  blocks_below = tt;
  blocks_distinct = tt;
  text_below = tt;
  function_below = tt;
  thinking_below = tt;
}

-- A stream in which nothing but the end marker follows a completed event, converted by a new converter
-- and finalized at its end or at its first error, is a whole message to a client that takes late
-- deltas, or nothing: it begins with `message_start`, its blocks are numbered from 0, started once and
-- stopped once, a delta comes behind the start of its block, but possibly behind its stop too, at
-- least one block is completed, and `message_delta` and `message_stop` come last. This holds of every
-- stream of events but one whose error is a missing function block.
pub convert-IsWhole :
    (d : Decoder) (model : String) (es : List Event)
    → EndsOnce es
    → ¬ MissesBlock (convert d es (new model)).1
    → IsWhole lenient (convert d es (new model)).0
convert-IsWhole d model es a n =
    let (k, t, e) = convert-Ends d es (new model) (new-IsSound model) (unfold new in refl) a n in
    (k, unfold new in t, last k e)
  where
    last :
        (k : Client)
        → (k.phase ≡ stopped)
          ⊎ (((convert d es (new model)).0 ≡ []) × ((new model).message_started ≡ false))
        → (k.phase ≡ stopped) ⊎ ((convert d es (new model)).0 ≡ [])
    last k (inl p) = inl p
    last k (inr p) = inr p.0

dispatch-arguments :
    (d : Decoder) (payload : String) (c : Converter)
    → dispatch d "response.function_call_arguments.delta" payload c
      ≡ on_arguments_delta (d.arguments_delta payload) c
unfolding dispatch
dispatch-arguments d payload c = refl

abbrev Rejected : List Payload × Option StreamError → Type 0
Rejected r = MissesBlock r.1 × (receive (some idle) r.0 ≡ none)

unannounced :
    (d : Decoder) (model : String) (x : ArgumentsDeltaEvent) (es : List Event)
    → Rejected (convert_next (on_arguments_delta (some x) (new model)) (convert d es))
unfolding convert_next on_arguments_delta delta_found new ensure_message_start start_unless lookup
    finalize close_and_end close_open_blocks close_blocks sort_reverse end_message end_unless
    ensure_content_block fill_unless receive take_in
unannounced d model x es = (tt, refl)

-- If a delta for arguments comes first and no function call has been announced, the stream fails with
-- the error of a missing function block, and what is written ends a message that was never started:
-- the client rejects it.
pub arguments_first_rejected :
    (d : Decoder) (model : String) (e : Event) (x : ArgumentsDeltaEvent) (es : List Event)
    → e.type ≡ "response.function_call_arguments.delta"
    → str_eq e.payload "[DONE]" ≡ false
    → d.arguments_delta e.payload ≡ some x
    → MissesBlock (convert d (e ∷ es) (new model)).1
      × (receive (some idle) (convert d (e ∷ es) (new model)).0 ≡ none)
unfolding convert process_event
arguments_first_rejected d model e x es t n g =
    let out : Handled → Type 0 = λ (h : Handled). Rejected (convert_next h (convert d es)) in
    rw n (
      subst out
        (sym (
          ap (λ (s : String). dispatch d s e.payload (new model)) t
          ∙ dispatch-arguments d e.payload (new model)
          ∙ ap (λ (o : Option ArgumentsDeltaEvent). on_arguments_delta o (new model)) g))
        (unannounced d model x es))
