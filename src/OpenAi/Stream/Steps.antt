-- ===== src/OpenAi/Stream/Steps.antt =====
-- Each case of ProcessEvent against a client of the Messages API.
use cc_gateway.Base.{
  ℕ, ℤ, ◌<◌, ◌≡◌, inl, inr, refl, ◌∙◌, String, Bool, true, false, List, [], Option, none, some,
  str_eq, if◌then◌else◌, Bool-cases,
}
use cc_gateway.Anthropic.{Delta, Payload, tool_use_block, text_block, thinking_block}
use cc_gateway.OpenAi.Events.{
  ResponseCreatedEvent, ContentPartAddedEvent, OutputTextDeltaEvent, OutputTextDoneEvent,
  OutputItemAddedEvent, ArgumentsDeltaEvent, ArgumentsDoneEvent, CompletedEvent, SummaryPartEvent,
  SummaryTextDeltaEvent, SummaryTextDoneEvent, Decoder,
}
use cc_gateway.OpenAi.Stream.{
  Converter, text, tool_use, thinking, ensure_message_start, close_and_end,
}
use cc_gateway.OpenAi.Stream.Handlers.{
  decode, missing_text_block, missing_function_block, Outcome, sent, failed, Handled, with_id,
  with_usage, function_item, delta_found, close_found, on_created, on_content_part_added,
  on_output_text_delta, on_output_text_done, on_output_item_added, on_arguments_delta,
  on_arguments_done, on_summary_part_added, on_summary_text_delta, on_summary_text_done,
  on_summary_part_done, on_completed, dispatch,
}
use cc_gateway.OpenAi.Stream.Ordered.{
  IsSound, Sends, Sends-nothing, Sends-then, lookup-IsBelow, ensure_message_start-Sends,
  delta-Sends,
}
use cc_gateway.OpenAi.Stream.Closing.{close_block-Sends, close_and_end-Sends, HasEnded}
use cc_gateway.OpenAi.Stream.Opening.{
  IsRunning-of, close_block-unended, with_id-IsSound, with_usage-IsSound, started_and_opened,
  open_block-unended, open_block-next, text_added, function_added, thinking_added, true_and_false,
}

-- What a handled event leaves: a client that has taken what was sent, before the end of the
-- message; or an error, and the converter as it was unless a function's block was missing.
abbrev pub Leaves : Converter → Converter → Outcome → Type 0
Leaves c c' (sent ps) = Sends c (c', ps) × (c'.stop_reason_sent ≡ false)
Leaves c c' (failed (decode s)) = c' ≡ c
Leaves c c' (failed (missing_text_block s n)) = c' ≡ c
Leaves c c' (failed (missing_function_block s n)) = Unit {0}

abbrev pub Handles : Converter → Handled → Type 0
Handles c h = Leaves c h.0 h.1

pub data Handling (c : Converter) (h : Handled) : Type 0 where
  by : Handles c h → Handling c h

pub dispatch-completed :
    (d : Decoder) (payload : String) (c : Converter)
    → dispatch d "response.completed" payload c ≡ on_completed (d.completed payload) c
unfolding dispatch
dispatch-completed d payload c = refl

module _ (c : Converter) (s : IsSound c) (h : c.stop_reason_sent ≡ false) where
  delta_found-Handles :
      (d : Delta) (m : Outcome) (o : Option ℕ)
      → Leaves c c m
      → ((i : ℕ) → o ≡ some i → i < c.next_block_index)
      → Handles c (delta_found d m o [] c)
  unfolding delta_found
  delta_found-Handles d m none l b = l
  delta_found-Handles d m (some i) l b = (delta-Sends i d c s h (b i refl), h)

  on_output_text_delta-Handles :
      (o : Option OutputTextDeltaEvent) → Handles c (on_output_text_delta o c)
  unfolding on_output_text_delta
  on_output_text_delta-Handles none = refl
  on_output_text_delta-Handles (some e) =
      delta_found-Handles _ _ _ refl (λ i q. lookup-IsBelow _ _ c.text_blocks i s.text_below q)

  on_summary_text_delta-Handles :
      (o : Option SummaryTextDeltaEvent) → Handles c (on_summary_text_delta o c)
  unfolding on_summary_text_delta
  on_summary_text_delta-Handles none = refl
  on_summary_text_delta-Handles (some e) =
      delta_found-Handles _ _ _ (Sends-nothing c s, h)
        (λ i q. lookup-IsBelow _ _ c.thinking_blocks i s.thinking_below q)

  close_found-Handles :
      (o : Option ℕ) → ((i : ℕ) → o ≡ some i → i < c.next_block_index) → Handles c (close_found o c)
  unfolding close_found
  close_found-Handles none b = (Sends-nothing c s, h)
  close_found-Handles (some i) b =
      (close_block-Sends i c s (IsRunning-of c i s h (b i refl)), close_block-unended i c ∙ h)

  on_output_text_done-Handles :
      (o : Option OutputTextDoneEvent) → Handles c (on_output_text_done o c)
  unfolding on_output_text_done
  on_output_text_done-Handles none = refl
  on_output_text_done-Handles (some e) =
      close_found-Handles _ (λ i q. lookup-IsBelow _ _ c.text_blocks i s.text_below q)

  on_arguments_done-Handles : (o : Option ArgumentsDoneEvent) → Handles c (on_arguments_done o c)
  unfolding on_arguments_done
  on_arguments_done-Handles none = refl
  on_arguments_done-Handles (some e) =
      close_found-Handles _ (λ i q. lookup-IsBelow _ _ c.function_blocks i s.function_below q)

  on_summary_text_done-Handles :
      (o : Option SummaryTextDoneEvent) → Handles c (on_summary_text_done o c)
  unfolding on_summary_text_done
  on_summary_text_done-Handles none = refl
  on_summary_text_done-Handles (some e) =
      close_found-Handles _ (λ i q. lookup-IsBelow _ _ c.thinking_blocks i s.thinking_below q)

  on_summary_part_done-Handles :
      (o : Option SummaryPartEvent) → Handles c (on_summary_part_done o c)
  unfolding on_summary_part_done
  on_summary_part_done-Handles none = (Sends-nothing c s, h)
  on_summary_part_done-Handles (some e) =
      close_found-Handles _ (λ i q. lookup-IsBelow _ _ c.thinking_blocks i s.thinking_below q)

  on_created-Handles : (o : Option ResponseCreatedEvent) → Handles c (on_created o c)
  unfolding on_created
  on_created-Handles none = refl
  on_created-Handles (some e) =
      let (sends, runs) =
        ensure_message_start-Sends (with_id e.id c) (with_id-IsSound e.id c s) h in
      (record { taken = sends.taken; sound = sends.sound }, runs.1)

  on_content_part_added-Handles :
      (o : Option ContentPartAddedEvent) → Handles c (on_content_part_added o c)
  unfolding on_content_part_added
  on_content_part_added-Handles none = refl
  on_content_part_added-Handles (some e) =
      let sent_so_far = started_and_opened text text_block c s h in
      elim (Bool-cases (str_eq e.part_type "output_text")) [
        | inl q ↦ rw q (
          text_added c _ e _ sent_so_far (open_block-next text text_block _),
          open_block-unended text text_block c s h,
        )
        | inr q ↦ rw q (Sends-nothing c s, h)
      ]

  on_output_item_added-Handles :
      (o : Option OutputItemAddedEvent) → Handles c (on_output_item_added o c)
  unfolding on_output_item_added
  on_output_item_added-Handles none = refl
  on_output_item_added-Handles (some e) =
      let block = tool_use_block e.call_id e.name in
      let sent_so_far = started_and_opened tool_use block c s h in
      let (sends, runs) = ensure_message_start-Sends c s h in
      elim (Bool-cases (str_eq e.item_type "function_call")) [
        | inl q ↦ rw q (
          function_added c _ e _ sent_so_far (open_block-next tool_use block _),
          open_block-unended tool_use block c s h,
        )
        | inr q ↦ rw q (sends, runs.1)
      ]

  on_summary_part_added-Handles :
      (o : Option SummaryPartEvent) → Handles c (on_summary_part_added o c)
  unfolding on_summary_part_added
  on_summary_part_added-Handles none = refl
  on_summary_part_added-Handles (some e) = (
    thinking_added c _ e _ (started_and_opened thinking thinking_block c s h)
        (open_block-next thinking thinking_block _),
    open_block-unended thinking thinking_block c s h,
  )

  arguments_found :
      (d : Delta) (id : String) (n : ℤ) (o : Option ℕ)
      → ((i : ℕ) → o ≡ some i → i < (ensure_message_start c).0.next_block_index)
      → Handles c (
          delta_found d
            (failed (missing_function_block id n))
            o
            (ensure_message_start c).1
            (ensure_message_start c).0)
  unfolding delta_found
  arguments_found d id n none b = tt
  arguments_found d id n (some i) b =
      let (sends, runs) = ensure_message_start-Sends c s h in
      (
        Sends-then c (ensure_message_start c) _ sends
            (delta-Sends i d (ensure_message_start c).0 sends.sound runs.1 (b i refl)),
        runs.1,
      )

  on_arguments_delta-Handles : (o : Option ArgumentsDeltaEvent) → Handles c (on_arguments_delta o c)
  unfolding on_arguments_delta
  on_arguments_delta-Handles none = refl
  on_arguments_delta-Handles (some e) =
      let started = ensure_message_start c in
      arguments_found _ _ _ _ (λ i q.
        lookup-IsBelow (function_item e.item_id e.output_index started.0) _
          started.0.function_blocks i (ensure_message_start-Sends c s h).0.sound.function_below q)

  -- The completed event ends the message.
  pub on_completed-Sends :
      (e : CompletedEvent)
      → (ps : List Payload) × ((on_completed (some e) c).1 ≡ sent ps)
        × Sends c ((on_completed (some e) c).0, ps)
        × HasEnded (on_completed (some e) c).0
  unfolding on_completed
  on_completed-Sends e =
      let c' = with_usage e.input_tokens e.output_tokens (with_id e.id c) in
      let sound =
        with_usage-IsSound e.input_tokens e.output_tokens (with_id e.id c)
          (with_id-IsSound e.id c s) in
      let started = ensure_message_start c' in
      let (sends, runs) = ensure_message_start-Sends c' sound h in
      let (last, ended) = close_and_end-Sends started.0 sends.sound runs in
      let all = Sends-then c' started (close_and_end started.0) sends last in
      (_, refl, record { taken = all.taken; sound = all.sound }, ended)

  unknown-Handling : Handling c (c, sent [])
  unknown-Handling = by (Sends-nothing c s, h)

  -- Through one test of the switch.
  pick_case :
      (b : Bool) (x y : Handled)
      → (b ≡ true → Handling c x)
      → (b ≡ false → Handling c y)
      → Handling c (if b then x else y)
  pick_case true x y hx hy = hx refl
  pick_case false x y hx hy = hy refl

  -- Every event but the completed one, sent or failed.
  pub dispatch-Handles :
      (d : Decoder) (type payload : String)
      → str_eq type "response.completed" ≡ false
      → Handling c (dispatch d type payload c)
  unfolding dispatch
  dispatch-Handles d type payload n =
      pick_case (str_eq type "response.created") _ _
        (λ _. by (on_created-Handles (d.created payload)))
        λ _.
          pick_case (str_eq type "response.content_part.added") _ _
            (λ _. by (on_content_part_added-Handles (d.content_part_added payload)))
            λ _.
              pick_case (str_eq type "response.output_text.delta") _ _
                (λ _. by (on_output_text_delta-Handles (d.output_text_delta payload)))
                λ _.
                  pick_case (str_eq type "response.output_text.done") _ _
                    (λ _. by (on_output_text_done-Handles (d.output_text_done payload)))
                    λ _.
                      pick_case (str_eq type "response.output_item.added") _ _
                        (λ _. by (on_output_item_added-Handles (d.output_item_added payload)))
                        λ _.
                          pick_case (str_eq type "response.function_call_arguments.delta") _ _
                            (λ _. by (on_arguments_delta-Handles (d.arguments_delta payload)))
                            λ _.
                              pick_case (str_eq type "response.function_call_arguments.done") _ _
                                (λ _. by (on_arguments_done-Handles (d.arguments_done payload)))
                                λ _.
                                  pick_case (str_eq type "response.reasoning_summary_part.added") _
                                    _
                                    (λ _. by (
                                      on_summary_part_added-Handles (d.summary_part_added payload)))
                                    λ _.
                                      pick_case
                                        (str_eq type "response.reasoning_summary_text.delta") _ _
                                        (λ _. by (
                                          on_summary_text_delta-Handles
                                            (d.summary_text_delta payload)))
                                        λ _.
                                          pick_case
                                            (str_eq type "response.reasoning_summary_text.done") _ _
                                            (λ _. by (
                                              on_summary_text_done-Handles
                                                (d.summary_text_done payload)))
                                            λ _.
                                              pick_case
                                                (str_eq type "response.reasoning_summary_part.done")
                                                _ _
                                                (λ _. by (
                                                  on_summary_part_done-Handles
                                                    (d.summary_part_done payload)))
                                                λ _.
                                                  pick_case (str_eq type "response.completed") _ _
                                                    (λ q. absurd (true_and_false q n))
                                                    λ _. unknown-Handling
