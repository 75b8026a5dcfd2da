-- ===== src/OpenAi/Stream/Tests.antt =====
-- Three streams: a text with a function call, arguments for a call that was never announced, and a
-- delta for a text that is done.
use cc_gateway.Base.{
  ℕ, true, arith, eq_iff, pos, ◌≡◌, refl, String, List, [], ◌∷◌, Option, none, some, lookup, insert,
  show, sym, subst,
}
use cc_gateway.Anthropic.{
  Payload, message_start, content_block_start, content_block_delta, content_block_stop,
  message_delta, message_stop, text_block, tool_use_block, text_delta, input_json_delta,
}
use cc_gateway.Anthropic.Client.{Client, streaming, idle, lenient, receive, has}
use cc_gateway.Anthropic.Receiving.{IsWhole}
use cc_gateway.OpenAi.Events.{Event, Decoder}
use cc_gateway.OpenAi.Stream.{
  Converter, text, new, has_block, ensure_message_start, start_unless, open_block, text_block_key,
  close_and_end, close_open_blocks, close_blocks, sort_reverse, insert_sorted, delete_block,
  end_message, end_unless, ensure_content_block, fill_unless, stop_reason, finalize,
}
use cc_gateway.OpenAi.Stream.Handlers.{
  StreamError, convert, convert_next, process_event, dispatch, on_created, on_content_part_added,
  on_output_text_delta, delta_found, on_output_item_added, on_arguments_delta, on_completed,
  put_item_id,
}
use cc_gateway.OpenAi.Stream.Late.{late_delta_rejected}
use cc_gateway.OpenAi.Stream.Whole.{
  EndsOnce, MissesBlock, convert-IsWhole, arguments_first_rejected,
}

-- What the data of each event decodes to, whatever it is.
abbrev decoder : Decoder
decoder = record {
  created = λ s. some (record { id = "resp_1"; model = "gpt-5" });
  content_part_added = λ s. some (record {
    item_id = "msg_1";
    output_index = pos 0;
    content_index = pos 0;
    part_type = "output_text";
    part_text = "";
  });
  output_text_delta = λ s.
      some
        (record { item_id = "msg_1"; output_index = pos 0; content_index = pos 0; delta = "Hi" });
  output_text_done = λ s.
      some (record { item_id = "msg_1"; output_index = pos 0; content_index = pos 0; text = "Hi" });
  output_item_added = λ s. some (record {
    output_index = pos 1;
    item_id = "fc_1";
    item_type = "function_call";
    call_id = "call_1";
    name = "read";
    arguments = "";
  });
  arguments_delta = λ s. some (record { item_id = "fc_1"; output_index = pos 1; delta = "{}" });
  arguments_done = λ s. none;
  summary_part_added = λ s. none;
  summary_text_delta = λ s. none;
  summary_text_done = λ s. none;
  summary_part_done = λ s. none;
  completed = λ s. some (record {
    id = "resp_1";
    model = "gpt-5";
    status = "completed";
    input_tokens = pos 12;
    output_tokens = pos 3;
    total_tokens = pos 15;
  });
}

abbrev event : String → Event
event type = record { type = type; payload = "{}" }

abbrev done : Event
done = record { type = ""; payload = "[DONE]" }

abbrev events : List Event
events =
    event "response.created"
    ∷ event "response.content_part.added"
    ∷ event "response.output_text.delta"
    ∷ event "response.output_item.added"
    ∷ event "response.function_call_arguments.delta"
    ∷ event "response.completed"
    ∷ done
    ∷ []

converted : convert decoder events (new "gpt-5") ≡ (
  message_start "resp_1" "gpt-5" (pos 0) (pos 0)
      ∷ content_block_start 0 text_block
      ∷ content_block_delta 0 (text_delta "Hi")
      ∷ content_block_start 1 (tool_use_block "call_1" "read")
      ∷ content_block_delta 1 (input_json_delta "{}")
      ∷ content_block_stop 1
      ∷ content_block_stop 0
      ∷ message_delta "tool_use" (pos 12) (pos 3)
      ∷ message_stop
      ∷ [],
  none,
)
unfolding new convert convert_next process_event dispatch on_created ensure_message_start
    on_content_part_added start_unless on_output_text_delta delta_found open_block lookup insert
    text_block_key show on_output_item_added on_arguments_delta on_completed close_and_end
    close_open_blocks close_blocks sort_reverse insert_sorted put_item_id delete_block end_message
    end_unless ensure_content_block fill_unless stop_reason finalize
converted = refl

completed_last : EndsOnce events
completed_last = (
  λ e. absurd (cc),
  (
    λ e. absurd (cc),
    (
      λ e. absurd (cc),
      (λ e. absurd (cc), (λ e. absurd (cc), (λ e. (refl, tt), (λ e. absurd (cc), tt)))),
    ),
  ),
)

no_error : ¬ MissesBlock (convert decoder events (new "gpt-5")).1
no_error =
    subst (λ (r : List Payload × Option StreamError). ¬ MissesBlock r.1) (sym converted) (λ x. x)

convert-IsWhole_example : IsWhole lenient (convert decoder events (new "gpt-5")).0
convert-IsWhole_example = convert-IsWhole decoder "gpt-5" events completed_last no_error

arguments_first_rejected_example :
    MissesBlock
      (convert decoder (event "response.function_call_arguments.delta" ∷ []) (new "gpt-5")).1
    × (receive
          (some idle)
          (convert decoder (event "response.function_call_arguments.delta" ∷ []) (new "gpt-5")).0
        ≡ none)
arguments_first_rejected_example =
    arguments_first_rejected decoder "gpt-5" (event "response.function_call_arguments.delta")
      (record { item_id = "fc_1"; output_index = pos 1; delta = "{}" }) [] refl refl refl

-- In the middle of a message: the block of a text is open.
abbrev in_text : Converter
in_text = record (new "gpt-5") {
  message_started = true;
  next_block_index = 1;
  blocks_by_index = (0, text) ∷ [];
  text_blocks = (text_block_key "msg_1" (pos 0), 0) ∷ [];
}

abbrev reading : Client
reading = record idle { phase = streaming; next = 1; open_blocks = 0 ∷ [] }

late_delta_rejected_example :
    receive
      (some reading)
      (convert decoder
        (event "response.output_text.done" ∷ event "response.output_text.delta" ∷ [])
        in_text).0
    ≡ none
unfolding lookup
late_delta_rejected_example =
    late_delta_rejected decoder (event "response.output_text.done")
      (event "response.output_text.delta") [] in_text reading 0
      (record { item_id = "msg_1"; output_index = pos 0; content_index = pos 0; text = "Hi" })
      (record { item_id = "msg_1"; output_index = pos 0; content_index = pos 0; delta = "Hi" })
      (refl, refl) (refl, refl) refl refl (found (text_block_key "msg_1" (pos 0))) refl (refl, refl)
      (unfold has has_block in refl)
  where
    found : (key : String) → lookup {V = ℕ} key ((key, 0) ∷ []) ≡ some 0
    found key = ground (arith, eq_iff key key)
