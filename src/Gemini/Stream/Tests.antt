-- ===== src/Gemini/Stream/Tests.antt =====
-- A stream with a text and a function call, and the texts of two streams.
use cc_gateway.Base.{
  strip_prefix, ℕ, ◌+◌, pos, ◌≡◌, refl, String, false, List, [], ◌∷◌, Option, none, some, str_eq,
  if◌then◌else◌, lookup, insert, show,
}
use cc_gateway.Domain.Value.{Any, text}
use cc_gateway.Anthropic.{
  message_start, content_block_start, content_block_delta, content_block_stop, message_delta,
  message_stop, text_block, tool_use_block, text_delta, input_json_delta,
}
use cc_gateway.Anthropic.Client.{idle}
use cc_gateway.Anthropic.Receiving.{IsWhole}
use cc_gateway.Gemini.Stream.Events.{Part, Response}
use cc_gateway.Gemini.Stream.Deltas.{compute_stream_delta}
use cc_gateway.Gemini.Stream.Joining.{joined, snapshots, total, joined-snapshots, joined-repeated}
use cc_gateway.Gemini.Stream.{
  new, count_usage, start_unless, open_text_unless, on_text, emit_signature_carrier, tool_state,
  open_tool_unless, send_arguments, on_function_call, on_part, on_parts, open_tools,
  insert_ascending, sort_ascending, shut, close_open_blocks, fill_unless, ensure_content_block,
  end_message, map_finish_reason, stop_reason, finish, finish_if, on_candidates, process_response,
  end_unless, finalize, convert_next, convert, marshal_compact_json,
}
use cc_gateway.Gemini.Stream.Whole.{FinishesOnce, converted-IsWhole}

abbrev clock : ℕ → ℕ
clock n = 100 + n

abbrev marshal : Any → String
marshal v = "{}"

abbrev text_part : String → Part
text_part s = record { text = s; thought = false; thought_signature = ""; function_call = none }

abbrev call_part : Part
call_part = record {
  text = "";
  thought = false;
  thought_signature = "";
  function_call = some (record { name = "read"; args = text "x" });
}

abbrev first : Response
first = record {
  candidates = record { parts = text_part "Hi" ∷ []; finish_reason = "" } ∷ [];
  usage_metadata = none;
}

abbrev second : Response
second = record {
  candidates = record { parts = text_part "Hi!" ∷ call_part ∷ []; finish_reason = "STOP" } ∷ [];
  usage_metadata = some (record {
    prompt_token_count = pos 7;
    candidates_token_count = pos 2;
    total_token_count = pos 9;
  });
}

abbrev decode : String → Option Response
decode s = if str_eq s "1" then some first else if str_eq s "2" then some second else none

abbrev stream : List String
stream = "1" ∷ "2" ∷ "[DONE]" ∷ []

converted : convert clock marshal decode stream (new clock "gemini") ≡ (
  message_start "msg_100" "gemini" (pos 0) (pos 0)
      ∷ content_block_start 0 text_block
      ∷ content_block_delta 0 (text_delta "Hi")
      ∷ content_block_delta 0 (text_delta "!")
      ∷ content_block_start 1 (tool_use_block "toolu_101" "read")
      ∷ content_block_delta 1 (input_json_delta "{}")
      ∷ content_block_stop 0
      ∷ content_block_stop 1
      ∷ message_delta "tool_use" (pos 7) (pos 2)
      ∷ message_stop
      ∷ [],
  false,
)
unfolding new convert convert_next process_response count_usage start_unless on_candidates on_parts
    on_part on_text open_text_unless compute_stream_delta strip_prefix on_function_call
    emit_signature_carrier tool_state send_arguments open_tool_unless marshal_compact_json finish_if
    finish close_open_blocks open_tools sort_ascending insert_ascending shut end_message
    ensure_content_block fill_unless stop_reason map_finish_reason finalize end_unless lookup insert
    show
converted = refl

finished_last : FinishesOnce decode stream
finished_last = (λ e. absurd (cc), (λ e. (refl, tt), (λ e. absurd (cc), tt)))

converted-IsWhole_example :
    IsWhole idle (convert clock marshal decode stream (new clock "gemini")).0
converted-IsWhole_example = converted-IsWhole clock marshal decode "gemini" stream finished_last

joined-snapshots_example : joined "" (snapshots "" ("Hi" ∷ "!" ∷ [])) ≡ total ("Hi" ∷ "!" ∷ [])
joined-snapshots_example = joined-snapshots "" ("Hi" ∷ "!" ∷ [])

joined-repeated_example : joined "" ("ha" ∷ "ha" ∷ []) ≡ joined "" ("ha" ∷ [])
joined-repeated_example = joined-repeated "" "ha" []
