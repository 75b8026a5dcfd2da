-- ===== src/OpenAi/Stream/Handlers.antt =====
-- ProcessEvent of internal/provider/openai/stream.go, one function for each case of its switch.
-- What json.Unmarshal makes of the data is the argument `d`.
use cc_gateway.Base.{
  ℕ, ℤ, String, Bool, true, List, [], ◌∷◌, ◌++◌, Option, none, some, str_eq, if◌then◌else◌, lookup,
  insert, pos_part, neg_part, ◌==◌, ◌&&◌,
}
use cc_gateway.Anthropic.{
  Delta, Payload, content_block_delta, text_block, thinking_block, tool_use_block, text_delta,
  thinking_delta, input_json_delta,
}
use cc_gateway.OpenAi.Events.{
  Event, ResponseCreatedEvent, ContentPartAddedEvent, OutputTextDeltaEvent, OutputTextDoneEvent,
  OutputItemAddedEvent, ArgumentsDeltaEvent, ArgumentsDoneEvent, CompletedEvent, SummaryPartEvent,
  SummaryTextDeltaEvent, SummaryTextDoneEvent, Decoder,
}
use cc_gateway.OpenAi.Stream.{
  Converter, text, tool_use, thinking, text_block_key, thinking_block_key, ensure_message_start,
  open_block, close_block, close_and_end, finalize,
}

pub data StreamError : Type 0 where
  decode : String → StreamError
  missing_text_block missing_function_block : String → ℤ → StreamError

pub data Outcome : Type 0 where
  sent : List Payload → Outcome
  failed : StreamError → Outcome

abbrev pub Handled : Type 0
Handled = Converter × Outcome

abbrev pub eq_ℤ : ℤ → ℤ → Bool
eq_ℤ a b = pos_part a == pos_part b && neg_part a == neg_part b

-- `c.functionItemIDs[n]`, which is "" for a missing key.
unfoldable pub item_id_at : ℤ → List (ℤ × String) → String
item_id_at n [] = ""
item_id_at n ((m, s) ∷ ms) = if eq_ℤ m n then s else item_id_at n ms

unfoldable pub put_item_id : ℤ → String → List (ℤ × String) → List (ℤ × String)
put_item_id n s [] = (n, s) ∷ []
put_item_id n s ((m, t) ∷ ms) = if eq_ℤ m n then (n, s) ∷ ms else (m, t) ∷ put_item_id n s ms

abbrev pub with_id : String → Converter → Converter
with_id id c = record c { message_id = if str_eq id "" then c.message_id else id }

unfoldable pub on_created : Option ResponseCreatedEvent → Converter → Handled
on_created none c = (c, failed (decode "response.created"))
on_created (some e) c =
    let started = ensure_message_start (with_id e.id c) in (started.0, sent started.1)

abbrev pub text_block_added : ContentPartAddedEvent → ℕ → Converter → Converter
text_block_added e index c = record c {
  text_blocks = insert (text_block_key e.item_id e.content_index) index c.text_blocks;
}

unfoldable pub on_content_part_added : Option ContentPartAddedEvent → Converter → Handled
on_content_part_added none c = (c, failed (decode "response.content_part.added"))
on_content_part_added (some e) c =
    let started = ensure_message_start c in
    let opened = open_block text text_block started.0 in
    if str_eq e.part_type "output_text"
    then (text_block_added e started.0.next_block_index opened.0, sent (started.1 ++ opened.1))
    else (c, sent [])

-- A delta for the block of an index that was looked up, behind what was sent already, or `missing`.
unfoldable pub delta_found : Delta → Outcome → Option ℕ → List Payload → Converter → Handled
delta_found delta missing none before c = (c, missing)
delta_found delta missing (some index) before c =
    (c, sent (before ++ content_block_delta index delta ∷ []))

unfoldable pub on_output_text_delta : Option OutputTextDeltaEvent → Converter → Handled
on_output_text_delta none c = (c, failed (decode "response.output_text.delta"))
on_output_text_delta (some e) c =
    delta_found (text_delta e.delta) (failed (missing_text_block e.item_id e.content_index))
      (lookup (text_block_key e.item_id e.content_index) c.text_blocks) [] c

-- Close the block of an index that was looked up, if there is one.
unfoldable pub close_found : Option ℕ → Converter → Handled
close_found none c = (c, sent [])
close_found (some index) c = let closed = close_block index c in (closed.0, sent closed.1)

unfoldable pub on_output_text_done : Option OutputTextDoneEvent → Converter → Handled
on_output_text_done none c = (c, failed (decode "response.output_text.done"))
on_output_text_done (some e) c =
    close_found (lookup (text_block_key e.item_id e.content_index) c.text_blocks) c

abbrev pub function_block_added : OutputItemAddedEvent → ℕ → Converter → Converter
function_block_added e index c = record c {
  function_blocks = insert e.item_id index c.function_blocks;
  function_item_ids = put_item_id e.output_index e.item_id c.function_item_ids;
  saw_function_call = true;
}

unfoldable pub on_output_item_added : Option OutputItemAddedEvent → Converter → Handled
on_output_item_added none c = (c, failed (decode "response.output_item.added"))
on_output_item_added (some e) c =
    let started = ensure_message_start c in
    let opened = open_block tool_use (tool_use_block e.call_id e.name) started.0 in
    if str_eq e.item_type "function_call"
    then (function_block_added e started.0.next_block_index opened.0, sent (started.1 ++ opened.1))
    else (started.0, sent started.1)

abbrev pub function_item : String → ℤ → Converter → String
function_item item_id output_index c =
    if str_eq item_id "" then item_id_at output_index c.function_item_ids else item_id

-- The error leaves the message marked as started, and drops its `message_start`.
unfoldable pub on_arguments_delta : Option ArgumentsDeltaEvent → Converter → Handled
on_arguments_delta none c = (c, failed (decode "response.function_call_arguments.delta"))
on_arguments_delta (some e) c =
    let started = ensure_message_start c in
    let item_id = function_item e.item_id e.output_index started.0 in
    delta_found (input_json_delta e.delta) (failed (missing_function_block item_id e.output_index))
      (lookup item_id started.0.function_blocks) started.1 started.0

unfoldable pub on_arguments_done : Option ArgumentsDoneEvent → Converter → Handled
on_arguments_done none c = (c, failed (decode "response.function_call_arguments.done"))
on_arguments_done (some e) c =
    close_found (lookup (function_item e.item_id e.output_index c) c.function_blocks) c

abbrev pub thinking_block_added : SummaryPartEvent → ℕ → Converter → Converter
thinking_block_added e index c = record c {
  thinking_blocks = insert (thinking_block_key e.item_id e.summary_index) index c.thinking_blocks;
}

unfoldable pub on_summary_part_added : Option SummaryPartEvent → Converter → Handled
on_summary_part_added none c = (c, failed (decode "response.reasoning_summary_part.added"))
on_summary_part_added (some e) c =
    let started = ensure_message_start c in
    let opened = open_block thinking thinking_block started.0 in
    (thinking_block_added e started.0.next_block_index opened.0, sent (started.1 ++ opened.1))

unfoldable pub on_summary_text_delta : Option SummaryTextDeltaEvent → Converter → Handled
on_summary_text_delta none c = (c, failed (decode "response.reasoning_summary_text.delta"))
on_summary_text_delta (some e) c =
    delta_found (thinking_delta e.delta) (sent [])
      (lookup (thinking_block_key e.item_id e.summary_index) c.thinking_blocks) [] c

unfoldable pub on_summary_text_done : Option SummaryTextDoneEvent → Converter → Handled
on_summary_text_done none c = (c, failed (decode "response.reasoning_summary_text.done"))
on_summary_text_done (some e) c =
    close_found (lookup (thinking_block_key e.item_id e.summary_index) c.thinking_blocks) c

unfoldable pub on_summary_part_done : Option SummaryPartEvent → Converter → Handled
on_summary_part_done none c = (c, sent [])
on_summary_part_done (some e) c =
    close_found (lookup (thinking_block_key e.item_id e.summary_index) c.thinking_blocks) c

abbrev pub with_usage : ℤ → ℤ → Converter → Converter
with_usage i o c = record c { usage = record c.usage { input_tokens = i; output_tokens = o } }

unfoldable pub on_completed : Option CompletedEvent → Converter → Handled
on_completed none c = (c, failed (decode "response.completed"))
on_completed (some e) c =
    let started =
      ensure_message_start (with_usage e.input_tokens e.output_tokens (with_id e.id c)) in
    let ended = close_and_end started.0 in (ended.0, sent (started.1 ++ ended.1))

-- The switch over the type of the event.
unfoldable pub dispatch : Decoder → String → String → Converter → Handled
dispatch d type payload c =
    if str_eq type "response.created"
    then on_created (d.created payload) c
    else if str_eq type "response.content_part.added"
    then on_content_part_added (d.content_part_added payload) c
    else if str_eq type "response.output_text.delta"
    then on_output_text_delta (d.output_text_delta payload) c
    else if str_eq type "response.output_text.done"
    then on_output_text_done (d.output_text_done payload) c
    else if str_eq type "response.output_item.added"
    then on_output_item_added (d.output_item_added payload) c
    else if str_eq type "response.function_call_arguments.delta"
    then on_arguments_delta (d.arguments_delta payload) c
    else if str_eq type "response.function_call_arguments.done"
    then on_arguments_done (d.arguments_done payload) c
    else if str_eq type "response.reasoning_summary_part.added"
    then on_summary_part_added (d.summary_part_added payload) c
    else if str_eq type "response.reasoning_summary_text.delta"
    then on_summary_text_delta (d.summary_text_delta payload) c
    else if str_eq type "response.reasoning_summary_text.done"
    then on_summary_text_done (d.summary_text_done payload) c
    else if str_eq type "response.reasoning_summary_part.done"
    then on_summary_part_done (d.summary_part_done payload) c
    else if str_eq type "response.completed"
    then on_completed (d.completed payload) c
    else (c, sent [])

unfoldable pub process_event : Decoder → Event → Converter → Handled
process_event d e c = dispatch d e.type e.payload c

-- What the loop of Adapter.Stream in internal/provider/openai/adapter.go does with the outcome of
-- an event, and with what comes of the events after it: an error ends the stream, finalized.
unfoldable pub convert_next :
    Handled → (Converter → List Payload × Option StreamError) → List Payload × Option StreamError
convert_next (c, failed err) next = ((finalize c).1, some err)
convert_next (c, sent ps) next = let rest = next c in (ps ++ rest.0, rest.1)

-- All that the adapter writes for the events of a stream that it reads to the end, and the error.
-- The writes succeed; the error of a failed read ends the stream as its end does.
unfoldable pub convert : Decoder → List Event → Converter → List Payload × Option StreamError
convert d [] c = ((finalize c).1, none)
convert d (e ∷ es) c =
    let skipped = convert d es c in
    let converted = convert_next (process_event d e c) (convert d es) in
    if str_eq e.payload "[DONE]" then skipped else converted
