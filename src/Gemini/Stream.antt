-- ===== src/Gemini/Stream.antt =====
-- internal/provider/gemini/stream.go: the conversion of a stream of Gemini responses into the events
-- of the Messages API. `clock` is time.Now in nanoseconds, reading by reading; `marshal` is
-- json.Marshal of decoded arguments, which does not fail. So no case of ProcessResponse fails, and
-- it returns the new converter with the payloads. The tool schemas that the converter is given are
-- never read and left out. An int is an integer, the index of a block a natural number.
pub mod Events
pub mod Deltas
pub mod Joining
pub mod Tools
pub mod Ordered
pub mod Closing
pub mod Steps
pub mod Responses
pub mod Whole
pub mod Tests
use cc_gateway.Base.{
  ℕ, zero, suc, ℤ, pos, show, ◌<>◌, String, Bool, true, false, not, leb, List, [], ◌∷◌, ◌++◌,
  Option, none, some, str_eq, if◌then◌else◌, ◌&&◌, Map, lookup, insert, map,
}
use cc_gateway.Domain.{Usage}
use cc_gateway.Domain.Value.{Any, nil}
use cc_gateway.Anthropic.{
  Payload, message_start, content_block_start, content_block_delta, content_block_stop,
  message_delta, message_stop, text_block, thinking_block, tool_use_block, text_delta,
  thinking_delta, input_json_delta, signature_delta, stops, any_of,
}
use Events.{FunctionCall, Part, Candidate, Response, UsageMetadata}
use Deltas.{compute_stream_delta}

-- toolStreamState
pub record ToolState : Type 0 where
  pub id : String
  pub name : String
  pub index : ℕ
  pub previous_json : String
  pub is_open : Bool

-- The text index is -1 at first, and read only while the text block is open.
pub record Converter : Type 0 where
  pub model : String
  pub message_id : String
  pub started : Bool
  pub finished : Bool
  pub content_block_completed : Bool
  pub next_index : ℕ
  pub text_index : ℕ
  pub text_block_open : Bool
  pub previous_text : String
  pub tool_states : Map ToolState
  pub saw_function_call : Bool
  pub usage : Usage
  pub readings : ℕ

abbrev pub no_usage : Usage
no_usage = record {
  input_tokens = pos 0;
  output_tokens = pos 0;
  thinking_tokens = pos 0;
  cache_read_tokens = pos 0;
  cache_write_tokens = pos 0;
}

unfoldable pub new : (ℕ → ℕ) → String → Converter
new clock model = record {
  model = model;
  message_id = "msg_" <> show (pos (clock 0));
  started = false;
  finished = false;
  content_block_completed = false;
  next_index = 0;
  text_index = 0;
  text_block_open = false;
  previous_text = "";
  tool_states = [];
  saw_function_call = false;
  usage = no_usage;
  readings = 1;
}

-- marshalCompactJSON
unfoldable pub marshal_compact_json : (Any → String) → Any → String
marshal_compact_json marshal nil = "{}"
marshal_compact_json marshal v = marshal v

unfoldable pub count_usage : Option UsageMetadata → Converter → Converter
count_usage none c = c
count_usage (some u) c = record c {
  usage = record c.usage {
    input_tokens = u.prompt_token_count;
    output_tokens = u.candidates_token_count;
  };
}

unfoldable pub start_unless : Bool → Converter → Converter × List Payload
start_unless true c = (c, [])
start_unless false c = (
  record c { started = true },
  message_start c.message_id c.model c.usage.input_tokens c.usage.output_tokens ∷ [],
)

-- A delta, unless its text is empty.
abbrev pub unless_empty : String → Payload → List Payload
unless_empty s p = if str_eq s "" then [] else p ∷ []

-- The case of a thought: a block of its own, started and stopped at once.
unfoldable pub on_thought : Part → Converter → Converter × List Payload
on_thought p c =
    let i = c.next_index in
    (
      record c { next_index = suc i; content_block_completed = true },
      content_block_start i thinking_block
            ∷ unless_empty p.text (content_block_delta i (thinking_delta p.text))
          ++ (unless_empty p.thought_signature
                (content_block_delta i (signature_delta p.thought_signature))
              ++ content_block_stop i ∷ []),
    )

unfoldable pub open_text_unless : Bool → Converter → Converter × List Payload
open_text_unless true c = (c, [])
open_text_unless false c = (
  record c { text_index = c.next_index; next_index = suc c.next_index; text_block_open = true },
  content_block_start c.next_index text_block ∷ [],
)

unfoldable pub on_text : Part → Converter → Converter × List Payload
on_text p c =
    let opened = open_text_unless c.text_block_open c in
    let (delta, previous) = compute_stream_delta p.text opened.0.previous_text in
    (
      record opened.0 { previous_text = previous },
      opened.1 ++ unless_empty delta (content_block_delta opened.0.text_index (text_delta delta)),
    )

unfoldable pub emit_signature_carrier : String → Converter → Converter × List Payload
emit_signature_carrier signature c =
    let i = c.next_index in
    if str_eq signature "" then (c, []) else (
      record c { next_index = suc i; content_block_completed = true },
      content_block_start i thinking_block
          ∷ content_block_delta i (signature_delta signature)
          ∷ content_block_stop i
          ∷ [],
    )

abbrev pub tool_key : ℕ → String
tool_key i = "part_" <> show (pos i)

-- The state of a part's call, made with the next index if there is none.
unfoldable pub tool_state :
    (ℕ → ℕ) → String → FunctionCall → Option ToolState → Converter → Converter × ToolState
tool_state clock key call (some s) c = (c, s)
tool_state clock key call none c =
    let s : ToolState = record {
      id = "toolu_" <> show (pos (clock c.readings));
      name = call.name;
      index = c.next_index;
      previous_json = "";
      is_open = false;
    } in
    (
      record c {
        tool_states = insert key s c.tool_states;
        next_index = suc c.next_index;
        readings = suc c.readings;
      },
      s,
    )

abbrev pub named : FunctionCall → ToolState → ToolState
named call s = record s { name = if str_eq s.name "" then call.name else s.name }

unfoldable pub open_tool_unless : Bool → ToolState → List Payload
open_tool_unless true s = []
open_tool_unless false s = content_block_start s.index (tool_use_block s.id s.name) ∷ []

-- What is behind the look-up of the state; the state is written back in its map.
unfoldable pub send_arguments : String → String → ToolState → Converter → Converter × List Payload
send_arguments key arguments s c =
    let (delta, previous) = compute_stream_delta arguments s.previous_json in
    (
      record c {
        tool_states =
            insert key (record s { is_open = true; previous_json = previous }) c.tool_states;
      },
      open_tool_unless s.is_open s
          ++ unless_empty delta (content_block_delta s.index (input_json_delta delta)),
    )

unfoldable pub on_function_call :
    (ℕ → ℕ) → (Any → String) → ℕ → Part → FunctionCall → Converter → Converter × List Payload
on_function_call clock marshal i p call c =
    let carried = emit_signature_carrier p.thought_signature c in
    let d = record carried.0 { saw_function_call = true } in
    let found = tool_state clock (tool_key i) call (lookup (tool_key i) d.tool_states) d in
    let sent =
      send_arguments (tool_key i) (marshal_compact_json marshal call.args) (named call found.1)
        found.0 in
    (sent.0, carried.1 ++ sent.1)

abbrev pub on_call :
    (ℕ → ℕ) → (Any → String) → ℕ → Part → Option FunctionCall → Converter → Converter × List Payload
on_call clock marshal i p none c = (c, [])
on_call clock marshal i p (some call) c = on_function_call clock marshal i p call c

-- The switch over a part.
unfoldable pub on_part : (ℕ → ℕ) → (Any → String) → ℕ → Part → Converter → Converter × List Payload
on_part clock marshal i p c =
    if p.thought
    then on_thought p c
    else if not (str_eq p.text "")
    then on_text p c
    else on_call clock marshal i p p.function_call c

-- The loop over the parts from the i-th on.
unfoldable pub on_parts :
    (ℕ → ℕ) → (Any → String) → ℕ → List Part → Converter → Converter × List Payload
on_parts clock marshal i [] c = (c, [])
on_parts clock marshal i (p ∷ ps) c =
    let now = on_part clock marshal i p c in
    let later = on_parts clock marshal (suc i) ps now.0 in (later.0, now.1 ++ later.1)

abbrev pub close_text_if : Bool → Converter → Converter × List Payload
close_text_if true c = (
  record c { text_block_open = false; content_block_completed = true },
  content_block_stop c.text_index ∷ [],
)
close_text_if false c = (c, [])

-- The indices of the open tool blocks, in the order of the map.
unfoldable pub open_tools : Map ToolState → List ℕ
open_tools [] = []
open_tools ((k, s) ∷ m) = if s.is_open then s.index ∷ open_tools m else open_tools m

-- sort.Slice by the index
unfoldable pub insert_ascending : ℕ → List ℕ → List ℕ
insert_ascending i [] = i ∷ []
insert_ascending i (j ∷ js) = if leb i j then i ∷ j ∷ js else j ∷ insert_ascending i js

unfoldable pub sort_ascending : List ℕ → List ℕ
sort_ascending [] = []
sort_ascending (i ∷ is) = insert_ascending i (sort_ascending is)

unfoldable pub shut : Map ToolState → Map ToolState
shut [] = []
shut ((k, s) ∷ m) = (k, record s { is_open = false }) ∷ shut m

abbrev pub close_tools : Converter → Converter × List Payload
close_tools c =
    let is = sort_ascending (open_tools c.tool_states) in
    (
      record c {
        tool_states = shut c.tool_states;
        content_block_completed = any_of is c.content_block_completed;
      },
      stops is,
    )

unfoldable pub close_open_blocks : Converter → Converter × List Payload
close_open_blocks c =
    let text_closed = close_text_if c.text_block_open c in
    let all_closed = close_tools text_closed.0 in (all_closed.0, text_closed.1 ++ all_closed.1)

unfoldable pub fill_unless : Bool → Converter → Converter × List Payload
fill_unless true c = (c, [])
fill_unless false c = (
  record c { next_index = suc c.next_index; content_block_completed = true },
  content_block_start c.next_index text_block ∷ content_block_stop c.next_index ∷ [],
)

unfoldable pub ensure_content_block : Converter → Converter × List Payload
ensure_content_block c = fill_unless c.content_block_completed c

-- The end of a message: the filler block where it is needed, `message_delta` and `message_stop`.
unfoldable pub end_message : String → Converter → Converter × List Payload
end_message why c =
    let filled = ensure_content_block c in
    (
      record filled.0 { finished = true },
      filled.1 ++ message_delta why c.usage.input_tokens c.usage.output_tokens ∷ message_stop ∷ [],
    )

unfoldable pub map_finish_reason : String → String
map_finish_reason reason = if str_eq reason "MAX_TOKENS" then "max_tokens" else "end_turn"

unfoldable pub stop_reason : String → Bool → String
stop_reason reason saw_call =
    if str_eq reason "STOP" && saw_call then "tool_use" else map_finish_reason reason

unfoldable pub finish : String → Converter → Converter × List Payload
finish reason c =
    let closed = close_open_blocks c in
    let ended = end_message (stop_reason reason closed.0.saw_function_call) closed.0 in
    (ended.0, closed.1 ++ ended.1)

unfoldable pub finish_if : String → Converter → Converter × List Payload
finish_if reason c = if str_eq reason "" then (c, []) else finish reason c

-- The first candidate; the others are not looked at.
unfoldable pub on_candidates :
    (ℕ → ℕ) → (Any → String) → List Candidate → Converter → Converter × List Payload
on_candidates clock marshal [] c = (c, [])
on_candidates clock marshal (candidate ∷ rest) c =
    let parts = on_parts clock marshal 0 candidate.parts c in
    let ended = finish_if candidate.finish_reason parts.0 in (ended.0, parts.1 ++ ended.1)

unfoldable pub process_response :
    (ℕ → ℕ) → (Any → String) → Response → Converter → Converter × List Payload
process_response clock marshal r c =
    let counted = count_usage r.usage_metadata c in
    let started = start_unless counted.started counted in
    let sent = on_candidates clock marshal r.candidates started.0 in (sent.0, started.1 ++ sent.1)

unfoldable pub end_unless : Bool → Converter → Converter × List Payload
end_unless true c = (c, [])
end_unless false c = end_message "end_turn" c

unfoldable pub finalize : Converter → Converter × List Payload
finalize c =
    let closed = close_open_blocks c in
    let ended = end_unless closed.0.finished closed.0 in
    if c.started then (ended.0, closed.1 ++ ended.1) else (c, [])

-- What the loop of Adapter.Stream in internal/provider/gemini/adapter.go does with the data of an
-- event, and with what comes of the events after it: data that does not decode ends the stream.
unfoldable pub convert_next :
    (ℕ → ℕ)
    → (Any → String)
    → Converter
    → Option Response
    → (Converter → List Payload × Bool)
    → List Payload × Bool
convert_next clock marshal c none next = ((finalize c).1, true)
convert_next clock marshal c (some r) next =
    let sent = process_response clock marshal r c in
    let later = next sent.0 in (sent.1 ++ later.0, later.1)

-- All that the adapter writes for the data of the events that it reads to the end, and whether some
-- did not decode. The writes succeed; the error of a failed read ends the stream as its end does.
unfoldable pub convert :
    (ℕ → ℕ)
    → (Any → String)
    → (String → Option Response)
    → List String
    → Converter
    → List Payload × Bool
convert clock marshal decode [] c = ((finalize c).1, false)
convert clock marshal decode (payload ∷ rest) c =
    let skipped = convert clock marshal decode rest c in
    let decoded =
      convert_next clock marshal c (decode payload) (convert clock marshal decode rest) in
    if str_eq payload "" then skipped else if str_eq payload "[DONE]" then skipped else decoded
