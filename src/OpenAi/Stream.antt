-- ===== src/OpenAi/Stream.antt =====
-- internal/provider/openai/stream.go: the conversion of a Responses stream into the events of the
-- Messages API. ProcessEvent returns the new converter with the payloads or the error; the usage
-- that it also returns is the converter's own. A Go map with int keys is a list of pairs; the map
-- is read in sorted order only. The key of a map of blocks is printed as in the source.
pub mod Handlers
pub mod Ordered
pub mod Closing
pub mod Opening
pub mod Steps
pub mod Late
pub mod Whole
pub mod Tests
use cc_gateway.Base.{
  ℕ, suc, ℤ, pos, show, ◌<>◌, String, Bool, true, false, List, [], ◌∷◌, ◌++◌, Option, none, some,
  map, ◌==◌, leb, if◌then◌else◌, Map,
}
use cc_gateway.Domain.{Usage}
use cc_gateway.Anthropic.{
  Block, Payload, message_start, content_block_start, content_block_stop, message_delta,
  message_stop, text_block,
}

-- contentBlockState
pub data BlockType : Type 0 where
  text tool_use thinking : BlockType

pub record Converter : Type 0 where
  pub model : String
  pub message_id : String
  pub message_started : Bool
  pub stop_reason_sent : Bool
  pub saw_function_call : Bool
  pub content_block_completed : Bool
  pub next_block_index : ℕ
  pub blocks_by_index : List (ℕ × BlockType)
  pub text_blocks : Map ℕ
  pub function_blocks : Map ℕ
  pub function_item_ids : List (ℤ × String)
  pub thinking_blocks : Map ℕ
  pub usage : Usage

unfoldable pub new : String → Converter
new model = record {
  model = model;
  message_id = "";
  message_started = false;
  stop_reason_sent = false;
  saw_function_call = false;
  content_block_completed = false;
  next_block_index = 0;
  blocks_by_index = [];
  text_blocks = [];
  function_blocks = [];
  function_item_ids = [];
  thinking_blocks = [];
  usage = record {
    input_tokens = pos 0;
    output_tokens = pos 0;
    thinking_tokens = pos 0;
    cache_read_tokens = pos 0;
    cache_write_tokens = pos 0;
  };
}

unfoldable pub text_block_key : String → ℤ → String
text_block_key item_id n = item_id <> ":" <> show n

unfoldable pub thinking_block_key : String → ℤ → String
thinking_block_key item_id n = "think:" <> item_id <> ":" <> show n

unfoldable pub start_unless : Bool → Converter → Converter × List Payload
start_unless true c = (c, [])
start_unless false c =
    (record c { message_started = true }, message_start c.message_id c.model (pos 0) (pos 0) ∷ [])

unfoldable pub ensure_message_start : Converter → Converter × List Payload
ensure_message_start c = start_unless c.message_started c

-- What each case that opens a block does: nextIndex, the entry of blocksByIndex for the index,
-- and the `content_block_start`.
unfoldable pub open_block : BlockType → Block → Converter → Converter × List Payload
open_block t b c = (
  record c {
    next_block_index = suc c.next_block_index;
    blocks_by_index = c.blocks_by_index ++ (c.next_block_index, t) ∷ [];
  },
  content_block_start c.next_block_index b ∷ [],
)

-- `_, ok := c.blocksByIndex[index]`
unfoldable pub has_block : ℕ → List (ℕ × BlockType) → Bool
has_block i [] = false
has_block i ((j, t) ∷ bs) = if j == i then true else has_block i bs

unfoldable pub delete_block : ℕ → List (ℕ × BlockType) → List (ℕ × BlockType)
delete_block i [] = []
delete_block i ((j, t) ∷ bs) = if j == i then delete_block i bs else (j, t) ∷ delete_block i bs

abbrev pub without_block : ℕ → Converter → Converter
without_block i c = record c {
  blocks_by_index = delete_block i c.blocks_by_index;
  content_block_completed = true;
}

unfoldable pub close_if : Bool → ℕ → Converter → Converter × List Payload
close_if false i c = (c, [])
close_if true i c = (without_block i c, content_block_stop i ∷ [])

unfoldable pub close_block : ℕ → Converter → Converter × List Payload
close_block i c = close_if (has_block i c.blocks_by_index) i c

-- sort.Sort(sort.Reverse(sort.IntSlice(indices)))
unfoldable pub insert_sorted : ℕ → List ℕ → List ℕ
insert_sorted i [] = i ∷ []
insert_sorted i (j ∷ js) = if leb j i then i ∷ j ∷ js else j ∷ insert_sorted i js

unfoldable pub sort_reverse : List ℕ → List ℕ
sort_reverse [] = []
sort_reverse (i ∷ is) = insert_sorted i (sort_reverse is)

abbrev pub indices : List (ℕ × BlockType) → List ℕ
indices [] = []
indices ((i, t) ∷ bs) = i ∷ indices bs

-- The loop of closeOpenBlocks over the sorted indices.
unfoldable pub close_blocks : List ℕ → Converter → Converter × List Payload
close_blocks [] c = (c, [])
close_blocks (i ∷ is) c =
    let rest = close_blocks is (without_block i c) in (rest.0, content_block_stop i ∷ rest.1)

unfoldable pub close_open_blocks : Converter → Converter × List Payload
close_open_blocks c = close_blocks (sort_reverse (indices c.blocks_by_index)) c

unfoldable pub fill_unless : Bool → Converter → Converter × List Payload
fill_unless true c = (c, [])
fill_unless false c = (
  record c { next_block_index = suc c.next_block_index; content_block_completed = true },
  content_block_start c.next_block_index text_block ∷ content_block_stop c.next_block_index ∷ [],
)

unfoldable pub ensure_content_block : Converter → Converter × List Payload
ensure_content_block c = fill_unless c.content_block_completed c

unfoldable pub stop_reason : Converter → String
stop_reason c = if c.saw_function_call then "tool_use" else "end_turn"

-- The end of a message, with the counts of the usage: a filler block if no block was completed,
-- `message_delta` and `message_stop`. It stands in `response.completed` and in Finalize.
unfoldable pub end_unless : Bool → Converter → Converter × List Payload
end_unless true c = (c, [])
end_unless false c =
    let filled = ensure_content_block c in
    (
      record filled.0 { stop_reason_sent = true },
      filled.1
          ++ message_delta (stop_reason c) c.usage.input_tokens c.usage.output_tokens
            ∷ message_stop
            ∷ [],
    )

unfoldable pub end_message : Converter → Converter × List Payload
end_message c = end_unless c.stop_reason_sent c

-- The open blocks are closed before the message ends.
unfoldable pub close_and_end : Converter → Converter × List Payload
close_and_end c =
    let closed = close_open_blocks c in
    let ended = end_message closed.0 in (ended.0, closed.1 ++ ended.1)

unfoldable pub finalize : Converter → Converter × List Payload
finalize c = if c.message_started then close_and_end c else (c, [])
