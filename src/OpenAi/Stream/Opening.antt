-- ===== src/OpenAi/Stream/Opening.antt =====
-- What opens a message or a block keeps the converter sound.
use cc_gateway.Base.{ℕ, ℤ, ◌<◌, ◌≡◌, String, Bool, true, false, List, ◌++◌, arith}
use cc_gateway.Anthropic.{Block, Payload}
use cc_gateway.OpenAi.Events.{ContentPartAddedEvent, OutputItemAddedEvent, SummaryPartEvent}
use cc_gateway.OpenAi.Stream.{
  BlockType, Converter, ensure_message_start, open_block, close_if, close_block,
}
use cc_gateway.OpenAi.Stream.Handlers.{
  with_id, with_usage, text_block_added, function_block_added, thinking_block_added,
}
use cc_gateway.OpenAi.Stream.Ordered.{
  IsSound, IsRunning, Sends, Sends-then, insert-IsBelow, ensure_message_start-Sends,
  open_block-Sends,
}

-- An index that was given out belongs to a message that has started.
pub IsRunning-of :
    (c : Converter) (i : ℕ)
    → IsSound c
    → c.stop_reason_sent ≡ false
    → i < c.next_block_index
    → IsRunning c
IsRunning-of c i s h l = ground (arith, s.unstarted)

pub close_block-unended :
    (i : ℕ) (c : Converter) → (close_block i c).0.stop_reason_sent ≡ c.stop_reason_sent
unfolding close_block close_if
close_block-unended i c = ground arith

pub with_id-IsSound : (id : String) (c : Converter) → IsSound c → IsSound (with_id id c)
with_id-IsSound id c s = record {
  unstarted = s.unstarted;
  blocks_below = s.blocks_below;
  blocks_distinct = s.blocks_distinct;
  text_below = s.text_below;
  function_below = s.function_below;
  thinking_below = s.thinking_below;
}

pub with_usage-IsSound : (i o : ℤ) (c : Converter) → IsSound c → IsSound (with_usage i o c)
with_usage-IsSound i o c s = record {
  unstarted = s.unstarted;
  blocks_below = s.blocks_below;
  blocks_distinct = s.blocks_distinct;
  text_below = s.text_below;
  function_below = s.function_below;
  thinking_below = s.thinking_below;
}

-- A message that has started, and a new block in it.
pub started_and_opened :
    (t : BlockType) (b : Block) (c : Converter)
    → IsSound c
    → c.stop_reason_sent ≡ false
    → let started = ensure_message_start c in
      let opened = open_block t b started.0 in Sends c (opened.0, started.1 ++ opened.1)
started_and_opened t b c s h =
    let started = ensure_message_start c in
    let (sends, runs) = ensure_message_start-Sends c s h in
    Sends-then c started (open_block t b started.0) sends
      (open_block-Sends t b started.0 sends.sound runs)

pub open_block-unended :
    (t : BlockType) (b : Block) (c : Converter)
    → IsSound c
    → c.stop_reason_sent ≡ false
    → (open_block t b (ensure_message_start c).0).0.stop_reason_sent ≡ false
unfolding open_block
open_block-unended t b c s h = (ensure_message_start-Sends c s h).1.1

pub open_block-next :
    (t : BlockType) (b : Block) (c : Converter)
    → c.next_block_index < (open_block t b c).0.next_block_index
unfolding open_block
open_block-next t b c = omega arith

pub true_and_false : {b : Bool} → b ≡ true → b ≡ false → ⊥
true_and_false p q = cc

-- The maps of blocks take the new index.
pub text_added :
    (c : Converter) (r : Converter × List Payload) (e : ContentPartAddedEvent) (i : ℕ)
    → Sends c r
    → i < r.0.next_block_index
    → Sends c (text_block_added e i r.0, r.1)
text_added c r e i h l = record {
  taken = h.taken;
  sound = record {
    unstarted = h.sound.unstarted;
    blocks_below = h.sound.blocks_below;
    blocks_distinct = h.sound.blocks_distinct;
    text_below = insert-IsBelow _ i _ r.0.text_blocks l h.sound.text_below;
    function_below = h.sound.function_below;
    thinking_below = h.sound.thinking_below;
  };
}

pub function_added :
    (c : Converter) (r : Converter × List Payload) (e : OutputItemAddedEvent) (i : ℕ)
    → Sends c r
    → i < r.0.next_block_index
    → Sends c (function_block_added e i r.0, r.1)
function_added c r e i h l = record {
  taken = h.taken;
  sound = record {
    unstarted = h.sound.unstarted;
    blocks_below = h.sound.blocks_below;
    blocks_distinct = h.sound.blocks_distinct;
    text_below = h.sound.text_below;
    function_below = insert-IsBelow _ i _ r.0.function_blocks l h.sound.function_below;
    thinking_below = h.sound.thinking_below;
  };
}

pub thinking_added :
    (c : Converter) (r : Converter × List Payload) (e : SummaryPartEvent) (i : ℕ)
    → Sends c r
    → i < r.0.next_block_index
    → Sends c (thinking_block_added e i r.0, r.1)
thinking_added c r e i h l = record {
  taken = h.taken;
  sound = record {
    unstarted = h.sound.unstarted;
    blocks_below = h.sound.blocks_below;
    blocks_distinct = h.sound.blocks_distinct;
    text_below = h.sound.text_below;
    function_below = h.sound.function_below;
    thinking_below = insert-IsBelow _ i _ r.0.thinking_blocks l h.sound.thinking_below;
  };
}
