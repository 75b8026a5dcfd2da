-- ===== src/Anthropic.antt =====
-- The server-sent events of the Anthropic Messages API, as formatAnthropicEvent of
-- internal/provider/openai/stream.go and internal/provider/gemini/stream.go writes them. The maps
-- that the source marshals hold texts, numbers and nil, so json.Marshal does not fail on them; the
-- bytes of an event are not modelled. Entries that are the same in every event are left out.
pub mod Client
pub mod Indices
pub mod Receiving
use cc_gateway.Base.{ℕ, ℤ, String, Bool, true, List, [], ◌∷◌}

pub data Block : Type 0 where
  text_block thinking_block : Block
  tool_use_block : String → String → Block

pub data Delta : Type 0 where
  text_delta thinking_delta input_json_delta signature_delta : String → Delta

-- `message_start` has the id, the model and the token counts; `message_delta` the stop reason and
-- the token counts.
pub data Payload : Type 0 where
  message_start : String → String → ℤ → ℤ → Payload
  content_block_start : ℕ → Block → Payload
  content_block_delta : ℕ → Delta → Payload
  content_block_stop : ℕ → Payload
  message_delta : String → ℤ → ℤ → Payload
  message_stop : Payload

-- The stop of each of some blocks.
abbrev pub stops : List ℕ → List Payload
stops [] = []
stops (i ∷ is) = content_block_stop i ∷ stops is

-- A flag that stopping a block sets.
abbrev pub any_of : List ℕ → Bool → Bool
any_of [] b = b
any_of (i ∷ is) b = true
