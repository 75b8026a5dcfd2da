-- ===== src/OpenAi/Events.antt =====
-- The event structs of internal/provider/openai/stream.go. json.Unmarshal into each of them is a
-- function of the event's data that may fail, and the converter is a function of those.
use cc_gateway.Base.{ℤ, String, Option}

-- sse.Event
pub record Event : Type 0 where
  pub type : String
  pub payload : String

pub record ResponseCreatedEvent : Type 0 where
  pub id : String
  pub model : String

pub record ContentPartAddedEvent : Type 0 where
  pub item_id : String
  pub output_index : ℤ
  pub content_index : ℤ
  pub part_type : String
  pub part_text : String

pub record OutputTextDeltaEvent : Type 0 where
  pub item_id : String
  pub output_index : ℤ
  pub content_index : ℤ
  pub delta : String

pub record OutputTextDoneEvent : Type 0 where
  pub item_id : String
  pub output_index : ℤ
  pub content_index : ℤ
  pub text : String

pub record OutputItemAddedEvent : Type 0 where
  pub output_index : ℤ
  pub item_id : String
  pub item_type : String
  pub call_id : String
  pub name : String
  pub arguments : String

pub record ArgumentsDeltaEvent : Type 0 where
  pub item_id : String
  pub output_index : ℤ
  pub delta : String

pub record ArgumentsDoneEvent : Type 0 where
  pub item_id : String
  pub output_index : ℤ
  pub arguments : String

pub record CompletedEvent : Type 0 where
  pub id : String
  pub model : String
  pub status : String
  pub input_tokens : ℤ
  pub output_tokens : ℤ
  pub total_tokens : ℤ

pub record SummaryPartEvent : Type 0 where
  pub item_id : String
  pub output_index : ℤ
  pub summary_index : ℤ

pub record SummaryTextDeltaEvent : Type 0 where
  pub item_id : String
  pub output_index : ℤ
  pub summary_index : ℤ
  pub delta : String

pub record SummaryTextDoneEvent : Type 0 where
  pub item_id : String
  pub output_index : ℤ
  pub summary_index : ℤ
  pub text : String

pub record Decoder : Type 0 where
  pub created : String → Option ResponseCreatedEvent
  pub content_part_added : String → Option ContentPartAddedEvent
  pub output_text_delta : String → Option OutputTextDeltaEvent
  pub output_text_done : String → Option OutputTextDoneEvent
  pub output_item_added : String → Option OutputItemAddedEvent
  pub arguments_delta : String → Option ArgumentsDeltaEvent
  pub arguments_done : String → Option ArgumentsDoneEvent
  pub summary_part_added : String → Option SummaryPartEvent
  pub summary_text_delta : String → Option SummaryTextDeltaEvent
  pub summary_text_done : String → Option SummaryTextDoneEvent
  pub summary_part_done : String → Option SummaryPartEvent
  pub completed : String → Option CompletedEvent
