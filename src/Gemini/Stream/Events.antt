-- ===== src/Gemini/Stream/Events.antt =====
-- The structs of a Gemini response, of internal/provider/gemini/stream.go and translate.go; json.Unmarshal
-- into them is a parameter of the conversion. Fields that nothing reads are left out.
use cc_gateway.Base.{ℤ, String, Bool, List, Option}
use cc_gateway.Domain.Value.{Any}

pub record FunctionCall : Type 0 where
  pub name : String
  pub args : Any

pub record Part : Type 0 where
  pub text : String
  pub thought : Bool
  pub thought_signature : String
  pub function_call : Option FunctionCall

-- `content.parts` stands in the candidate itself.
pub record Candidate : Type 0 where
  pub parts : List Part
  pub finish_reason : String

pub record UsageMetadata : Type 0 where
  pub prompt_token_count : ℤ
  pub candidates_token_count : ℤ
  pub total_token_count : ℤ

pub record Response : Type 0 where
  pub candidates : List Candidate
  pub usage_metadata : Option UsageMetadata
