-- ===== src/Accounting/Tests.antt =====
-- The price of a model, and records on their way.
use cc_gateway.Base.{false, pos, ◌≡◌, refl, String, List, [], ◌∷◌, some}
use cc_gateway.Accounting.Cost.{ModelPricing, zero_float, find_pricing, Found, find_pricing-Found}
use cc_gateway.Accounting.Recorder.{RequestRecord, Recorder, new, record_in, take_next}
use cc_gateway.Accounting.Recorder.Runs.{
  Event, records, takes, steps, step, handed_over, IsConserving, steps-IsConserving,
}

abbrev price : String → ModelPricing
price pattern = record {
  model_pattern = pattern;
  input_price = zero_float;
  output_price = zero_float;
  thinking_price = zero_float;
}

find_pricing-Found_example :
    Found "gpt-5"
      (price "gpt-*" ∷ price "gpt-5" ∷ [])
      (find_pricing "gpt-5" (price "gpt-*" ∷ price "gpt-5" ∷ []))
find_pricing-Found_example = find_pricing-Found "gpt-5" (price "gpt-*" ∷ price "gpt-5" ∷ [])

abbrev rec_of : String → RequestRecord
rec_of id = record {
  key_id = id;
  key_hint = "";
  account_id = "";
  account_name = "";
  provider = "";
  model_requested = "gpt-5";
  model_actual = "gpt-5";
  usage = record {
    input_tokens = pos 1;
    output_tokens = pos 2;
    thinking_tokens = pos 0;
    cache_read_tokens = pos 0;
    cache_write_tokens = pos 0;
  };
  stop_reason = "end_turn";
  error = [];
  status_code = 200;
  request_body = [];
  response_body = [];
}

abbrev events : List Event
events = records (rec_of "a") ∷ takes ∷ records (rec_of "b") ∷ []

abbrev waiting : Recorder
waiting = record { queue = rec_of "b" ∷ []; closed = false; dropped = 0 }

ran : steps events (new, []) ≡ some (waiting, rec_of "a" ∷ [])
unfolding steps step new record_in take_next
ran = refl

steps-IsConserving_example : IsConserving (handed_over events) (waiting, rec_of "a" ∷ [])
steps-IsConserving_example = steps-IsConserving events (waiting, rec_of "a" ∷ []) ran
