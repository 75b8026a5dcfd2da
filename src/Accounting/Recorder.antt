-- ===== src/Accounting/Recorder.antt =====
-- internal/accounting/recorder.go: the queue between requests and the repository. A text of a body or
-- an error is a list of numbers; cost and latency are left out. What the repository answers to an
-- InsertLog is an argument; the error of InsertPayload is only logged.
pub mod Runs
use cc_gateway.Base.{
  ℕ, suc, ℤ, ltb, length, String, Bool, true, false, ◌&&◌, List, [], ◌∷◌, ◌++◌, Option, none, some,
  if◌then◌else◌,
}
use cc_gateway.Domain.{Usage}

pub record RequestRecord : Type 0 where
  pub key_id : String
  pub key_hint : String
  pub account_id : String
  pub account_name : String
  pub provider : String
  pub model_requested : String
  pub model_actual : String
  pub usage : Usage
  pub stop_reason : String
  pub error : List ℕ
  pub status_code : ℕ
  pub request_body : List ℕ
  pub response_body : List ℕ

-- `queue` is the channel, `dropped` the metric.
pub record Recorder : Type 0 where
  pub queue : List RequestRecord
  pub closed : Bool
  pub dropped : ℕ

abbrev pub capacity : ℕ
capacity = 1000

unfoldable pub new : Recorder
new = record { queue = []; closed = false; dropped = 0 }

-- Record. A send on the closed channel panics: `none`.
unfoldable pub record_in : RequestRecord → Recorder → Option Recorder
record_in rec r =
    if r.closed
    then none
    else if ltb (length r.queue) capacity
    then some (record r { queue = r.queue ++ rec ∷ [] })
    else some (record r { dropped = suc r.dropped })

-- The loop takes the next record: `none` if there is none.
unfoldable pub take_next : Recorder → Option (RequestRecord × Recorder)
take_next r = elim r.queue [ [] ↦ none | rec ∷ rest ↦ some (rec, record r { queue = rest }) ]

-- Close closes the channel once; the loop goes on until the channel is empty.
unfoldable pub close : Recorder → Recorder
close r = record r { closed = true }

pub record RequestLog : Type 0 where
  pub key_id : String
  pub key_hint : String
  pub account_id : String
  pub account_name : String
  pub provider : String
  pub model_requested : String
  pub model_actual : String
  pub input_tokens : ℤ
  pub output_tokens : ℤ
  pub thinking_tokens : ℤ
  pub cache_read_tokens : ℤ
  pub cache_write_tokens : ℤ
  pub stop_reason : String
  pub error : List ℕ
  pub status_code : ℕ

pub record RequestPayload : Type 0 where
  pub log_id : ℤ
  pub request_body : List ℕ
  pub response_body : List ℕ

-- The calls of the repository.
pub data Insert : Type 0 where
  insert_log : RequestLog → Insert
  insert_payload : RequestPayload → Insert

unfoldable pub log_of : RequestRecord → RequestLog
log_of rec = record {
  key_id = rec.key_id;
  key_hint = rec.key_hint;
  account_id = rec.account_id;
  account_name = rec.account_name;
  provider = rec.provider;
  model_requested = rec.model_requested;
  model_actual = rec.model_actual;
  input_tokens = rec.usage.input_tokens;
  output_tokens = rec.usage.output_tokens;
  thinking_tokens = rec.usage.thinking_tokens;
  cache_read_tokens = rec.usage.cache_read_tokens;
  cache_write_tokens = rec.usage.cache_write_tokens;
  stop_reason = rec.stop_reason;
  error = rec.error;
  status_code = rec.status_code;
}

abbrev pub is_empty : List ℕ → Bool
is_empty [] = true
is_empty (b ∷ bs) = false

-- What is inserted behind a log, from the id that the repository has answered.
unfoldable pub payload_of : RequestRecord → Option ℤ → List Insert
payload_of rec none = []
payload_of rec (some id) =
    if is_empty rec.request_body && is_empty rec.response_body
    then []
    else insert_payload
        (record { log_id = id; request_body = rec.request_body; response_body = rec.response_body })
      ∷ []

-- What the loop does with a record.
unfoldable pub store : (RequestLog → Option ℤ) → RequestRecord → List Insert
store answer rec = insert_log (log_of rec) ∷ payload_of rec (answer (log_of rec))
