-- ===== src/Handler/Response.antt =====
-- responseStateWriter, truncateForStorage and the writing of errors of internal/proxy/handler.go.
-- Bytes are numbers. `takes` says whether the http.ResponseWriter takes further bytes behind those
-- it has; a Write that fails takes none. Headers but the status are left out, and so is Unwrap.
use cc_gateway.Base.{
  ℕ, ◌+◌, ◌-◌, ◌==◌, ltb, leb, String, Bool, true, false, List, [], ◌∷◌, ◌++◌, length, take,
  if◌then◌else◌,
}
use cc_gateway.Domain.Glob.{codes}
use cc_gateway.Sse.Writer.{Takes}

unfoldable pub max_recorded_payload_bytes : ℕ
max_recorded_payload_bytes = 1048576

unfoldable pub truncated_payload_suffix : List ℕ
truncated_payload_suffix = codes "\n...[truncated]"

unfoldable pub truncate_for_storage : List ℕ → List ℕ
truncate_for_storage raw =
    if leb (length raw) max_recorded_payload_bytes
    then raw
    else take (max_recorded_payload_bytes - length truncated_payload_suffix) raw
      ++ truncated_payload_suffix

-- `written` is what the http.ResponseWriter has taken.
pub record ResponseState : Type 0 where
  pub written : List ℕ
  pub wrote_header : Bool
  pub write_count : ℕ
  pub status_code : ℕ
  pub body : List ℕ
  pub truncated : Bool

-- newResponseStateWriter
abbrev pub new_response : ResponseState
new_response = record {
  written = [];
  wrote_header = false;
  write_count = 0;
  status_code = 0;
  body = [];
  truncated = false;
}

unfoldable pub write_header : ℕ → ResponseState → ResponseState
write_header status w = record w { wrote_header = true; status_code = status }

-- What is behind the early return of capture.
unfoldable pub capture_more : List ℕ → ResponseState → ResponseState
capture_more p w =
    let remaining = max_recorded_payload_bytes - length w.body in
    if leb max_recorded_payload_bytes (length w.body)
    then record w { body = w.body ++ truncated_payload_suffix; truncated = true }
    else if ltb remaining (length p)
    then record w {
      body = w.body ++ (take remaining p ++ truncated_payload_suffix);
      truncated = true;
    }
    else record w { body = w.body ++ p }

unfoldable pub capture : List ℕ → ResponseState → ResponseState
capture [] w = w
capture (b ∷ bs) w = if w.truncated then w else capture_more (b ∷ bs) w

-- The response once the status is set, and whether the bytes were taken.
unfoldable pub write_response : Takes → List ℕ → ResponseState → ResponseState × Bool
write_response takes p w =
    let started = record w {
      wrote_header = true;
      status_code = if w.status_code == 0 then 200 else w.status_code;
    } in
    if takes w.written p
    then (
      capture p
          (record started { written = w.written ++ p; write_count = w.write_count + length p }),
      true,
    )
    else (started, false)

-- StatusCode
unfoldable pub status_of : ResponseState → ℕ
status_of w = if w.status_code == 0 then 200 else w.status_code

-- writeError: `encode` is the JSON of an error of a type, with a message. The error of the write is
-- not looked at.
unfoldable pub write_error :
    Takes → (String → List ℕ → List ℕ) → ℕ → String → List ℕ → ResponseState → ResponseState
write_error takes encode status error_type message w =
    (write_response takes (encode error_type message) (write_header status w)).0
