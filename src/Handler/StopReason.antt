-- ===== src/Handler/StopReason.antt =====
-- extractStopReason of internal/proxy/handler.go. A text is a list of code points; `decode` is
-- json.Unmarshal into the struct of a payload, whose stop reason is left out if it is null.
use cc_gateway.Base.{
  ℕ, ◌==◌, String, not, List, [], ◌∷◌, Option, none, some, str_eq, if◌then◌else◌, drop,
}
use cc_gateway.Sse.Reader.{trim_space, has_prefix, is_nil}
use cc_gateway.Domain.Glob.{codes}

pub record StopPayload : Type 0 where
  pub type : String
  pub stop_reason : Option String

-- strings.Split at the line feeds: the first line and the others.
unfoldable pub split : List ℕ → List ℕ × List (List ℕ)
split [] = ([], [])
split (c ∷ cs) =
    let (line, rest) = split cs in if c == 10 then ([], line ∷ rest) else (c ∷ line, rest)

abbrev pub non_empty : Option String → String → String
non_empty none last = last
non_empty (some s) last = if str_eq s "" then last else s

-- The last stop reason after a payload.
unfoldable pub stop_of : Option StopPayload → String → String
stop_of none last = last
stop_of (some p) last = if str_eq p.type "message_delta" then non_empty p.stop_reason last else last

-- What a line makes of the last stop reason.
unfoldable pub stop_after : (List ℕ → Option StopPayload) → String → List ℕ → String
stop_after decode last line =
    let trimmed = trim_space line in
    let found = trim_space (drop 5 trimmed) in
    if not (has_prefix (codes "data:") trimmed)
    then last
    else if is_nil found
    then last
    else stop_of (decode found) last

unfoldable pub stop_in : (List ℕ → Option StopPayload) → String → List (List ℕ) → String
stop_in decode last [] = last
stop_in decode last (line ∷ rest) = stop_in decode (stop_after decode last line) rest

unfoldable pub extract_stop_reason : (List ℕ → Option StopPayload) → List ℕ → String
extract_stop_reason decode raw = let (line, rest) = split raw in stop_in decode "" (line ∷ rest)
