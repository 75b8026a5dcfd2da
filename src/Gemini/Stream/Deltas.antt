-- ===== src/Gemini/Stream/Deltas.antt =====
-- computeStreamDelta of internal/provider/gemini/stream.go: what a text adds to the one before it.
use cc_gateway.Base.{strip_prefix, String, Option, none, some, str_eq, if◌then◌else◌}

abbrev pub behind : String → Option String → String × String
behind incoming none = (incoming, incoming)
behind incoming (some delta) = (delta, incoming)

-- The delta, and the new previous text.
unfoldable pub compute_stream_delta : String → String → String × String
compute_stream_delta incoming previous =
    if str_eq incoming ""
    then ("", previous)
    else if str_eq previous ""
    then (incoming, incoming)
    else behind incoming (strip_prefix previous incoming)
