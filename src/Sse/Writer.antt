-- ===== src/Sse/Writer.antt =====
-- pkg/sse/writer.go: a writer that holds back the first bytes of a stream. Bytes are numbers, and
-- the type of an event is ASCII. What has been passed to the http.ResponseWriter is `sent`; whether
-- that takes further bytes is the argument `takes`, and a Write that fails sends nothing. An
-- operation returns the new writer, and false for an error. Headers and flushes of the connection
-- are left out.
pub mod Order
pub mod Tests
use cc_gateway.Base.{
  ℕ, ℤ, pos, leb_ℤ, ltb_ℤ, Bool, true, false, String, List, [], ◌∷◌, ◌++◌, length, str_eq,
  if◌then◌else◌,
}
use cc_gateway.Domain.Glob.{codes}

pub record Writer : Type 0 where
  pub sent : List ℕ
  pub buffer : List ℕ
  pub buffer_limit : ℤ
  pub buffer_enabled : Bool

unfoldable pub new_buffered_writer : ℤ → Writer
new_buffered_writer limit =
    if ltb_ℤ (pos 0) limit
    then record { sent = []; buffer = []; buffer_limit = limit; buffer_enabled = true }
    else record { sent = []; buffer = []; buffer_limit = pos 0; buffer_enabled = false }

abbrev pub Takes : Type 0
Takes = List ℕ → List ℕ → Bool

-- Write of the http.ResponseWriter.
unfoldable pub pass_on : Takes → List ℕ → Writer → Writer × Bool
pass_on takes raw w =
    if takes w.sent raw then (record w { sent = w.sent ++ raw }, true) else (w, false)

abbrev pub emptied : Writer × Bool → Writer × Bool
emptied (w, true) = (record w { buffer = []; buffer_enabled = false }, true)
emptied (w, false) = (w, false)

unfoldable pub flush_held : Takes → List ℕ → Writer → Writer × Bool
flush_held takes [] w = (record w { buffer_enabled = false }, true)
flush_held takes (b ∷ bs) w = emptied (pass_on takes (b ∷ bs) w)

unfoldable pub flush_buffered : Takes → Writer → Writer × Bool
flush_buffered takes w = if w.buffer_enabled then flush_held takes w.buffer w else (w, true)

unfoldable pub write : Takes → List ℕ → Writer → Writer × Bool
write takes raw w =
    let held = record w { buffer = w.buffer ++ raw } in
    if w.buffer_enabled
    then (if leb_ℤ w.buffer_limit (pos (length held.buffer))
        then flush_buffered takes held
        else (held, true))
    else pass_on takes raw w

-- The bytes of an event.
unfoldable pub frame : String → List ℕ → List ℕ
frame event_type payload =
    let rest = codes "data: " ++ (payload ++ codes "\n\n") in
    if str_eq event_type ""
    then rest
    else codes "event: " ++ (codes event_type ++ (codes "\n" ++ rest))

unfoldable pub write_event : Takes → String → List ℕ → Writer → Writer × Bool
write_event takes event_type payload w = write takes (frame event_type payload) w

unfoldable pub write_raw_event : Takes → List ℕ → Writer → Writer × Bool
write_raw_event takes raw w = write takes raw w
