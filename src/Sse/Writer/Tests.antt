-- ===== src/Sse/Writer/Tests.antt =====
-- Two events through a buffer of forty bytes, of which the second is too much to hold back.
use cc_gateway.Base.{ℕ, pos, ◌≡◌, refl, true, List, [], ◌∷◌, arith}
use cc_gateway.Domain.Glob.{codes}
use cc_gateway.Sse.Writer.{
  Takes, new_buffered_writer, flush_buffered, frame, write, flush_held, pass_on,
}
use cc_gateway.Sse.Writer.Order.{writes, joined, flush-writes, writes-withheld}

abbrev open_line : Takes
open_line sent raw = true

abbrev first_two : List (List ℕ)
first_two = codes "data: one\n\n" ∷ codes "data: and this is another one\n\n" ∷ []

framed : frame "ping" (codes "{}") ≡ codes "event: ping\ndata: {}\n\n"
unfolding frame
framed = refl

all_taken : (writes open_line first_two (new_buffered_writer (pos 40))).1 ≡ true
unfolding writes write new_buffered_writer flush_buffered flush_held pass_on
all_taken = refl

all_flushed :
    (flush_buffered open_line (writes open_line first_two (new_buffered_writer (pos 40))).0).1
    ≡ true
unfolding writes write new_buffered_writer flush_buffered flush_held pass_on
all_flushed = refl

flush-writes_example :
    (flush_buffered open_line (writes open_line first_two (new_buffered_writer (pos 40))).0).0.sent
    ≡ joined first_two
flush-writes_example = flush-writes open_line (pos 40) first_two all_taken all_flushed

writes-withheld_example :
    ((writes open_line (codes "data: one\n\n" ∷ []) (new_buffered_writer (pos 40))).0.sent ≡ [])
    × ((writes open_line (codes "data: one\n\n" ∷ []) (new_buffered_writer (pos 40))).1 ≡ true)
writes-withheld_example =
    writes-withheld open_line (pos 40) (codes "data: one\n\n" ∷ []) (omega arith)
