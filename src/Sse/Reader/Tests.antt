-- ===== src/Sse/Reader/Tests.antt =====
-- An event on its way from the writer to the reader.
use cc_gateway.Base.{◌≡◌, refl, ◌++◌, arith}
use cc_gateway.Domain.Glob.{codes}
use cc_gateway.Sse.Writer.{frame}
use cc_gateway.Sse.Reader.{event, bytes, max_token, scan_lines, trim_space, trim_left, trim_right}
use cc_gateway.Sse.Reader.RoundTrip.{read_event, next-frame}

next-frame_example :
    read_event (scan_lines (frame "ping" (codes "{}") ++ codes "data: more"))
    ≡ (scan_lines (codes "data: more"), event (codes "ping") (codes "{}"))
unfolding trim_space trim_left trim_right bytes max_token
next-frame_example =
    next-frame "ping" (codes "{}") (codes "data: more") (refl, (refl, (refl, (refl, tt))))
      (refl, (refl, tt)) refl refl (omega arith) (omega arith)
