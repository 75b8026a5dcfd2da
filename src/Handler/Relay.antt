-- ===== src/Handler/Relay.antt =====
-- What a call of Stream makes of a response on which nothing has been written.
use cc_gateway.Base.{
  ℕ, ◌+◌, ◌==◌, ◌≡◌, ◌⊎◌, inl, inr, refl, sym, ap, ◌∙◌, subst, length, drop, Bool, true, false,
  List, [], ◌∷◌, ◌++◌, append-nil, append_assoc, Option, none, some, if◌then◌else◌, arith,
}
use cc_gateway.Domain.{Account}
use cc_gateway.Retry.{Error}
use cc_gateway.Sse.Writer.{Writer, Takes, new_buffered_writer, write_raw_event, flush_buffered}
use cc_gateway.Sse.Writer.Order.{
  Holds, Grows, joined, write-Holds, write-Grows, flush_buffered-Holds, flush_buffered-Grows,
  new-Holds,
}
use cc_gateway.Handler.Response.{ResponseState, new_response, write_response, capture}
use cc_gateway.Handler.Capture.{Keeps, capture-same, write_response-Keeps, new_response-Keeps}
use cc_gateway.Handler.{
  Provider, CanonicalRequest, Environment, Progress, stream_prelude_buffer_bytes,
}
use cc_gateway.Handler.Attempts.{pass_new, passed, send_events, flush_unless, call_stream}

-- A response with the status 200 that keeps what it has sent.
pub record IsTouched (rw : ResponseState) : Type 0 where
  pub header : rw.wrote_header ≡ true
  pub status : rw.status_code ≡ 200
  pub keeps : Keeps rw

abbrev pub Seen : ResponseState → Type 0
Seen rw = (rw ≡ new_response) ⊎ IsTouched rw

abbrev pub IsPrefix : List ℕ → List ℕ → Type 0
IsPrefix xs ys = (rest : List ℕ) × (xs ++ rest ≡ ys)

Seen-Keeps : (rw : ResponseState) → Seen rw → Keeps rw
Seen-Keeps rw (inl e) = subst Keeps (sym e) new_response-Keeps
Seen-Keeps rw (inr t) = t.keeps

status_200 : (n : ℕ) → (n ≡ 0) ⊎ (n ≡ 200) → (if n == 0 then 200 else n) ≡ 200
status_200 n (inl e) = ground arith
status_200 n (inr e) = ground arith

Seen-status : (rw : ResponseState) → Seen rw → (rw.status_code ≡ 0) ⊎ (rw.status_code ≡ 200)
Seen-status rw (inl e) = inl (ap (λ (w : ResponseState). w.status_code) e)
Seen-status rw (inr t) = inr t.status

abbrev Is200 : ResponseState → Type 0
Is200 rw = (rw.wrote_header ≡ true) × (rw.status_code ≡ 200)

write_response-Is200 :
    (takes : Takes) (p : List ℕ) (rw : ResponseState)
    → Seen rw
    → Is200 (write_response takes p rw).0
unfolding write_response
write_response-Is200 takes p rw s = choose (takes rw.written p)
  where
    started : ResponseState
    started = record rw {
      wrote_header = true;
      status_code = if rw.status_code == 0 then 200 else rw.status_code;
    }

    longer : ResponseState
    longer = record started { written = rw.written ++ p; write_count = rw.write_count + length p }

    answer : Bool → ResponseState × Bool
    answer b = if b then (capture p longer, true) else (started, false)

    choose : (b : Bool) → Is200 (answer b).0
    choose true =
        let (written, count, header, status) = capture-same p longer in
        (header, status ∙ status_200 rw.status_code (Seen-status rw s))
    choose false = (refl, status_200 rw.status_code (Seen-status rw s))

write_response-IsTouched :
    (takes : Takes) (p : List ℕ) (rw : ResponseState)
    → Seen rw
    → IsTouched (write_response takes p rw).0
write_response-IsTouched takes p rw s =
    let (header, status) = write_response-Is200 takes p rw s in
    record {
      header = header;
      status = status;
      keeps = write_response-Keeps takes p rw (Seen-Keeps rw s);
    }

taken_written :
    (p : List ℕ) (rw : ResponseState)
    → (write_response (λ sent raw. true) p rw).0.written ≡ rw.written ++ p
unfolding write_response
taken_written p rw = (capture-same p _).0

refused_written :
    (p : List ℕ) (rw : ResponseState)
    → (write_response (λ sent raw. false) p rw).0.written ≡ rw.written
unfolding write_response
refused_written p rw = refl

drop-append : (xs ys : List ℕ) → drop (length xs) (xs ++ ys) ≡ ys
drop-append [] ys = refl
drop-append (x ∷ xs) ys = drop-append xs ys

pass_new-Seen :
    (p : List ℕ) (rw : ResponseState)
    → Seen rw
    → Seen (pass_new p rw) × ((pass_new p rw).written ≡ rw.written ++ p)
unfolding pass_new
pass_new-Seen [] rw s = (s, sym (append-nil rw.written))
pass_new-Seen (b ∷ bs) rw s =
    (inr (write_response-IsTouched (λ sent raw. true) (b ∷ bs) rw s), taken_written (b ∷ bs) rw)

-- The response follows the writer.
passed-Seen :
    (w : Writer) (r : Writer × Bool) (rw : ResponseState)
    → Grows w r
    → Seen rw
    → rw.written ≡ w.sent
    → Seen (passed w r rw) × ((passed w r rw).written ≡ r.0.sent)
unfolding passed
passed-Seen w (w', true) rw g s e =
    let new = ap (drop (length w.sent)) g.behind ∙ drop-append w.sent g.more in
    let (seen, written) = pass_new-Seen (drop (length w.sent) w'.sent) rw s in
    (
      seen,
      written
          ∙ ap (λ (x : List ℕ). rw.written ++ x) new
          ∙ ap (λ (x : List ℕ). x ++ g.more) e
          ∙ sym g.behind,
    )
passed-Seen w (w', false) rw g s e = (
  inr (write_response-IsTouched (λ sent raw. false) [] rw s),
  refused_written [] rw
      ∙ e
      ∙ sym (g.behind ∙ ap (λ (x : List ℕ). w.sent ++ x) (g.none_failed refl) ∙ append-nil w.sent),
)

Holds-IsPrefix : (bytes : List ℕ) (w : Writer) → Holds bytes w → IsPrefix w.sent bytes
Holds-IsPrefix bytes w h = (w.buffer, h.all_here)

IsPrefix-append : (xs ys zs : List ℕ) → IsPrefix xs ys → IsPrefix xs (ys ++ zs)
IsPrefix-append xs ys zs (rest, e) =
    (rest ++ zs, sym (append_assoc xs rest zs) ∙ ap (λ (x : List ℕ). x ++ zs) e)

-- What the response has sent is what the writer has sent, out of what was written to it.
record Relays (bytes : List ℕ) (w : Writer) (rw : ResponseState) : Type 0 where
  holds : Holds bytes w
  seen : Seen rw
  same : rw.written ≡ w.sent

-- A failed write has sent nothing new.
failed-IsPrefix :
    (bytes : List ℕ) (w : Writer) (r : Writer × Bool)
    → Holds bytes w
    → Grows w r
    → r.1 ≡ false
    → IsPrefix r.0.sent bytes
failed-IsPrefix bytes w r h g f =
    subst (λ (x : List ℕ). IsPrefix x bytes)
      (sym (g.behind ∙ ap (λ (x : List ℕ). w.sent ++ x) (g.none_failed f) ∙ append-nil w.sent))
      (Holds-IsPrefix bytes w h)

abbrev Outcome : List ℕ → (Writer × ResponseState) × Bool → Type 0
Outcome all ((w, v), ok) = Seen v × IsPrefix v.written all × (ok ≡ true → Relays all w v)

send_events-Outcome :
    (takes : Takes) (es : List (List ℕ)) (bytes : List ℕ) (w : Writer) (rw : ResponseState)
    → Relays bytes w rw
    → Outcome (bytes ++ joined es) (send_events takes es w rw)
unfolding send_events
send_events-Outcome takes [] bytes w rw r =
    subst (λ (x : List ℕ). Outcome x ((w, rw), true)) (sym (append-nil bytes))
      (
        r.seen,
        subst (λ (x : List ℕ). IsPrefix x bytes) (sym r.same) (Holds-IsPrefix bytes w r.holds),
        λ q. r,
      )
send_events-Outcome takes (e ∷ es) bytes w rw r =
    choose (send_events-Outcome takes es (bytes ++ e) step.0 (passed w step rw))
      (write_raw_event takes e w).1 refl
  where
    step : Writer × Bool
    step = write_raw_event takes e w

    grows : Grows w step
    grows = unfold write_raw_event in write-Grows takes e w

    after : Seen (passed w step rw) × ((passed w step rw).written ≡ step.0.sent)
    after = passed-Seen w step rw grows r.seen r.same

    choose :
        (Relays (bytes ++ e) step.0 (passed w step rw)
          → Outcome ((bytes ++ e) ++ joined es) (send_events takes es step.0 (passed w step rw)))
        → (b : Bool) → step.1 ≡ b
        → Outcome (bytes ++ (e ++ joined es)) (
            if b
            then send_events takes es step.0 (passed w step rw)
            else ((step.0, passed w step rw), false))
    choose later true q =
        subst (λ (x : List ℕ). Outcome x (send_events takes es step.0 (passed w step rw)))
          (append_assoc bytes e (joined es))
          (later (record {
            holds = unfold write_raw_event in write-Holds takes e bytes w r.holds q;
            seen = after.0;
            same = after.1;
          }))
    choose later false q = (
      after.0,
      IsPrefix-append (passed w step rw).written bytes (e ++ joined es) (
          subst (λ (x : List ℕ). IsPrefix x bytes) (sym after.1)
            (failed-IsPrefix bytes w step r.holds grows q)),
      λ f. absurd (cc),
    )

-- The response after the flush.
flush_unless-Seen :
    (takes : Takes) (error : Option Error) (flush_error : Error) (all : List ℕ) (w : Writer)
    (v : ResponseState)
    → Seen v
    → IsPrefix v.written all
    → (error ≡ none → Relays all w v)
    → Seen (flush_unless takes error flush_error w v).0
      × IsPrefix (flush_unless takes error flush_error w v).0.written all
unfolding flush_unless
flush_unless-Seen takes (some e) flush_error all w v s p r = (s, p)
flush_unless-Seen takes none flush_error all w v s p r =
    let relays = r refl in
    let grows = flush_buffered-Grows takes w in
    let (seen, same) = passed-Seen w (flush_buffered takes w) v grows relays.seen relays.same in
    (
      seen,
      subst (λ (x : List ℕ). IsPrefix x all) (sym same)
          (sent relays.holds grows (flush_buffered takes w).1 refl),
    )
  where
    sent :
        Holds all w
        → Grows w (flush_buffered takes w)
        → (b : Bool) → (flush_buffered takes w).1 ≡ b
        → IsPrefix (flush_buffered takes w).0.sent all
    sent h g true q = Holds-IsPrefix all _ (flush_buffered-Holds takes all w h q).0
    sent h g false q = failed-IsPrefix all w (flush_buffered takes w) h g q

no_error : (b : Bool) (e : Option Error) (f : Error) → (if b then e else some f) ≡ none → b ≡ true
no_error true e f h = refl
no_error false e f h = absurd (cc)

new_writer-Relays : Relays [] (new_buffered_writer stream_prelude_buffer_bytes) new_response
new_writer-Relays = record {
  holds = new-Holds stream_prelude_buffer_bytes;
  seen = inl refl;
  same = unfold new_buffered_writer in refl;
}

-- After a call of Stream on a response on which nothing has been written, it has sent a part of the
-- events of that call, from their beginning, with the status 200, or is as it was.
pub call_stream-Seen :
    (env : Environment) (provider : Provider) (a : Account) (req : CanonicalRequest) (h : Progress)
    → h.response ≡ new_response
    → Seen (call_stream env provider a req h).0.response
      × IsPrefix
          (call_stream env provider a req h).0.response.written
          (joined (env.stream provider h.calls a req).events)
unfolding call_stream
call_stream-Seen env provider a req h e =
    let s = env.stream provider h.calls a req in
    let takes : Takes = λ sent raw. env.takes (h.response.written ++ sent) raw in
    let w = new_buffered_writer stream_prelude_buffer_bytes in
    let sent = send_events takes s.events w h.response in
    let (seen, part, relays) =
      send_events-Outcome takes s.events [] w h.response
        (subst (λ (v : ResponseState). Relays [] w v) (sym e) new_writer-Relays) in
    flush_unless-Seen takes (if sent.1 then s.error else some s.write_error) env.flush_error
      (joined s.events) sent.0.0 sent.0.1 seen part
      (λ q. relays (no_error sent.1 s.error s.write_error q))
