-- ===== src/OpenAi/Stream/Late.antt =====
-- A delta that comes when its text is done: the case "response.output_text.delta" of ProcessEvent
-- against the index that closeBlock leaves in textBlocks.
use cc_gateway.Base.{
  ℕ, ◌≡◌, refl, ap, ◌∙◌, String, Bool, true, false, List, [], ◌∷◌, Option, none, some, str_eq,
  lookup, arith,
}
use cc_gateway.Anthropic.{Delta, Payload, content_block_delta, text_delta}
use cc_gateway.Anthropic.Client.{
  Client, receive, receive-append, take_in, has, remove, has-remove, streaming,
}
use cc_gateway.OpenAi.Events.{Event, Decoder, OutputTextDeltaEvent, OutputTextDoneEvent}
use cc_gateway.OpenAi.Stream.{Converter, close_block, close_if, has_block, text_block_key}
use cc_gateway.OpenAi.Stream.Handlers.{
  StreamError, sent, failed, missing_text_block, Handled, delta_found, close_found,
  on_output_text_delta, on_output_text_done, dispatch, process_event, convert_next, convert,
}

-- An event of a type that is not the end marker.
abbrev pub IsOf : String → Event → Type 0
IsOf type e = (e.type ≡ type) × (str_eq e.payload "[DONE]" ≡ false)

convert_sent :
    (d : Decoder) (e : Event) (es : List Event) (c : Converter) (h : Handled)
    → str_eq e.payload "[DONE]" ≡ false
    → process_event d e c ≡ h
    → convert d (e ∷ es) c ≡ convert_next h (convert d es)
unfolding convert
convert_sent d e es c h n p = rw n (ap (λ (x : Handled). convert_next x (convert d es)) p)

process_done :
    (d : Decoder) (e : Event) (c : Converter)
    → e.type ≡ "response.output_text.done"
    → process_event d e c ≡ on_output_text_done (d.output_text_done e.payload) c
unfolding process_event
process_done d e c t = ap (λ (s : String). dispatch d s e.payload c) t ∙ unfold dispatch in refl

process_delta :
    (d : Decoder) (e : Event) (c : Converter)
    → e.type ≡ "response.output_text.delta"
    → process_event d e c ≡ on_output_text_delta (d.output_text_delta e.payload) c
unfolding process_event
process_delta d e c t = ap (λ (s : String). dispatch d s e.payload c) t ∙ unfold dispatch in refl

-- A client in the middle of a message that takes deltas for open blocks only.
abbrev pub IsStrict : Client → Type 0
IsStrict k = (k.phase ≡ streaming) × (k.late_deltas ≡ false)

-- What a client of that kind makes of a block that is closed, or has been before.
record Closes (i : ℕ) (c : Converter) (k : Client) (r : Converter × List Payload) : Type 0 where
  pub after : Client
  pub same_blocks : r.0.text_blocks ≡ c.text_blocks
  pub taken : receive (some k) r.1 ≡ some after
  pub strict : IsStrict after
  pub closed : has i after.open_blocks ≡ false

close_if-Closes :
    (i : ℕ) (c : Converter) (k : Client) (b : Bool)
    → IsStrict k
    → has i k.open_blocks ≡ b
    → Closes i c k (close_if b i c)
unfolding close_if receive take_in
close_if-Closes i c k true s h = record {
  after = record k { open_blocks = remove i k.open_blocks; completed = true };
  same_blocks = refl;
  taken = ground (arith, s.0);
  strict = s;
  closed = ground (arith, has-remove i i k.open_blocks);
}
close_if-Closes i c k false s h = record {
  after = k;
  same_blocks = refl;
  taken = refl;
  strict = s;
  closed = h;
}

late_rejected :
    (i : ℕ) (d : Delta) (k : Client) (ps : List Payload)
    → IsStrict k
    → has i k.open_blocks ≡ false
    → receive (some k) (content_block_delta i d ∷ ps) ≡ none
unfolding receive take_in
late_rejected i d k ps s h = ground (arith, s.0, s.1, h)

-- Wherever a stream has come to: if the text of a part is done and one more delta for this part
-- follows, then what is sent is rejected by every client that takes deltas for open blocks only, if
-- the part's block is open for it exactly if it is for the converter.
pub late_delta_rejected :
    (d : Decoder) (e f : Event) (es : List Event) (c : Converter) (k : Client) (i : ℕ)
    (p : OutputTextDoneEvent) (q : OutputTextDeltaEvent)
    → IsOf "response.output_text.done" e
    → IsOf "response.output_text.delta" f
    → d.output_text_done e.payload ≡ some p
    → d.output_text_delta f.payload ≡ some q
    → lookup (text_block_key p.item_id p.content_index) c.text_blocks ≡ some i
    → text_block_key q.item_id q.content_index ≡ text_block_key p.item_id p.content_index
    → IsStrict k
    → has i k.open_blocks ≡ has_block i c.blocks_by_index
    → receive (some k) (convert d (e ∷ f ∷ es) c).0 ≡ none
late_delta_rejected d e f es c k i p q a b done delta known same s h =
    ap out (
      convert_sent d e (f ∷ es) c (close_found (some i) c) a.1 (
        process_done d e c a.0
        ∙ ap (λ (o : Option OutputTextDoneEvent). on_output_text_done o c) done
        ∙ unfold on_output_text_done in ap (λ (o : Option ℕ). close_found o c) known))
    ∙ unfold close_found convert_next in
      receive-append (some k) closed.1 (convert d (f ∷ es) closed.0).0
      ∙ ap (λ (o : Option Client). receive o (convert d (f ∷ es) closed.0).0) closes.taken
      ∙ ap (λ (r : List Payload × Option StreamError). receive (some closes.after) r.0)
          (convert_sent d f es closed.0
            (closed.0, sent (content_block_delta i (text_delta q.delta) ∷ [])) b.1
            (process_delta d f closed.0 b.0
              ∙ ap (λ (o : Option OutputTextDeltaEvent). on_output_text_delta o closed.0) delta
              ∙ unfold on_output_text_delta in
                ap
                  (λ (o : Option ℕ).
                    delta_found (text_delta q.delta)
                      (failed (missing_text_block q.item_id q.content_index)) o [] closed.0)
                  (ap (λ (x : String). lookup x closed.0.text_blocks) same
                    ∙ ap (lookup (text_block_key p.item_id p.content_index)) closes.same_blocks
                    ∙ known)
                ∙ unfold delta_found in refl))
      ∙ unfold convert_next in
        late_rejected i (text_delta q.delta) closes.after (convert d es closed.0).0 closes.strict
          closes.closed
  where
    closed : Converter × List Payload
    closed = close_block i c

    closes : Closes i c k closed
    closes = unfold close_block in close_if-Closes i c k (has_block i c.blocks_by_index) s h

    out : List Payload × Option StreamError → Option Client
    out r = receive (some k) r.0
