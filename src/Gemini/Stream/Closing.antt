-- ===== src/Gemini/Stream/Closing.antt =====
-- The converter against a client of the Messages API: the end of a message.
use cc_gateway.Base.{
  ℕ, suc, ◌≡◌, refl, sym, ap, ◌∙◌, subst, String, Bool, true, false, List, [], ◌∷◌, ◌++◌, Option,
  some, if◌then◌else◌, arith,
}
use cc_gateway.Anthropic.{
  Payload, message_delta, message_stop, content_block_stop, content_block_start, text_block, stops,
  any_of,
}
use cc_gateway.Anthropic.Client.{Client, stopped, receive, receive-append, has, remove}
use cc_gateway.Anthropic.Indices.{AreDistinct}
use cc_gateway.Anthropic.Receiving.{midway, receive_all_stops, receive_block, receive_end}
use cc_gateway.Gemini.Stream.{
  Converter, open_tools, sort_ascending, close_text_if, close_tools, close_open_blocks, fill_unless,
  ensure_content_block, end_message, finish, stop_reason, end_unless, finalize,
}
use cc_gateway.Gemini.Stream.Tools.{
  open_tools-AllOpen, has-sort_ascending, sort_ascending-AreDistinct, open_tools-shut,
}
use cc_gateway.Gemini.Stream.Ordered.{with_text, IsLive, client_of, Follows}

-- The message is over, and no block is left open.
pub record HasEnded (c : Converter) : Type 0 where
  pub started : c.started ≡ true
  pub finished : c.finished ≡ true
  pub text_closed : c.text_block_open ≡ false
  pub tools_closed : open_tools c.tool_states ≡ []

-- What is sent to a client whose open blocks are known ends its message.
abbrev pub Stops : Converter → List ℕ → List Payload → Type 0
Stops c os ps = (k : Client) × (receive (some (client_of c os)) ps ≡ some k) × (k.phase ≡ stopped)

-- The indices of the open blocks in the order in which they are stopped.
abbrev closed_indices : Converter → List ℕ
closed_indices c =
    with_text c.text_block_open c.text_index (sort_ascending (open_tools c.tool_states))

with_text-AreDistinct :
    (b : Bool) (i : ℕ) (is : List ℕ)
    → AreDistinct (with_text b i is)
    → AreDistinct (with_text b i (sort_ascending is))
with_text-AreDistinct true i is d =
    (has-sort_ascending i is ∙ d.0, sort_ascending-AreDistinct is d.1)
with_text-AreDistinct false i is d = sort_ascending-AreDistinct is d

has-with_text :
    (b : Bool) (j i : ℕ) (is : List ℕ)
    → has j (with_text b i (sort_ascending is)) ≡ has j (with_text b i is)
unfolding has
has-with_text true j i is = ground (arith, has-sort_ascending j is)
has-with_text false j i is = has-sort_ascending j is

any_of-true : (is : List ℕ) → any_of is true ≡ true
any_of-true [] = refl
any_of-true (i ∷ is) = refl

-- The converter once its blocks are stopped, and what it has sent: one stop for each of them.
record IsClosed (c : Converter) (is : List ℕ) (r : Converter × List Payload) : Type 0 where
  started : r.0.started ≡ c.started
  finished : r.0.finished ≡ c.finished
  next : r.0.next_index ≡ c.next_index
  completed : r.0.content_block_completed ≡ any_of is c.content_block_completed
  text_closed : r.0.text_block_open ≡ false
  tools_closed : open_tools r.0.tool_states ≡ []
  payloads : r.1 ≡ stops is

close_open_blocks-IsClosed : (c : Converter) → IsClosed c (closed_indices c) (close_open_blocks c)
unfolding close_open_blocks
close_open_blocks-IsClosed c = by_text c.text_block_open refl
  where
    by_text :
        (b : Bool)
        → c.text_block_open ≡ b
        → IsClosed c (with_text b c.text_index (sort_ascending (open_tools c.tool_states))) (
          (close_tools (close_text_if b c).0).0,
          (close_text_if b c).1 ++ (close_tools (close_text_if b c).0).1,
        )
    by_text true e = record {
      started = refl;
      finished = refl;
      next = refl;
      completed = any_of-true (sort_ascending (open_tools c.tool_states));
      text_closed = refl;
      tools_closed = open_tools-shut c.tool_states;
      payloads = refl;
    }
    by_text false e = record {
      started = refl;
      finished = refl;
      next = refl;
      completed = refl;
      text_closed = e;
      tools_closed = open_tools-shut c.tool_states;
      payloads = refl;
    }

-- The client follows until no block is open.
closed-taken :
    (c : Converter) (os : List ℕ)
    → IsLive c
    → Follows c os
    → receive (some (client_of c os)) (close_open_blocks c).1
      ≡ some (client_of (close_open_blocks c).0 [])
closed-taken c os l f =
    let closed = close_open_blocks-IsClosed c in
    let tools = open_tools-AllOpen c.tool_states l.all_open in
    let distinct : AreDistinct (closed_indices c) =
      with_text-AreDistinct c.text_block_open c.text_index (open_tools c.tool_states) (
        subst (λ (is : List ℕ). AreDistinct (with_text c.text_block_open c.text_index is))
          (sym tools) l.distinct) in
    ap (receive (some (client_of c os))) closed.payloads
    ∙ receive_all_stops c.next_index (closed_indices c) os c.content_block_completed distinct (λ i.
      has-with_text c.text_block_open i c.text_index (open_tools c.tool_states)
      ∙ ap (λ (is : List ℕ). has i (with_text c.text_block_open c.text_index is)) tools
      ∙ sym (f i))
    ∙ ap (λ (k : Client). some k) (same closed)
  where
    same :
        IsClosed c (closed_indices c) (close_open_blocks c)
        → midway c.next_index [] (any_of (closed_indices c) c.content_block_completed)
          ≡ client_of (close_open_blocks c).0 []
    same closed =
        ap (λ (n : ℕ). midway n [] (any_of (closed_indices c) c.content_block_completed))
          (sym closed.next)
        ∙ ap (midway (close_open_blocks c).0.next_index []) (sym closed.completed)

remove_self : (n : ℕ) → remove n (n ∷ []) ≡ []
unfolding remove
remove_self n = ground arith

-- The filler block of a message without a completed block.
receive_filler :
    (n : ℕ) (ps : List Payload)
    → receive
        (some (midway n [] false))
        (content_block_start n text_block ∷ content_block_stop n ∷ ps)
      ≡ receive (some (midway (suc n) [] true)) ps
receive_filler n ps =
    receive-append (some (midway n [] false))
      (content_block_start n text_block ∷ content_block_stop n ∷ []) ps
    ∙ ap (λ (o : Option Client). receive o ps) (receive_block n [] false text_block [])
    ∙ ap (λ (os : List ℕ). receive (some (midway (suc n) os true)) ps) (remove_self n)

-- A client without an open block takes the end of the message.
end_message-Stops : (c : Converter) (why : String) → Stops c [] (end_message why c).1
unfolding end_message ensure_content_block fill_unless
end_message-Stops c why = filled c.content_block_completed
  where
    the_end : List Payload
    the_end = message_delta why c.usage.input_tokens c.usage.output_tokens ∷ message_stop ∷ []

    filled :
        (b : Bool)
        → (k : Client) × (receive (some (midway c.next_index [] b)) ((fill_unless b c).1 ++ the_end)
            ≡ some k)
          × (k.phase ≡ stopped)
    filled true = receive_end c.next_index why c.usage.input_tokens c.usage.output_tokens
    filled false =
        let (k, t, e) =
          receive_end (suc c.next_index) why c.usage.input_tokens c.usage.output_tokens in
        (k, receive_filler c.next_index the_end ∙ t, e)

closed_then_ended :
    (c : Converter) (why : String) (os : List ℕ)
    → IsLive c
    → Follows c os
    → Stops c os ((close_open_blocks c).1 ++ (end_message why (close_open_blocks c).0).1)
closed_then_ended c why os l f =
    let d = (close_open_blocks c).0 in
    let (k, t, e) = end_message-Stops d why in
    (
      k,
      receive-append (some (client_of c os)) (close_open_blocks c).1 (end_message why d).1
          ∙ ap (λ (o : Option Client). receive o (end_message why d).1) (closed-taken c os l f)
          ∙ t,
      e,
    )

-- The end of the message at a finish reason.
pub finish-Stops :
    (reason : String) (c : Converter) (os : List ℕ)
    → IsLive c
    → Follows c os
    → Stops c os (finish reason c).1
unfolding finish
finish-Stops reason c os l f =
    closed_then_ended c (stop_reason reason (close_open_blocks c).0.saw_function_call) os l f

fill_unless-keeps :
    (b : Bool) (c : Converter)
    → ((fill_unless b c).0.started ≡ c.started)
      × ((fill_unless b c).0.text_block_open ≡ c.text_block_open)
      × (open_tools (fill_unless b c).0.tool_states ≡ open_tools c.tool_states)
unfolding fill_unless
fill_unless-keeps true c = (refl, refl, refl)
fill_unless-keeps false c = (refl, refl, refl)

pub finish-HasEnded : (reason : String) (c : Converter) → IsLive c → HasEnded (finish reason c).0
unfolding finish end_message ensure_content_block
finish-HasEnded reason c l =
    let d = close_open_blocks-IsClosed c in
    let d' = (close_open_blocks c).0 in
    let (s, t, o) = fill_unless-keeps d'.content_block_completed d' in
    record {
      started = s ∙ d.started ∙ l.running;
      finished = refl;
      text_closed = t ∙ d.text_closed;
      tools_closed = o ∙ d.tools_closed;
    }

abbrev chosen : Bool → Converter × List Payload → Converter → Converter × List Payload
chosen b r c = if b then r else (c, [])

end_of_running :
    (c : Converter)
    → c.started ≡ true
    → (close_open_blocks c).0.finished ≡ false
    → (finalize c).1 ≡ (close_open_blocks c).1 ++ (end_message "end_turn" (close_open_blocks c).0).1
unfolding finalize end_unless
end_of_running c s f =
    let d = (close_open_blocks c).0 in
    let ended = λ (x : Bool). (close_open_blocks c).1 ++ (end_unless x d).1 in
    ap (λ (b : Bool). (chosen b ((end_unless d.finished d).0, ended d.finished) c).1) s ∙ ap ended f

-- The end of the message at the end of the stream.
pub finalize-Stops :
    (c : Converter) (os : List ℕ) → IsLive c → Follows c os → Stops c os (finalize c).1
finalize-Stops c os l f =
    let d = close_open_blocks-IsClosed c in
    subst (λ (ps : List Payload). Stops c os ps)
      (sym (end_of_running c l.running (d.finished ∙ l.unfinished)))
      (closed_then_ended c "end_turn" os l f)

-- A message that is over is not ended again.
pub ended_finalize : (c : Converter) → HasEnded c → (finalize c).1 ≡ []
unfolding finalize close_open_blocks end_unless sort_ascending
ended_finalize c h = ground (arith, h.tools_closed)
