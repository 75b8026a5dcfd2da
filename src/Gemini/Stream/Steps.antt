-- ===== src/Gemini/Stream/Steps.antt =====
-- The converter against a client of the Messages API: function calls, and all the parts of a response.
use cc_gateway.Base.{
  ℕ, suc, ◌≡◌, refl, sym, ap, ◌∙◌, subst, String, Bool, true, false, not, ◌||◌, List, [], ◌∷◌, ◌++◌,
  Option, none, some, str_eq, if◌then◌else◌, Map, lookup, insert, arith,
}
use cc_gateway.Domain.Value.{Any}
use cc_gateway.Anthropic.{
  content_block_start, content_block_delta, tool_use_block, input_json_delta,
}
use cc_gateway.Anthropic.Client.{Client, receive-nil, has, has-append}
use cc_gateway.Anthropic.Indices.{
  AreBelow, AreDistinct, AreBelow-suc, AreBelow-append, AreDistinct-append,
}
use cc_gateway.Anthropic.Receiving.{receive_start, has_last}
use cc_gateway.Gemini.Stream.Events.{FunctionCall, Part}
use cc_gateway.Gemini.Stream.Deltas.{compute_stream_delta}
use cc_gateway.Gemini.Stream.{
  Converter, ToolState, unless_empty, on_thought, on_text, emit_signature_carrier, tool_key,
  tool_state, named, open_tool_unless, send_arguments, on_function_call, on_call, on_part, on_parts,
  marshal_compact_json,
}
use cc_gateway.Gemini.Stream.Tools.{
  tool_indices, AllOpen, insert-AllOpen, lookup-AllOpen, tool_indices-new, tool_indices-old,
  insert-insert, lookup-has,
}
use cc_gateway.Gemini.Stream.Ordered.{
  with_text, known, IsLive, client_of, Sends, Sends-nothing, Sends-then, on_thought-Sends,
  on_text-Sends, emit_signature_carrier-Sends, unless_empty-Sends, again,
}

with_text-has :
    (b : Bool) (j i : ℕ) (is : List ℕ) → has i is ≡ true → has i (with_text b j is) ≡ true
unfolding has
with_text-has true j i is h = ground arith
with_text-has false j i is h = h

-- The tool blocks that the converter holds are open.
tool_known :
    (c : Converter) (key : String) (s : ToolState)
    → lookup key c.tool_states ≡ some s
    → has s.index (known c) ≡ true
tool_known c key s e =
    with_text-has c.text_block_open c.text_index s.index (tool_indices c.tool_states)
      (lookup-has key s c.tool_states e)

-- What send_arguments writes back.
abbrev sent_state : String → ToolState → ToolState
sent_state previous s = record s { is_open = true; previous_json = previous }

-- A call of a part that has been seen before goes on in its block.
old_call-Sends :
    (key arguments : String) (call : FunctionCall) (s : ToolState) (c : Converter)
    → IsLive c
    → lookup key c.tool_states ≡ some s
    → Sends c (send_arguments key arguments (named call s) c)
unfolding send_arguments open_tool_unless
old_call-Sends key arguments call s c l e =
    let (delta, previous) = compute_stream_delta arguments s.previous_json in
    let t = sent_state previous (named call s) in
    let c' : Converter = record c { tool_states = insert key t c.tool_states } in
    let same : known c' ≡ known c =
      ap (with_text c.text_block_open c.text_index)
        (tool_indices-old key t s c.tool_states e refl) in
    let kept : Sends c (c', []) =
      again c c' l refl refl refl refl (insert-AllOpen key t c.tool_states refl l.all_open) same in
    subst
      (λ (b : Bool). Sends c (
        c',
        open_tool_unless b (named call s)
            ++ unless_empty delta (content_block_delta s.index (input_json_delta delta)),
      ))
      (sym (lookup-AllOpen key s c.tool_states l.all_open e))
      (Sends-then c (c', []) _ kept
        (unless_empty-Sends c' delta s.index (input_json_delta delta) kept.live
          (ap (has s.index) same ∙ tool_known c key s e)))

with_text-append :
    (b : Bool) (j i : ℕ) (is : List ℕ) → with_text b j (is ++ i ∷ []) ≡ with_text b j is ++ i ∷ []
with_text-append true j i is = refl
with_text-append false j i is = refl

-- A new block for a call, at the next index.
start_tool-Sends :
    (c c' : Converter) (id name : String)
    → IsLive c
    → c'.started ≡ c.started
    → c'.finished ≡ c.finished
    → c'.next_index ≡ suc c.next_index
    → c'.content_block_completed ≡ c.content_block_completed
    → AllOpen c'.tool_states
    → known c' ≡ known c ++ c.next_index ∷ []
    → Sends c (c', content_block_start c.next_index (tool_use_block id name) ∷ [])
start_tool-Sends c c' id name l s f n b a k = record {
  live = record {
    running = s ∙ l.running;
    unfinished = f ∙ l.unfinished;
    all_open = a;
    below =
        subst (λ (m : ℕ). AreBelow m (known c')) (sym n)
          (subst (AreBelow (suc c.next_index)) (sym k)
            (AreBelow-append _ _ _ (AreBelow-suc _ _ l.below) (omega arith)));
    distinct = subst AreDistinct (sym k) (AreDistinct-append _ _ l.distinct l.below);
  };
  taken = λ os g. (
    os ++ c.next_index ∷ [],
    receive_start c.next_index os c.content_block_completed (tool_use_block id name) []
        ∙ receive-nil _
        ∙ ap (λ (x : Client). some x) (same (os ++ c.next_index ∷ [])),
    λ i.
        has-append i os (c.next_index ∷ [])
        ∙ ap (λ (x : Bool). x || has i (c.next_index ∷ [])) (g i)
        ∙ sym (has-append i (known c) (c.next_index ∷ []))
        ∙ ap (has i) (sym k),
  );
}
  where
    same : (os : List ℕ) → record (client_of c os) { next = suc c.next_index } ≡ client_of c' os
    same os = cc

-- The first call of a part.
new_call-Sends :
    (clock : ℕ → ℕ) (key arguments : String) (call : FunctionCall) (c : Converter)
    → IsLive c
    → lookup key c.tool_states ≡ none
    → Sends c (
        send_arguments key arguments
          (named call (tool_state clock key call none c).1)
          (tool_state clock key call none c).0)
unfolding send_arguments open_tool_unless tool_state
new_call-Sends clock key arguments call c l e =
    let s = (tool_state clock key call none c).1 in
    let (delta, previous) = compute_stream_delta arguments "" in
    let t = sent_state previous (named call s) in
    let c' : Converter = record (tool_state clock key call none c).0 {
      tool_states = insert key t (insert key s c.tool_states);
    } in
    let once = insert-insert key t s c.tool_states in
    let more : known c' ≡ known c ++ c.next_index ∷ [] =
      ap (λ (m : Map ToolState). with_text c.text_block_open c.text_index (tool_indices m)) once
      ∙ ap (with_text c.text_block_open c.text_index) (tool_indices-new key t c.tool_states e)
      ∙ with_text-append c.text_block_open c.text_index c.next_index (tool_indices c.tool_states) in
    let opened : Sends c (
      c',
      content_block_start c.next_index (tool_use_block (named call s).id (named call s).name) ∷ [],
    ) =
      start_tool-Sends c c' (named call s).id (named call s).name l refl refl refl refl
        (subst AllOpen (sym once) (insert-AllOpen key t c.tool_states refl l.all_open)) more in
    Sends-then c _ _ opened (
      unless_empty-Sends c' delta c.next_index (input_json_delta delta) opened.live
        (ap (has c.next_index) more ∙ has_last c.next_index (known c)))

module _ (clock : ℕ → ℕ) (marshal : Any → String) where
  call-Sends :
      (key arguments : String) (call : FunctionCall) (o : Option ToolState) (c : Converter)
      → IsLive c
      → lookup key c.tool_states ≡ o
      → Sends c (
          send_arguments key arguments
            (named call (tool_state clock key call o c).1)
            (tool_state clock key call o c).0)
  call-Sends key arguments call none c l e = new_call-Sends clock key arguments call c l e
  call-Sends key arguments call (some s) c l e =
      unfold tool_state in old_call-Sends key arguments call s c l e

  on_function_call-Sends :
      (i : ℕ) (p : Part) (call : FunctionCall) (c : Converter)
      → IsLive c
      → Sends c (on_function_call clock marshal i p call c)
  unfolding on_function_call
  on_function_call-Sends i p call c l =
      let carried = emit_signature_carrier-Sends p.thought_signature c l in
      let d = (emit_signature_carrier p.thought_signature c).0 in
      let d' : Converter = record d { saw_function_call = true } in
      let flagged : Sends d (d', []) =
        again d d' carried.live refl refl refl refl carried.live.all_open refl in
      Sends-then c (emit_signature_carrier p.thought_signature c) _ carried (
        Sends-then d (d', []) _ flagged
          (call-Sends (tool_key i) (marshal_compact_json marshal call.args) call
            (lookup (tool_key i) d'.tool_states) d' flagged.live refl))

  on_call-Sends :
      (i : ℕ) (p : Part) (o : Option FunctionCall) (c : Converter)
      → IsLive c
      → Sends c (on_call clock marshal i p o c)
  on_call-Sends i p none c l = Sends-nothing c l
  on_call-Sends i p (some call) c l = on_function_call-Sends i p call c l

  on_part-Sends :
      (i : ℕ) (p : Part) (c : Converter) → IsLive c → Sends c (on_part clock marshal i p c)
  unfolding on_part
  on_part-Sends i p c l = choose p.thought (not (str_eq p.text ""))
    where
      choose :
          (a b : Bool)
          → Sends c (
              if a
              then on_thought p c
              else if b
              then on_text p c
              else on_call clock marshal i p p.function_call c)
      choose true b = on_thought-Sends p c l
      choose false true = on_text-Sends p c l
      choose false false = on_call-Sends i p p.function_call c l

  pub on_parts-Sends :
      (i : ℕ) (ps : List Part) (c : Converter) → IsLive c → Sends c (on_parts clock marshal i ps c)
  unfolding on_parts
  on_parts-Sends i [] c l = Sends-nothing c l
  on_parts-Sends i (p ∷ ps) c l =
      let now = on_part-Sends i p c l in
      Sends-then c (on_part clock marshal i p c) _ now
        (on_parts-Sends (suc i) ps (on_part clock marshal i p c).0 now.live)
