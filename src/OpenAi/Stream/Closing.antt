-- ===== src/OpenAi/Stream/Closing.antt =====
-- Closing the open blocks and ending the message, against a client of the Messages API.
use cc_gateway.Base.{
  ℕ, ℤ, ◌≡◌, refl, sym, ap, subst, ◌∙◌, String, Bool, true, false, not, ◌&&◌, ◌||◌, List, [], ◌∷◌,
  ◌++◌, ◌==◌, arith,
}
use cc_gateway.Anthropic.{content_block_stop, message_delta, message_stop}
use cc_gateway.Anthropic.Client.{receive, take_in, has, remove, has-remove, no_member}
use cc_gateway.OpenAi.Stream.{
  Converter, has_block, without_block, close_if, close_block, insert_sorted, sort_reverse, indices,
  close_blocks, close_open_blocks, fill_unless, ensure_content_block, stop_reason, end_unless,
  end_message, close_and_end,
}
use cc_gateway.Anthropic.Indices.{AreDistinct}
use cc_gateway.OpenAi.Stream.Ordered.{
  IsBelow-suc, IsSound, IsRunning, Sends, Sends-nothing, Sends-then, stop-Sends, has_block-indices,
  indices-delete,
}

close_if-Sends :
    (b : Bool) (i : ℕ) (c : Converter)
    → has_block i c.blocks_by_index ≡ b
    → IsSound c
    → IsRunning c
    → Sends c (close_if b i c)
unfolding close_if
close_if-Sends false i c e s r = Sends-nothing c s
close_if-Sends true i c e s r = stop-Sends i c s r (sym (has_block-indices i c.blocks_by_index) ∙ e)

-- A block is stopped if it is open, and otherwise nothing happens.
pub close_block-Sends :
    (i : ℕ) (c : Converter) → IsSound c → IsRunning c → Sends c (close_block i c)
unfolding close_block
close_block-Sends i c = close_if-Sends (has_block i c.blocks_by_index) i c refl

has-insert_sorted : (i j : ℕ) (is : List ℕ) → has i (insert_sorted j is) ≡ (j == i || has i is)
unfolding insert_sorted has
has-insert_sorted i j [] = ground arith
has-insert_sorted i j (k ∷ is) = ground (arith, has-insert_sorted i j is)

insert_sorted-AreDistinct :
    (j : ℕ) (is : List ℕ) → has j is ≡ false → AreDistinct is → AreDistinct (insert_sorted j is)
unfolding insert_sorted has
insert_sorted-AreDistinct j [] h d = (refl, tt)
insert_sorted-AreDistinct j (k ∷ is) h d =
    ground (arith, has-insert_sorted k j is, insert_sorted-AreDistinct j is)

has-sort_reverse : (i : ℕ) (is : List ℕ) → has i (sort_reverse is) ≡ has i is
unfolding sort_reverse has
has-sort_reverse i [] = refl
has-sort_reverse i (j ∷ is) =
    ground (arith, has-insert_sorted i j (sort_reverse is), has-sort_reverse i is)

sort_reverse-AreDistinct : (is : List ℕ) → AreDistinct is → AreDistinct (sort_reverse is)
unfolding sort_reverse
sort_reverse-AreDistinct [] d = tt
sort_reverse-AreDistinct (j ∷ is) d =
    insert_sorted-AreDistinct j (sort_reverse is) (has-sort_reverse j is ∙ d.0)
      (sort_reverse-AreDistinct is d.1)

abbrev open_in : ℕ → Converter → Bool
open_in i c = has i (indices c.blocks_by_index)

open_in-without :
    (i j : ℕ) (c : Converter) → open_in i (without_block j c) ≡ (not (j == i) && open_in i c)
open_in-without i j c =
    ap (has i) (indices-delete j c.blocks_by_index) ∙ has-remove i j (indices c.blocks_by_index)

still_open :
    (i j : ℕ) (is : List ℕ) (o w : Bool)
    → w ≡ (not (j == i) && o)
    → has j is ≡ false
    → has i is ≡ true
    → o ≡ true
    → w ≡ true
still_open i j is o w e f g h = ground arith

both :
    (i j : ℕ) (is : List ℕ) (o w : Bool)
    → w ≡ (not (j == i) && o)
    → (not (has i is) && w) ≡ (not (has i (j ∷ is)) && o)
unfolding has
both i j is o w e = ground arith

-- The blocks of the list are stopped, each once, and only the others stay open.
close_blocks-Sends :
    (is : List ℕ) (c : Converter)
    → IsSound c
    → IsRunning c
    → AreDistinct is
    → ((i : ℕ) → has i is ≡ true → open_in i c ≡ true)
    → Sends c (close_blocks is c)
      × IsRunning (close_blocks is c).0
      × ((i : ℕ) → open_in i (close_blocks is c).0 ≡ (not (has i is) && open_in i c))
unfolding close_blocks
close_blocks-Sends [] c s r d h = (Sends-nothing c s, r, λ i. unfold has in refl)
close_blocks-Sends (j ∷ is) c s r d h =
    let stopped = stop-Sends j c s r (h j (unfold has in ground arith)) in
    let (sends, runs, left) = close_blocks-Sends is (without_block j c) stopped.sound r d.1 (λ i e.
      still_open i j is _ _ (open_in-without i j c) d.0 e (h i (unfold has in ground arith))) in
    (
      Sends-then c (without_block j c, content_block_stop j ∷ [])
          (close_blocks is (without_block j c)) stopped sends,
      runs,
      λ i. left i ∙ both i j is _ _ (open_in-without i j c),
    )

-- After closeOpenBlocks no block is open.
pub close_open_blocks-Sends :
    (c : Converter)
    → IsSound c
    → IsRunning c
    → Sends c (close_open_blocks c)
      × IsRunning (close_open_blocks c).0
      × (indices (close_open_blocks c).0.blocks_by_index ≡ [])
unfolding close_open_blocks
close_open_blocks-Sends c s r =
    let all = indices c.blocks_by_index in
    let (sends, runs, left) =
      close_blocks-Sends (sort_reverse all) c s r (sort_reverse-AreDistinct all s.blocks_distinct)
        (λ i e. sym (has-sort_reverse i all) ∙ e) in
    (sends, runs, no_member _ (λ i. left i ∙ none_left i all))
  where
    none_left : (i : ℕ) (all : List ℕ) → (not (has i (sort_reverse all)) && has i all) ≡ false
    none_left i all = ground (arith, has-sort_reverse i all)

-- No block is open, and one at least has been completed.
abbrev IsFilled : Converter → Type 0
IsFilled c = (indices c.blocks_by_index ≡ []) × (c.content_block_completed ≡ true)

fill_unless-Sends :
    (b : Bool) (c : Converter)
    → c.content_block_completed ≡ b
    → IsSound c
    → IsRunning c
    → indices c.blocks_by_index ≡ []
    → Sends c (fill_unless b c) × IsRunning (fill_unless b c).0 × IsFilled (fill_unless b c).0
unfolding fill_unless
fill_unless-Sends true c e s r n = (Sends-nothing c s, r, (n, e))
fill_unless-Sends false c e s r n = (
  record {
    taken = unfold receive take_in has remove in ground arith;
    sound = record {
      unstarted = λ q. cc;
      blocks_below = rw n tt;
      blocks_distinct = rw n tt;
      text_below = IsBelow-suc _ _ s.text_below;
      function_below = IsBelow-suc _ _ s.function_below;
      thinking_below = IsBelow-suc _ _ s.thinking_below;
    };
  },
  r,
  (n, refl),
)

ending-Sends :
    (c : Converter) (why : String) (i o : ℤ)
    → IsSound c
    → IsRunning c
    → IsFilled c
    → Sends c (record c { stop_reason_sent = true }, message_delta why i o ∷ message_stop ∷ [])
ending-Sends c why i o s r f = record {
  taken = unfold receive take_in in ground arith;
  sound = record {
    unstarted = s.unstarted;
    blocks_below = s.blocks_below;
    blocks_distinct = s.blocks_distinct;
    text_below = s.text_below;
    function_below = s.function_below;
    thinking_below = s.thinking_below;
  };
}

-- The message ends with a completed block before it, and the client has then taken all of it.
abbrev pub HasEnded : Converter → Type 0
HasEnded c =
    (c.message_started ≡ true) × (c.stop_reason_sent ≡ true) × (indices c.blocks_by_index ≡ [])

end_unless-Sends :
    (c : Converter)
    → IsSound c
    → IsRunning c
    → indices c.blocks_by_index ≡ []
    → Sends c (end_unless false c) × HasEnded (end_unless false c).0
unfolding end_unless ensure_content_block
end_unless-Sends c s r n =
    let filled = fill_unless c.content_block_completed c in
    let (sends, runs, full) = fill_unless-Sends c.content_block_completed c refl s r n in
    (
      Sends-then c filled
          (
            record filled.0 { stop_reason_sent = true },
            message_delta (stop_reason c) c.usage.input_tokens c.usage.output_tokens
                ∷ message_stop
                ∷ [],
          )
          sends
          (ending-Sends filled.0 (stop_reason c) c.usage.input_tokens c.usage.output_tokens
            sends.sound runs full),
      (runs.0, refl, full.0),
    )

pub close_and_end-Sends :
    (c : Converter)
    → IsSound c
    → IsRunning c
    → Sends c (close_and_end c) × HasEnded (close_and_end c).0
unfolding close_and_end end_message
close_and_end-Sends c s r =
    let closed = close_open_blocks c in
    let (sends, runs, none_open) = close_open_blocks-Sends c s r in
    subst
      (λ (b : Bool).
        Sends c ((end_unless b closed.0).0, closed.1 ++ (end_unless b closed.0).1)
        × HasEnded (end_unless b closed.0).0)
      (sym runs.1)
      (let (last, ended) = end_unless-Sends closed.0 sends.sound runs none_open in
        (Sends-then c closed (end_unless false closed.0) sends last, ended))
