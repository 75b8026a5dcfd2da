-- ===== src/OpenAi/Stream/Ordered.antt =====
-- The converter against a client of the Messages API: the parts that the events are made of.
use cc_gateway.Base.{
  ℕ, suc, ◌<◌, ◌≡◌, refl, ap, ◌∙◌, String, Bool, true, false, List, [], ◌∷◌, ◌++◌, Option, some,
  Map, lookup, insert, arith,
}
use cc_gateway.Anthropic.{Block, Delta, Payload, content_block_delta, content_block_stop}
use cc_gateway.Anthropic.Client.{
  Client, Phase, waiting, streaming, stopped, receive, receive-append, take_in, has, remove,
}
use cc_gateway.Anthropic.Indices.{
  AreBelow, AreDistinct, AreBelow-suc, AreBelow-append, AreDistinct-append, remove-AreBelow,
  remove-AreDistinct,
}
use cc_gateway.OpenAi.Stream.{
  BlockType, Converter, start_unless, ensure_message_start, without_block, open_block, has_block,
  delete_block, indices,
}

abbrev pub phase_of : Bool → Bool → Phase
phase_of false sent = waiting
phase_of true false = streaming
phase_of true true = stopped

-- The client that has followed the converter so far. It takes late deltas, since the converter sends
-- what comes for a block whose item is done.
abbrev pub client_of : Converter → Client
client_of c = record {
  phase = phase_of c.message_started c.stop_reason_sent;
  next = c.next_block_index;
  open_blocks = indices c.blocks_by_index;
  completed = c.content_block_completed;
  late_deltas = true;
}

abbrev pub IsBelow : ℕ → Map ℕ → Type 0
IsBelow n [] = Unit {0}
IsBelow n ((k, i) ∷ m) = (i < n) × IsBelow n m

-- Every index that the converter holds has been given out, and before the message starts none has.
pub record IsSound (c : Converter) : Type 0 where
  pub unstarted : c.message_started ≡ false → c.next_block_index ≡ 0
  pub blocks_below : AreBelow c.next_block_index (indices c.blocks_by_index)
  pub blocks_distinct : AreDistinct (indices c.blocks_by_index)
  pub text_below : IsBelow c.next_block_index c.text_blocks
  pub function_below : IsBelow c.next_block_index c.function_blocks
  pub thinking_below : IsBelow c.next_block_index c.thinking_blocks

-- The client takes what was sent, and then stands where the new converter says.
pub record Sends (c : Converter) (r : Converter × List Payload) : Type 0 where
  pub taken : receive (some (client_of c)) r.1 ≡ some (client_of r.0)
  pub sound : IsSound r.0

-- Started, and not at its end.
abbrev pub IsRunning : Converter → Type 0
IsRunning c = (c.message_started ≡ true) × (c.stop_reason_sent ≡ false)

pub Sends-nothing : (c : Converter) → IsSound c → Sends c (c, [])
unfolding receive
Sends-nothing c s = record { taken = refl; sound = s }

pub Sends-then :
    (c : Converter) (r s : Converter × List Payload)
    → Sends c r
    → Sends r.0 s
    → Sends c (s.0, r.1 ++ s.1)
Sends-then c r s h k = record {
  taken =
      receive-append (some (client_of c)) r.1 s.1
      ∙ ap (λ (o : Option Client). receive o s.1) h.taken
      ∙ k.taken;
  sound = k.sound;
}

pub lookup-IsBelow :
    (k : String) (n : ℕ) (m : Map ℕ) (i : ℕ) → IsBelow n m → lookup k m ≡ some i → i < n
unfolding lookup
lookup-IsBelow k n [] i b e = cc
lookup-IsBelow k n ((j, x) ∷ m) i b e = ground (arith, lookup-IsBelow k n m i b.1)

pub insert-IsBelow :
    (k : String) (i n : ℕ) (m : Map ℕ) → i < n → IsBelow n m → IsBelow n (insert k i m)
unfolding insert
insert-IsBelow k i n [] h b = (h, tt)
insert-IsBelow k i n ((j, x) ∷ m) h b = ground (arith, insert-IsBelow k i n m h b.1)

pub IsBelow-suc : (n : ℕ) (m : Map ℕ) → IsBelow n m → IsBelow (suc n) m
IsBelow-suc n [] b = tt
IsBelow-suc n ((k, i) ∷ m) b = (omega arith, IsBelow-suc n m b.1)

pub indices-append :
    (bs : List (ℕ × BlockType)) (i : ℕ) (t : BlockType)
    → indices (bs ++ (i, t) ∷ []) ≡ indices bs ++ i ∷ []
indices-append [] i t = refl
indices-append ((j, u) ∷ bs) i t = ap (◌∷◌ j) (indices-append bs i t)

pub indices-delete :
    (i : ℕ) (bs : List (ℕ × BlockType)) → indices (delete_block i bs) ≡ remove i (indices bs)
unfolding delete_block remove
indices-delete i [] = refl
indices-delete i ((j, t) ∷ bs) = ground (arith, indices-delete i bs)

pub has_block-indices : (i : ℕ) (bs : List (ℕ × BlockType)) → has_block i bs ≡ has i (indices bs)
unfolding has_block has
has_block-indices i [] = refl
has_block-indices i ((j, t) ∷ bs) = ground (arith, has_block-indices i bs)

-- `message_start` is sent first and once.
start_unless-Sends :
    (b : Bool) (c : Converter)
    → c.message_started ≡ b
    → IsSound c
    → c.stop_reason_sent ≡ false
    → Sends c (start_unless b c) × IsRunning (start_unless b c).0
unfolding start_unless
start_unless-Sends true c e s h = (Sends-nothing c s, (e, h))
start_unless-Sends false c e s h =
    (record { taken = unfold receive take_in in ground arith; sound = started }, (refl, h))
  where
    started : IsSound (record c { message_started = true })
    started = record {
      unstarted = λ q. cc;
      blocks_below = s.blocks_below;
      blocks_distinct = s.blocks_distinct;
      text_below = s.text_below;
      function_below = s.function_below;
      thinking_below = s.thinking_below;
    }

pub ensure_message_start-Sends :
    (c : Converter)
    → IsSound c
    → c.stop_reason_sent ≡ false
    → Sends c (ensure_message_start c) × IsRunning (ensure_message_start c).0
unfolding ensure_message_start
ensure_message_start-Sends c = start_unless-Sends c.message_started c refl

-- A new block takes the next index.
pub open_block-Sends :
    (t : BlockType) (b : Block) (c : Converter)
    → IsSound c
    → IsRunning c
    → Sends c (open_block t b c)
unfolding open_block
open_block-Sends t b c s r = record {
  taken =
      unfold receive take_in in
      ground (arith, indices-append c.blocks_by_index c.next_block_index t);
  sound = record {
    unstarted = λ q. cc;
    blocks_below = rw (indices-append c.blocks_by_index c.next_block_index t) (
        AreBelow-append (suc c.next_block_index) c.next_block_index (indices c.blocks_by_index)
          (AreBelow-suc _ _ s.blocks_below) (omega arith));
    blocks_distinct = rw (indices-append c.blocks_by_index c.next_block_index t) (
        AreDistinct-append c.next_block_index (indices c.blocks_by_index) s.blocks_distinct
          s.blocks_below);
    text_below = IsBelow-suc _ _ s.text_below;
    function_below = IsBelow-suc _ _ s.function_below;
    thinking_below = IsBelow-suc _ _ s.thinking_below;
  };
}

-- A delta goes to a block that has been given out, and an index is given out to a running message.
pub delta-Sends :
    (i : ℕ) (d : Delta) (c : Converter)
    → IsSound c
    → c.stop_reason_sent ≡ false
    → i < c.next_block_index
    → Sends c (c, content_block_delta i d ∷ [])
unfolding receive take_in
delta-Sends i d c s h l = record { taken = ground (arith, s.unstarted); sound = s }

pub without_block-IsSound : (i : ℕ) (c : Converter) → IsSound c → IsSound (without_block i c)
without_block-IsSound i c s = record {
  unstarted = s.unstarted;
  blocks_below =
      rw (indices-delete i c.blocks_by_index)
        (remove-AreBelow c.next_block_index i (indices c.blocks_by_index) s.blocks_below);
  blocks_distinct =
      rw (indices-delete i c.blocks_by_index)
        (remove-AreDistinct i (indices c.blocks_by_index) s.blocks_distinct);
  text_below = s.text_below;
  function_below = s.function_below;
  thinking_below = s.thinking_below;
}

pub stop-Sends :
    (i : ℕ) (c : Converter)
    → IsSound c
    → IsRunning c
    → has i (indices c.blocks_by_index) ≡ true
    → Sends c (without_block i c, content_block_stop i ∷ [])
unfolding receive take_in
stop-Sends i c s r h = record {
  taken = ground (arith, indices-delete i c.blocks_by_index);
  sound = without_block-IsSound i c s;
}
