-- ===== src/Gemini/Stream/Ordered.antt =====
-- The converter against a client of the Messages API, part by part.
use cc_gateway.Base.{
  ℕ, suc, ◌≡◌, refl, sym, ap, ◌∙◌, subst, String, Bool, true, false, List, [], ◌∷◌, ◌++◌, Option,
  some, str_eq, if◌then◌else◌, arith, Bool-cases, inl, inr, append-nil,
}
use cc_gateway.Anthropic.{
  Block, Delta, Payload, content_block_start, content_block_delta, content_block_stop, text_block,
  thinking_block, text_delta, thinking_delta, signature_delta,
}
use cc_gateway.Anthropic.Client.{
  Client, receive, receive-append, receive-nil, has, remove, has-append,
}
use cc_gateway.Anthropic.Indices.{AreBelow, AreDistinct, AreBelow-suc, fresh-has}
use cc_gateway.Anthropic.Receiving.{
  midway, deltas, receive-deltas, receive_start, receive_block, has-removed_last,
}
use cc_gateway.Gemini.Stream.Events.{Part}
use cc_gateway.Gemini.Stream.Deltas.{compute_stream_delta}
use cc_gateway.Gemini.Stream.{
  Converter, unless_empty, on_thought, open_text_unless, on_text, emit_signature_carrier,
}
use cc_gateway.Gemini.Stream.Tools.{tool_indices, AllOpen}

abbrev pub with_text : Bool → ℕ → List ℕ → List ℕ
with_text true i is = i ∷ is
with_text false i is = is

-- The indices of the open blocks.
abbrev pub known : Converter → List ℕ
known c = with_text c.text_block_open c.text_index (tool_indices c.tool_states)

-- A message has started and not finished; all tool blocks are open, and no index is used twice.
pub record IsLive (c : Converter) : Type 0 where
  pub running : c.started ≡ true
  pub unfinished : c.finished ≡ false
  pub all_open : AllOpen c.tool_states
  pub below : AreBelow c.next_index (known c)
  pub distinct : AreDistinct (known c)

-- The client of a converter, which has the open blocks `os`.
abbrev pub client_of : Converter → List ℕ → Client
client_of c os = midway c.next_index os c.content_block_completed

abbrev pub Follows : Converter → List ℕ → Type 0
Follows c os = (i : ℕ) → has i os ≡ has i (known c)

-- The client takes what is sent and then follows the new converter.
pub record Sends (c : Converter) (r : Converter × List Payload) : Type 0 where
  pub live : IsLive r.0
  pub taken :
      (os : List ℕ)
      → Follows c os
      → (os' : List ℕ) × (receive (some (client_of c os)) r.1 ≡ some (client_of r.0 os'))
        × Follows r.0 os'

pub Sends-nothing : (c : Converter) → IsLive c → Sends c (c, [])
Sends-nothing c l = record { live = l; taken = λ os f. (os, receive-nil (client_of c os), f) }

pub Sends-then :
    (c : Converter) (r s : Converter × List Payload)
    → Sends c r
    → Sends r.0 s
    → Sends c (s.0, r.1 ++ s.1)
Sends-then c r s h k = record {
  live = k.live;
  taken = λ os f.
      let (os', t, g) = h.taken os f in
      let (os'', u, i) = k.taken os' g in
      (
        os'',
        receive-append (some (client_of c os)) r.1 s.1
            ∙ ap (λ (o : Option Client). receive o s.1) t
            ∙ u,
        i,
      );
}

-- A block that is started and stopped at once, with deltas in between.
abbrev pub whole_block : Block → List Delta → Converter → Converter × List Payload
whole_block b ds c = (
  record c { next_index = suc c.next_index; content_block_completed = true },
  content_block_start c.next_index b ∷ deltas c.next_index ds
      ++ content_block_stop c.next_index ∷ [],
)

pub whole_block-Sends :
    (b : Block) (ds : List Delta) (c : Converter) → IsLive c → Sends c (whole_block b ds c)
whole_block-Sends b ds c l = record {
  live = record {
    running = l.running;
    unfinished = l.unfinished;
    all_open = l.all_open;
    below = AreBelow-suc _ _ l.below;
    distinct = l.distinct;
  };
  taken = λ os f. (
    remove c.next_index (os ++ c.next_index ∷ []),
    receive_block c.next_index os c.content_block_completed b ds,
    λ i.
        has-removed_last i c.next_index os
          (f c.next_index ∙ fresh-has c.next_index (known c) l.below)
        ∙ f i,
  );
}

-- The deltas of a thought.
abbrev thought_deltas : Part → List Delta
thought_deltas p =
    (if str_eq p.text "" then [] else thinking_delta p.text ∷ [])
    ++ (if str_eq p.thought_signature "" then [] else signature_delta p.thought_signature ∷ [])

pub on_thought-Sends : (p : Part) (c : Converter) → IsLive c → Sends c (on_thought p c)
unfolding on_thought
on_thought-Sends p c l =
    subst (λ (ps : List Payload). Sends c ((whole_block thinking_block (thought_deltas p) c).0, ps))
      (same (str_eq p.text "") (str_eq p.thought_signature ""))
      (whole_block-Sends thinking_block (thought_deltas p) c l)
  where
    i : ℕ
    i = c.next_index

    same :
        (a b : Bool)
        → content_block_start i thinking_block
              ∷ deltas i (
                  (if a then [] else thinking_delta p.text ∷ [])
                  ++ (if b then [] else signature_delta p.thought_signature ∷ []))
            ++ content_block_stop i ∷ []
          ≡ content_block_start i thinking_block
              ∷ (if a then [] else content_block_delta i (thinking_delta p.text) ∷ [])
            ++ ((if b then [] else content_block_delta i (signature_delta p.thought_signature) ∷ [])
                ++ content_block_stop i ∷ [])
    same true true = refl
    same true false = refl
    same false true = refl
    same false false = refl

pub emit_signature_carrier-Sends :
    (s : String) (c : Converter) → IsLive c → Sends c (emit_signature_carrier s c)
unfolding emit_signature_carrier
emit_signature_carrier-Sends s c l = elim (Bool-cases (str_eq s "")) [
  | inl e ↦ rw e (Sends-nothing c l)
  | inr e ↦ rw e (whole_block-Sends thinking_block (signature_delta s ∷ []) c l)
]

-- A delta for a block that is open.
pub unless_empty-Sends :
    (c : Converter) (s : String) (i : ℕ) (d : Delta)
    → IsLive c
    → has i (known c) ≡ true
    → Sends c (c, unless_empty s (content_block_delta i d))
unless_empty-Sends c s i d l h = record {
  live = l;
  taken = λ os f. (os, sent os (f i ∙ h) (str_eq s ""), f);
}
  where
    sent :
        (os : List ℕ)
        → has i os ≡ true
        → (b : Bool)
        → receive (some (client_of c os)) (if b then [] else content_block_delta i d ∷ [])
          ≡ some (client_of c os)
    sent os a true = receive-nil (client_of c os)
    sent os a false = receive-deltas c.next_index i os c.content_block_completed (d ∷ []) a

-- The text block that is open is among the open blocks.
text_known : (c : Converter) → c.text_block_open ≡ true → has c.text_index (known c) ≡ true
unfolding has
text_known c e =
    ap (λ (b : Bool). has c.text_index (with_text b c.text_index (tool_indices c.tool_states))) e
    ∙ ground arith

without_text : (c : Converter) → c.text_block_open ≡ false → known c ≡ tool_indices c.tool_states
without_text c e = ap (λ (b : Bool). with_text b c.text_index (tool_indices c.tool_states)) e

has-last : (n i : ℕ) (os is : List ℕ) → has i os ≡ has i is → has i (os ++ n ∷ []) ≡ has i (n ∷ is)
unfolding has
has-last n i os is h = ground (arith, has-append i os (n ∷ []))

open_text_unless-Sends :
    (b : Bool) (c : Converter)
    → c.text_block_open ≡ b
    → IsLive c
    → Sends c (open_text_unless b c) × ((open_text_unless b c).0.text_block_open ≡ true)
unfolding open_text_unless
open_text_unless-Sends true c e l = (Sends-nothing c l, e)
open_text_unless-Sends false c e l = (
  record {
    live = record {
      running = l.running;
      unfinished = l.unfinished;
      all_open = l.all_open;
      below = (omega arith, AreBelow-suc _ _ below);
      distinct = (fresh-has _ _ below, subst AreDistinct (without_text c e) l.distinct);
    };
    taken = λ os f. (
      os ++ c.next_index ∷ [],
      receive_start c.next_index os c.content_block_completed text_block [] ∙ receive-nil _,
      λ i.
          has-last c.next_index i os (tool_indices c.tool_states)
            (f i ∙ ap (has i) (without_text c e)),
    );
  },
  refl,
)
  where
    below : AreBelow c.next_index (tool_indices c.tool_states)
    below = subst (AreBelow c.next_index) (without_text c e) l.below

-- A converter that differs in what the client does not see.
pub again :
    (c c' : Converter)
    → IsLive c
    → c'.started ≡ c.started
    → c'.finished ≡ c.finished
    → c'.next_index ≡ c.next_index
    → c'.content_block_completed ≡ c.content_block_completed
    → AllOpen c'.tool_states
    → known c' ≡ known c
    → Sends c (c', [])
again c c' l s f n b a k = record {
  live = record {
    running = s ∙ l.running;
    unfinished = f ∙ l.unfinished;
    all_open = a;
    below =
        subst (λ (m : ℕ). AreBelow m (known c')) (sym n)
          (subst (AreBelow c.next_index) (sym k) l.below);
    distinct = subst AreDistinct (sym k) l.distinct;
  };
  taken = λ os g. (
    os,
    receive-nil (client_of c os) ∙ ap (λ (x : Client). some x) (same os),
    λ i. g i ∙ ap (has i) (sym k),
  );
}
  where
    same : (os : List ℕ) → client_of c os ≡ client_of c' os
    same os = cc

append_nothing : (c c' : Converter) (ps : List Payload) → Sends c (c', ps ++ []) → Sends c (c', ps)
append_nothing c c' ps = subst (λ (qs : List Payload). Sends c (c', qs)) (append-nil ps)

pub on_text-Sends : (p : Part) (c : Converter) → IsLive c → Sends c (on_text p c)
unfolding on_text
on_text-Sends p c l =
    let (opens, e) = open_text_unless-Sends c.text_block_open c refl l in
    let o = (open_text_unless c.text_block_open c).0 in
    let (delta, previous) = compute_stream_delta p.text o.previous_text in
    let remembered : Sends o (record o { previous_text = previous }, []) =
      again o (record o { previous_text = previous }) opens.live refl refl refl refl
        opens.live.all_open refl in
    Sends-then c (open_text_unless c.text_block_open c) _ opens (
      Sends-then o _ _ remembered (
        unless_empty-Sends (record o { previous_text = previous }) delta o.text_index
          (text_delta delta) remembered.live (text_known o e)))
