-- ===== src/Anthropic/Client.antt =====
-- A client of the Messages API: the order in which it takes the events of one message. Blocks are
-- numbered from 0 in the order in which they start; a delta belongs to a block that is open, or, for
-- a client that takes late deltas, to one that has started; the message ends once all blocks have stopped and there has been one; nothing follows the end.
use cc_gateway.Base.{
  ℕ, suc, ◌≡◌, ◌≢◌, refl, ap, ◌∙◌, sym, Bool, true, false, ◌&&◌, ◌||◌, not, List, [], ◌∷◌, ◌++◌,
  Option, none, some, ◌==◌, ltb, if◌then◌else◌, arith, Option-cases, inl, inr,
}
use cc_gateway.Anthropic.{
  Payload, message_start, content_block_start, content_block_delta, content_block_stop,
  message_delta, message_stop,
}

pub data Phase : Type 0 where
  waiting streaming closing stopped : Phase

pub record Client : Type 0 where
  pub phase : Phase
  pub next : ℕ
  pub open_blocks : List ℕ
  pub completed : Bool
  pub late_deltas : Bool

abbrev pub idle : Client
idle = record {
  phase = waiting;
  next = 0;
  open_blocks = [];
  completed = false;
  late_deltas = false;
}

-- The client that takes a delta also for a block that has stopped.
abbrev pub lenient : Client
lenient = record idle { late_deltas = true }

unfoldable pub has : ℕ → List ℕ → Bool
has i [] = false
has i (j ∷ js) = if j == i then true else has i js

unfoldable pub remove : ℕ → List ℕ → List ℕ
remove i [] = []
remove i (j ∷ js) = if j == i then remove i js else j ∷ remove i js

abbrev pub is_empty : List ℕ → Bool
is_empty [] = true
is_empty (x ∷ xs) = false

unfoldable pub take_in : Phase → Payload → Client → Option Client
take_in waiting (message_start id model i o) k = some (record k { phase = streaming })
take_in streaming (content_block_start i b) k =
    if i == k.next
    then some (record k { next = suc k.next; open_blocks = k.open_blocks ++ i ∷ [] })
    else none
take_in streaming (content_block_delta i d) k =
    if has i k.open_blocks || k.late_deltas && ltb i k.next then some k else none
take_in streaming (content_block_stop i) k =
    if has i k.open_blocks
    then some (record k { open_blocks = remove i k.open_blocks; completed = true })
    else none
take_in streaming (message_delta s i o) k =
    if is_empty k.open_blocks && k.completed then some (record k { phase = closing }) else none
take_in closing message_stop k = some (record k { phase = stopped })
take_in p e k = none

-- The client after a list of events, `none` if it rejects one.
unfoldable pub receive : Option Client → List Payload → Option Client
receive none es = none
receive (some k) [] = some k
receive (some k) (e ∷ es) = receive (take_in k.phase e k) es

pub receive-append :
    (o : Option Client) (xs ys : List Payload) → receive o (xs ++ ys) ≡ receive (receive o xs) ys
unfolding receive
receive-append none xs ys = refl
receive-append (some k) [] ys = refl
receive-append (some k) (x ∷ xs) ys = receive-append (take_in k.phase x k) xs ys

pub receive-nil : (k : Client) → receive (some k) [] ≡ some k
unfolding receive
receive-nil k = refl

-- Laws of the set of open blocks.
pub has-append : (i : ℕ) (xs ys : List ℕ) → has i (xs ++ ys) ≡ (has i xs || has i ys)
unfolding has
has-append i [] ys = refl
has-append i (x ∷ xs) ys = ground (arith, has-append i xs ys)

pub has-remove : (i j : ℕ) (xs : List ℕ) → has i (remove j xs) ≡ (not (j == i) && has i xs)
unfolding has remove
has-remove i j [] = ground arith
has-remove i j (x ∷ xs) = ground (arith, has-remove i j xs)

pub no_member : (xs : List ℕ) → ((i : ℕ) → has i xs ≡ false) → xs ≡ []
unfolding has
no_member [] h = refl
no_member (x ∷ xs) h = absurd (ground (arith, h x))

-- A client that has taken an event is no longer waiting, and never waits again.
take_in-started : (k k' : Client) (e : Payload) → take_in k.phase e k ≡ some k' → k'.phase ≢ waiting
unfolding take_in
take_in-started k k' (message_start id model i o) h = ground arith
take_in-started k k' (content_block_start n b) h = ground arith
take_in-started k k' (content_block_delta n d) h = ground arith
take_in-started k k' (content_block_stop n) h = ground arith
take_in-started k k' (message_delta s i o) h = ground arith
take_in-started k k' message_stop h = ground arith

receive-none : (es : List Payload) (k : Client) → receive none es ≢ some k
unfolding receive
receive-none es k h = cc

abbrev phase_or : Option Client → Phase
phase_or none = waiting
phase_or (some k) = k.phase

receive-started :
    (es : List Payload) (k k' : Client)
    → k.phase ≢ waiting
    → receive (some k) es ≡ some k'
    → k'.phase ≢ waiting
unfolding receive
receive-started [] k k' w h = λ e. w (ap (λ (o : Option Client). phase_or o) h ∙ e)
receive-started (e ∷ es) k k' w h = elim (Option-cases (take_in k.phase e k)) [
  | inl n ↦ absurd (receive-none es k' (ap (λ (o : Option Client). receive o es) (sym n) ∙ h))
  | inr (j, t) ↦
      receive-started es j k' (take_in-started k j e t)
        (ap (λ (o : Option Client). receive o es) (sym t) ∙ h)
]

-- A client that still waits has been sent nothing.
pub receive-waiting :
    (es : List Payload) (k k' : Client)
    → receive (some k) es ≡ some k'
    → k'.phase ≡ waiting
    → es ≡ []
unfolding receive
receive-waiting [] k k' h w = refl
receive-waiting (e ∷ es) k k' h w = elim (Option-cases (take_in k.phase e k)) [
  | inl n ↦ absurd (receive-none es k' (ap (λ (o : Option Client). receive o es) (sym n) ∙ h))
  | inr (j, t) ↦ absurd (
      receive-started es j k' (take_in-started k j e t)
        (ap (λ (o : Option Client). receive o es) (sym t) ∙ h) w)
]
