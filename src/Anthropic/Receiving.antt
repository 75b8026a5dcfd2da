-- ===== src/Anthropic/Receiving.antt =====
-- What a client of the Messages API makes of the runs of events that converters send.
use cc_gateway.Base.{
  ℕ, suc, ℤ, ◌≡◌, ◌⊎◌, refl, sym, ap, ◌∙◌, String, Bool, true, false, not, ◌&&◌, List, [], ◌∷◌,
  ◌++◌, Option, some, arith,
}
use cc_gateway.Anthropic.{
  Block, Delta, Payload, content_block_start, content_block_delta, content_block_stop,
  message_delta, message_stop, stops, any_of,
}
use cc_gateway.Anthropic.Client.{
  Client, streaming, stopped, take_in, receive, receive-append, has, remove, has-append, has-remove,
  no_member, receive-nil,
}
use cc_gateway.Anthropic.Indices.{AreDistinct}

-- A client takes all of it, and has then either the whole message or nothing at all.
abbrev pub IsWhole : Client → List Payload → Type 0
IsWhole k ps = (k' : Client) × (receive (some k) ps ≡ some k') × ((k'.phase ≡ stopped) ⊎ (ps ≡ []))

abbrev pub deltas : ℕ → List Delta → List Payload
deltas i [] = []
deltas i (d ∷ ds) = content_block_delta i d ∷ deltas i ds

-- The client in the middle of a message.
abbrev pub midway : ℕ → List ℕ → Bool → Client
midway n os b = record {
  phase = streaming;
  next = n;
  open_blocks = os;
  completed = b;
  late_deltas = false;
}

pub receive-deltas :
    (n i : ℕ) (os : List ℕ) (b : Bool) (ds : List Delta)
    → has i os ≡ true
    → receive (some (midway n os b)) (deltas i ds) ≡ some (midway n os b)
unfolding receive take_in
receive-deltas n i os b [] l = refl
receive-deltas n i os b (d ∷ ds) l = ground (arith, receive-deltas n i os b ds l)

pub receive_start :
    (n : ℕ) (os : List ℕ) (b : Bool) (block : Block) (ps : List Payload)
    → receive (some (midway n os b)) (content_block_start n block ∷ ps)
      ≡ receive (some (midway (suc n) (os ++ n ∷ []) b)) ps
unfolding receive take_in
receive_start n os b block ps = ground arith

pub receive_stop :
    (n i : ℕ) (os : List ℕ) (b : Bool) (ps : List Payload)
    → has i os ≡ true
    → receive (some (midway n os b)) (content_block_stop i ∷ ps)
      ≡ receive (some (midway n (remove i os) true)) ps
unfolding receive take_in has remove
receive_stop n i os b ps h = rw h refl

pub has_last : (n : ℕ) (os : List ℕ) → has n (os ++ n ∷ []) ≡ true
unfolding has
has_last n os = ground (arith, has-append n os (n ∷ []))

-- A block from its start to its stop.
pub receive_block :
    (n : ℕ) (os : List ℕ) (b : Bool) (block : Block) (ds : List Delta)
    → receive
        (some (midway n os b))
        (content_block_start n block ∷ deltas n ds ++ content_block_stop n ∷ [])
      ≡ some (midway (suc n) (remove n (os ++ n ∷ [])) true)
receive_block n os b block ds =
    receive_start n os b block (deltas n ds ++ content_block_stop n ∷ [])
    ∙ receive-append (some (midway (suc n) (os ++ n ∷ []) b)) (deltas n ds)
        (content_block_stop n ∷ [])
    ∙ ap (λ (o : Option Client). receive o (content_block_stop n ∷ []))
        (receive-deltas (suc n) n (os ++ n ∷ []) b ds (has_last n os))
    ∙ receive_stop (suc n) n (os ++ n ∷ []) b [] (has_last n os)
    ∙ receive-nil (midway (suc n) (remove n (os ++ n ∷ [])) true)

pub has-removed_last :
    (i n : ℕ) (os : List ℕ) → has n os ≡ false → has i (remove n (os ++ n ∷ [])) ≡ has i os
unfolding has
has-removed_last i n os h = ground (arith, has-remove i n (os ++ n ∷ []), has-append i os (n ∷ []))

abbrev without_all : List ℕ → List ℕ → List ℕ
without_all [] os = os
without_all (i ∷ is) os = without_all is (remove i os)

has-without_all :
    (j : ℕ) (is os : List ℕ) → has j (without_all is os) ≡ (not (has j is) && has j os)
unfolding has
has-without_all j [] os = refl
has-without_all j (i ∷ is) os =
    ground (arith, has-without_all j is (remove i os), has-remove j i os)

-- All the open blocks, stopped in any order.
receive-stops :
    (n : ℕ) (is os : List ℕ) (b : Bool)
    → AreDistinct is
    → ((i : ℕ) → has i is ≡ true → has i os ≡ true)
    → receive (some (midway n os b)) (stops is) ≡ some (midway n (without_all is os) (any_of is b))
unfolding has
receive-stops n [] os b d h = receive-nil (midway n os b)
receive-stops n (i ∷ is) os b d h =
    receive_stop n i os b (stops is) (h i (ground arith))
    ∙ receive-stops n is (remove i os) true d.1 (λ j e. ground (arith, has-remove j i os, h j, d.0))
    ∙ ap (λ (x : Bool). some (midway n (without_all is (remove i os)) x)) (any_of-true is)
  where
    any_of-true : (is : List ℕ) → any_of is true ≡ true
    any_of-true [] = refl
    any_of-true (j ∷ js) = refl

pub receive_all_stops :
    (n : ℕ) (is os : List ℕ) (b : Bool)
    → AreDistinct is
    → ((i : ℕ) → has i is ≡ has i os)
    → receive (some (midway n os b)) (stops is) ≡ some (midway n [] (any_of is b))
receive_all_stops n is os b d h =
    receive-stops n is os b d (λ i e. sym (h i) ∙ e)
    ∙ ap (λ (x : List ℕ). some (midway n x (any_of is b)))
        (no_member (without_all is os) (λ i. ground (arith, has-without_all i is os, h i)))

-- The end of a message whose blocks are stopped.
pub receive_end :
    (n : ℕ) (why : String) (i o : ℤ)
    → (k : Client) × (receive (some (midway n [] true)) (message_delta why i o ∷ message_stop ∷ [])
        ≡ some k)
      × (k.phase ≡ stopped)
unfolding receive take_in
receive_end n why i o = (record (midway n [] true) { phase = stopped }, refl, refl)
