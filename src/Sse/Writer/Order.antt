-- ===== src/Sse/Writer/Order.antt =====
-- What reaches the client through the buffer.
use cc_gateway.Base.{
  ℕ, ℤ, pos, ◌<ℤ◌, leb_ℤ, ◌≡◌, refl, sym, ap, ◌∙◌, subst, Bool, true, false, List, [], ◌∷◌, ◌++◌,
  length, append_assoc, length-append, append-nil, if◌then◌else◌, arith, Bool-cases, inl, inr,
}
use cc_gateway.Sse.Writer.{
  Writer, Takes, new_buffered_writer, pass_on, flush_held, flush_buffered, write, emptied,
}

-- What a write sends is behind what was sent before, and nothing if it fails.
pub record Grows (w : Writer) (r : Writer × Bool) : Type 0 where
  pub more : List ℕ
  pub behind : r.0.sent ≡ w.sent ++ more
  pub none_failed : r.1 ≡ false → more ≡ []

unsent-Grows : (w : Writer) (r : Writer × Bool) → r.0.sent ≡ w.sent → Grows w r
unsent-Grows w r e = record {
  more = [];
  behind = e ∙ sym (append-nil w.sent);
  none_failed = λ f. refl;
}

pass_on-Grows : (takes : Takes) (raw : List ℕ) (w : Writer) → Grows w (pass_on takes raw w)
unfolding pass_on
pass_on-Grows takes raw w = choose (takes w.sent raw)
  where
    choose :
        (b : Bool) → Grows w (if b then (record w { sent = w.sent ++ raw }, true) else (w, false))
    choose true = record { more = raw; behind = refl; none_failed = λ f. absurd (cc) }
    choose false = unsent-Grows w (w, false) refl

flush_held-Grows : (takes : Takes) (held : List ℕ) (w : Writer) → Grows w (flush_held takes held w)
unfolding flush_held pass_on
flush_held-Grows takes [] w = unsent-Grows w (record w { buffer_enabled = false }, true) refl
flush_held-Grows takes (b ∷ bs) w = choose (takes w.sent (b ∷ bs))
  where
    choose :
        (x : Bool)
        → Grows w (emptied (if x then (record w { sent = w.sent ++ b ∷ bs }, true) else (w, false)))
    choose true = record { more = b ∷ bs; behind = refl; none_failed = λ f. absurd (cc) }
    choose false = unsent-Grows w (w, false) refl

pub flush_buffered-Grows : (takes : Takes) (w : Writer) → Grows w (flush_buffered takes w)
unfolding flush_buffered
flush_buffered-Grows takes w = choose w.buffer_enabled
  where
    choose : (b : Bool) → Grows w (if b then flush_held takes w.buffer w else (w, true))
    choose true = flush_held-Grows takes w.buffer w
    choose false = unsent-Grows w (w, true) refl

pub write-Grows : (takes : Takes) (raw : List ℕ) (w : Writer) → Grows w (write takes raw w)
unfolding write
write-Grows takes raw w =
    choose w.buffer_enabled (leb_ℤ w.buffer_limit (pos (length (w.buffer ++ raw))))
  where
    held : Writer
    held = record w { buffer = w.buffer ++ raw }

    flushed : Grows w (flush_buffered takes held)
    flushed =
        let g = flush_buffered-Grows takes held in
        record { more = g.more; behind = g.behind; none_failed = g.none_failed }

    choose :
        (a b : Bool)
        → Grows w (
            if a
            then (if b then flush_buffered takes held else (held, true))
            else pass_on takes raw w)
    choose true true = flushed
    choose true false = unsent-Grows w (held, true) refl
    choose false b = pass_on-Grows takes raw w

-- Writes until the first error, as the adapters do.
unfoldable pub writes : Takes → List (List ℕ) → Writer → Writer × Bool
writes takes [] w = (w, true)
writes takes (raw ∷ raws) w =
    let now = write takes raw w in
    let later = writes takes raws now.0 in if now.1 then later else now

abbrev pub joined : List (List ℕ) → List ℕ
joined [] = []
joined (raw ∷ raws) = raw ++ joined raws

-- What is sent and what is held back, in order.
abbrev pub all_of : Writer → List ℕ
all_of w = w.sent ++ w.buffer

-- Once the buffer is off it is empty.
abbrev pub IsDrained : Writer → Type 0
IsDrained w = w.buffer_enabled ≡ false → w.buffer ≡ []

-- The writer holds just these bytes.
pub record Holds (bytes : List ℕ) (w : Writer) : Type 0 where
  pub all_here : all_of w ≡ bytes
  pub drained : IsDrained w

nothing_held : (s b bytes : List ℕ) → b ≡ [] → s ++ b ≡ bytes → s ≡ bytes
nothing_held s b bytes e h = sym (append-nil s) ∙ ap (λ (x : List ℕ). s ++ x) (sym e) ∙ h

sent_more : (s b bytes raw : List ℕ) → b ≡ [] → s ++ b ≡ bytes → (s ++ raw) ++ b ≡ bytes ++ raw
sent_more s b bytes raw e h =
    ap (λ (x : List ℕ). (s ++ raw) ++ x) e
    ∙ append-nil (s ++ raw)
    ∙ ap (λ (x : List ℕ). x ++ raw) (nothing_held s b bytes e h)

pass_on-Holds :
    (takes : Takes) (raw bytes : List ℕ) (w : Writer)
    → w.buffer ≡ []
    → Holds bytes w
    → (pass_on takes raw w).1 ≡ true
    → Holds (bytes ++ raw) (pass_on takes raw w).0
unfolding pass_on
pass_on-Holds takes raw bytes w e h ok = elim (Bool-cases (takes w.sent raw)) [
  | inl t ↦
      rw t
        (record { all_here = sent_more w.sent w.buffer bytes raw e h.all_here; drained = λ q. e })
  | inr t ↦ absurd (ground arith)
]

flush_held-Holds :
    (takes : Takes) (bytes held : List ℕ) (w : Writer)
    → w.buffer ≡ held
    → Holds bytes w
    → (flush_held takes held w).1 ≡ true
    → Holds bytes (flush_held takes held w).0 × ((flush_held takes held w).0.buffer ≡ [])
unfolding flush_held pass_on
flush_held-Holds takes bytes [] w e h ok = (record { all_here = h.all_here; drained = λ q. e }, e)
flush_held-Holds takes bytes (b ∷ bs) w e h ok = elim (Bool-cases (takes w.sent (b ∷ bs))) [
  | inl t ↦ rw t (
    record {
      all_here =
          append-nil (w.sent ++ b ∷ bs) ∙ ap (λ (x : List ℕ). w.sent ++ x) (sym e) ∙ h.all_here;
      drained = λ q. refl;
    },
    refl,
  )
  | inr t ↦ absurd (ground arith)
]

-- If a flush succeeds, all that the writer held has been sent, and nothing else.
pub flush_buffered-Holds :
    (takes : Takes) (bytes : List ℕ) (w : Writer)
    → Holds bytes w
    → (flush_buffered takes w).1 ≡ true
    → Holds bytes (flush_buffered takes w).0 × ((flush_buffered takes w).0.buffer ≡ [])
unfolding flush_buffered
flush_buffered-Holds takes bytes w h ok = by_flag w.buffer_enabled refl ok
  where
    by_flag :
        (b : Bool)
        → w.buffer_enabled ≡ b
        → (if b then flush_held takes w.buffer w else (w, true)).1 ≡ true
        → Holds bytes (if b then flush_held takes w.buffer w else (w, true)).0
          × ((if b then flush_held takes w.buffer w else (w, true)).0.buffer ≡ [])
    by_flag true e o = flush_held-Holds takes bytes w.buffer w refl h o
    by_flag false e o = (h, h.drained e)

held_more :
    (raw bytes : List ℕ) (w : Writer)
    → w.buffer_enabled ≡ true
    → Holds bytes w
    → Holds (bytes ++ raw) (record w { buffer = w.buffer ++ raw })
held_more raw bytes w e h = record {
  all_here = sym (append_assoc w.sent w.buffer raw) ∙ ap (λ (x : List ℕ). x ++ raw) h.all_here;
  drained = λ q. absurd (cc);
}

pub write-Holds :
    (takes : Takes) (raw bytes : List ℕ) (w : Writer)
    → Holds bytes w
    → (write takes raw w).1 ≡ true
    → Holds (bytes ++ raw) (write takes raw w).0
unfolding write
write-Holds takes raw bytes w h ok = by_flag w.buffer_enabled refl ok
  where
    held : Writer
    held = record w { buffer = w.buffer ++ raw }

    full :
        (b : Bool)
        → Holds (bytes ++ raw) held
        → (if b then flush_buffered takes held else (held, true)).1 ≡ true
        → Holds (bytes ++ raw) (if b then flush_buffered takes held else (held, true)).0
    full true k o = (flush_buffered-Holds takes (bytes ++ raw) held k o).0
    full false k o = k

    outcome : Bool → Writer × Bool
    outcome b =
        if b
        then (if leb_ℤ w.buffer_limit (pos (length (w.buffer ++ raw)))
            then flush_buffered takes held
            else (held, true))
        else pass_on takes raw w

    by_flag :
        (b : Bool)
        → w.buffer_enabled ≡ b
        → (outcome b).1 ≡ true
        → Holds (bytes ++ raw) (outcome b).0
    by_flag true e o =
        full (leb_ℤ w.buffer_limit (pos (length (w.buffer ++ raw)))) (held_more raw bytes w e h) o
    by_flag false e o = pass_on-Holds takes raw bytes w (h.drained e) h o

writes-Holds :
    (takes : Takes) (raws : List (List ℕ)) (bytes : List ℕ) (w : Writer)
    → Holds bytes w
    → (writes takes raws w).1 ≡ true
    → Holds (bytes ++ joined raws) (writes takes raws w).0
unfolding writes
writes-Holds takes [] bytes w h ok = subst (λ (x : List ℕ). Holds x w) (sym (append-nil bytes)) h
writes-Holds takes (raw ∷ raws) bytes w h ok = elim (Bool-cases (write takes raw w).1) [
  | inl e ↦ rw e (
      subst (λ (x : List ℕ). Holds x (writes takes raws (write takes raw w).0).0)
        (append_assoc bytes raw (joined raws))
        (writes-Holds takes raws (bytes ++ raw) (write takes raw w).0
          (write-Holds takes raw bytes w h e) (rw e at ok)))
  | inr e ↦ absurd (ground arith)
]

pub new-Holds : (limit : ℤ) → Holds [] (new_buffered_writer limit)
unfolding new_buffered_writer
new-Holds limit = record { all_here = ground arith; drained = λ q. ground arith }

-- Whatever the limit of the buffer: if all writes of a new writer and a flush behind them succeed,
-- the bytes that have been sent are those written, each once and in order.
pub flush-writes :
    (takes : Takes) (limit : ℤ) (raws : List (List ℕ))
    → (writes takes raws (new_buffered_writer limit)).1 ≡ true
    → (flush_buffered takes (writes takes raws (new_buffered_writer limit)).0).1 ≡ true
    → (flush_buffered takes (writes takes raws (new_buffered_writer limit)).0).0.sent ≡ joined raws
flush-writes takes limit raws ok flushed =
    let w = writes takes raws (new_buffered_writer limit) in
    let h =
      flush_buffered-Holds takes (joined raws) w.0
        (writes-Holds takes raws [] (new_buffered_writer limit) (new-Holds limit) ok) flushed in
    nothing_held (flush_buffered takes w.0).0.sent _ _ h.1 h.0.all_here

write_short :
    (takes : Takes) (raw : List ℕ) (w : Writer)
    → w.buffer_enabled ≡ true
    → pos (length (w.buffer ++ raw)) <ℤ w.buffer_limit
    → write takes raw w ≡ (record w { buffer = w.buffer ++ raw }, true)
unfolding write
write_short takes raw w e l = ground arith

writes_short :
    (takes : Takes) (raws : List (List ℕ)) (w : Writer)
    → w.buffer_enabled ≡ true
    → pos (length (w.buffer ++ joined raws)) <ℤ w.buffer_limit
    → ((writes takes raws w).0.sent ≡ w.sent) × ((writes takes raws w).1 ≡ true)
unfolding writes
writes_short takes [] w e l = (refl, refl)
writes_short takes (raw ∷ raws) w e l =
    let held = record w { buffer = w.buffer ++ raw } in
    let now = write_short takes raw w e (
      omega (
        arith,
        length-append w.buffer raw,
        length-append raw (joined raws),
        length-append w.buffer (raw ++ joined raws),
        l,
      )) in
    let rest = writes_short takes raws held e (
      subst (λ (x : List ℕ). pos (length x) <ℤ w.buffer_limit)
        (sym (append_assoc w.buffer raw (joined raws))) l) in
    subst
      (λ (r : Writer × Bool).
        ((if r.1 then writes takes raws r.0 else r).0.sent ≡ w.sent)
        × ((if r.1 then writes takes raws r.0 else r).1 ≡ true))
      (sym now) rest

-- As long as the bytes written to a new writer are fewer than its limit, no write fails and
-- nothing is sent.
pub writes-withheld :
    (takes : Takes) (limit : ℤ) (raws : List (List ℕ))
    → pos (length (joined raws)) <ℤ limit
    → ((writes takes raws (new_buffered_writer limit)).0.sent ≡ [])
      × ((writes takes raws (new_buffered_writer limit)).1 ≡ true)
unfolding new_buffered_writer
writes-withheld takes limit raws l =
    let fresh : Writer = record {
      sent = [];
      buffer = [];
      buffer_limit = limit;
      buffer_enabled = true;
    } in
    subst (λ (w : Writer). ((writes takes raws w).0.sent ≡ []) × ((writes takes raws w).1 ≡ true))
      (ground arith) (writes_short takes raws fresh refl l)
