-- ===== src/Handler/Capture.antt =====
-- What a response keeps of the bytes that it has sent, for the record of the request.
use cc_gateway.Base.{
  ℕ, zero, suc, ◌+◌, ◌-◌, ◌≤◌, ◌==◌, ltb, leb, ◌≡◌, refl, sym, ap, ◌∙◌, subst, Bool, true, false,
  List, [], ◌∷◌, ◌++◌, append-nil, append_assoc, length, take, length-append, if◌then◌else◌, arith,
  Bool-cases, inl, inr,
}
use cc_gateway.Sse.Writer.{Takes}
use cc_gateway.Handler.Response.{
  ResponseState, new_response, max_recorded_payload_bytes, truncated_payload_suffix, capture,
  capture_more, write_response,
}

-- What is kept of all the bytes: those up to the limit, and a mark if there are more.
abbrev pub kept : List ℕ → List ℕ
kept all =
    if leb (length all) max_recorded_payload_bytes
    then all
    else take max_recorded_payload_bytes all ++ truncated_payload_suffix

-- The body keeps what was written, and the count is its length.
pub record Keeps (w : ResponseState) : Type 0 where
  pub bounded : w.body ≡ kept w.written
  pub marked : w.truncated ≡ ltb max_recorded_payload_bytes (length w.written)
  pub counted : w.write_count ≡ length w.written

abbrev pub write_all : Takes → List (List ℕ) → ResponseState → ResponseState
write_all takes [] w = w
write_all takes (p ∷ ps) w = write_all takes ps (write_response takes p w).0

take-append_short :
    (n : ℕ) (xs ys : List ℕ) → length xs ≤ n → take n (xs ++ ys) ≡ xs ++ take (n - length xs) ys
take-append_short n [] ys h = ap (λ (k : ℕ). take k ys) (omega arith)
take-append_short zero (x ∷ xs) ys h = absurd (omega arith)
take-append_short (suc n) (x ∷ xs) ys h =
    ap (◌∷◌ x)
      (take-append_short n xs ys (omega arith) ∙ ap (λ (k : ℕ). xs ++ take k ys) (omega arith))

take-append_long : (n : ℕ) (xs ys : List ℕ) → n ≤ length xs → take n (xs ++ ys) ≡ take n xs
take-append_long zero xs ys h = refl
take-append_long (suc n) [] ys h = absurd (omega arith)
take-append_long (suc n) (x ∷ xs) ys h = ap (◌∷◌ x) (take-append_long n xs ys (omega arith))

-- More than the limit stays as it is.
kept-more :
    (all p : List ℕ)
    → leb (length all) max_recorded_payload_bytes ≡ false
    → kept (all ++ p) ≡ kept all
kept-more all p e =
    ap
      (λ (b : Bool).
        if b
        then all ++ p
        else take max_recorded_payload_bytes (all ++ p) ++ truncated_payload_suffix)
      longer
    ∙ ap (λ (x : List ℕ). x ++ truncated_payload_suffix)
        (take-append_long max_recorded_payload_bytes all p (ground arith))
    ∙ sym (
        ap
          (λ (b : Bool).
            if b then all else take max_recorded_payload_bytes all ++ truncated_payload_suffix)
          e)
  where
    longer : leb (length (all ++ p)) max_recorded_payload_bytes ≡ false
    longer = ground (arith, length-append all p)

kept-short : (all : List ℕ) → leb (length all) max_recorded_payload_bytes ≡ true → kept all ≡ all
kept-short all e =
    ap
      (λ (b : Bool).
        if b then all else take max_recorded_payload_bytes all ++ truncated_payload_suffix)
      e

kept-long :
    (all p : List ℕ)
    → leb (length all) max_recorded_payload_bytes ≡ true
    → ltb (max_recorded_payload_bytes - length all) (length p) ≡ true
    → kept (all ++ p)
      ≡ all ++ (take (max_recorded_payload_bytes - length all) p ++ truncated_payload_suffix)
kept-long all p e h =
    ap
      (λ (b : Bool).
        if b
        then all ++ p
        else take max_recorded_payload_bytes (all ++ p) ++ truncated_payload_suffix)
      longer
    ∙ ap (λ (x : List ℕ). x ++ truncated_payload_suffix)
        (take-append_short max_recorded_payload_bytes all p (ground arith))
    ∙ append_assoc all (take (max_recorded_payload_bytes - length all) p) truncated_payload_suffix
  where
    longer : leb (length (all ++ p)) max_recorded_payload_bytes ≡ false
    longer = ground (arith, length-append all p)

-- What capture_more keeps behind what was kept whole.
capture_more-body :
    (w : ResponseState) (b : ℕ) (bs : List ℕ)
    → leb (length w.body) max_recorded_payload_bytes ≡ true
    → w.truncated ≡ false
    → ((capture_more (b ∷ bs) w).body ≡ kept (w.body ++ b ∷ bs))
      × ((capture_more (b ∷ bs) w).truncated
          ≡ ltb max_recorded_payload_bytes (length (w.body ++ b ∷ bs)))
unfolding capture_more
capture_more-body w b bs s t = elim (Bool-cases (leb max_recorded_payload_bytes (length w.body))) [
  | inl e ↦ rw e (
    sym (
        kept-long w.body (b ∷ bs) s (ground arith)
        ∙ ap (λ (k : ℕ). w.body ++ (take k (b ∷ bs) ++ truncated_payload_suffix)) (nothing e)),
    ground (arith, length-append w.body (b ∷ bs)),
  )
  | inr e ↦ elim (Bool-cases (ltb (max_recorded_payload_bytes - length w.body) (length (b ∷ bs)))) [
    | inl f ↦
        rw (e, f)
          (sym (kept-long w.body (b ∷ bs) s f), ground (arith, length-append w.body (b ∷ bs)))
    | inr f ↦
        rw (e, f)
          (
            sym (kept-short (w.body ++ b ∷ bs) (ground (arith, length-append w.body (b ∷ bs)))),
            ground (arith, length-append w.body (b ∷ bs)),
          )
  ]
]
  where
    nothing :
        leb max_recorded_payload_bytes (length w.body) ≡ true
        → max_recorded_payload_bytes - length w.body ≡ 0
    nothing e = ground arith

-- The body and the mark after some bytes.
abbrev Captured : List ℕ → ResponseState → Type 0
Captured all w = (w.body ≡ kept all) × (w.truncated ≡ ltb max_recorded_payload_bytes (length all))

capture-Captured :
    (p : List ℕ) (w : ResponseState) (all : List ℕ)
    → Captured all w
    → Captured (all ++ p) (capture p w)
unfolding capture
capture-Captured [] w all c = subst (λ (x : List ℕ). Captured x w) (sym (append-nil all)) c
capture-Captured (b ∷ bs) w all (k, t) =
    elim (Bool-cases (leb (length all) max_recorded_payload_bytes)) [
      | inl s ↦
          let open_yet : w.truncated ≡ false = ground arith in
          let whole : w.body ≡ all = k ∙ kept-short all s in
          subst (λ (x : Bool). Captured (all ++ b ∷ bs) (if x then w else capture_more (b ∷ bs) w))
            (sym open_yet)
            (subst (λ (x : List ℕ). Captured (x ++ b ∷ bs) (capture_more (b ∷ bs) w)) whole
              (capture_more-body w b bs
                (ap (λ (x : List ℕ). leb (length x) max_recorded_payload_bytes) whole ∙ s)
                open_yet))
      | inr s ↦
          let full : w.truncated ≡ true = ground arith in
          subst (λ (x : Bool). Captured (all ++ b ∷ bs) (if x then w else capture_more (b ∷ bs) w))
            (sym full)
            (k ∙ sym (kept-more all (b ∷ bs) s), full ∙ ground (arith, length-append all (b ∷ bs)))
    ]

pub capture-same :
    (p : List ℕ) (w : ResponseState)
    → ((capture p w).written ≡ w.written)
      × ((capture p w).write_count ≡ w.write_count)
      × ((capture p w).wrote_header ≡ w.wrote_header)
      × ((capture p w).status_code ≡ w.status_code)
unfolding capture capture_more
capture-same [] w = (refl, refl, refl, refl)
capture-same (b ∷ bs) w = ground arith

abbrev taken_if : Bool → ResponseState × Bool → ResponseState × Bool → ResponseState × Bool
taken_if b x y = if b then x else y

pub write_response-Keeps :
    (takes : Takes) (p : List ℕ) (w : ResponseState) → Keeps w → Keeps (write_response takes p w).0
unfolding write_response
write_response-Keeps takes p w k = choose (takes w.written p)
  where
    started : ResponseState
    started = record w {
      wrote_header = true;
      status_code = if w.status_code == 0 then 200 else w.status_code;
    }

    longer : ResponseState
    longer = record started { written = w.written ++ p; write_count = w.write_count + length p }

    choose : (b : Bool) → Keeps (taken_if b (capture p longer, true) (started, false)).0
    choose true =
        let (c, t) = capture-Captured p longer w.written (k.bounded, k.marked) in
        let (same, count, header, status) = capture-same p longer in
        record {
          bounded = c ∙ ap kept (sym same);
          marked = t ∙ ap (λ (x : List ℕ). ltb max_recorded_payload_bytes (length x)) (sym same);
          counted =
              count
              ∙ ap (λ (n : ℕ). n + length p) k.counted
              ∙ sym (length-append w.written p)
              ∙ ap length (sym same);
        }
    choose false = record { bounded = k.bounded; marked = k.marked; counted = k.counted }

pub new_response-Keeps : Keeps new_response
unfolding max_recorded_payload_bytes
new_response-Keeps = record { bounded = refl; marked = refl; counted = refl }

-- Whatever the writes to a response that keeps what it has sent, and however many of them fail: what is
-- kept for the record is all that was taken if that is within the limit, and otherwise the part
-- within the limit with a mark behind it; and the count is that of the bytes taken.
pub write_all-Keeps :
    (takes : Takes) (ps : List (List ℕ)) (w : ResponseState)
    → Keeps w
    → Keeps (write_all takes ps w)
write_all-Keeps takes [] w k = k
write_all-Keeps takes (p ∷ ps) w k =
    write_all-Keeps takes ps (write_response takes p w).0 (write_response-Keeps takes p w k)
