-- ===== src/Gemini/Stream/Joining.antt =====
-- What the deltas of a row of texts come to when they are joined.
use cc_gateway.Base.{
  strip_prefix, ◌<>◌, String, Bool, true, false, List, [], ◌∷◌, Option, none, some, str_eq, eq_iff,
  if◌then◌else◌, ◌≡◌, refl, sym, ap, subst, ◌∙◌, arith, inl, inr, Bool-cases,
}
use text.Mathlib.TextLemmas.{nil-append, cons-append, append-nil, append-eq-nil_iff}
use cc_gateway.Gemini.Stream.Deltas.{behind, compute_stream_delta}

-- The deltas of texts that come one after the other, joined.
unfoldable pub joined : String → List String → String
joined previous [] = ""
joined previous (x ∷ xs) =
    let (delta, next) = compute_stream_delta x previous in delta <> joined next xs

unfoldable pub total : List String → String
total [] = ""
total (x ∷ xs) = x <> total xs

-- Texts that each repeat the one before and add to it.
unfoldable pub snapshots : String → List String → List String
snapshots previous [] = []
snapshots previous (d ∷ ds) = (previous <> d) ∷ snapshots (previous <> d) ds

strip_prefix-append : (p d : String) → strip_prefix p (p <> d) ≡ some d
unfolding strip_prefix
strip_prefix-append String.[] d = ap some (nil-append d)
strip_prefix-append (String.◌∷◌ c p) d =
    ap (strip_prefix (String.◌∷◌ c p)) (cons-append c p d) ∙ ground (arith, strip_prefix-append p d)

delta-append : (p d : String) → compute_stream_delta (p <> d) p ≡ (d, p <> d)
unfolding compute_stream_delta
delta-append p d = elim (Bool-cases (str_eq (p <> d) "")) [
  | inl e ↦
      let (a, b) = append-eq-nil_iff.0 ((eq_iff (p <> d) "").0 e) in
      rw e (
        ap (λ (x : String). (x, p)) (sym b)
        ∙ ap (λ (x : String). (d, x)) (a ∙ sym ((eq_iff (p <> d) "").0 e)))
  | inr e ↦ elim (Bool-cases (str_eq p "")) [
    | inl f ↦
        rw (e, f)
          (ap (λ (x : String). (x, p <> d))
            (ap (λ (x : String). x <> d) ((eq_iff p "").0 f) ∙ nil-append d))
    | inr f ↦ rw (e, f) (ap (behind (p <> d)) (strip_prefix-append p d))
  ]
]

-- The deltas of texts that each repeat the one before are what each adds, whatever that is.
pub joined-snapshots :
    (previous : String) (ds : List String) → joined previous (snapshots previous ds) ≡ total ds
unfolding joined snapshots total
joined-snapshots previous [] = refl
joined-snapshots previous (d ∷ ds) =
    ap (λ (x : String × String). x.0 <> joined x.1 (snapshots (previous <> d) ds))
      (delta-append previous d)
    ∙ ap (λ (x : String). d <> x) (joined-snapshots (previous <> d) ds)

next_text :
    (piece previous : String)
    → str_eq piece "" ≡ false
    → (compute_stream_delta piece previous).1 ≡ piece
unfolding compute_stream_delta
next_text piece previous e = rw e (choose (str_eq previous "") (strip_prefix previous piece))
  where
    found : (o : Option String) → (behind piece o).1 ≡ piece
    found none = refl
    found (some d) = refl

    either : Bool → Option String → String × String
    either b o = if b then (piece, piece) else behind piece o

    choose : (b : Bool) (o : Option String) → (either b o).1 ≡ piece
    choose true o = refl
    choose false o = found o

nothing_new :
    (piece previous : String)
    → compute_stream_delta piece (compute_stream_delta piece previous).1
      ≡ ("", (compute_stream_delta piece previous).1)
nothing_new piece previous = elim (Bool-cases (str_eq piece "")) [
  | inl e ↦ unfold compute_stream_delta in rw e refl
  | inr e ↦
      let t = next_text piece previous e in
      subst (λ (q : String). compute_stream_delta piece q ≡ ("", q)) (sym t)
        (subst (λ (q : String). compute_stream_delta q piece ≡ ("", q)) (append-nil piece)
          (delta-append piece ""))
]

-- A text that is the same as the one before it adds nothing, so that of two equal pieces of a text that
-- come one after the other only the first is sent.
pub joined-repeated :
    (previous piece : String) (xs : List String)
    → joined previous (piece ∷ piece ∷ xs) ≡ joined previous (piece ∷ xs)
unfolding joined
joined-repeated previous piece xs =
    let (delta, next) = compute_stream_delta piece previous in
    ap (λ (x : String × String). delta <> (x.0 <> joined x.1 xs)) (nothing_new piece previous)
    ∙ ap (λ (x : String). delta <> x) (nil-append (joined next xs))
