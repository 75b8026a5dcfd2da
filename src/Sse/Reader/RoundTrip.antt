-- ===== src/Sse/Reader/RoundTrip.antt =====
-- What the writer frames, the reader reads.
use mathlib.Core.Path.{ap₂}
use cc_gateway.Base.{
  ℕ, ◌==◌, ◌≡◌, refl, sym, ap, ◌∙◌, String, Bool, true, false, ltb, ◌<◌, if◌then◌else◌, ◌||◌, List,
  [], ◌∷◌, ◌++◌, append_assoc, str_eq, eq_iff, All, arith, Bool-cases, inl, inr,
}
use cc_gateway.Domain.Glob.{codes}
use cc_gateway.Sse.Writer.{frame}
use cc_gateway.Sse.Reader.{
  event, next, trim_space, trim_left, has_prefix, join, type_after, lines_after, split_lines,
  drop_return, scan_lines, scan_tokens, bytes, max_token, Read,
}

-- No line feed and no carriage return.
abbrev pub InLine : ℕ → Type 0
InLine c = (c == 10 || c == 13) ≡ false

split_lines-line :
    (l rest : List ℕ) → All InLine l → split_lines (l ++ 10 ∷ rest) ≡ l ∷ split_lines rest
unfolding split_lines
split_lines-line [] rest a = ground arith
split_lines-line (c ∷ l) rest a = ground (arith, split_lines-line l rest a.1, a.0)

drop_return-line : (l : List ℕ) → All InLine l → drop_return l ≡ l
unfolding drop_return
drop_return-line [] a = refl
drop_return-line (c ∷ []) a = ground (arith, a.0)
drop_return-line (c ∷ d ∷ l) a = ap (λ (x : List ℕ). c ∷ x) (drop_return-line (d ∷ l) a.1)

-- A line that the scanner's buffer holds.
abbrev pub Fits : List ℕ → Type 0
Fits l = bytes l < max_token

abbrev cons_token : List ℕ → List (List ℕ) × Bool → List (List ℕ) × Bool
cons_token l r = (l ∷ r.0, r.1)

scan_lines-line :
    (l rest : List ℕ)
    → All InLine l
    → Fits l
    → scan_lines (l ++ 10 ∷ rest) ≡ cons_token l (scan_lines rest)
unfolding scan_lines scan_tokens
scan_lines-line l rest a b =
    ap scan_tokens (split_lines-line l rest a)
    ∙ kept (split_lines rest)
    ∙ ap (λ (x : List ℕ). cons_token x (scan_tokens (split_lines rest))) (drop_return-line l a)
  where
    test : ltb (bytes l) max_token ≡ true
    test = ground (arith, b)

    kept : (ls : List (List ℕ)) → scan_tokens (l ∷ ls) ≡ cons_token (drop_return l) (scan_tokens ls)
    kept ls =
        ap
          (λ (t : Bool).
            if t then (drop_return l ∷ (scan_tokens ls).0, (scan_tokens ls).1) else ([], true))
          test

named_line : (l : List ℕ) → All InLine l → All InLine (codes "event: " ++ l)
named_line l a = (refl, (refl, (refl, (refl, (refl, (refl, (refl, a)))))))

data_line : (l : List ℕ) → All InLine l → All InLine (codes "data: " ++ l)
data_line l a = (refl, (refl, (refl, (refl, (refl, (refl, a))))))

next-typed :
    (broken : Bool) (t d : List ℕ) (rest : List (List ℕ))
    → next broken [] [] ((codes "event: " ++ t) ∷ (codes "data: " ++ d) ∷ [] ∷ rest)
      ≡ (rest, event (trim_space t) (trim_space d))
unfolding next type_after lines_after has_prefix trim_space trim_left join
next-typed broken t d rest = refl

next-untyped :
    (broken : Bool) (d : List ℕ) (rest : List (List ℕ))
    → next broken [] [] ((codes "data: " ++ d) ∷ [] ∷ rest) ≡ (rest, event [] (trim_space d))
unfolding next type_after lines_after has_prefix trim_space trim_left join
next-untyped broken d rest = refl

data_lines :
    (d rest : List ℕ)
    → All InLine d
    → Fits (codes "data: " ++ d)
    → scan_lines ((codes "data: " ++ (d ++ codes "\n\n")) ++ rest)
      ≡ cons_token (codes "data: " ++ d) (cons_token [] (scan_lines rest))
data_lines d rest a f =
    ap scan_lines (ap (λ (x : List ℕ). codes "data: " ++ x) (append_assoc d (codes "\n\n") rest))
    ∙ scan_lines-line (codes "data: " ++ d) (10 ∷ rest) (data_line d a) f
    ∙ ap (cons_token (codes "data: " ++ d)) (scan_lines-line [] rest tt empty)
  where
    empty : Fits []
    empty = unfold bytes max_token in omega arith

typed_lines :
    (t d rest : List ℕ)
    → All InLine t
    → All InLine d
    → Fits (codes "event: " ++ t)
    → Fits (codes "data: " ++ d)
    → scan_lines (
        (codes "event: " ++ (t ++ (codes "\n" ++ (codes "data: " ++ (d ++ codes "\n\n"))))) ++ rest)
      ≡ cons_token
          (codes "event: " ++ t)
          (cons_token (codes "data: " ++ d) (cons_token [] (scan_lines rest)))
typed_lines t d rest a b f g =
    let tail = codes "data: " ++ (d ++ codes "\n\n") in
    ap scan_lines (ap (λ (x : List ℕ). codes "event: " ++ x) (append_assoc t (10 ∷ tail) rest))
    ∙ scan_lines-line (codes "event: " ++ t) (tail ++ rest) (named_line t a) f
    ∙ ap (cons_token (codes "event: " ++ t)) (data_lines d rest b g)

-- The reader at the beginning of an event: the event, and the scanner behind it.
abbrev pub read_event : List (List ℕ) × Bool → (List (List ℕ) × Bool) × Read
read_event s = let r = next s.1 [] [] s.0 in ((r.0, s.1), r.1)

-- What the reader makes of an event that the writer has framed, in front of more text: the same
-- event, with the rest left to scan, if its type and its data are trimmed and have no line breaks,
-- and the scanner's buffer holds both of its lines.
pub next-frame :
    (event_type : String) (payload rest : List ℕ)
    → All InLine (codes event_type)
    → All InLine payload
    → trim_space (codes event_type) ≡ codes event_type
    → trim_space payload ≡ payload
    → Fits (codes "event: " ++ codes event_type)
    → Fits (codes "data: " ++ payload)
    → read_event (scan_lines (frame event_type payload ++ rest))
      ≡ (scan_lines rest, event (codes event_type) payload)
unfolding frame
next-frame event_type payload rest a b t p f g = elim (Bool-cases (str_eq event_type "")) [
  | inl e ↦ rw e (
      ap read_event (data_lines payload rest b g)
      ∙ ap (λ (x : List (List ℕ) × Read). ((x.0, (scan_lines rest).1), x.1))
          (next-untyped (scan_lines rest).1 payload (scan_lines rest).0)
      ∙ ap₂ (λ (x y : List ℕ). (scan_lines rest, event x y))
          (ap codes (sym ((eq_iff event_type "").0 e))) p)
  | inr e ↦ rw e (
      ap read_event (typed_lines (codes event_type) payload rest a b f g)
      ∙ ap (λ (x : List (List ℕ) × Read). ((x.0, (scan_lines rest).1), x.1))
          (next-typed (scan_lines rest).1 (codes event_type) payload (scan_lines rest).0)
      ∙ ap₂ (λ (x y : List ℕ). (scan_lines rest, event x y)) t p)
]
