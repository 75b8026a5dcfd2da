-- ===== src/Domain/Glob/Prefix.antt =====
-- Patterns of path.Match that are a plain text followed by one `*`, as in `claude-*`.
use cc_gateway.Base.{
  ℕ, suc, ◌≡◌, refl, sym, ap, subst, ◌∙◌, Bool, true, false, List, [], ◌∷◌, ◌++◌, none, some,
  length, length-append, map, arith, ◌↔◌, String, Option-cases, inl, inr,
}
use cc_gateway.Domain.Glob.{
  lit, match_chunk, accept, place, match_loop, path_match, no_slash, codes, match_glob,
}
use cc_gateway.Domain.Glob.Literal.{IsPlain, match_chunk-lit, match_chunk-lit_inv, path_match-plain}

abbrev pub star : List ℕ
star = b'*' ∷ []

match_loop-star : (fuel : ℕ) (t : List ℕ) → match_loop (suc fuel) star t ≡ no_slash t
unfolding match_loop
match_loop-star fuel t = refl

length-star : (p : List ℕ) → length (p ++ star) ≡ suc (length p)
length-star p = omega (arith, length-append p star)

abbrev matches_head : List ℕ → List ℕ → Bool
matches_head p n = elim (place false (map lit p) false n) [ none ↦ false | some t ↦ no_slash t ]

path_match-matches_head :
    (c : ℕ) (p name : List ℕ)
    → IsPlain (c ∷ p)
    → path_match ((c ∷ p) ++ star) name ≡ matches_head (c ∷ p) name
path_match-matches_head c p name h =
    path_match-plain c p star name h refl
    ∙ ap {B = Bool}
        (λ (f : List ℕ → Bool). elim (place false (map lit (c ∷ p)) false name) [
          | none ↦ false
          | some t ↦ f t
        ])
        (λ i t.
          (ap (λ (k : ℕ). match_loop k star t) (length-star p) ∙ match_loop-star (length p) t) i)

head_sound :
    (p n : List ℕ) → matches_head p n ≡ true → (s : List ℕ) × (n ≡ p ++ s) × (no_slash s ≡ true)
unfolding place accept
head_sound p n h = elim (Option-cases (match_chunk (map lit p) n)) [
  | inl e ↦ absurd (ground arith)
  | inr (t, e) ↦ (t, match_chunk-lit_inv p n t e, ground arith)
]

head_complete : (p s : List ℕ) → no_slash s ≡ true → matches_head p (p ++ s) ≡ true
unfolding place accept
head_complete p s h = ground (arith, match_chunk-lit p [] s)

path_match-star : (name : List ℕ) → path_match star name ≡ no_slash name
unfolding path_match match_loop
path_match-star name = refl

-- A plain text and a `*` match exactly the names that continue the text without a slash.
pub path_match-prefix :
    (p name : List ℕ)
    → IsPlain p
    → (path_match (p ++ star) name ≡ true) ↔ ((s : List ℕ) × (name ≡ p ++ s) × (no_slash s ≡ true))
path_match-prefix [] name h = (
  λ e. (name, refl, sym (path_match-star name) ∙ e),
  λ x. path_match-star name ∙ subst (λ (n : List ℕ). no_slash n ≡ true) (sym x.1) x.2,
)
path_match-prefix (c ∷ p) name h =
    let head = path_match-matches_head c p name h in
    (
      λ e. head_sound (c ∷ p) name (sym head ∙ e),
      λ x.
          head
          ∙ subst (λ (n : List ℕ). matches_head (c ∷ p) n ≡ true) (sym x.1)
              (head_complete (c ∷ p) x.0 x.2),
    )

-- A pattern that is a plain text and a `*` matches exactly the names that continue the text
-- without a slash.
pub match_glob-prefix :
    (p : List ℕ) (pattern name : String)
    → codes pattern ≡ p ++ star
    → IsPlain p
    → (match_glob pattern name ≡ true)
      ↔ ((s : List ℕ) × (codes name ≡ p ++ s) × (no_slash s ≡ true))
unfolding match_glob
match_glob-prefix p pattern name e h =
    subst
      (λ (q : List ℕ).
        (path_match q (codes name) ≡ true)
        ↔ ((s : List ℕ) × (codes name ≡ p ++ s) × (no_slash s ≡ true)))
      (sym e) (path_match-prefix p (codes name) h)
