-- ===== src/Domain/Glob/Literal.antt =====
-- Patterns of path.Match without metacharacters, and the plain head of a pattern.
use cc_gateway.Base.{
  ℕ, ◌≡◌, refl, sym, ap, subst, ◌∙◌, Bool, true, false, not, ◌||◌, List, [], ◌∷◌, ◌++◌, none, some,
  ◌==◌, length, map, All, arith, ◌↔◌, String, append_assoc, append-nil, Option-cases, inl, inr,
}
use cc_gateway.Domain.Glob.{
  Token, lit, plain, backslash, is_nil, tokens, scan_chunk, skip_stars, match_chunk, accept, place,
  match_split, match_unstarred, match_round, match_loop, path_match, codes, match_glob,
}

-- A character that path.Match takes for itself.
abbrev pub is_plain : ℕ → Bool
is_plain c = not (c == b'*' || c == b'?' || c == b'[' || c == backslash)

abbrev pub IsPlain : List ℕ → Type 0
IsPlain p = All (λ c. is_plain c ≡ true) p

-- What may follow the first chunk of a pattern.
abbrev pub IsRest : List ℕ → Type 0
IsRest [] = Unit {0}
IsRest (c ∷ cs) = c ≡ b'*'

pub scan_chunk-plain :
    (p q : List ℕ) → IsPlain p → IsRest q → scan_chunk false false (p ++ q) ≡ (p, q)
unfolding scan_chunk
scan_chunk-plain [] [] h r = refl
scan_chunk-plain [] (c ∷ q) h r = ground arith
scan_chunk-plain (c ∷ p) q h r = ground (arith, scan_chunk-plain p q h.1 r)

pub tokens-plain :
    (p : List ℕ) (ts : List Token) → IsPlain p → tokens (plain ts) p ≡ some (ts ++ map lit p)
unfolding tokens
tokens-plain [] ts h = simp append-nil
tokens-plain (c ∷ p) ts h =
    ground (arith, tokens-plain p (ts ++ lit c ∷ []) h.1, append_assoc ts (lit c ∷ []) (map lit p))

pub match_chunk-lit : (p s t : List ℕ) → match_chunk (map lit p) (p ++ t) ≡ some t
unfolding match_chunk
match_chunk-lit [] s t = refl
match_chunk-lit (c ∷ p) s t = ground (arith, match_chunk-lit p s t)

pub match_chunk-lit_inv : (p s t : List ℕ) → match_chunk (map lit p) s ≡ some t → s ≡ p ++ t
unfolding match_chunk
match_chunk-lit_inv [] s t e = cc
match_chunk-lit_inv (c ∷ p) [] t e = cc
match_chunk-lit_inv (c ∷ p) (d ∷ s) t e = ground (arith, match_chunk-lit_inv p s t)

pub skip_stars-plain :
    (c : ℕ) (p : List ℕ) → is_plain c ≡ true → skip_stars false (c ∷ p) ≡ (false, c ∷ p)
unfolding skip_stars
skip_stars-plain c p h = ground arith

-- The first round on a pattern that begins with plain characters.
pub match_round-plain :
    (next : List ℕ → List ℕ → Bool) (c : ℕ) (p q name : List ℕ)
    → IsPlain (c ∷ p)
    → IsRest q
    → match_round next ((c ∷ p) ++ q) name
      ≡ elim (place false (map lit (c ∷ p)) (is_nil q) name) [ none ↦ false | some t ↦ next q t ]
unfolding match_round
match_round-plain next c p q name h r =
    ap (match_unstarred next name) (skip_stars-plain c (p ++ q) h.0)
    ∙ ap (match_split next name false) (scan_chunk-plain (c ∷ p) q h r)
    ∙ ap {B = Bool}
        (λ o. elim o [
          | none ↦ false
          | some ts ↦ elim (place false ts (is_nil q) name) [ none ↦ false | some t ↦ next q t ]
        ])
        (tokens-plain (c ∷ p) [] h)

-- A pattern that begins with plain characters, up to the loop over its rest.
pub path_match-plain :
    (c : ℕ) (p q name : List ℕ)
    → IsPlain (c ∷ p)
    → IsRest q
    → path_match ((c ∷ p) ++ q) name ≡ elim (place false (map lit (c ∷ p)) (is_nil q) name) [
      | none ↦ false
      | some t ↦ match_loop (length (p ++ q)) q t
    ]
unfolding path_match match_loop
path_match-plain c p q name h r = match_round-plain (match_loop (length (p ++ q))) c p q name h r

lit_of_whole :
    (p n : List ℕ)
    → (elim (place false (map lit p) true n) [ none ↦ false | some t ↦ is_nil t ]) ≡ true
    → n ≡ p
unfolding place accept
lit_of_whole p n h = elim (Option-cases (match_chunk (map lit p) n)) [
  | inl e ↦ ground arith
  | inr (t, e) ↦ ground (arith, match_chunk-lit_inv p n t, append-nil p)
]

whole_of_lit :
    (p : List ℕ)
    → (elim (place false (map lit p) true p) [ none ↦ false | some t ↦ is_nil t ]) ≡ true
unfolding place accept
whole_of_lit p = rw (rw (append-nil p) at (match_chunk-lit p [] []))

abbrev matches_whole : List ℕ → List ℕ → Bool
matches_whole p n = elim (place false (map lit p) true n) [ none ↦ false | some t ↦ is_nil t ]

path_match-matches_whole :
    (c : ℕ) (p name : List ℕ)
    → IsPlain (c ∷ p)
    → path_match (c ∷ p) name ≡ matches_whole (c ∷ p) name
unfolding match_loop
path_match-matches_whole c p name h =
    subst (λ (r : List ℕ). path_match r name ≡ matches_whole (c ∷ p) name) (append-nil (c ∷ p))
      (path_match-plain c p [] name h tt)

path_match-nil : (name : List ℕ) → path_match [] name ≡ is_nil name
unfolding path_match match_loop
path_match-nil name = refl

-- A pattern with none of `*`, `?`, `[` and a backslash matches exactly the name it spells.
pub path_match-literal : (p name : List ℕ) → IsPlain p → (path_match p name ≡ true) ↔ (name ≡ p)
path_match-literal [] [] h = (λ e. refl, λ e. path_match-nil [])
path_match-literal [] (d ∷ name) h = (λ e. cc (path_match-nil (d ∷ name)), λ e. cc)
path_match-literal (c ∷ p) name h =
    let whole = path_match-matches_whole c p name h in
    (
      λ e. lit_of_whole (c ∷ p) name (sym whole ∙ e),
      λ e.
          whole
          ∙ subst (λ (n : List ℕ). matches_whole (c ∷ p) n ≡ true) (sym e) (whole_of_lit (c ∷ p)),
    )

-- A pattern with none of `*`, `?`, `[` and a backslash matches exactly the name it spells.
pub match_glob-literal :
    (p name : String) → IsPlain (codes p) → (match_glob p name ≡ true) ↔ (codes name ≡ codes p)
unfolding match_glob
match_glob-literal p name h = path_match-literal (codes p) (codes name) h
