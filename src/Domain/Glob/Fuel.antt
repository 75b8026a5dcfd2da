-- ===== src/Domain/Glob/Fuel.antt =====
-- The fuel of the loop of path.Match.
use cc_gateway.Base.{
  ℕ, zero, suc, ◌≤◌, ◌≡◌, refl, ap, Bool, true, false, not, ◌&&◌, List, [], ◌∷◌, Option, none, some,
  ◌==◌, length, arith, if◌then◌else◌, Bool-cases, inl, inr, String,
}
use cc_gateway.Domain.Glob.{
  Token, plain, is_nil, tokens, scan_chunk, skip_stars, place, no_slash, match_split,
  match_unstarred, match_round, match_loop, path_match, backslash, codes, match_glob,
}

scan_rest : (esc r : Bool) (cs : List ℕ) → length (scan_chunk esc r cs).1 ≤ length cs
unfolding scan_chunk
scan_rest esc r [] = omega arith
scan_rest esc r (c ∷ cs) =
    let later =
      scan_rest (not esc && c == backslash)
        (if esc then r else if c == b'[' then true else if c == b']' then false else r) cs in
    elim (Bool-cases (not esc && c == b'*' && not r)) [
      | inl e ↦ rw e (omega arith)
      | inr e ↦ rw e (omega (arith, later))
    ]

skip_rest : (s : Bool) (cs : List ℕ) → length (skip_stars s cs).1 ≤ length cs
unfolding skip_stars
skip_rest s [] = omega arith
skip_rest s (c ∷ cs) = ground (arith, skip_rest true cs)

module _ (f g : List ℕ → List ℕ → Bool) (rest : List ℕ)
    (h : (t : List ℕ) → f rest t ≡ g rest t) where
  place_same :
      (o : Option (List ℕ))
      → (elim o [ none ↦ false | some t ↦ f rest t ])
        ≡ (elim o [ none ↦ false | some t ↦ g rest t ])
  place_same none = refl
  place_same (some t) = h t

  tokens_same :
      (name : List ℕ) (star : Bool) (o : Option (List Token))
      → (elim o [
        | none ↦ false
        | some ts ↦ elim (place star ts (is_nil rest) name) [ none ↦ false | some t ↦ f rest t ]
      ])
        ≡ (elim o [
          | none ↦ false
          | some ts ↦ elim (place star ts (is_nil rest) name) [ none ↦ false | some t ↦ g rest t ]
        ])
  tokens_same name star none = refl
  tokens_same name star (some ts) = place_same (place star ts (is_nil rest) name)

  split_same :
      (name : List ℕ) (star : Bool) (chunk : List ℕ)
      → match_split f name star (chunk, rest) ≡ match_split g name star (chunk, rest)
  unfolding match_split
  split_same name star chunk =
      ap (λ (b : Bool). if star && is_nil chunk then no_slash name else b)
        (tokens_same name star (tokens (plain []) chunk))

shrinks :
    (c : ℕ) (p : List ℕ) → length (scan_chunk false false (skip_stars false (c ∷ p)).1).1 ≤ length p
unfolding skip_stars
shrinks c p = elim (Bool-cases (c == b'*')) [
  | inl e ↦ rw e (omega (arith, scan_rest false false (skip_stars true p).1, skip_rest true p))
  | inr e ↦ rw e (unscanned e)
]
  where
    unscanned : (c == b'*') ≡ false → length (scan_chunk false false (c ∷ p)).1 ≤ length p
    unscanned e = unfold scan_chunk in rw e (scan_rest _ _ p)

match_loop_enough :
    (n m : ℕ) (p name : List ℕ)
    → length p ≤ n
    → length p ≤ m
    → match_loop n p name ≡ match_loop m p name
unfolding match_loop match_round match_unstarred
match_loop_enough n m [] name h k = refl
match_loop_enough zero m (c ∷ p) name h k = absurd (omega (arith, h))
match_loop_enough (suc n) zero (c ∷ p) name h k = absurd (omega (arith, k))
match_loop_enough (suc n) (suc m) (c ∷ p) name h k =
    let skipped = skip_stars false (c ∷ p) in
    let scanned = scan_chunk false false skipped.1 in
    split_same (match_loop n) (match_loop m) scanned.1
      (λ t.
        match_loop_enough n m scanned.1 t (omega (arith, shrinks c p, h))
          (omega (arith, shrinks c p, k)))
      name skipped.0 scanned.0

-- The fuel of the loop is enough: with any fuel from the length of the pattern on, the loop answers
-- what match_glob does.
pub match_glob_enough_fuel :
    (n : ℕ) (pattern name : String)
    → length (codes pattern) ≤ n
    → match_loop n (codes pattern) (codes name) ≡ match_glob pattern name
unfolding match_glob path_match
match_glob_enough_fuel n pattern name h =
    match_loop_enough n (length (codes pattern)) (codes pattern) (codes name) h (omega arith)
