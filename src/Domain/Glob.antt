-- ===== src/Domain/Glob.antt =====
-- path.Match of Go's standard library, as matchGlob of internal/domain/account.go calls it: the
-- error for a malformed pattern is dropped, and the answer is then false. Texts are code points.
pub mod Literal
pub mod Fuel
pub mod Prefix
use Prim.Native.Char.{code}
use mathlib.Core.Path.{◌≡◌, refl}
use cc_gateway.Base.{
  ℕ, zero, suc, String, Bool, true, false, not, ◌&&◌, ◌||◌, List, [], ◌∷◌, ◌++◌, Option, none, some,
  ◌==◌, leb, if◌then◌else◌, length,
}

abbrev pub codes : String → List ℕ
codes String.[] = []
codes (String.◌∷◌ c s) = code c ∷ codes s

abbrev pub backslash : ℕ
backslash = 92

-- A class keeps its ranges; `lo-hi` stands for the code points between the two.
pub data Token : Type 0 where
  lit : ℕ → Token
  any : Token
  class : Bool → List (ℕ × ℕ) → Token

-- The state of matchChunk's reading of a chunk, with the tokens read so far.
pub data Mode : Type 0 where
  plain escaped opened : List Token → Mode
  in_class lo_escaped : List Token → Bool → List (ℕ × ℕ) → Mode
  after_lo hi_start hi_escaped : List Token → Bool → List (ℕ × ℕ) → ℕ → Mode

-- A character at the head of the loop over the ranges of a class.
unfoldable pub class_head : List Token → Bool → List (ℕ × ℕ) → Bool → ℕ → Option Mode
class_head ts neg rs seen c =
    if c == b']' && seen
    then some (plain (ts ++ class neg rs ∷ []))
    else if c == b'-' || c == b']'
    then none
    else if c == backslash
    then some (lo_escaped ts neg rs)
    else some (after_lo ts neg rs c)

abbrev pub is_nil {ℓ} : {A : Type ℓ} → List A → Bool
is_nil [] = true
is_nil (x ∷ xs) = false

unfoldable pub read : Mode → ℕ → Option Mode
unfolding class_head
read (plain ts) c =
    if c == b'['
    then some (opened ts)
    else if c == b'?'
    then some (plain (ts ++ any ∷ []))
    else if c == backslash
    then some (escaped ts)
    else some (plain (ts ++ lit c ∷ []))
read (escaped ts) c = some (plain (ts ++ lit c ∷ []))
read (opened ts) c =
    if c == b'^' then some (in_class ts true []) else class_head ts false [] false c
read (in_class ts neg rs) c = class_head ts neg rs (not (is_nil rs)) c
read (lo_escaped ts neg rs) c = some (after_lo ts neg rs c)
read (after_lo ts neg rs lo) c =
    if c == b'-'
    then some (hi_start ts neg rs lo)
    else class_head ts neg (rs ++ (lo, lo) ∷ []) true c
read (hi_start ts neg rs lo) c =
    if c == b'-' || c == b']'
    then none
    else if c == backslash
    then some (hi_escaped ts neg rs lo)
    else some (in_class ts neg (rs ++ (lo, c) ∷ []))
read (hi_escaped ts neg rs lo) c = some (in_class ts neg (rs ++ (lo, c) ∷ []))

-- A chunk that ends inside an escape or a class is a bad pattern.
unfoldable pub finish : Mode → Option (List Token)
finish (plain ts) = some ts
finish _ = none

unfoldable pub tokens : Mode → List ℕ → Option (List Token)
unfolding read finish
tokens m [] = finish m
tokens m (c ∷ cs) = elim (read m c) [ none ↦ none | some m' ↦ tokens m' cs ]

-- scanChunk: the text up to the next `*` that is neither escaped nor in a class, and the rest.
unfoldable pub scan_chunk : Bool → Bool → List ℕ → List ℕ × List ℕ
scan_chunk esc inrange [] = ([], [])
scan_chunk esc inrange (c ∷ cs) =
    let (chunk, rest) =
      scan_chunk (not esc && c == backslash)
        (if esc then inrange else if c == b'[' then true else if c == b']' then false else inrange)
        cs in
    if not esc && c == b'*' && not inrange then ([], c ∷ cs) else (c ∷ chunk, rest)

unfoldable pub skip_stars : Bool → List ℕ → Bool × List ℕ
skip_stars star [] = (star, [])
skip_stars star (c ∷ cs) =
    let rest = skip_stars true cs in if c == b'*' then rest else (star, c ∷ cs)

unfoldable pub in_ranges : ℕ → List (ℕ × ℕ) → Bool
in_ranges c [] = false
in_ranges c ((lo, hi) ∷ rs) = (leb lo c && leb c hi) || in_ranges c rs

unfoldable pub token_matches : Token → ℕ → Bool
unfolding in_ranges
token_matches (lit c) d = c == d
token_matches any d = not (d == b'/')
token_matches (class neg rs) d = if neg then not (in_ranges d rs) else in_ranges d rs

-- matchChunk on a well-formed chunk: the rest of the name.
unfoldable pub match_chunk : List Token → List ℕ → Option (List ℕ)
unfolding token_matches
match_chunk [] s = some s
match_chunk (t ∷ ts) [] = none
match_chunk (t ∷ ts) (c ∷ s) =
    let rest = match_chunk ts s in if token_matches t c then rest else none

-- A match of the last chunk has to use up the name.
unfoldable pub accept : List Token → Bool → List ℕ → Option (List ℕ)
unfolding match_chunk
accept ts last s = elim (match_chunk ts s) [
  | none ↦ none
  | some t ↦ if is_nil t || not last then some t else none
]

-- The loop after a `*`: skip characters other than `/` until the chunk matches.
unfoldable pub advance : List Token → Bool → List ℕ → Option (List ℕ)
unfolding accept
advance ts last [] = none
advance ts last (c ∷ s) =
    let later = advance ts last s in
    if c == b'/' then none else elim (accept ts last s) [ some t ↦ some t | none ↦ later ]

unfoldable pub place : Bool → List Token → Bool → List ℕ → Option (List ℕ)
unfolding advance
place star ts last s = elim (accept ts last s) [
  | some t ↦ some t
  | none ↦ if star then advance ts last s else none
]

unfoldable pub no_slash : List ℕ → Bool
no_slash [] = true
no_slash (c ∷ s) = not (c == b'/') && no_slash s

-- The part of a round after scanChunk has split off a chunk.
unfoldable pub match_split : (List ℕ → List ℕ → Bool) → List ℕ → Bool → List ℕ × List ℕ → Bool
unfolding tokens place no_slash
match_split next name star (chunk, rest) =
    if star && is_nil chunk then no_slash name else elim (tokens (plain []) chunk) [
      | none ↦ false
      | some ts ↦ elim (place star ts (is_nil rest) name) [ none ↦ false | some t ↦ next rest t ]
    ]

unfoldable pub match_unstarred : (List ℕ → List ℕ → Bool) → List ℕ → Bool × List ℕ → Bool
unfolding match_split scan_chunk
match_unstarred next name (star, p) = match_split next name star (scan_chunk false false p)

-- One round of the loop of path.Match, given what the next rounds answer.
unfoldable pub match_round : (List ℕ → List ℕ → Bool) → List ℕ → List ℕ → Bool
unfolding skip_stars match_unstarred
match_round next pattern name = match_unstarred next name (skip_stars false pattern)

-- Each round uses up at least one character of the pattern, which the fuel counts.
unfoldable pub match_loop : ℕ → List ℕ → List ℕ → Bool
unfolding match_round
match_loop fuel [] name = is_nil name
match_loop zero (c ∷ p) name = false
match_loop (suc fuel) (c ∷ p) name = match_round (match_loop fuel) (c ∷ p) name

unfoldable pub path_match : List ℕ → List ℕ → Bool
unfolding match_loop
path_match pattern name = match_loop (length pattern) pattern name

unfoldable pub match_glob : String → String → Bool
unfolding path_match
match_glob pattern name = path_match (codes pattern) (codes name)

glob_tests :
    (match_glob "claude-*" "claude-opus"
      && not (match_glob "claude-*" "a/claude")
      && match_glob "gpt-[4-5]?" "gpt-5x"
      && not (match_glob "[^a]*" "abc")
      && match_glob "*-4-*-x" "a-4-b-c-x"
      && not (match_glob "a[" "a")
      && not (match_glob "*[^a]*b" "x/b"))
    ≡ true
unfolding match_glob
glob_tests = refl
