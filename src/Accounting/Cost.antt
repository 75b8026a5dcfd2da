-- ===== src/Accounting/Cost.antt =====
-- internal/accounting/cost.go, and ModelPricing of internal/domain/model.go. The arithmetic of
-- float64 is an argument: the cost of a number of tokens at a price per million, and the sum.
use cc_gateway.Base.{
  ℤ, pos, ◌≡◌, ◌⊎◌, inl, inr, refl, String, Bool, true, false, List, [], ◌∷◌, Option, none, some,
  str_eq, if◌then◌else◌,
}
use cc_gateway.Domain.{Usage}
use cc_gateway.Domain.Glob.{match_glob}
use cc_gateway.Domain.Value.{Float64}

pub record ModelPricing : Type 0 where
  pub model_pattern : String
  pub input_price : Float64
  pub output_price : Float64
  pub thinking_price : Float64

-- The loop that looks for the name itself.
unfoldable pub find_exact : String → List ModelPricing → Option ModelPricing
find_exact model [] = none
find_exact model (p ∷ ps) = if str_eq p.model_pattern model then some p else find_exact model ps

-- The loop over the patterns.
unfoldable pub find_match : String → List ModelPricing → Option ModelPricing
find_match model [] = none
find_match model (p ∷ ps) = if match_glob p.model_pattern model then some p else find_match model ps

abbrev pub or_match : Option ModelPricing → Option ModelPricing → Option ModelPricing
or_match none found = found
or_match (some p) found = some p

unfoldable pub find_pricing : String → List ModelPricing → Option ModelPricing
find_pricing model ps = or_match (find_exact model ps) (find_match model ps)

pub record CostBreakdown : Type 0 where
  pub input_cost : Float64
  pub output_cost : Float64
  pub thinking_cost : Float64
  pub total_cost : Float64

abbrev pub zero_float : Float64
zero_float = record { mantissa = pos 0; exponent = pos 0 }

unfoldable pub breakdown :
    (ℤ → Float64 → Float64)
    → (Float64 → Float64 → Float64)
    → Usage
    → Option ModelPricing
    → CostBreakdown
breakdown cost plus u none = record {
  input_cost = zero_float;
  output_cost = zero_float;
  thinking_cost = zero_float;
  total_cost = zero_float;
}
breakdown cost plus u (some p) =
    let i = cost u.input_tokens p.input_price in
    let o = cost u.output_tokens p.output_price in
    let t = cost u.thinking_tokens p.thinking_price in
    record { input_cost = i; output_cost = o; thinking_cost = t; total_cost = plus (plus i o) t }

unfoldable pub calculate :
    (ℤ → Float64 → Float64)
    → (Float64 → Float64 → Float64)
    → String
    → Usage
    → List ModelPricing
    → CostBreakdown
calculate cost plus model u ps = breakdown cost plus u (find_pricing model ps)

-- No price of a list satisfies a test.
abbrev pub NoneOf : (ModelPricing → Bool) → List ModelPricing → Type 0
NoneOf test [] = Unit {0}
NoneOf test (p ∷ ps) = (test p ≡ false) × NoneOf test ps

-- The first price of a list that satisfies a test.
pub data IsFirst (test : ModelPricing → Bool) (p : ModelPricing) : List ModelPricing → Type 0 where
  here : (ps : List ModelPricing) → test p ≡ true → IsFirst test p (p ∷ ps)
  later :
      (q : ModelPricing) (ps : List ModelPricing)
      → test q ≡ false
      → IsFirst test p ps
      → IsFirst test p (q ∷ ps)

abbrev pub named : String → ModelPricing → Bool
named model p = str_eq p.model_pattern model

abbrev pub matching : String → ModelPricing → Bool
matching model p = match_glob p.model_pattern model

-- The price that is found, from what the patterns of the list are.
abbrev pub Found : String → List ModelPricing → Option ModelPricing → Type 0
Found model ps none = NoneOf (named model) ps × NoneOf (matching model) ps
Found model ps (some p) =
    IsFirst (named model) p ps ⊎ (NoneOf (named model) ps × IsFirst (matching model) p ps)

abbrev Search : (ModelPricing → Bool) → List ModelPricing → Option ModelPricing → Type 0
Search test ps none = NoneOf test ps
Search test ps (some p) = IsFirst test p ps

cons-Search :
    (test : ModelPricing → Bool) (q : ModelPricing) (ps : List ModelPricing)
    (o : Option ModelPricing) (b : Bool)
    → test q ≡ b
    → Search test ps o
    → Search test (q ∷ ps) (if b then some q else o)
cons-Search test q ps o true e s = here ps e
cons-Search test q ps none false e s = (e, s)
cons-Search test q ps (some p) false e s = later q ps e s

find_exact-Search :
    (model : String) (ps : List ModelPricing) → Search (named model) ps (find_exact model ps)
unfolding find_exact
find_exact-Search model [] = tt
find_exact-Search model (p ∷ ps) =
    cons-Search (named model) p ps (find_exact model ps) (named model p) refl
      (find_exact-Search model ps)

find_match-Search :
    (model : String) (ps : List ModelPricing) → Search (matching model) ps (find_match model ps)
unfolding find_match
find_match-Search model [] = tt
find_match-Search model (p ∷ ps) =
    cons-Search (matching model) p ps (find_match model ps) (matching model p) refl
      (find_match-Search model ps)

-- The price of a model is the first whose pattern is its name; if there is none, the first whose
-- pattern matches it; and there is no price only if there is neither.
pub find_pricing-Found :
    (model : String) (ps : List ModelPricing) → Found model ps (find_pricing model ps)
unfolding find_pricing
find_pricing-Found model ps =
    either (find_exact model ps) (find_match model ps) (find_exact-Search model ps)
      (find_match-Search model ps)
  where
    either :
        (a b : Option ModelPricing)
        → Search (named model) ps a
        → Search (matching model) ps b
        → Found model ps (or_match a b)
    either none none s t = (s, t)
    either none (some p) s t = inr (s, t)
    either (some p) b s t = inl s
