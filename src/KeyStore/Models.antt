-- ===== src/KeyStore/Models.antt =====
-- The models that an API key may use.
use cc_gateway.Base.{
  ◌≡◌, ◌↔◌, ◌⊎◌, refl, inl, inr, String, true, List, [], ◌∷◌, Option, none, some, In, str_eq,
  eq_iff, if◌then◌else◌, arith, Bool-cases,
}
use cc_gateway.Domain.{ExternalApiKey}
use cc_gateway.KeyStore.{KeyError, model_not_allowed, in_models, check_model_allowed}

in_models-In : (model : String) (ms : List String) → in_models model ms ≡ true → In model ms
unfolding in_models
in_models-In model [] h = absurd (cc)
in_models-In model (m ∷ ms) h = elim (Bool-cases (str_eq m model)) [
  | inl e ↦ inl (ground (arith, eq_iff m model))
  | inr e ↦ inr (in_models-In model ms (ground arith))
]

In-in_models : (model : String) (ms : List String) → In model ms → in_models model ms ≡ true
unfolding in_models
In-in_models model [] i = elim i [ ]
In-in_models model (m ∷ ms) (inl e) = ground (arith, eq_iff m model)
In-in_models model (m ∷ ms) (inr i) = ground (arith, In-in_models model ms i)

listed : String → List String → Option KeyError
listed model ms = elim ms [
  | [] ↦ none
  | m ∷ rest ↦ if in_models model (m ∷ rest) then none else some model_not_allowed
]

listed-In :
    (model : String) (ms : List String) → (listed model ms ≡ none) ↔ ((ms ≡ []) ⊎ In model ms)
unfolding listed
listed-In model [] = (λ h. inl refl, λ x. refl)
listed-In model (m ∷ ms) = (
  λ h. inr (in_models-In model (m ∷ ms) (ground arith)),
  λ x. elim x [ inl e ↦ absurd (cc) | inr i ↦ ground (arith, In-in_models model (m ∷ ms) i) ],
)

-- A key may use a model exactly if its list of allowed models is empty or has the model's name,
-- letter by letter: patterns and aliases play no part.
pub check_model_allowed-In :
    (key : ExternalApiKey) (model : String)
    → (check_model_allowed key model ≡ none)
      ↔ ((key.allowed_models ≡ []) ⊎ In model key.allowed_models)
unfolding check_model_allowed listed
check_model_allowed-In key model = listed-In model key.allowed_models
