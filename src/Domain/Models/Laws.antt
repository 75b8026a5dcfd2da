-- ===== src/Domain/Models/Laws.antt =====
-- What an account answers about a model.
use cc_gateway.Base.{
  ◌≡◌, refl, ◌≢◌, ◌↔◌, ◌⊎◌, inl, inr, String, true, List, [], ◌∷◌, some, str_eq, eq_iff,
  if◌then◌else◌, lookup, In, arith, Bool-cases, sym, ◌∙◌,
}
use cc_gateway.Domain.{Account}
use cc_gateway.Domain.Glob.{match_glob}
use cc_gateway.Domain.Models.{match_alias, resolve_model, any_allowed, can_serve_model}

-- An alias with the model's own name decides, whatever the patterns and their order; an empty
-- target counts as no alias.
pub resolve_model-exact :
    (a : Account) (model t : String)
    → lookup model a.model_aliases ≡ some t
    → resolve_model a model ≡ (if str_eq t "" then model else t)
unfolding resolve_model
resolve_model-exact a model t h = ground arith

any_allowed_sound :
    (model : String) (ps : List String)
    → any_allowed model model ps ≡ true
    → (p : String) × In p ps × (match_glob p model ≡ true)
unfolding any_allowed
any_allowed_sound model [] h = absurd (cc)
any_allowed_sound model (p ∷ ps) h = elim (Bool-cases (match_glob p model)) [
  | inl e ↦ (p, inl refl, e)
  | inr e ↦ let (q, i, m) = any_allowed_sound model ps (ground arith) in (q, inr i, m)
]

any_allowed_complete :
    (model p : String) (ps : List String)
    → In p ps
    → match_glob p model ≡ true
    → any_allowed model model ps ≡ true
unfolding any_allowed
any_allowed_complete model p [] i m = elim i [ ]
any_allowed_complete model p (q ∷ ps) (inl e) m = ground arith
any_allowed_complete model p (q ∷ ps) (inr i) m =
    ground (arith, any_allowed_complete model p ps i m)

-- The three ways in which an account serves a model.
abbrev pub Serves : Account → String → Type 0
Serves a model =
    ((match_alias a model).1 ≢ "")
    ⊎ ((a.allowed_models ≡ [])
        ⊎ ((p : String) × In p a.allowed_models × (match_glob p model ≡ true)))

serves-list :
    (model : String) (ps : List String)
    → (elim ps [ [] ↦ true | p ∷ qs ↦ any_allowed model model (p ∷ qs) ]) ≡ true
    → (ps ≡ []) ⊎ ((p : String) × In p ps × (match_glob p model ≡ true))
serves-list model [] h = inl refl
serves-list model (p ∷ ps) h = inr (any_allowed_sound model (p ∷ ps) h)

list-serves :
    (model : String) (ps : List String)
    → (ps ≡ []) ⊎ ((p : String) × In p ps × (match_glob p model ≡ true))
    → (elim ps [ [] ↦ true | p ∷ qs ↦ any_allowed model model (p ∷ qs) ]) ≡ true
list-serves model [] h = refl
list-serves model (p ∷ ps) (inl e) = cc
list-serves model (p ∷ ps) (inr (q, i, m)) = any_allowed_complete model q (p ∷ ps) i m

unresolved :
    (a : Account) (model : String) → (match_alias a model).1 ≡ "" → resolve_model a model ≡ model
unfolding resolve_model
unresolved a model e = ground (arith, eq_iff (match_alias a model).1 "")

no_alias :
    (a : Account) (model : String)
    → (match_alias a model).1 ≡ ""
    → can_serve_model a model
      ≡ elim a.allowed_models [ [] ↦ true | p ∷ qs ↦ any_allowed model model (p ∷ qs) ]
unfolding can_serve_model
no_alias a model e = ground (arith, eq_iff (match_alias a model).1 "", unresolved a model e)

aliased :
    (a : Account) (model : String) → (match_alias a model).1 ≢ "" → can_serve_model a model ≡ true
unfolding can_serve_model
aliased a model e = ground (arith, eq_iff (match_alias a model).1 "")

-- An account serves a model exactly if an alias gives it a target, its list of allowed models is
-- empty, or a pattern of the list matches the requested name. The resolved name plays no part, and a model with an
-- alias need not be in the list.
pub can_serve_model-Serves :
    (a : Account) (model : String) → (can_serve_model a model ≡ true) ↔ Serves a model
can_serve_model-Serves a model = (sound, complete)
  where
    sound : can_serve_model a model ≡ true → Serves a model
    sound h = elim (Bool-cases (str_eq (match_alias a model).1 "")) [
      | inl e ↦
          inr (serves-list model a.allowed_models (sym (no_alias a model ((eq_iff _ _).0 e)) ∙ h))
      | inr e ↦ inl (λ q. cc ((eq_iff (match_alias a model).1 "").1 q))
    ]

    complete : Serves a model → can_serve_model a model ≡ true
    complete (inl e) = aliased a model e
    complete (inr x) = elim (Bool-cases (str_eq (match_alias a model).1 "")) [
      | inl e ↦ no_alias a model ((eq_iff _ _).0 e) ∙ list-serves model a.allowed_models x
      | inr e ↦ aliased a model (λ q. cc ((eq_iff (match_alias a model).1 "").1 q))
    ]
