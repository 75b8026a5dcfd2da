-- ===== src/Domain/Models.antt =====
-- matchAlias, ResolveModel and CanServeModel of internal/domain/account.go.
pub mod Laws
use cc_gateway.Base.{
  String, Bool, true, false, ◌||◌, List, [], ◌∷◌, Option, none, some, str_eq, if◌then◌else◌, Map,
  lookup,
}
use cc_gateway.Domain.{Account}
use cc_gateway.Domain.Glob.{match_glob}

-- The loop over the alias map, in the order of the list: the first pattern that matches.
unfoldable pub first_glob : String → Map String → String × String
first_glob model [] = ("", "")
first_glob model ((pattern, t) ∷ m) =
    if match_glob pattern model then (pattern, t) else first_glob model m

unfoldable pub match_alias : Account → String → String × String
unfolding first_glob lookup
match_alias a model = elim (lookup model a.model_aliases) [
  | some t ↦ (model, t)
  | none ↦ first_glob model a.model_aliases
]

unfoldable pub resolve_model : Account → String → String
unfolding match_alias
resolve_model a requested =
    let target = (match_alias a requested).1 in if str_eq target "" then requested else target

unfoldable pub any_allowed : String → String → List String → Bool
any_allowed model resolved [] = false
any_allowed model resolved (pattern ∷ ps) =
    if match_glob pattern model || match_glob pattern resolved
    then true
    else any_allowed model resolved ps

unfoldable pub can_serve_model : Account → String → Bool
unfolding match_alias resolve_model any_allowed
can_serve_model a model =
    if str_eq (match_alias a model).1 ""
    then elim a.allowed_models [
      | [] ↦ true
      | p ∷ ps ↦ any_allowed model (resolve_model a model) (p ∷ ps)
    ]
    else true
