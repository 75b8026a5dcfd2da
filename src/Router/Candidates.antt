-- ===== src/Router/Candidates.antt =====
-- The candidates of a selection against the accounts that are eligible when it begins.
use mathlib.Core.Path.{ap₂}
use cc_gateway.Base.{
  ℕ, ◌≡◌, refl, ap, ◌∙◌, String, Bool, true, List, [], ◌∷◌, Option, none, some, str_eq, eq_iff,
  if◌then◌else◌, Map, lookup, insert, lookup-insert, arith, Bool-cases, inl, inr,
}
use cc_gateway.Domain.{Account, account_enabled}
use cc_gateway.Breaker
use cc_gateway.Breaker.{Breaker}
use cc_gateway.Router.{
  Router, member, serve, ask_breaker, check_account, account_candidate, cons_option, candidates,
}

-- What a breaker, if there is one, answers.
abbrev pub answer : ℕ → Option Breaker → Bool
answer now none = true
answer now (some b) = (Breaker.allow now b).1

-- The account with the id, if it is eligible: known, enabled, not excluded, let through by its
-- breaker, and able to serve the model.
abbrev pub eligible_account : ℕ → String → Option Account → Option Breaker → Option Account
eligible_account now model none cb = none
eligible_account now model (some a) cb =
    if str_eq a.status account_enabled
    then (if answer now cb then serve a model else none)
    else none

abbrev pub eligible : ℕ → String → List String → Router → String → Option Account
eligible now model excluded r id =
    if member id excluded
    then none
    else eligible_account now model (lookup id r.accounts) (lookup id r.breakers)

-- Asking twice at one time gives the same answer.
pub allow_again :
    (now : ℕ) (b : Breaker)
    → (Breaker.allow now (Breaker.allow now b).0).1 ≡ (Breaker.allow now b).1
unfolding Breaker.allow
allow_again now b = ground arith

-- The two routers differ in their breakers at most, and those answer alike.
pub record Alike (now : ℕ) (r s : Router) : Type 0 where
  pub same_accounts : s.accounts ≡ r.accounts
  pub same_groups : s.groups ≡ r.groups
  pub same_balancers : s.balancers ≡ r.balancers
  pub same_default : s.default_balancer ≡ r.default_balancer
  pub same_counts : s.inflight_counts ≡ r.inflight_counts
  pub same_answers :
      (id : String) → answer now (lookup id s.breakers) ≡ answer now (lookup id r.breakers)

answer-insert :
    (now : ℕ) (id j : String) (cb : Breaker) (m : Map Breaker)
    → lookup id m ≡ some cb
    → answer now (lookup j (insert id (Breaker.allow now cb).0 m)) ≡ answer now (lookup j m)
answer-insert now id j cb m e =
    ground (arith, lookup-insert id j (Breaker.allow now cb).0 m, allow_again now cb, eq_iff id j)

Alike-refl : (now : ℕ) (r : Router) → Alike now r r
Alike-refl now r = record {
  same_accounts = refl;
  same_groups = refl;
  same_balancers = refl;
  same_default = refl;
  same_counts = refl;
  same_answers = λ id. refl;
}

Alike-trans : {now : ℕ} {r s t : Router} → Alike now r s → Alike now s t → Alike now r t
Alike-trans h k = record {
  same_accounts = k.same_accounts ∙ h.same_accounts;
  same_groups = k.same_groups ∙ h.same_groups;
  same_balancers = k.same_balancers ∙ h.same_balancers;
  same_default = k.same_default ∙ h.same_default;
  same_counts = k.same_counts ∙ h.same_counts;
  same_answers = λ id. k.same_answers id ∙ h.same_answers id;
}

ask_breaker-Alike :
    (now : ℕ) (id : String) (a : Account) (model : String) (r : Router) (o : Option Breaker)
    → lookup id r.breakers ≡ o
    → Alike now r (ask_breaker now id a model r o).0
unfolding ask_breaker
ask_breaker-Alike now id a model r none e = Alike-refl now r
ask_breaker-Alike now id a model r (some cb) e = record {
  same_accounts = refl;
  same_groups = refl;
  same_balancers = refl;
  same_default = refl;
  same_counts = refl;
  same_answers = λ j. answer-insert now id j cb r.breakers e;
}

check_account-Alike :
    (now : ℕ) (id model : String) (r : Router) (o : Option Account)
    → Alike now r (check_account now id model r o).0
unfolding check_account
check_account-Alike now id model r none = Alike-refl now r
check_account-Alike now id model r (some a) = elim (Bool-cases (str_eq a.status account_enabled)) [
  | inl e ↦ rw e (ask_breaker-Alike now id a model r (lookup id r.breakers) refl)
  | inr e ↦ rw e (Alike-refl now r)
]

account_candidate-Alike :
    (now : ℕ) (id model : String) (excluded : List String) (r : Router)
    → Alike now r (account_candidate now id model excluded r).0
unfolding account_candidate
account_candidate-Alike now id model excluded r = elim (Bool-cases (member id excluded)) [
  | inl e ↦ rw e (Alike-refl now r)
  | inr e ↦ rw e (check_account-Alike now id model r (lookup id r.accounts))
]

ask_breaker-answer :
    (now : ℕ) (id : String) (a : Account) (model : String) (r : Router) (o : Option Breaker)
    → (ask_breaker now id a model r o).1 ≡ (if answer now o then serve a model else none)
unfolding ask_breaker
ask_breaker-answer now id a model r none = refl
ask_breaker-answer now id a model r (some cb) = refl

check_account-eligible :
    (now : ℕ) (id model : String) (r : Router) (o : Option Account)
    → (check_account now id model r o).1 ≡ eligible_account now model o (lookup id r.breakers)
unfolding check_account
check_account-eligible now id model r none = refl
check_account-eligible now id model r (some a) =
    ground (arith, ask_breaker-answer now id a model r (lookup id r.breakers))

account_candidate-eligible :
    (now : ℕ) (id model : String) (excluded : List String) (r : Router)
    → (account_candidate now id model excluded r).1 ≡ eligible now model excluded r id
unfolding account_candidate
account_candidate-eligible now id model excluded r =
    ground (arith, check_account-eligible now id model r (lookup id r.accounts))

eligible-Alike :
    (now : ℕ) (model : String) (excluded : List String) (r s : Router) (id : String)
    → Alike now r s
    → eligible now model excluded s id ≡ eligible now model excluded r id
eligible-Alike now model excluded r s id h =
    ap
      (λ (m : Map Account).
        if member id excluded
        then none
        else eligible_account now model (lookup id m) (lookup id s.breakers))
      h.same_accounts
    ∙ elig (lookup id r.accounts) (h.same_answers id)
  where
    elig :
        (o : Option Account)
        → answer now (lookup id s.breakers) ≡ answer now (lookup id r.breakers)
        → (if member id excluded then none else eligible_account now model o (lookup id s.breakers))
          ≡ (if member id excluded
              then none
              else eligible_account now model o (lookup id r.breakers))
    elig none e = refl
    elig (some a) e = rw e

-- The accounts of a list of ids that are eligible in the router as it is.
abbrev pub eligible_among : ℕ → String → List String → Router → List String → List Account
eligible_among now model excluded r [] = []
eligible_among now model excluded r (id ∷ ids) =
    cons_option (eligible now model excluded r id) (eligible_among now model excluded r ids)

eligible_among-Alike :
    (now : ℕ) (model : String) (excluded : List String) (r s : Router) (ids : List String)
    → Alike now r s
    → eligible_among now model excluded s ids ≡ eligible_among now model excluded r ids
eligible_among-Alike now model excluded r s [] h = refl
eligible_among-Alike now model excluded r s (id ∷ ids) h =
    ap₂ cons_option (eligible-Alike now model excluded r s id h)
      (eligible_among-Alike now model excluded r s ids h)

-- The candidates that the loop collects, while it moves breakers to half-open, are the accounts
-- eligible when it begins, in the order of the ids; after it nothing but breakers has changed in the
-- router, and each answers as it would have before.
pub candidates-eligible :
    (now : ℕ) (model : String) (excluded ids : List String) (r : Router)
    → ((candidates now model excluded ids r).1 ≡ eligible_among now model excluded r ids)
      × Alike now r (candidates now model excluded ids r).0
unfolding candidates
candidates-eligible now model excluded [] r = (refl, Alike-refl now r)
candidates-eligible now model excluded (id ∷ ids) r =
    let r' = (account_candidate now id model excluded r).0 in
    let alike = account_candidate-Alike now id model excluded r in
    let later = candidates-eligible now model excluded ids r' in
    (
      ap₂ cons_option (account_candidate-eligible now id model excluded r)
          (later.0 ∙ eligible_among-Alike now model excluded r r' ids alike),
      Alike-trans alike later.1,
    )
