-- ===== src/Router/Selection.antt =====
-- What the two selections answer, against the eligible accounts.
pub mod Visited
use mathlib.Core.Path.{ap₂}
use cc_gateway.Base.{
  ℕ, ℤ, pos, ◌≡◌, ◌⊎◌, refl, sym, ap, ◌∙◌, subst, String, Bool, true, false, List, [], ◌∷◌, ◌++◌,
  Option, none, some, str_eq, eq_iff, if◌then◌else◌, Map, lookup, insert, In, arith, Option-cases,
  Bool-cases, inl, inr,
}
use cc_gateway.Domain.{Account, KeyGroup, account_enabled}
use cc_gateway.Domain.Models.{can_serve_model}
use cc_gateway.Breaker.{Breaker}
use cc_gateway.Balancer.{Balancer, priority, select}
use cc_gateway.Balancer.Choice.{select-In}
use cc_gateway.Router.{
  Router, Selected, account, refused, no_healthy_account, no_group, RouterError, member, serve,
  cons_option, candidates, group_candidates, get_account_inflight, choice, balance, select_in_group,
  select_account_except, balance_default, all_candidates, select_account_from_all, visited,
}
use cc_gateway.Router.Candidates.{
  answer, eligible_account, eligible, eligible_among, candidates-eligible,
}

-- The answer is one of the accounts, or the refusal if there is none.
abbrev pub SelectsFrom : List Account → Selected → Type 0
SelectsFrom xs s =
    ((xs ≡ []) × (s ≡ refused no_healthy_account)) ⊎ ((a : Account) × (s ≡ account a) × In a xs)

choice-SelectsFrom :
    (xs : List Account) (o : Option Account)
    → (b : Account) × (o ≡ some b) × In b xs
    → SelectsFrom xs (choice o)
unfolding choice
choice-SelectsFrom xs none (b, e, i) = absurd (cc)
choice-SelectsFrom xs (some a) (b, e, i) = inr (b, ground arith, i)

balance-SelectsFrom :
    (gid : String) (r : Router) (xs : List Account) (o : Option Balancer)
    → SelectsFrom xs (balance gid r xs o).1
unfolding balance
balance-SelectsFrom gid r [] o = inl (refl, refl)
balance-SelectsFrom gid r (a ∷ xs) none = inr (a, refl, inl refl)
balance-SelectsFrom gid r (a ∷ xs) (some bal) =
    choice-SelectsFrom (a ∷ xs) _ (select-In (get_account_inflight r) bal a xs)

balance_default-SelectsFrom :
    (r : Router) (xs : List Account) → SelectsFrom xs (balance_default r xs).1
unfolding balance_default
balance_default-SelectsFrom r [] = inl (refl, refl)
balance_default-SelectsFrom r (a ∷ xs) =
    choice-SelectsFrom (a ∷ xs) _ (select-In (get_account_inflight r) r.default_balancer a xs)

abbrev pub first_account : List Account → Selected
first_account [] = refused no_healthy_account
first_account (a ∷ xs) = account a

-- What SelectAccountExcept answers for the group that it looked up.
abbrev pub GroupAnswer : ℕ → String → List String → Router → Option KeyGroup → Selected → Type 0
GroupAnswer now model excluded r none s = s ≡ refused no_group
GroupAnswer now model excluded r (some g) s =
    SelectsFrom (eligible_among now model excluded r g.account_ids) s

in_group :
    (now : ℕ) (gid model : String) (excluded : List String) (r : Router) (o : Option KeyGroup)
    → GroupAnswer now model excluded r o (select_in_group now gid model excluded r o).1
unfolding select_in_group group_candidates
in_group now gid model excluded r none = refl
in_group now gid model excluded r (some g) =
    let asked = candidates now model excluded g.account_ids r in
    subst
      (λ (xs : List Account).
        SelectsFrom xs (balance gid asked.0 asked.1 (lookup gid asked.0.balancers)).1)
      (candidates-eligible now model excluded g.account_ids r).0
      (balance-SelectsFrom gid asked.0 asked.1 (lookup gid asked.0.balancers))

pub select_account_except-GroupAnswer :
    (now : ℕ) (gid model : String) (excluded : List String) (r : Router)
    → GroupAnswer now model excluded r
        (lookup gid r.groups)
        (select_account_except now gid model excluded r).1
unfolding select_account_except
select_account_except-GroupAnswer now gid model excluded r =
    in_group now gid model excluded r (lookup gid r.groups)

-- What it takes to be eligible under an id.
pub record IsEligible (now : ℕ) (model : String) (excluded : List String) (r : Router) (id : String)
    (a : Account) : Type 0 where
  pub known : lookup id r.accounts ≡ some a
  pub enabled : a.status ≡ account_enabled
  pub spared : member id excluded ≡ false
  pub allowed : answer now (lookup id r.breakers) ≡ true
  pub serves : can_serve_model a model ≡ true

eligible-IsEligible :
    (now : ℕ) (model : String) (excluded : List String) (r : Router) (id : String) (a : Account)
    → eligible now model excluded r id ≡ some a
    → IsEligible now model excluded r id a
eligible-IsEligible now model excluded r id a e = elim (Option-cases (lookup id r.accounts)) [
  | inl n ↦ absurd (ground arith)
  | inr (b, k) ↦ ground (arith, eq_iff b.status account_enabled)
]

cons_option-In :
    {A : Type 0} (o : Option A) (xs : List A) {a : A}
    → In a (cons_option o xs)
    → (o ≡ some a) ⊎ In a xs
cons_option-In none xs i = inr i
cons_option-In (some b) xs (inl e) = inl (cc)
cons_option-In (some b) xs (inr i) = inr i

among-In :
    (now : ℕ) (model : String) (excluded : List String) (r : Router) (ids : List String)
    (a : Account)
    → In a (eligible_among now model excluded r ids)
    → (id : String) × In id ids × (eligible now model excluded r id ≡ some a)
among-In now model excluded r [] a i = elim i [ ]
among-In now model excluded r (id ∷ ids) a i =
    elim (cons_option-In (eligible now model excluded r id)
      (eligible_among now model excluded r ids) i) [
        | inl e ↦ (id, inl refl, e)
        | inr j ↦ let (x, k, e) = among-In now model excluded r ids a j in (x, inr k, e)
      ]

pub among-nil :
    (now : ℕ) (model : String) (excluded : List String) (r : Router) (ids : List String)
    (id : String)
    → eligible_among now model excluded r ids ≡ []
    → In id ids
    → eligible now model excluded r id ≡ none
among-nil now model excluded r [] id e i = elim i [ ]
among-nil now model excluded r (x ∷ ids) id e i =
    let (p, q) =
      split (eligible now model excluded r x) (eligible_among now model excluded r ids) e in
    elim i [ inl h ↦ rw h p | inr j ↦ among-nil now model excluded r ids id q j ]
  where
    split :
        (o : Option Account) (xs : List Account) → cons_option o xs ≡ [] → (o ≡ none) × (xs ≡ [])
    split none xs e = (refl, e)
    split (some a) xs e = absurd (cc)

chosen-IsEligible :
    (now : ℕ) (model : String) (excluded : List String) (r : Router) (ids : List String)
    (s : Selected) (a : Account)
    → SelectsFrom (eligible_among now model excluded r ids) s
    → s ≡ account a
    → (id : String) × In id ids × IsEligible now model excluded r id a
chosen-IsEligible now model excluded r ids s a (inl (n, e)) h = absurd (cc)
chosen-IsEligible now model excluded r ids s a (inr (b, e, i)) h =
    let (id, j, k) = among-In now model excluded r ids b i in
    (id, j, eligible-IsEligible now model excluded r id a (k ∙ ground arith))

-- An account selected in a group is one of the group's ids, known, enabled, not excluded, let
-- through by its breaker at the start of the selection, and able to serve the model.
pub select_account_except-IsEligible :
    (now : ℕ) (gid model : String) (excluded : List String) (r : Router) (g : KeyGroup)
    (a : Account)
    → lookup gid r.groups ≡ some g
    → (select_account_except now gid model excluded r).1 ≡ account a
    → (id : String) × In id g.account_ids × IsEligible now model excluded r id a
select_account_except-IsEligible now gid model excluded r g a found h =
    chosen-IsEligible now model excluded r g.account_ids _ a
      (subst
        (λ (o : Option KeyGroup).
          GroupAnswer now model excluded r o (select_account_except now gid model excluded r).1)
        found (select_account_except-GroupAnswer now gid model excluded r))
      h

from_all-SelectsFrom :
    (now : ℕ) (model : String) (excluded : List String) (r : Router)
    → SelectsFrom
        (eligible_among now model excluded r (visited r))
        (select_account_from_all now model excluded r).1
unfolding select_account_from_all all_candidates
from_all-SelectsFrom now model excluded r =
    let asked = candidates now model excluded (visited r) r in
    subst (λ (xs : List Account). SelectsFrom xs (balance_default asked.0 asked.1).1)
      (candidates-eligible now model excluded (visited r) r).0
      (balance_default-SelectsFrom asked.0 asked.1)

-- The same of an account selected from all: it is eligible when the selection begins.
pub select_account_from_all-IsEligible :
    (now : ℕ) (model : String) (excluded : List String) (r : Router) (a : Account)
    → (select_account_from_all now model excluded r).1 ≡ account a
    → (id : String) × IsEligible now model excluded r id a
select_account_from_all-IsEligible now model excluded r a h =
    let (id, i, e) =
      chosen-IsEligible now model excluded r (visited r) _ a
        (from_all-SelectsFrom now model excluded r) h in
    (id, e)

pub refused-among :
    (now : ℕ) (model : String) (excluded : List String) (r : Router) (e : RouterError)
    → (select_account_from_all now model excluded r).1 ≡ refused e
    → eligible_among now model excluded r (visited r) ≡ []
refused-among now model excluded r e h = elim (from_all-SelectsFrom now model excluded r) [
  | inl n ↦ n.0
  | inr c ↦ absurd (cc c.1)
]

balance-priority :
    (gid : String) (r : Router) (xs : List Account)
    → (balance gid r xs (some priority)).1 ≡ first_account xs
unfolding balance select choice
balance-priority gid r [] = refl
balance-priority gid r (a ∷ xs) = refl

in_group-priority :
    (now : ℕ) (gid model : String) (excluded : List String) (r : Router) (g : KeyGroup)
    → lookup gid r.balancers ≡ some priority
    → (select_in_group now gid model excluded r (some g)).1
      ≡ first_account (eligible_among now model excluded r g.account_ids)
unfolding select_in_group group_candidates
in_group-priority now gid model excluded r g bal =
    let asked = candidates now model excluded g.account_ids r in
    let (e, alike) = candidates-eligible now model excluded g.account_ids r in
    ap (λ (o : Option Balancer). (balance gid asked.0 asked.1 o).1)
      (ap (λ (m : Map Balancer). lookup gid m) alike.same_balancers ∙ bal)
    ∙ balance-priority gid asked.0 asked.1
    ∙ ap first_account e

-- A group with the priority strategy answers the first eligible account of its list: an account
-- further down is chosen only if all before it are not eligible. The group's own list of allowed
-- models plays no part.
pub select_account_except-priority :
    (now : ℕ) (gid model : String) (excluded : List String) (r : Router) (g : KeyGroup)
    → lookup gid r.groups ≡ some g
    → lookup gid r.balancers ≡ some priority
    → (select_account_except now gid model excluded r).1
      ≡ first_account (eligible_among now model excluded r g.account_ids)
unfolding select_account_except
select_account_except-priority now gid model excluded r g found bal =
    ap (λ (o : Option KeyGroup). (select_in_group now gid model excluded r o).1) found
    ∙ in_group-priority now gid model excluded r g bal
