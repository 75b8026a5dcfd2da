-- ===== src/Router/Reloads.antt =====
-- What a reload keeps, adds and drops.
use mathlib.Core.Path.{ap₂}
use cc_gateway.Base.{
  ℤ, pos, negsuc, ◌+ℤ◌, ◌≡◌, refl, sym, ap, subst, ◌∙◌, String, List, [], ◌∷◌, Option, none, some,
  str_eq, eq_iff, eq_refl, if◌then◌else◌, Map, lookup, insert, lookup-insert, arith,
}
use cc_gateway.Domain.{Account, KeyGroup}
use cc_gateway.Breaker
use cc_gateway.Breaker.{Breaker}
use cc_gateway.Router.{
  Router, or_new, breaker_config, load_account, load_accounts, load_groups, emptied, reload,
  get_account_inflight, decrement_counter, decrement_inflight,
}
use cc_gateway.Router.Selection.Visited.{IsKeyed}

-- The account that a list gives for an id: the last of those that have it.
abbrev pub or_else {ℓ} : {A : Type ℓ} → Option A → Option A → Option A
or_else none b = b
or_else (some a) b = some a

abbrev pub account_of : String → List Account → Option Account
account_of id [] = none
account_of id (a ∷ accts) = or_else (account_of id accts) (if str_eq a.id id then some a else none)

-- What the router holds for an id whose account the list gives: the old value, or a new one.
abbrev pub kept_or_new : {A : Type 0} → Option Account → Option A → (Account → A) → Option A
kept_or_new none old fresh = none
kept_or_new (some a) old fresh = some (or_new old (fresh a))

module _ (parse : String → Option ℤ) (old : Router) where
  load_accounts-accounts :
      (id : String) (accts : List Account) (r : Router)
      → lookup id (load_accounts parse old accts r).accounts
        ≡ or_else (account_of id accts) (lookup id r.accounts)
  unfolding load_accounts
  load_accounts-accounts id [] r = refl
  load_accounts-accounts id (a ∷ accts) r =
      load_accounts-accounts id accts (load_account parse old a r) ∙ step (account_of id accts)
    where
      step :
          (o : Option Account)
          → or_else o (lookup id (load_account parse old a r).accounts)
            ≡ or_else (or_else o (if str_eq a.id id then some a else none)) (lookup id r.accounts)
      step none = unfold load_account in ground (arith, lookup-insert a.id id a r.accounts)
      step (some b) = refl

  load_accounts-breakers :
      (id : String) (accts : List Account) (r : Router)
      → lookup id (load_accounts parse old accts r).breakers
        ≡ or_else
            (kept_or_new
              (account_of id accts)
              (lookup id old.breakers)
              (λ a. Breaker.new (breaker_config parse a)))
            (lookup id r.breakers)
  unfolding load_accounts
  load_accounts-breakers id [] r = refl
  load_accounts-breakers id (a ∷ accts) r =
      load_accounts-breakers id accts (load_account parse old a r) ∙ step (account_of id accts)
    where
      step :
          (o : Option Account)
          → or_else
              (kept_or_new o (lookup id old.breakers) (λ a. Breaker.new (breaker_config parse a)))
              (lookup id (load_account parse old a r).breakers)
            ≡ or_else
                (kept_or_new
                  (or_else o (if str_eq a.id id then some a else none))
                  (lookup id old.breakers)
                  (λ a. Breaker.new (breaker_config parse a)))
                (lookup id r.breakers)
      step none =
          unfold load_account in
          ground (
            arith,
            eq_iff a.id id,
            lookup-insert a.id id
                (or_new (lookup a.id old.breakers) (Breaker.new (breaker_config parse a)))
                r.breakers,
          )
      step (some b) = refl

  load_accounts-counts :
      (id : String) (accts : List Account) (r : Router)
      → lookup id (load_accounts parse old accts r).inflight_counts
        ≡ or_else
            (kept_or_new (account_of id accts) (lookup id old.inflight_counts) (λ a. pos 0))
            (lookup id r.inflight_counts)
  unfolding load_accounts
  load_accounts-counts id [] r = refl
  load_accounts-counts id (a ∷ accts) r =
      load_accounts-counts id accts (load_account parse old a r) ∙ step (account_of id accts)
    where
      step :
          (o : Option Account)
          → or_else
              (kept_or_new o (lookup id old.inflight_counts) (λ a. pos 0))
              (lookup id (load_account parse old a r).inflight_counts)
            ≡ or_else
                (kept_or_new
                  (or_else o (if str_eq a.id id then some a else none))
                  (lookup id old.inflight_counts)
                  (λ a. pos 0))
                (lookup id r.inflight_counts)
      step none =
          unfold load_account in
          ground (
            arith,
            eq_iff a.id id,
            lookup-insert a.id id (or_new (lookup a.id old.inflight_counts) (pos 0))
                r.inflight_counts,
          )
      step (some b) = refl

-- Loading the groups leaves the rest of the router alone.
abbrev SameAccounts : Router → Router → Type 0
SameAccounts r s =
    (s.accounts ≡ r.accounts) × (s.breakers ≡ r.breakers) × (s.inflight_counts ≡ r.inflight_counts)

load_groups-SameAccounts : (gs : List KeyGroup) (r : Router) → SameAccounts r (load_groups gs r)
unfolding load_groups
load_groups-SameAccounts [] r = (refl, refl, refl)
load_groups-SameAccounts (g ∷ gs) r = load_groups-SameAccounts gs _

or_else-none : {A : Type 0} (o : Option A) → or_else o none ≡ o
or_else-none none = refl
or_else-none (some a) = refl

-- After a reload exactly the ids of the given list are known, each with the last account that has
-- it. An id that was known before keeps its breaker, with its state and its old configuration, and
-- its count of requests in flight; a new id starts with a new breaker and the count 0; the breakers
-- and counts of all other ids are gone.
pub reload-lookup :
    (parse : String → Option ℤ) (accts : List Account) (gs : List KeyGroup) (r : Router)
    (id : String)
    → let s = reload parse accts gs r in
      let given = account_of id accts in
      (lookup id s.accounts ≡ given)
      × (lookup id s.breakers
          ≡ kept_or_new given (lookup id r.breakers) (λ a. Breaker.new (breaker_config parse a)))
      × (lookup id s.inflight_counts ≡ kept_or_new given (lookup id r.inflight_counts) (λ a. pos 0))
unfolding reload
reload-lookup parse accts gs r id =
    let t = load_accounts parse r accts (emptied r) in
    let same = load_groups-SameAccounts gs t in
    (
      ap (lookup id) same.0
          ∙ load_accounts-accounts parse r id accts (emptied r)
          ∙ unfold lookup in or_else-none (account_of id accts),
      ap (lookup id) same.1
          ∙ load_accounts-breakers parse r id accts (emptied r)
          ∙ unfold lookup in or_else-none _,
      ap (lookup id) same.2
          ∙ load_accounts-counts parse r id accts (emptied r)
          ∙ unfold lookup in or_else-none _,
    )

insert-IsKeyed : (a : Account) (m : Map Account) → IsKeyed m → IsKeyed (insert a.id a m)
unfolding insert
insert-IsKeyed a [] w = (refl, unfold lookup in refl, tt)
insert-IsKeyed a ((k, b) ∷ m) w =
    ground (arith, eq_iff k a.id, insert-IsKeyed a m w.2, lookup-insert a.id k a m, eq_iff a.id k)

load_accounts-IsKeyed :
    (parse : String → Option ℤ) (old : Router) (accts : List Account) (r : Router)
    → IsKeyed r.accounts
    → IsKeyed (load_accounts parse old accts r).accounts
unfolding load_accounts
load_accounts-IsKeyed parse old [] r w = w
load_accounts-IsKeyed parse old (a ∷ accts) r w =
    load_accounts-IsKeyed parse old accts (load_account parse old a r)
      (unfold load_account in insert-IsKeyed a r.accounts w)

-- A reload stores every account under its own id, once, also if the list repeats an id.
pub reload-IsKeyed :
    (parse : String → Option ℤ) (accts : List Account) (gs : List KeyGroup) (r : Router)
    → IsKeyed (reload parse accts gs r).accounts
unfolding reload
reload-IsKeyed parse accts gs r =
    subst IsKeyed (sym (load_groups-SameAccounts gs (load_accounts parse r accts (emptied r))).0)
      (load_accounts-IsKeyed parse r accts (emptied r) tt)

count_of :
    (r : Router) (id : String) (n : ℤ)
    → lookup id r.inflight_counts ≡ some n
    → get_account_inflight (decrement_inflight id r) id ≡ n +ℤ negsuc 0
unfolding get_account_inflight decrement_inflight decrement_counter
count_of r id n e =
    ground (arith, lookup-insert id id (n +ℤ negsuc 0) r.inflight_counts, eq_refl id)

-- If an account with requests in flight is removed by one reload and comes back with another, the
-- end of one of its old requests takes its new count below 0.
pub readded_goes_negative :
    (parse : String → Option ℤ) (without back : List Account) (gs : List KeyGroup) (r : Router)
    (id : String) (a : Account)
    → account_of id without ≡ none
    → account_of id back ≡ some a
    → let s = reload parse back gs (reload parse without gs r) in
      (get_account_inflight s id ≡ pos 0)
      × (get_account_inflight (decrement_inflight id s) id ≡ negsuc 0)
unfolding ◌+ℤ◌
readded_goes_negative parse without back gs r id a gone given =
    let mid = reload parse without gs r in
    let s = reload parse back gs mid in
    let dropped : lookup id mid.inflight_counts ≡ none =
      (reload-lookup parse without gs r id).2
      ∙ ap (λ (o : Option Account). kept_or_new o (lookup id r.inflight_counts) (λ a. pos 0))
          gone in
    let fresh : lookup id s.inflight_counts ≡ some (pos 0) =
      (reload-lookup parse back gs mid id).2
      ∙ ap₂ (λ (o : Option Account) (c : Option ℤ). kept_or_new o c (λ a. pos 0)) given dropped in
    (
      unfold get_account_inflight in ap (λ (c : Option ℤ). or_new c (pos 0)) fresh,
      count_of s id (pos 0) fresh,
    )
