-- ===== src/Router/Tests.antt =====
-- A router with one group of two accounts, and a third account in no group.
use cc_gateway.Base.{
  ℤ, pos, negsuc, ◌+ℤ◌, ◌≡◌, refl, String, List, [], ◌∷◌, Option, none, some, str_eq, if◌then◌else◌,
  lookup, insert, In,
}
use cc_gateway.Domain.{Account, KeyGroup}
use cc_gateway.Domain.Models.{can_serve_model, match_alias, first_glob}
use cc_gateway.Balancer.{priority, select, select_round_robin}
use cc_gateway.Balancer.Tests.{small, large, spare}
use cc_gateway.Breaker
use cc_gateway.Router.{
  Router, account, refused, no_healthy_account, member, visited, candidates, select_account_except,
  select_account_from_all, get_account_inflight, decrement_inflight, breaker_config, reload, new,
  load_accounts, load_account, load_groups, create_balancer, account_candidate, check_account,
  ask_breaker, all_candidates, unseen, group_ids, ungrouped, balance_default, select_in_group,
  group_candidates, balance, choice,
}
use cc_gateway.Router.Candidates.{Alike, eligible, eligible_among, candidates-eligible}
use cc_gateway.Router.Selection.{
  IsEligible, first_account, select_account_except-IsEligible, select_account_except-priority,
}
use cc_gateway.Router.Selection.Visited.{IsKeyed, select_account_from_all_complete}
use cc_gateway.Router.Counters.{begins, ends, moves, moves-conserve}
use cc_gateway.Router.Reloads.{kept_or_new, reload-lookup, reload-IsKeyed, readded_goes_negative}

abbrev parse : String → Option ℤ
parse s = if str_eq s "30s" then some (pos 30000000000) else none

abbrev pair : KeyGroup
pair = record {
  id = "pair";
  name = "Pair";
  account_ids = "small" ∷ "large" ∷ [];
  allowed_models = [];
  balancer = "priority";
}

abbrev all : List Account
all = small ∷ large ∷ spare ∷ []

abbrev router : Router
router = new parse all (pair ∷ [])

found_pair : lookup "pair" router.groups ≡ some pair
unfolding new reload load_groups lookup insert load_accounts load_account
found_pair = refl

has_priority : lookup "pair" router.balancers ≡ some priority
unfolding new reload load_groups lookup insert load_accounts load_account create_balancer
has_priority = refl

chosen_large : (select_account_except 5 "pair" "gpt-5" ("small" ∷ []) router).1 ≡ account large
unfolding select_account_except select_in_group lookup new reload load_groups insert load_accounts
    load_account balance group_candidates candidates account_candidate member check_account
    ask_breaker Breaker.allow Breaker.new Breaker.or_default select choice can_serve_model
    match_alias first_glob create_balancer
chosen_large = refl

chosen_spare : (select_account_from_all 5 "gpt-5" ("small" ∷ "large" ∷ []) router).1 ≡ account spare
unfolding select_account_from_all all_candidates visited unseen group_ids ungrouped lookup new
    reload load_groups insert load_accounts load_account balance_default candidates
    account_candidate member check_account ask_breaker Breaker.allow Breaker.new Breaker.or_default
    select select_round_robin choice can_serve_model match_alias first_glob
chosen_spare = refl

refused_all :
    (select_account_from_all 5 "gpt-5" ("spare" ∷ "small" ∷ "large" ∷ []) router).1
    ≡ refused no_healthy_account
unfolding select_account_from_all all_candidates visited unseen group_ids ungrouped lookup new
    reload load_groups insert load_accounts load_account balance_default candidates
    account_candidate member
refused_all = refl

stored : IsKeyed router.accounts
unfolding new
stored = reload-IsKeyed parse all (pair ∷ []) _

candidates-eligible_example :
    ((candidates 5 "gpt-5" [] ("small" ∷ "large" ∷ []) router).1
      ≡ eligible_among 5 "gpt-5" [] router ("small" ∷ "large" ∷ []))
    × Alike 5 router (candidates 5 "gpt-5" [] ("small" ∷ "large" ∷ []) router).0
candidates-eligible_example = candidates-eligible 5 "gpt-5" [] ("small" ∷ "large" ∷ []) router

select_account_except-IsEligible_example :
    (id : String) × In id pair.account_ids × IsEligible 5 "gpt-5" ("small" ∷ []) router id large
select_account_except-IsEligible_example =
    select_account_except-IsEligible 5 "pair" "gpt-5" ("small" ∷ []) router pair large found_pair
      chosen_large

select_account_except-priority_example :
    (select_account_except 5 "pair" "gpt-5" [] router).1
    ≡ first_account (eligible_among 5 "gpt-5" [] router pair.account_ids)
select_account_except-priority_example =
    select_account_except-priority 5 "pair" "gpt-5" [] router pair found_pair has_priority

select_account_from_all_complete_example :
    eligible 5 "gpt-5" ("spare" ∷ "small" ∷ "large" ∷ []) router "spare" ≡ none
select_account_from_all_complete_example =
    select_account_from_all_complete 5 "gpt-5" ("spare" ∷ "small" ∷ "large" ∷ []) router
      no_healthy_account stored refused_all "spare"

counted_small : lookup "small" router.inflight_counts ≡ some (pos 0)
unfolding new reload load_groups lookup insert load_accounts load_account
counted_small = refl

moves-conserve_example :
    get_account_inflight
        (moves router (begins "small" ∷ begins "large" ∷ begins "small" ∷ ends "small" ∷ []))
        "small"
      +ℤ pos 1
    ≡ get_account_inflight router "small" +ℤ pos 2
moves-conserve_example =
    moves-conserve router "small"
      (begins "small" ∷ begins "large" ∷ begins "small" ∷ ends "small" ∷ []) (pos 0) counted_small

reload-lookup_example :
    let s = reload parse (large ∷ []) [] router in
    (lookup "small" s.accounts ≡ none)
    × (lookup "small" s.breakers
        ≡ kept_or_new none
            (lookup "small" router.breakers)
            (λ a. Breaker.new (breaker_config parse a)))
    × (lookup "small" s.inflight_counts
        ≡ kept_or_new none (lookup "small" router.inflight_counts) (λ a. pos 0))
reload-lookup_example = reload-lookup parse (large ∷ []) [] router "small"

readded_goes_negative_example :
    let s = reload parse all (pair ∷ []) (reload parse (large ∷ []) (pair ∷ []) router) in
    (get_account_inflight s "small" ≡ pos 0)
    × (get_account_inflight (decrement_inflight "small" s) "small" ≡ negsuc 0)
readded_goes_negative_example =
    readded_goes_negative parse (large ∷ []) all (pair ∷ []) router "small" small refl refl
