-- ===== src/Router.antt =====
-- internal/router/router.go: accounts, groups, breakers, balancers and in-flight counters, and the
-- choice of an account. A method returns the new router. A map is a list whose order stands for an
-- order of iteration. Metrics and logging are left out. Each breaker and counter is held by one map
-- entry only, so the entry holds its value. Counters are integers with no bound.
pub mod Candidates
pub mod Selection
pub mod Counters
pub mod Reloads
pub mod Tests
use cc_gateway.Base.{
  ℕ, ℤ, pos, negsuc, ◌+ℤ◌, String, Bool, true, false, not, ◌&&◌, List, [], ◌∷◌, Option, none, some,
  str_eq, if◌then◌else◌, ◌++◌, Map, lookup, insert,
}
use cc_gateway.Domain.{Account, KeyGroup, account_enabled}
use cc_gateway.Domain.Models.{can_serve_model}
use cc_gateway.Breaker
use cc_gateway.Breaker.{Breaker, State, closed}
use cc_gateway.Balancer.{Balancer, round_robin, weighted, least_connections, priority, select}

pub data RouterError : Type 0 where
  no_healthy_account no_group : RouterError

pub data Selected : Type 0 where
  account : Account → Selected
  refused : RouterError → Selected

pub record Router : Type 0 where
  pub accounts : Map Account
  pub groups : Map KeyGroup
  pub breakers : Map Breaker
  pub balancers : Map Balancer
  pub inflight_counts : Map ℤ
  pub default_balancer : Balancer

-- A Go set of strings.
unfoldable pub member : String → List String → Bool
member k [] = false
member k (x ∷ xs) = if str_eq x k then true else member k xs

-- The last test of accountCandidate.
abbrev pub serve : Account → String → Option Account
serve a model = if can_serve_model a model then some a else none

-- The breaker is asked, and may move to half-open, before the model is looked at.
unfoldable pub ask_breaker :
    ℕ → String → Account → String → Router → Option Breaker → Router × Option Account
ask_breaker now id a model r none = (r, serve a model)
ask_breaker now id a model r (some cb) = (
  record r { breakers = insert id (Breaker.allow now cb).0 r.breakers },
  if (Breaker.allow now cb).1 then serve a model else none,
)

unfoldable pub check_account :
    ℕ → String → String → Router → Option Account → Router × Option Account
check_account now id model r none = (r, none)
check_account now id model r (some a) =
    if str_eq a.status account_enabled
    then ask_breaker now id a model r (lookup id r.breakers)
    else (r, none)

unfoldable pub account_candidate :
    ℕ → String → String → List String → Router → Router × Option Account
account_candidate now id model excluded r =
    if member id excluded then (r, none) else check_account now id model r (lookup id r.accounts)

abbrev pub cons_option {ℓ} : {A : Type ℓ} → Option A → List A → List A
cons_option none xs = xs
cons_option (some a) xs = a ∷ xs

-- The loop over the account ids of a group.
unfoldable pub candidates : ℕ → String → List String → List String → Router → Router × List Account
candidates now model excluded [] r = (r, [])
candidates now model excluded (id ∷ ids) r =
    let now_asked = account_candidate now id model excluded r in
    let later = candidates now model excluded ids now_asked.0 in
    (later.0, cons_option now_asked.1 later.1)

unfoldable pub group_candidates :
    ℕ → KeyGroup → String → List String → Router → Router × List Account
group_candidates now group model excluded r = candidates now model excluded group.account_ids r

-- The ids that the first loop of allCandidates visits, in order: `seen` grows with each.
unfoldable pub unseen : List String → List String → List String
unfolding member
unseen seen [] = []
unseen seen (id ∷ ids) =
    let rest = unseen (id ∷ seen) ids in
    let skip = unseen seen ids in if member id seen then skip else id ∷ rest

unfoldable pub group_ids : Map KeyGroup → List String
group_ids [] = []
group_ids ((k, g) ∷ gs) = g.account_ids ++ group_ids gs

-- The second loop: the accounts that no group names, under the id that the account itself holds.
unfoldable pub ungrouped : List String → Map Account → List String
unfolding member
ungrouped seen [] = []
ungrouped seen ((id, a) ∷ accts) =
    let rest = ungrouped seen accts in if member id seen then rest else a.id ∷ rest

-- The ids whose accounts the two loops of allCandidates try, in order.
unfoldable pub visited : Router → List String
visited r = unseen [] (group_ids r.groups) ++ ungrouped (group_ids r.groups) r.accounts

unfoldable pub all_candidates : ℕ → String → List String → Router → Router × List Account
all_candidates now model excluded r = candidates now model excluded (visited r) r

abbrev pub or_new {ℓ} : {A : Type ℓ} → Option A → A → A
or_new none a = a
or_new (some old) a = old

unfoldable pub get_account_inflight : Router → String → ℤ
get_account_inflight r id = or_new (lookup id r.inflight_counts) (pos 0)

unfoldable pub choice : Option Account → Selected
choice none = refused no_healthy_account
choice (some a) = account a

-- What stands behind the candidates of a group, with its balancer.
unfoldable pub balance : String → Router → List Account → Option Balancer → Router × Selected
balance group_id r [] bal = (r, refused no_healthy_account)
balance group_id r (a ∷ rest) none = (r, account a)
balance group_id r (a ∷ rest) (some bal) =
    let chosen = select (get_account_inflight r) bal (a ∷ rest) in
    (record r { balancers = insert group_id chosen.0 r.balancers }, choice chosen.1)

unfoldable pub select_in_group :
    ℕ → String → String → List String → Router → Option KeyGroup → Router × Selected
select_in_group now group_id model excluded r none = (r, refused no_group)
select_in_group now group_id model excluded r (some group) =
    let asked = group_candidates now group model excluded r in
    balance group_id asked.0 asked.1 (lookup group_id asked.0.balancers)

unfoldable pub select_account_except :
    ℕ → String → String → List String → Router → Router × Selected
select_account_except now group_id model excluded r =
    select_in_group now group_id model excluded r (lookup group_id r.groups)

unfoldable pub balance_default : Router → List Account → Router × Selected
balance_default r [] = (r, refused no_healthy_account)
balance_default r (a ∷ rest) =
    let chosen = select (get_account_inflight r) r.default_balancer (a ∷ rest) in
    (record r { default_balancer = chosen.0 }, choice chosen.1)

unfoldable pub select_account_from_all : ℕ → String → List String → Router → Router × Selected
select_account_from_all now model excluded r =
    let asked = all_candidates now model excluded r in balance_default asked.0 asked.1

-- RecordSuccess, RecordFailure and ResetBreaker call a method of the breaker, if there is one.
unfoldable pub update_breaker : (Breaker → Breaker) → String → Router → Option Breaker → Router
update_breaker f id r none = r
update_breaker f id r (some cb) = record r { breakers = insert id (f cb) r.breakers }

unfoldable pub on_breaker : (Breaker → Breaker) → String → Router → Router
on_breaker f id r = update_breaker f id r (lookup id r.breakers)

unfoldable pub record_success : String → Router → Router
record_success id r = on_breaker Breaker.record_success id r

unfoldable pub record_failure : ℕ → String → Router → Router
record_failure now id r = on_breaker (Breaker.record_failure now) id r

unfoldable pub reset_breaker : String → Router → Router
reset_breaker id r = on_breaker Breaker.reset id r

unfoldable pub get_breaker_state : Router → String → State
get_breaker_state r id = elim (lookup id r.breakers) [ none ↦ closed | some cb ↦ cb.state ]

-- getOrCreateInflightCounter, and `Add(1)` on what it finds.
unfoldable pub increment_inflight : String → Router → Router
increment_inflight id r = record r {
  inflight_counts = insert id (get_account_inflight r id +ℤ pos 1) r.inflight_counts;
}

unfoldable pub decrement_counter : String → Router → Option ℤ → Router
decrement_counter id r none = r
decrement_counter id r (some n) = record r {
  inflight_counts = insert id (n +ℤ negsuc 0) r.inflight_counts;
}

unfoldable pub decrement_inflight : String → Router → Router
decrement_inflight id r = decrement_counter id r (lookup id r.inflight_counts)

unfoldable pub create_balancer : String → Balancer
create_balancer strategy =
    if str_eq strategy "least_connections"
    then least_connections
    else if str_eq strategy "priority"
    then priority
    else if str_eq strategy "weighted"
    then weighted 0
    else round_robin 0

-- The configuration of a new breaker; `parse` is time.ParseDuration, in nanoseconds.
unfoldable pub breaker_config : (String → Option ℤ) → Account → Breaker.Config
breaker_config parse a = record {
  failure_threshold = a.circuit_breaker.failure_threshold;
  success_threshold = a.circuit_breaker.success_threshold;
  open_duration = elim (parse a.circuit_breaker.open_duration) [
    | none ↦ pos 60000000000
    | some d ↦ d
  ];
}

-- One turn of the loop over the accounts; `old` is the router before the reload.
unfoldable pub load_account : (String → Option ℤ) → Router → Account → Router → Router
load_account parse old a r = record r {
  accounts = insert a.id a r.accounts;
  inflight_counts =
      insert a.id (or_new (lookup a.id old.inflight_counts) (pos 0)) r.inflight_counts;
  breakers =
      insert a.id (or_new (lookup a.id old.breakers) (Breaker.new (breaker_config parse a)))
        r.breakers;
}

unfoldable pub load_accounts : (String → Option ℤ) → Router → List Account → Router → Router
load_accounts parse old [] r = r
load_accounts parse old (a ∷ accts) r = load_accounts parse old accts (load_account parse old a r)

unfoldable pub load_groups : List KeyGroup → Router → Router
load_groups [] r = r
load_groups (g ∷ gs) r = load_groups gs (record r {
  groups = insert g.id g r.groups;
  balancers = insert g.id (create_balancer g.balancer) r.balancers;
})

abbrev pub emptied : Router → Router
emptied r = record r {
  accounts = [];
  groups = [];
  breakers = [];
  balancers = [];
  inflight_counts = [];
}

unfoldable pub reload : (String → Option ℤ) → List Account → List KeyGroup → Router → Router
reload parse accts gs r = load_groups gs (load_accounts parse r accts (emptied r))

unfoldable pub new : (String → Option ℤ) → List Account → List KeyGroup → Router
new parse accts gs = reload parse accts gs (record {
  accounts = [];
  groups = [];
  breakers = [];
  balancers = [];
  inflight_counts = [];
  default_balancer = round_robin 0;
})
