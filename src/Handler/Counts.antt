-- ===== src/Handler/Counts.antt =====
-- The counts of the router and of the key store under the operations that a request uses.
use cc_gateway.Base.{
  ℕ, ℤ, pos, negsuc, ◌+ℤ◌, int_laws, ◌≡◌, refl, ap, ◌∙◌, leb_ℤ, String, Bool, true, false, List, [],
  ◌∷◌, Option, none, some, str_eq, eq_iff, if◌then◌else◌, Map, lookup, insert, lookup-insert, arith,
}
use cc_gateway.Domain.{Account, ExternalApiKey, KeyGroup}
use cc_gateway.Breaker.{Breaker}
use cc_gateway.Balancer.{Balancer}
use cc_gateway.Router.{
  Router, get_account_inflight, increment_inflight, decrement_counter, decrement_inflight,
  update_breaker, on_breaker, balance, balance_default, select_in_group, select_account_except,
  select_account_from_all, group_candidates, all_candidates, visited,
}
use cc_gateway.Router.Candidates.{candidates-eligible}
use cc_gateway.KeyStore.{
  KeyStore, KeyEntry, concurrency_limit, add_inflight, add_semaphore, Heap, write, Acquired,
  unlimited, slot, rejected, unused, reset_usage, sync_month, record_entry, record_usage,
  lookup_key_entry, check_usage_limit, acquire_entry, acquire_key_concurrency, release_key,
  acquire_semaphore, acquire_account_concurrency, release_account,
}
use cc_gateway.Handler.Attempts.{select_account}

-- A selection counts nothing.
balance-counts :
    (id : String) (r : Router) (xs : List Account) (b : Option Balancer)
    → (balance id r xs b).0.inflight_counts ≡ r.inflight_counts
unfolding balance
balance-counts id r [] b = refl
balance-counts id r (a ∷ xs) none = refl
balance-counts id r (a ∷ xs) (some b) = refl

select_in_group-counts :
    (now : ℕ) (gid model : String) (excluded : List String) (r : Router) (g : Option KeyGroup)
    → (select_in_group now gid model excluded r g).0.inflight_counts ≡ r.inflight_counts
unfolding select_in_group group_candidates
select_in_group-counts now gid model excluded r none = refl
select_in_group-counts now gid model excluded r (some g) =
    balance-counts gid _ _ _
    ∙ (candidates-eligible now model excluded g.account_ids r).1.same_counts

balance_default-counts :
    (r : Router) (xs : List Account) → (balance_default r xs).0.inflight_counts ≡ r.inflight_counts
unfolding balance_default
balance_default-counts r [] = refl
balance_default-counts r (a ∷ xs) = refl

pub select_account-counts :
    (now : ℕ) (g : Option KeyGroup) (model : String) (excluded : List String) (r : Router)
    → (select_account now g model excluded r).0.inflight_counts ≡ r.inflight_counts
unfolding select_account select_account_except select_account_from_all all_candidates
select_account-counts now none model excluded r =
    balance_default-counts _ _
    ∙ (candidates-eligible now model excluded (visited r) r).1.same_counts
select_account-counts now (some g) model excluded r =
    select_in_group-counts now g.id model excluded r (lookup g.id r.groups)

pub on_breaker-counts :
    (f : Breaker → Breaker) (id : String) (r : Router)
    → (on_breaker f id r).inflight_counts ≡ r.inflight_counts
unfolding on_breaker update_breaker
on_breaker-counts f id r = choose (lookup id r.breakers)
  where
    choose : (o : Option Breaker) → (update_breaker f id r o).inflight_counts ≡ r.inflight_counts
    choose none = refl
    choose (some cb) = refl

one_more_less : (n : ℤ) → (n +ℤ pos 1) +ℤ negsuc 0 ≡ n
one_more_less n = omega int_laws

-- A request that has begun and ended.
pub decrement-increment :
    (a id : String) (r : Router)
    → get_account_inflight (decrement_inflight a (increment_inflight a r)) id
      ≡ get_account_inflight r id
unfolding get_account_inflight decrement_inflight increment_inflight decrement_counter
decrement-increment a id r =
    ap (λ (o : Option ℤ). get_account_inflight (decrement_counter a (increment_inflight a r) o) id)
      found
    ∙ ground (
      arith,
      eq_iff a id,
      lookup-insert a id ((n +ℤ pos 1) +ℤ negsuc 0) more,
      lookup-insert a id (n +ℤ pos 1) r.inflight_counts,
      one_more_less n,
    )
  where
    n : ℤ
    n = get_account_inflight r a

    more : Map ℤ
    more = insert a (n +ℤ pos 1) r.inflight_counts

    found : lookup a more ≡ some (n +ℤ pos 1)
    found = ground (arith, eq_iff a a, lookup-insert a a (n +ℤ pos 1) r.inflight_counts)

-- The same counts of slots.
pub record SameSlots (ks ks' : KeyStore) : Type 0 where
  pub of_keys : (at : ℕ) → (ks'.entries at).inflight ≡ (ks.entries at).inflight
  pub of_accounts : (at : ℕ) → (ks'.semaphores at).inflight ≡ (ks.semaphores at).inflight

pub SameSlots-refl : (ks : KeyStore) → SameSlots ks ks
SameSlots-refl ks = record { of_keys = λ at. refl; of_accounts = λ at. refl }

reset_usage-inflight :
    (m : Map ℕ) (cells : Heap KeyEntry) (at : ℕ)
    → (reset_usage m cells at).inflight ≡ (cells at).inflight
unfolding reset_usage write
reset_usage-inflight [] cells at = refl
reset_usage-inflight ((k, i) ∷ m) cells at =
    reset_usage-inflight m (write i (unused (cells i)) cells) at ∙ ground arith

pub sync_month-SameSlots : (now : String) (ks : KeyStore) → SameSlots ks (sync_month now ks)
unfolding sync_month
sync_month-SameSlots now ks = choose (str_eq now ks.month)
  where
    choose :
        (b : Bool)
        → SameSlots ks
            (if b then ks else record ks { month = now; entries = reset_usage ks.keys ks.entries })
    choose true = SameSlots-refl ks
    choose false = record {
      of_keys = reset_usage-inflight ks.keys ks.entries;
      of_accounts = λ at. refl;
    }

record_entry-SameSlots :
    (i o : ℤ) (ks : KeyStore) (at : Option ℕ) → SameSlots ks (record_entry i o ks at)
unfolding record_entry write
record_entry-SameSlots i o ks none = SameSlots-refl ks
record_entry-SameSlots i o ks (some at) = record {
  of_keys = λ j. ground arith;
  of_accounts = λ j. refl;
}

pub SameSlots-trans : {ks ls ms : KeyStore} → SameSlots ks ls → SameSlots ls ms → SameSlots ks ms
SameSlots-trans h k = record {
  of_keys = λ at. k.of_keys at ∙ h.of_keys at;
  of_accounts = λ at. k.of_accounts at ∙ h.of_accounts at;
}

pub record_usage-SameSlots :
    (hash : String → String) (now : String) (key : ExternalApiKey) (i o : ℤ) (ks : KeyStore)
    → SameSlots ks (record_usage hash now key i o ks)
unfolding record_usage
record_usage-SameSlots hash now key i o ks =
    SameSlots-trans (sync_month-SameSlots now ks) (
      record_entry-SameSlots i o (sync_month now ks)
        (lookup_key_entry hash key (sync_month now ks)))

pub check_usage_limit-SameSlots :
    (hash : String → String) (now : String) (key : ExternalApiKey) (ks : KeyStore)
    → SameSlots ks (check_usage_limit hash now key ks).0
unfolding check_usage_limit
check_usage_limit-SameSlots hash now key ks = sync_month-SameSlots now ks

acquire_entry-SameSlots :
    (limit : ℤ) (ks ks' : KeyStore) (o : Option ℕ)
    → SameSlots (acquire_entry limit ks o).0 ks'
    → SameSlots ks (release_key (acquire_entry limit ks o).1 ks')
unfolding acquire_entry release_key write
acquire_entry-SameSlots limit ks ks' none s = s
acquire_entry-SameSlots limit ks ks' (some at) s = choose (leb_ℤ limit (ks.entries at).inflight) s
  where
    taken : Bool → KeyStore × Acquired
    taken b = if b then (ks, rejected concurrency_limit) else (add_inflight at (pos 1) ks, slot at)

    choose : (b : Bool) → SameSlots (taken b).0 ks' → SameSlots ks (release_key (taken b).1 ks')
    choose true s' = s'
    choose false s' = record {
      of_keys =
          λ j. ground (arith, s'.of_keys at, s'.of_keys j, one_more_less (ks.entries j).inflight);
      of_accounts = s'.of_accounts;
    }

-- A slot that is taken and given back, whatever keeps the counts in between.
pub acquire_key-SameSlots :
    (hash : String → String) (key : ExternalApiKey) (ks ks' : KeyStore)
    → SameSlots (acquire_key_concurrency hash key ks).0 ks'
    → SameSlots ks (release_key (acquire_key_concurrency hash key ks).1 ks')
unfolding acquire_key_concurrency release_key
acquire_key-SameSlots hash key ks ks' s = choose (leb_ℤ key.max_concurrent (pos 0)) s
  where
    taken : Bool → KeyStore × Acquired
    taken b =
        if b
        then (ks, unlimited)
        else acquire_entry key.max_concurrent ks (lookup_key_entry hash key ks)

    choose : (b : Bool) → SameSlots (taken b).0 ks' → SameSlots ks (release_key (taken b).1 ks')
    choose true s' = s'
    choose false s' =
        acquire_entry-SameSlots key.max_concurrent ks ks' (lookup_key_entry hash key ks) s'

pub acquire_account-SameSlots :
    (id : String) (ks : KeyStore)
    → SameSlots ks (
        release_account (acquire_account_concurrency id ks).1 (acquire_account_concurrency id ks).0)
unfolding acquire_account_concurrency acquire_semaphore release_account write
acquire_account-SameSlots id ks = found (lookup id ks.account_sems)
  where
    taken : ℕ → Bool → Bool → KeyStore × Acquired
    taken at a b =
        if a
        then (ks, unlimited)
        else if b
        then (ks, rejected concurrency_limit)
        else (add_semaphore at (pos 1) ks, slot at)

    choose :
        (at : ℕ) (a b : Bool) → SameSlots ks (release_account (taken at a b).1 (taken at a b).0)
    choose at true b = SameSlots-refl ks
    choose at false true = SameSlots-refl ks
    choose at false false = record {
      of_keys = λ j. refl;
      of_accounts = λ j. ground (arith, one_more_less (ks.semaphores j).inflight);
    }

    found :
        (o : Option ℕ)
        → SameSlots ks (release_account (acquire_semaphore ks o).1 (acquire_semaphore ks o).0)
    found none = SameSlots-refl ks
    found (some at) =
        choose at (leb_ℤ (ks.semaphores at).limit (pos 0))
          (leb_ℤ (ks.semaphores at).limit (ks.semaphores at).inflight)
