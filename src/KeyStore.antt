-- ===== src/KeyStore.antt =====
-- internal/proxy/auth.go: API keys, their concurrency and their monthly usage. The pointers to a
-- key's entry and to an account's semaphore outlive a reload, so entries and semaphores stand in
-- two heaps, and the maps hold addresses. An operation is one step, the loops on CompareAndSwap
-- included; Slots takes those apart. `hash` is hashKey, and `now` the current month. What
-- GetAllUsage of the repository answers is an argument of the reload, empty without a repository
-- or on an error; the write that RecordUsage starts in the background is left out.
pub mod Slots
pub mod Usage
pub mod Held
pub mod Int64
pub mod Reloads
pub mod Models
pub mod Tests
use cc_gateway.Base.{
  ℕ, suc, ℤ, pos, negsuc, ◌+ℤ◌, leb_ℤ, ltb_ℤ, String, Bool, true, false, ◌&&◌, not, ◌==◌, List, [],
  ◌∷◌, Option, none, some, str_eq, if◌then◌else◌, Map, lookup, insert,
}
use cc_gateway.Balancer.{wrap_int64}
use cc_gateway.Domain.{Account, ExternalApiKey, KeyGroup, account_enabled}

pub data KeyError : Type 0 where
  invalid_api_key key_disabled model_not_allowed concurrency_limit usage_limit : KeyError

pub record KeyEntry : Type 0 where
  pub key : ExternalApiKey
  pub inflight : ℤ
  pub used_input : ℤ
  pub used_output : ℤ

pub record Semaphore : Type 0 where
  pub limit : ℤ
  pub inflight : ℤ

-- A cell for each address; the cells from the next address on are not in use.
abbrev pub Heap : Type 0 → Type 0
Heap A = ℕ → A

unfoldable pub write : {A : Type 0} → ℕ → A → Heap A → Heap A
write at a cells i = if i == at then a else cells i

pub record KeyStore : Type 0 where
  pub keys : Map ℕ
  pub groups : Map KeyGroup
  pub account_sems : Map ℕ
  pub month : String
  pub entries : Heap KeyEntry
  pub next_entry : ℕ
  pub semaphores : Heap Semaphore
  pub next_semaphore : ℕ

unfoldable pub has_keys : KeyStore → Bool
has_keys ks = elim ks.keys [ [] ↦ false | k ∷ rest ↦ true ]

pub data Authenticated : Type 0 where
  admitted : ExternalApiKey → KeyGroup → Authenticated
  denied : KeyError → Authenticated

unfoldable pub admit : ExternalApiKey → Option KeyGroup → Authenticated
admit key none = denied invalid_api_key
admit key (some group) = admitted key group

unfoldable pub authenticate_entry : KeyStore → Option ℕ → Authenticated
authenticate_entry ks none = denied invalid_api_key
authenticate_entry ks (some at) =
    let key = (ks.entries at).key in
    if str_eq key.status account_enabled
    then admit key (lookup key.group_id ks.groups)
    else denied key_disabled

unfoldable pub authenticate : (String → String) → String → KeyStore → Authenticated
authenticate hash raw ks = authenticate_entry ks (lookup (hash raw) ks.keys)

unfoldable pub in_models : String → List String → Bool
in_models model [] = false
in_models model (allowed ∷ rest) = if str_eq allowed model then true else in_models model rest

-- `none` is the nil error.
unfoldable pub check_model_allowed : ExternalApiKey → String → Option KeyError
check_model_allowed key model = elim key.allowed_models [
  | [] ↦ none
  | m ∷ ms ↦ if in_models model (m ∷ ms) then none else some model_not_allowed
]

-- The hash that a key is stored under.
unfoldable pub hash_of : (String → String) → ExternalApiKey → String
hash_of hash key = if str_eq key.key_hash "" then hash key.key else key.key_hash

unfoldable pub lookup_key_entry : (String → String) → ExternalApiKey → KeyStore → Option ℕ
lookup_key_entry hash key ks = lookup (hash_of hash key) ks.keys

abbrev pub unused : KeyEntry → KeyEntry
unused e = record e { used_input = pos 0; used_output = pos 0 }

-- The loop of syncMonth over the entries.
unfoldable pub reset_usage : Map ℕ → Heap KeyEntry → Heap KeyEntry
reset_usage [] cells = cells
reset_usage ((k, at) ∷ rest) cells = reset_usage rest (write at (unused (cells at)) cells)

unfoldable pub sync_month : String → KeyStore → KeyStore
sync_month now ks =
    if str_eq now ks.month
    then ks
    else record ks { month = now; entries = reset_usage ks.keys ks.entries }

-- `max > 0 && used >= max`
abbrev pub reached : ℤ → ℤ → Bool
reached max used = ltb_ℤ (pos 0) max && leb_ℤ max used

unfoldable pub usage_error : ExternalApiKey → KeyStore → Option ℕ → Option KeyError
usage_error key ks none = some invalid_api_key
usage_error key ks (some at) =
    if reached key.max_input_tokens (ks.entries at).used_input
    then some usage_limit
    else if reached key.max_output_tokens (ks.entries at).used_output
    then some usage_limit
    else none

unfoldable pub check_usage_limit :
    (String → String) → String → ExternalApiKey → KeyStore → KeyStore × Option KeyError
check_usage_limit hash now key ks =
    let synced = sync_month now ks in
    (synced, usage_error key synced (lookup_key_entry hash key synced))

-- What is given to the caller: a function that does nothing, one that gives back the slot of a
-- cell, or the error.
pub data Acquired : Type 0 where
  unlimited : Acquired
  slot : ℕ → Acquired
  rejected : KeyError → Acquired

abbrev pub add_inflight : ℕ → ℤ → KeyStore → KeyStore
add_inflight at n ks = record ks {
  entries =
      write at (record (ks.entries at) { inflight = (ks.entries at).inflight +ℤ n }) ks.entries;
}

unfoldable pub acquire_entry : ℤ → KeyStore → Option ℕ → KeyStore × Acquired
acquire_entry limit ks none = (ks, rejected invalid_api_key)
acquire_entry limit ks (some at) =
    if leb_ℤ limit (ks.entries at).inflight
    then (ks, rejected concurrency_limit)
    else (add_inflight at (pos 1) ks, slot at)

unfoldable pub acquire_key_concurrency :
    (String → String) → ExternalApiKey → KeyStore → KeyStore × Acquired
acquire_key_concurrency hash key ks =
    if leb_ℤ key.max_concurrent (pos 0)
    then (ks, unlimited)
    else acquire_entry key.max_concurrent ks (lookup_key_entry hash key ks)

unfoldable pub release_key : Acquired → KeyStore → KeyStore
release_key (slot at) ks = add_inflight at (negsuc 0) ks
release_key unlimited ks = ks
release_key (rejected e) ks = ks

abbrev pub add_semaphore : ℕ → ℤ → KeyStore → KeyStore
add_semaphore at n ks = record ks {
  semaphores =
      write at (record (ks.semaphores at) { inflight = (ks.semaphores at).inflight +ℤ n })
        ks.semaphores;
}

-- Acquire of the semaphore, whose limit is positive, and what is made of its answer.
unfoldable pub acquire_semaphore : KeyStore → Option ℕ → KeyStore × Acquired
acquire_semaphore ks none = (ks, unlimited)
acquire_semaphore ks (some at) =
    if leb_ℤ (ks.semaphores at).limit (pos 0)
    then (ks, unlimited)
    else if leb_ℤ (ks.semaphores at).limit (ks.semaphores at).inflight
    then (ks, rejected concurrency_limit)
    else (add_semaphore at (pos 1) ks, slot at)

unfoldable pub acquire_account_concurrency : String → KeyStore → KeyStore × Acquired
acquire_account_concurrency id ks = acquire_semaphore ks (lookup id ks.account_sems)

unfoldable pub release_account : Acquired → KeyStore → KeyStore
release_account (slot at) ks = add_semaphore at (negsuc 0) ks
release_account unlimited ks = ks
release_account (rejected e) ks = ks

-- Add on the two counts, which are int64 and wrap.
abbrev pub used_more : ℤ → ℤ → KeyEntry → KeyEntry
used_more input output e = record e {
  used_input = wrap_int64 (e.used_input +ℤ input);
  used_output = wrap_int64 (e.used_output +ℤ output);
}

unfoldable pub record_entry : ℤ → ℤ → KeyStore → Option ℕ → KeyStore
record_entry input output ks none = ks
record_entry input output ks (some at) = record ks {
  entries = write at (used_more input output (ks.entries at)) ks.entries;
}

unfoldable pub record_usage :
    (String → String) → String → ExternalApiKey → ℤ → ℤ → KeyStore → KeyStore
record_usage hash now key input output ks =
    let synced = sync_month now ks in
    record_entry input output synced (lookup_key_entry hash key synced)

-- The loop over the groups.
unfoldable pub load_groups : List KeyGroup → Map KeyGroup → Map KeyGroup
load_groups [] groups = groups
load_groups (g ∷ gs) groups = load_groups gs (insert g.id g groups)

-- The copy of a key, with its hash filled in.
unfoldable pub hashed : (String → String) → ExternalApiKey → ExternalApiKey
hashed hash key =
    if str_eq key.key_hash "" && not (str_eq key.key "")
    then record key { key_hash = hash key.key }
    else key

-- The entry of a key with the usage that the repository has stored.
unfoldable pub with_usage : ExternalApiKey → Option (ℤ × ℤ) → KeyEntry → KeyEntry
with_usage key none e = record e { key = key; used_input = pos 0; used_output = pos 0 }
with_usage key (some usage) e = record e { key = key; used_input = usage.0; used_output = usage.1 }

unfoldable pub place_key : ExternalApiKey → Option (ℤ × ℤ) → Option ℕ → KeyStore → KeyStore
place_key key usage (some at) ks = record ks {
  keys = insert key.key_hash at ks.keys;
  entries = write at (with_usage key usage (ks.entries at)) ks.entries;
}
place_key key usage none ks = record ks {
  keys = insert key.key_hash ks.next_entry ks.keys;
  entries =
      write ks.next_entry
        (with_usage key usage
          (record { key = key; inflight = pos 0; used_input = pos 0; used_output = pos 0 }))
        ks.entries;
  next_entry = suc ks.next_entry;
}

-- The loop over the keys; `existing` is the map before the reload.
unfoldable pub load_keys :
    (String → String) → Map (ℤ × ℤ) → Map ℕ → List ExternalApiKey → KeyStore → KeyStore
load_keys hash usage existing [] ks = ks
load_keys hash usage existing (k ∷ rest) ks =
    let key = hashed hash k in
    load_keys hash usage existing rest
      (place_key key (lookup key.id usage) (lookup key.key_hash existing) ks)

unfoldable pub place_semaphore : Account → Option ℕ → KeyStore → KeyStore
place_semaphore a (some at) ks = record ks {
  account_sems = insert a.id at ks.account_sems;
  semaphores = write at (record (ks.semaphores at) { limit = a.max_concurrent }) ks.semaphores;
}
place_semaphore a none ks = record ks {
  account_sems = insert a.id ks.next_semaphore ks.account_sems;
  semaphores =
      write ks.next_semaphore (record { limit = a.max_concurrent; inflight = pos 0 }) ks.semaphores;
  next_semaphore = suc ks.next_semaphore;
}

unfoldable pub load_semaphores : Map ℕ → List Account → KeyStore → KeyStore
load_semaphores existing [] ks = ks
load_semaphores existing (a ∷ rest) ks =
    load_semaphores existing rest (place_semaphore a (lookup a.id existing) ks)

unfoldable pub reload_locked :
    (String → String)
    → String
    → Map (ℤ × ℤ)
    → List ExternalApiKey
    → List KeyGroup
    → List Account
    → KeyStore
    → KeyStore
reload_locked hash now usage keys groups accounts ks = load_semaphores ks.account_sems accounts (
    load_keys hash usage ks.keys keys
      (record ks { keys = []; groups = load_groups groups []; account_sems = []; month = now }))

-- What stands in a cell that is not in use.
abbrev blank : KeyEntry
blank = record {
  key = record {
    id = "";
    key = "";
    key_hash = "";
    key_hint = "";
    group_id = "";
    status = "";
    allowed_models = [];
    max_input_tokens = pos 0;
    max_output_tokens = pos 0;
    used_input_tokens = pos 0;
    used_output_tokens = pos 0;
    max_concurrent = pos 0;
  };
  inflight = pos 0;
  used_input = pos 0;
  used_output = pos 0;
}

-- NewKeyStoreFromData
unfoldable pub new :
    (String → String)
    → String
    → Map (ℤ × ℤ)
    → List ExternalApiKey
    → List KeyGroup
    → List Account
    → KeyStore
new hash now usage keys groups accounts =
    reload_locked hash now usage keys groups accounts (record {
      keys = [];
      groups = [];
      account_sems = [];
      month = now;
      entries = λ at. blank;
      next_entry = 0;
      semaphores = λ at. record { limit = pos 0; inflight = pos 0 };
      next_semaphore = 0;
    })
