-- ===== src/KeyStore/Tests.antt =====
-- A key store with two keys and an account.
use cc_gateway.Base.{
  pos, ◌+ℤ◌, ◌≡◌, refl, String, List, [], ◌∷◌, some, ◌<>◌, lookup, insert, arith, eq_iff, ◌≢◌,
}
use cc_gateway.Domain.{ExternalApiKey, KeyGroup}
use cc_gateway.Balancer.Tests.{small, large}
use cc_gateway.KeyStore.{
  KeyStore, usage_limit, new, authenticate, check_usage_limit, reload_locked, hash_of,
  lookup_key_entry, load_keys, load_semaphores, load_groups, place_key, place_semaphore, hashed,
  write, with_usage,
}
use cc_gateway.KeyStore.Slots.{idle, play, holders, IsCounting, play-IsCounting}
use cc_gateway.KeyStore.Usage.{Use, uses, check_usage_limit-uses}
use cc_gateway.KeyStore.Held.{takes, frees, records, reloads, acts, IsHolding, acts-new-IsHolding}
use cc_gateway.KeyStore.Reloads.{key_of, grant, IsLinked, reload_locked-authenticate, new-IsLinked}

abbrev hash : String → String
hash raw = "h:" <> raw

abbrev api_key : String → ExternalApiKey
api_key id = record {
  id = id;
  key = "sk-" <> id;
  key_hash = "";
  key_hint = "";
  group_id = "team";
  status = "enabled";
  allowed_models = [];
  max_input_tokens = pos 100;
  max_output_tokens = pos 0;
  used_input_tokens = pos 0;
  used_output_tokens = pos 0;
  max_concurrent = pos 1;
}

abbrev team : KeyGroup
team = record {
  id = "team";
  name = "Team";
  account_ids = "small" ∷ [];
  allowed_models = [];
  balancer = "";
}

abbrev keys : List ExternalApiKey
keys = api_key "a" ∷ api_key "b" ∷ []

abbrev store : KeyStore
store = new hash "2025-01" (("a", (pos 60, pos 5)) ∷ []) keys (team ∷ []) (small ∷ large ∷ [])

found_a : lookup_key_entry hash (api_key "a") store ≡ some 0
unfolding new reload_locked load_keys load_semaphores load_groups place_key place_semaphore hashed
    lookup insert lookup_key_entry hash_of
found_a = refl

linked : IsLinked store
linked =
    new-IsLinked hash "2025-01" (("a", (pos 60, pos 5)) ∷ []) keys (team ∷ []) (small ∷ large ∷ [])

play-IsCounting_example :
    let s =
      play
        (0 ∷ 0 ∷ 1 ∷ 1 ∷ 1 ∷ 0 ∷ 0 ∷ [])
        (record { limit = pos 1; inflight = pos 0 })
        (idle ∷ idle ∷ []) in
    IsCounting (pos 1) (holders s.1) s.0
play-IsCounting_example =
    play-IsCounting (pos 1) (0 ∷ 0 ∷ 1 ∷ 1 ∷ 1 ∷ 0 ∷ 0 ∷ [])
      (record { limit = pos 1; inflight = pos 0 }) (idle ∷ idle ∷ [])
      (record { same_limit = refl; counted = refl; within = omega arith; positive = omega arith })

acts-new-IsHolding_example :
    let after =
      acts hash
        (takes (api_key "a")
          ∷ reloads "2025-01" [] keys [] []
          ∷ records "2025-01" (api_key "a") (pos 3) (pos 4)
          ∷ frees 0
          ∷ [])
        store
        [] in
    IsHolding after.0 after.1
acts-new-IsHolding_example =
    acts-new-IsHolding hash "2025-01" (("a", (pos 60, pos 5)) ∷ []) keys (team ∷ [])
      (small ∷ large ∷ [])
      (takes (api_key "a")
        ∷ reloads "2025-01" [] keys [] []
        ∷ records "2025-01" (api_key "a") (pos 3) (pos 4)
        ∷ frees 0
        ∷ [])

new_month : "2025-02" ≢ store.month
unfolding new reload_locked load_keys load_semaphores load_groups place_key place_semaphore hashed
    lookup insert
new_month = ground (arith, eq_iff "2025-02" "2025-01")

abbrev requests : List Use
requests =
    record { key = api_key "a"; input = pos 30; output = pos 9 }
    ∷ record { key = api_key "b"; input = pos 500; output = pos 1 }
    ∷ record { key = api_key "a"; input = pos 10; output = pos 2 }
    ∷ []

check_usage_limit-uses_example :
    (check_usage_limit hash store.month (api_key "a") (uses hash requests store)).1
    ≡ some usage_limit
unfolding new reload_locked load_keys load_semaphores load_groups place_key place_semaphore hashed
    lookup insert write with_usage hash_of ◌+ℤ◌
check_usage_limit-uses_example =
    check_usage_limit-uses hash requests store (api_key "a") 0 linked.separate found_a
      ((omega arith, omega arith), (omega arith, omega arith))
      ((omega arith, omega arith), (omega arith, omega arith))

reload_locked-authenticate_example :
    let after = reload_locked hash "2025-02" [] (api_key "b" ∷ []) (team ∷ []) [] store in
    (authenticate hash "sk-a" after ≡ grant (key_of hash "h:sk-a" (api_key "b" ∷ [])) (team ∷ []))
    × IsLinked after
reload_locked-authenticate_example =
    reload_locked-authenticate hash "2025-02" [] (api_key "b" ∷ []) (team ∷ []) [] store "sk-a"
      linked

abbrev restricted : ExternalApiKey
restricted = record (api_key "a") { allowed_models = "gpt-*" ∷ "gpt-5" ∷ [] }
