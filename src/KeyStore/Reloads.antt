-- ===== src/KeyStore/Reloads.antt =====
-- What a reload of the keys keeps, and whom it lets in.
use mathlib.Core.Path.{ap₂}
use cc_gateway.Base.{
  ℕ, ◌<◌, ◌≤◌, ℤ, ◌≡◌, ◌≢◌, ◌⊎◌, refl, sym, ap, ◌∙◌, subst, String, Bool, true, false, List, [],
  ◌∷◌, Option, none, some, str_eq, eq_iff, if◌then◌else◌, Map, lookup, insert, lookup-insert, arith,
  Bool-cases, inl, inr,
}
use cc_gateway.Domain.{Account, ExternalApiKey, KeyGroup, account_enabled}
use cc_gateway.KeyStore.{
  invalid_api_key, key_disabled, Authenticated, denied, admit, authenticate, authenticate_entry,
  KeyEntry, KeyStore, Heap, write, with_usage, place_key, load_keys, hashed, load_groups,
  place_semaphore, load_semaphores, reload_locked, new,
}
use cc_gateway.KeyStore.Usage.{IsSeparate}

abbrev pub or_else {ℓ} : {A : Type ℓ} → Option A → Option A → Option A
or_else none b = b
or_else (some a) b = some a

-- The last key of a list that is stored under a hash.
abbrev pub key_of : (String → String) → String → List ExternalApiKey → Option ExternalApiKey
key_of hash h [] = none
key_of hash h (k ∷ keys) =
    or_else (key_of hash h keys)
      (if str_eq (hashed hash k).key_hash h then some (hashed hash k) else none)

abbrev pub group_of : String → List KeyGroup → Option KeyGroup
group_of id [] = none
group_of id (g ∷ gs) = or_else (group_of id gs) (if str_eq g.id id then some g else none)

-- Each address is in use and belongs to one hash.
pub record IsLinked (ks : KeyStore) : Type 0 where
  pub below : (k : String) (at : ℕ) → lookup k ks.keys ≡ some at → at < ks.next_entry
  pub separate : IsSeparate ks.keys

-- In the middle of a reload: an address comes from the old map, under the same hash, or is new.
record IsLoading (existing : Map ℕ) (first : ℕ) (ks : KeyStore) : Type 0 where
  pub linked : IsLinked ks
  pub started : first ≤ ks.next_entry
  pub origin :
      (k : String) (at : ℕ)
      → lookup k ks.keys ≡ some at
      → (lookup k existing ≡ some at) ⊎ (first ≤ at)

module _ (existing : Map ℕ) (first : ℕ)
    (old_below : (k : String) (at : ℕ) → lookup k existing ≡ some at → at < first)
    (old_separate : IsSeparate existing) where
  fresh_elsewhere :
      (h : String) (i : ℕ) (ks : KeyStore) (k : String) (at : ℕ)
      → IsLoading existing first ks
      → lookup h existing ≡ some i
      → lookup k ks.keys ≡ some at
      → at ≡ i
      → k ≡ h
  fresh_elsewhere h i ks k at l e f q = elim (l.origin k at f) [
    | inl o ↦ old_separate k h at o (e ∙ ap some (sym q))
    | inr o ↦ absurd (omega (arith, old_below h i e, o, q))
  ]

  place_key-IsLoading :
      (key : ExternalApiKey) (u : Option (ℤ × ℤ)) (o : Option ℕ) (ks : KeyStore)
      → lookup key.key_hash existing ≡ o
      → IsLoading existing first ks
      → IsLoading existing first (place_key key u o ks)
  unfolding place_key
  place_key-IsLoading key u (some i) ks e l = record {
    linked = record {
      below = λ k at f. ground (
        arith,
        lookup-insert key.key_hash k i ks.keys,
        l.linked.below k at,
        old_below key.key_hash i e,
        l.started,
      );
      separate = λ j k at f g. ground (
        arith,
        lookup-insert key.key_hash j i ks.keys,
        lookup-insert key.key_hash k i ks.keys,
        l.linked.separate j k at,
        fresh_elsewhere key.key_hash i ks j at l e,
        fresh_elsewhere key.key_hash i ks k at l e,
        eq_iff key.key_hash j,
        eq_iff key.key_hash k,
      );
    };
    started = l.started;
    origin = λ k at f. elim (Bool-cases (str_eq key.key_hash k)) [
      | inl q ↦ inl (ground (arith, eq_iff key.key_hash k, lookup-insert key.key_hash k i ks.keys))
      | inr q ↦ l.origin k at (ground (arith, lookup-insert key.key_hash k i ks.keys))
    ];
  }
  place_key-IsLoading key u none ks e l = record {
    linked = record {
      below = λ k at f.
          ground (arith, lookup-insert key.key_hash k ks.next_entry ks.keys, l.linked.below k at);
      separate = λ j k at f g. ground (
        arith,
        lookup-insert key.key_hash j ks.next_entry ks.keys,
        lookup-insert key.key_hash k ks.next_entry ks.keys,
        l.linked.separate j k at,
        l.linked.below j at,
        l.linked.below k at,
        eq_iff key.key_hash j,
        eq_iff key.key_hash k,
      );
    };
    started = omega (arith, l.started);
    origin = λ k at f. elim (Bool-cases (str_eq key.key_hash k)) [
      | inl q ↦ inr (ground (arith, l.started, lookup-insert key.key_hash k ks.next_entry ks.keys))
      | inr q ↦ l.origin k at (ground (arith, lookup-insert key.key_hash k ks.next_entry ks.keys))
    ];
  }

-- The key that is stored under a hash.
abbrev key_in : Heap KeyEntry → Option ℕ → Option ExternalApiKey
key_in cells none = none
key_in cells (some at) = some (cells at).key

with_usage-key :
    (key : ExternalApiKey) (u : Option (ℤ × ℤ)) (e : KeyEntry) → (with_usage key u e).key ≡ key
unfolding with_usage
with_usage-key key none e = refl
with_usage-key key (some u) e = refl

place_key-groups :
    (key : ExternalApiKey) (u : Option (ℤ × ℤ)) (o : Option ℕ) (ks : KeyStore)
    → (place_key key u o ks).groups ≡ ks.groups
unfolding place_key
place_key-groups key u none ks = refl
place_key-groups key u (some i) ks = refl

-- Writing the entry of one hash leaves the keys under other hashes.
written_apart :
    (cells : Heap KeyEntry) (i : ℕ) (e : KeyEntry) (o : Option ℕ)
    → ((at : ℕ) → o ≡ some at → at ≢ i)
    → key_in (write i e cells) o ≡ key_in cells o
unfolding write
written_apart cells i e none n = refl
written_apart cells i e (some at) n = ground (arith, n at refl)

written_here :
    (cells : Heap KeyEntry) (i : ℕ) (e : KeyEntry) → key_in (write i e cells) (some i) ≡ some e.key
unfolding write
written_here cells i e = ground arith

module _ (existing : Map ℕ) (first : ℕ)
    (old_below : (k : String) (at : ℕ) → lookup k existing ≡ some at → at < first)
    (old_separate : IsSeparate existing) where
  place_at-key_in :
      (key : ExternalApiKey) (e : KeyEntry) (ks : KeyStore) (i : ℕ) (j : String)
      → e.key ≡ key
      → ((at : ℕ) → str_eq key.key_hash j ≡ false → lookup j ks.keys ≡ some at → at ≢ i)
      → key_in (write i e ks.entries) (lookup j (insert key.key_hash i ks.keys))
        ≡ (if str_eq key.key_hash j then some key else key_in ks.entries (lookup j ks.keys))
  place_at-key_in key e ks i j q apart = elim (Bool-cases (str_eq key.key_hash j)) [
    | inl b ↦ rw b (
        ap (key_in (write i e ks.entries)) {y = some i}
          (lookup-insert key.key_hash j i ks.keys ∙ rw b refl)
        ∙ written_here ks.entries i e
        ∙ ap some q)
    | inr b ↦ rw b (
        ap (key_in (write i e ks.entries)) {y = lookup j ks.keys}
          (lookup-insert key.key_hash j i ks.keys ∙ rw b refl)
        ∙ written_apart ks.entries i e (lookup j ks.keys) (λ at f. apart at b f))
  ]

  place_key-key_in :
      (key : ExternalApiKey) (u : Option (ℤ × ℤ)) (o : Option ℕ) (ks : KeyStore) (j : String)
      → lookup key.key_hash existing ≡ o
      → IsLoading existing first ks
      → key_in (place_key key u o ks).entries (lookup j (place_key key u o ks).keys)
        ≡ (if str_eq key.key_hash j then some key else key_in ks.entries (lookup j ks.keys))
  unfolding place_key
  place_key-key_in key u (some i) ks j e l =
      place_at-key_in key (with_usage key u (ks.entries i)) ks i j (with_usage-key key u _)
        (λ at b f q. absurd (
          ground (
            arith,
            eq_iff key.key_hash j,
            fresh_elsewhere existing first old_below old_separate key.key_hash i ks j at l e f q,
          )))
  place_key-key_in key u none ks j e l =
      place_at-key_in key (with_usage key u _) ks ks.next_entry j (with_usage-key key u _)
        (λ at b f q. absurd (omega (arith, l.linked.below j at f, q)))

  load_keys-key_in :
      (hash : String → String) (usage : Map (ℤ × ℤ)) (keys : List ExternalApiKey) (ks : KeyStore)
      (h : String)
      → IsLoading existing first ks
      → let after = load_keys hash usage existing keys ks in
        (key_in after.entries (lookup h after.keys)
          ≡ or_else (key_of hash h keys) (key_in ks.entries (lookup h ks.keys)))
        × IsLinked after
        × (after.groups ≡ ks.groups)
  unfolding load_keys
  load_keys-key_in hash usage [] ks h l = (refl, l.linked, refl)
  load_keys-key_in hash usage (k ∷ keys) ks h l =
      let key = hashed hash k in
      let o = lookup key.key_hash existing in
      let placed = place_key key (lookup key.id usage) o ks in
      let later = load_keys-key_in hash usage keys placed h (
        place_key-IsLoading existing first old_below old_separate key (lookup key.id usage) o ks
          refl l) in
      (
        later.0
            ∙ ap (or_else (key_of hash h keys))
                (place_key-key_in key (lookup key.id usage) o ks h refl l)
            ∙ or_else-if (key_of hash h keys) (str_eq key.key_hash h) key
                (key_in ks.entries (lookup h ks.keys)),
        later.1,
        later.2 ∙ place_key-groups key (lookup key.id usage) o ks,
      )
    where
      or_else-if :
          {A : Type 0} (a : Option A) (b : Bool) (x : A) (c : Option A)
          → or_else a (if b then some x else c) ≡ or_else (or_else a (if b then some x else none)) c
      or_else-if none true x c = refl
      or_else-if none false x c = refl
      or_else-if (some y) b x c = refl

-- The semaphores are loaded without the keys.
record SameKeys (ks after : KeyStore) : Type 0 where
  pub keys_stay : after.keys ≡ ks.keys
  pub groups_stay : after.groups ≡ ks.groups
  pub entries_stay : after.entries ≡ ks.entries
  pub next_stays : after.next_entry ≡ ks.next_entry

place_semaphore-SameKeys :
    (a : Account) (o : Option ℕ) (ks : KeyStore) → SameKeys ks (place_semaphore a o ks)
unfolding place_semaphore
place_semaphore-SameKeys a none ks = record {
  keys_stay = refl;
  groups_stay = refl;
  entries_stay = refl;
  next_stays = refl;
}
place_semaphore-SameKeys a (some at) ks = record {
  keys_stay = refl;
  groups_stay = refl;
  entries_stay = refl;
  next_stays = refl;
}

load_semaphores-SameKeys :
    (existing : Map ℕ) (accounts : List Account) (ks : KeyStore)
    → SameKeys ks (load_semaphores existing accounts ks)
unfolding load_semaphores
load_semaphores-SameKeys existing [] ks = record {
  keys_stay = refl;
  groups_stay = refl;
  entries_stay = refl;
  next_stays = refl;
}
load_semaphores-SameKeys existing (a ∷ rest) ks =
    let placed = place_semaphore a (lookup a.id existing) ks in
    let one = place_semaphore-SameKeys a (lookup a.id existing) ks in
    let later = load_semaphores-SameKeys existing rest placed in
    record {
      keys_stay = later.keys_stay ∙ one.keys_stay;
      groups_stay = later.groups_stay ∙ one.groups_stay;
      entries_stay = later.entries_stay ∙ one.entries_stay;
      next_stays = later.next_stays ∙ one.next_stays;
    }

load_groups-lookup :
    (id : String) (gs : List KeyGroup) (groups : Map KeyGroup)
    → lookup id (load_groups gs groups) ≡ or_else (group_of id gs) (lookup id groups)
unfolding load_groups
load_groups-lookup id [] groups = refl
load_groups-lookup id (g ∷ gs) groups =
    load_groups-lookup id gs (insert g.id g groups) ∙ step (group_of id gs)
  where
    step :
        (o : Option KeyGroup)
        → or_else o (lookup id (insert g.id g groups))
          ≡ or_else (or_else o (if str_eq g.id id then some g else none)) (lookup id groups)
    step none = ground (arith, lookup-insert g.id id g groups)
    step (some b) = refl

-- Whom a key store lets in that holds the given keys and groups.
abbrev pub grant : Option ExternalApiKey → List KeyGroup → Authenticated
grant none groups = denied invalid_api_key
grant (some key) groups =
    if str_eq key.status account_enabled
    then admit key (group_of key.group_id groups)
    else denied key_disabled

authenticate_entry-grant :
    (ks : KeyStore) (o : Option ℕ) (k : Option ExternalApiKey) (groups : List KeyGroup)
    → key_in ks.entries o ≡ k
    → ((id : String) → lookup id ks.groups ≡ group_of id groups)
    → authenticate_entry ks o ≡ grant k groups
unfolding authenticate_entry
authenticate_entry-grant ks none none groups e g = refl
authenticate_entry-grant ks none (some k) groups e g = absurd (cc)
authenticate_entry-grant ks (some at) none groups e g = absurd (cc)
authenticate_entry-grant ks (some at) (some k) groups e g =
    ap
      (λ (x : ExternalApiKey).
        if str_eq x.status account_enabled
        then admit x (lookup x.group_id ks.groups)
        else denied key_disabled)
      (some_injective e)
    ∙ ap
        (λ (x : Option KeyGroup).
          if str_eq k.status account_enabled then admit k x else denied key_disabled)
        (g k.group_id)
  where
    some_injective : {A : Type 0} {a b : A} → some a ≡ some b → a ≡ b
    some_injective q = cc

or_else-none : {A : Type 0} (o : Option A) → or_else o none ≡ o
or_else-none none = refl
or_else-none (some a) = refl

emptied : String → List KeyGroup → KeyStore → KeyStore
emptied now groups ks = record ks {
  keys = [];
  groups = load_groups groups [];
  account_sems = [];
  month = now;
}

emptied-IsLoading :
    (now : String) (groups : List KeyGroup) (ks : KeyStore)
    → IsLoading ks.keys ks.next_entry (emptied now groups ks)
unfolding emptied lookup
emptied-IsLoading now groups ks = record {
  linked = record { below = λ k at f. absurd (cc); separate = λ j k at f g. absurd (cc) };
  started = omega arith;
  origin = λ k at f. absurd (cc);
}

SameKeys-IsLinked : (ks after : KeyStore) → SameKeys ks after → IsLinked ks → IsLinked after
SameKeys-IsLinked ks after s l =
    let here : (k : String) → lookup k after.keys ≡ lookup k ks.keys =
      λ k. ap (λ (m : Map ℕ). lookup k m) s.keys_stay in
    record {
      below =
          λ k at f. subst (λ (n : ℕ). at < n) (sym s.next_stays) (l.below k at (sym (here k) ∙ f));
      separate = λ j k at f g. l.separate j k at (sym (here j) ∙ f) (sym (here k) ∙ g);
    }

-- After a reload a raw key is judged by the last key of the given list that is stored under its
-- hash, and by the given groups: no entry is mixed up with that of another hash, whether it was
-- there before or is new. And the key store stays linked.
pub reload_locked-authenticate :
    (hash : String → String) (now : String) (usage : Map (ℤ × ℤ)) (keys : List ExternalApiKey)
    (groups : List KeyGroup) (accounts : List Account) (ks : KeyStore) (raw : String)
    → IsLinked ks
    → let after = reload_locked hash now usage keys groups accounts ks in
      (authenticate hash raw after ≡ grant (key_of hash (hash raw) keys) groups) × IsLinked after
unfolding reload_locked authenticate emptied lookup
reload_locked-authenticate hash now usage keys groups accounts ks raw l =
    let loaded = load_keys hash usage ks.keys keys (emptied now groups ks) in
    let after = load_semaphores ks.account_sems accounts loaded in
    let stays = load_semaphores-SameKeys ks.account_sems accounts loaded in
    let (found, linked, same) =
      load_keys-key_in ks.keys ks.next_entry l.below l.separate hash usage keys
        (emptied now groups ks) (hash raw) (emptied-IsLoading now groups ks) in
    (
      authenticate_entry-grant after (lookup (hash raw) after.keys) (key_of hash (hash raw) keys)
          groups
          (ap₂ key_in stays.entries_stay (ap (lookup (hash raw)) stays.keys_stay)
            ∙ found
            ∙ or_else-none (key_of hash (hash raw) keys))
          (λ id.
            ap (lookup id) (stays.groups_stay ∙ same)
            ∙ load_groups-lookup id groups []
            ∙ or_else-none (group_of id groups)),
      SameKeys-IsLinked loaded after stays linked,
    )

nothing : (k : String) (at : ℕ) → lookup {V = ℕ} k [] ≡ some at → ⊥
unfolding lookup
nothing k at e = cc

pub new-IsLinked :
    (hash : String → String) (now : String) (usage : Map (ℤ × ℤ)) (keys : List ExternalApiKey)
    (groups : List KeyGroup) (accounts : List Account)
    → IsLinked (new hash now usage keys groups accounts)
unfolding new
new-IsLinked hash now usage keys groups accounts =
    (reload_locked-authenticate hash now usage keys groups accounts _ "" (record {
      below = λ k at e. absurd (nothing k at e);
      separate = λ j k at e f. absurd (nothing j at e);
    })).1
