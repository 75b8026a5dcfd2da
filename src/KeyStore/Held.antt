-- ===== src/KeyStore/Held.antt =====
-- The slots that requests hold, against the counts of the keys' entries, across reloads.
use cc_gateway.Base.{
  ℕ, zero, suc, ◌<◌, ◌≤◌, ℤ, pos, ◌+ℤ◌, ◌≡◌, refl, sym, ap, ◌∙◌, subst, ◌≢◌, leb_ℤ, String, List,
  [], ◌∷◌, Option, none, some, str_eq, if◌then◌else◌, ◌==◌, Map, lookup, insert, arith, Bool-cases,
  inl, inr,
}
use cc_gateway.Domain.{Account, ExternalApiKey, KeyGroup}
use cc_gateway.KeyStore.{
  hash_of, KeyError, KeyEntry, KeyStore, Heap, Acquired, unlimited, slot, rejected, write, unused,
  reset_usage, sync_month, acquire_entry, acquire_key_concurrency, lookup_key_entry, release_key,
  record_entry, record_usage, with_usage, place_key, load_keys, place_semaphore, load_semaphores,
  reload_locked, hashed, new,
}

-- What happens to a key store and the slots that are held in it: a request takes a slot or is
-- rejected, the holder number n gives its slot back, usage is recorded, or the keys are reloaded.
pub data Act : Type 0 where
  takes : ExternalApiKey → Act
  frees : ℕ → Act
  records : String → ExternalApiKey → ℤ → ℤ → Act
  reloads : String → Map (ℤ × ℤ) → List ExternalApiKey → List KeyGroup → List Account → Act

abbrev pub hold : Acquired → List ℕ → List ℕ
hold unlimited held = held
hold (rejected e) held = held
hold (slot at) held = at ∷ held

abbrev pub give_back : ℕ → List ℕ → Acquired
give_back n [] = unlimited
give_back zero (at ∷ held) = slot at
give_back (suc n) (at ∷ held) = give_back n held

abbrev pub without : ℕ → List ℕ → List ℕ
without n [] = []
without zero (at ∷ held) = held
without (suc n) (at ∷ held) = at ∷ without n held

unfoldable pub act : (String → String) → Act → KeyStore → List ℕ → KeyStore × List ℕ
act hash (takes key) ks held =
    let taken = acquire_key_concurrency hash key ks in (taken.0, hold taken.1 held)
act hash (frees n) ks held = (release_key (give_back n held) ks, without n held)
act hash (records now key input output) ks held = (record_usage hash now key input output ks, held)
act hash (reloads now usage keys groups accounts) ks held =
    (reload_locked hash now usage keys groups accounts ks, held)

unfoldable pub acts : (String → String) → List Act → KeyStore → List ℕ → KeyStore × List ℕ
acts hash [] ks held = (ks, held)
acts hash (a ∷ rest) ks held = let after = act hash a ks held in acts hash rest after.0 after.1

abbrev pub count : ℕ → List ℕ → ℕ
count at [] = 0
count at (i ∷ held) = let n = count at held in if i == at then suc n else n

-- All that a slot or a key refers to is in use.
abbrev pub Below : ℕ → Map ℕ → Type 0
Below n [] = Unit {0}
Below n ((k, at) ∷ m) = (at < n) × Below n m

abbrev pub AllBelow : ℕ → List ℕ → Type 0
AllBelow n [] = Unit {0}
AllBelow n (i ∷ held) = (i < n) × AllBelow n held

-- Each entry counts the slots that are held in it.
pub record IsHolding (ks : KeyStore) (held : List ℕ) : Type 0 where
  pub counted : (at : ℕ) → at < ks.next_entry → (ks.entries at).inflight ≡ pos (count at held)
  pub keys_below : Below ks.next_entry ks.keys
  pub held_below : AllBelow ks.next_entry held

lookup-Below : (n : ℕ) (k : String) (m : Map ℕ) (at : ℕ) → Below n m → lookup k m ≡ some at → at < n
unfolding lookup
lookup-Below n k [] at b e = absurd (cc)
lookup-Below n k ((j, i) ∷ m) at b e = ground (arith, lookup-Below n k m at b.1)

insert-Below :
    (n : ℕ) (k : String) (m : Map ℕ) (at : ℕ) → Below n m → at < n → Below n (insert k at m)
unfolding insert
insert-Below n k [] at b l = (l, tt)
insert-Below n k ((j, i) ∷ m) at b l = ground (arith, insert-Below n k m at b.1 l)

Below-suc : (n : ℕ) (m : Map ℕ) → Below n m → Below (suc n) m
Below-suc n [] b = tt
Below-suc n ((k, i) ∷ m) b = (omega (arith, b.0), Below-suc n m b.1)

AllBelow-suc : (n : ℕ) (held : List ℕ) → AllBelow n held → AllBelow (suc n) held
AllBelow-suc n [] b = tt
AllBelow-suc n (i ∷ held) b = (omega (arith, b.0), AllBelow-suc n held b.1)

count_fresh : (n : ℕ) (held : List ℕ) → AllBelow n held → count n held ≡ 0
count_fresh n [] b = refl
count_fresh n (i ∷ held) b = ground (arith, count_fresh n held b.1, b.0)

reset_usage-inflight :
    (m : Map ℕ) (cells : Heap KeyEntry) (at : ℕ)
    → (reset_usage m cells at).inflight ≡ (cells at).inflight
unfolding reset_usage write
reset_usage-inflight [] cells at = refl
reset_usage-inflight ((k, i) ∷ m) cells at =
    reset_usage-inflight m (write i (unused (cells i)) cells) at ∙ ground arith

sync_month-IsHolding :
    (now : String) (ks : KeyStore) (held : List ℕ)
    → IsHolding ks held
    → IsHolding (sync_month now ks) held
unfolding sync_month
sync_month-IsHolding now ks held h = elim (Bool-cases (str_eq now ks.month)) [
  | inl e ↦ rw e h
  | inr e ↦ rw e (record {
    counted = λ at l. reset_usage-inflight ks.keys ks.entries at ∙ h.counted at l;
    keys_below = h.keys_below;
    held_below = h.held_below;
  })
]

record_entry-IsHolding :
    (i o : ℤ) (ks : KeyStore) (held : List ℕ) (at : Option ℕ)
    → IsHolding ks held
    → IsHolding (record_entry i o ks at) held
unfolding record_entry write
record_entry-IsHolding i o ks held none h = h
record_entry-IsHolding i o ks held (some at) h = record {
  counted = λ j l. ground (arith, h.counted j l);
  keys_below = h.keys_below;
  held_below = h.held_below;
}

acquire_entry-IsHolding :
    (limit : ℤ) (ks : KeyStore) (held : List ℕ) (at : Option ℕ)
    → ((i : ℕ) → at ≡ some i → i < ks.next_entry)
    → IsHolding ks held
    → IsHolding (acquire_entry limit ks at).0 (hold (acquire_entry limit ks at).1 held)
unfolding acquire_entry write ◌+ℤ◌
acquire_entry-IsHolding limit ks held none b h = h
acquire_entry-IsHolding limit ks held (some at) b h =
    elim (Bool-cases (leb_ℤ limit (ks.entries at).inflight)) [
      | inl e ↦ rw e h
      | inr e ↦ rw e (record {
        counted = λ j l. ground (arith, h.counted j l);
        keys_below = h.keys_below;
        held_below = (b at refl, h.held_below);
      })
    ]

acquire_key-IsHolding :
    (hash : String → String) (key : ExternalApiKey) (ks : KeyStore) (held : List ℕ)
    → IsHolding ks held
    → let taken = acquire_key_concurrency hash key ks in IsHolding taken.0 (hold taken.1 held)
unfolding acquire_key_concurrency lookup_key_entry
acquire_key-IsHolding hash key ks held h = elim (Bool-cases (leb_ℤ key.max_concurrent (pos 0))) [
  | inl e ↦ rw e h
  | inr e ↦ rw e (
      acquire_entry-IsHolding key.max_concurrent ks held (lookup_key_entry hash key ks)
        (λ i q. lookup-Below ks.next_entry (hash_of hash key) ks.keys i h.keys_below q) h)
]

give_back-count :
    (n j at : ℕ) (held : List ℕ)
    → give_back n held ≡ slot at
    → count j held ≡ (if at == j then suc (count j (without n held)) else count j (without n held))
give_back-count n j at [] e = absurd (cc)
give_back-count zero j at (i ∷ held) e = ground arith
give_back-count (suc n) j at (i ∷ held) e = ground (arith, give_back-count n j at held e)

without-AllBelow : (n m : ℕ) (held : List ℕ) → AllBelow m held → AllBelow m (without n held)
without-AllBelow n m [] b = tt
without-AllBelow zero m (i ∷ held) b = b.1
without-AllBelow (suc n) m (i ∷ held) b = (b.0, without-AllBelow n m held b.1)

given_back_none : (n : ℕ) (held : List ℕ) → give_back n held ≡ unlimited → without n held ≡ held
given_back_none n [] e = refl
given_back_none zero (i ∷ held) e = absurd (cc)
given_back_none (suc n) (i ∷ held) e = ap (λ (h : List ℕ). i ∷ h) (given_back_none n held e)

never_rejected : (n : ℕ) (held : List ℕ) (e : KeyError) → give_back n held ≢ rejected e
never_rejected n [] e q = cc
never_rejected zero (i ∷ held) e q = cc
never_rejected (suc n) (i ∷ held) e q = never_rejected n held e q

release_key-IsHolding :
    (n : ℕ) (ks : KeyStore) (held : List ℕ) (o : Acquired)
    → give_back n held ≡ o
    → IsHolding ks held
    → IsHolding (release_key o ks) (without n held)
unfolding release_key write ◌+ℤ◌
release_key-IsHolding n ks held unlimited e h =
    subst (IsHolding ks) (sym (given_back_none n held e)) h
release_key-IsHolding n ks held (rejected x) e h = absurd (never_rejected n held x e)
release_key-IsHolding n ks held (slot at) e h = record {
  counted = λ j l. ground (arith, h.counted j l, give_back-count n j at held e);
  keys_below = h.keys_below;
  held_below = without-AllBelow n ks.next_entry held h.held_below;
}

with_usage-inflight :
    (key : ExternalApiKey) (u : Option (ℤ × ℤ)) (e : KeyEntry)
    → (with_usage key u e).inflight ≡ e.inflight
unfolding with_usage
with_usage-inflight key none e = refl
with_usage-inflight key (some u) e = refl

place_key-IsHolding :
    (key : ExternalApiKey) (u : Option (ℤ × ℤ)) (o : Option ℕ) (ks : KeyStore) (held : List ℕ)
    → ((i : ℕ) → o ≡ some i → i < ks.next_entry)
    → IsHolding ks held
    → IsHolding (place_key key u o ks) held × (ks.next_entry ≤ (place_key key u o ks).next_entry)
unfolding place_key write
place_key-IsHolding key u (some at) ks held b h = (
  record {
    counted = λ j l. ground (arith, h.counted j l, with_usage-inflight key u (ks.entries at));
    keys_below = insert-Below ks.next_entry key.key_hash ks.keys at h.keys_below (b at refl);
    held_below = h.held_below;
  },
  omega arith,
)
place_key-IsHolding key u none ks held b h = (
  record {
    counted = λ j l. ground (
      arith,
      h.counted j,
      count_fresh ks.next_entry held h.held_below,
      with_usage-inflight key u
          (record { key = key; inflight = pos 0; used_input = pos 0; used_output = pos 0 }),
    );
    keys_below =
        insert-Below (suc ks.next_entry) key.key_hash ks.keys ks.next_entry
          (Below-suc ks.next_entry ks.keys h.keys_below) (omega arith);
    held_below = AllBelow-suc ks.next_entry held h.held_below;
  },
  omega arith,
)

load_keys-IsHolding :
    (hash : String → String) (usage : Map (ℤ × ℤ)) (existing : Map ℕ) (n : ℕ)
    (keys : List ExternalApiKey) (ks : KeyStore) (held : List ℕ)
    → Below n existing
    → n ≤ ks.next_entry
    → IsHolding ks held
    → IsHolding (load_keys hash usage existing keys ks) held
unfolding load_keys
load_keys-IsHolding hash usage existing n [] ks held b l h = h
load_keys-IsHolding hash usage existing n (k ∷ keys) ks held b l h =
    let key = hashed hash k in
    let placed =
      place_key-IsHolding key (lookup key.id usage) (lookup key.key_hash existing) ks held
        (λ i e. omega (arith, lookup-Below n key.key_hash existing i b e, l)) h in
    load_keys-IsHolding hash usage existing n keys _ held b (omega (arith, placed.1, l)) placed.0

place_semaphore-IsHolding :
    (a : Account) (o : Option ℕ) (ks : KeyStore) (held : List ℕ)
    → IsHolding ks held
    → IsHolding (place_semaphore a o ks) held
unfolding place_semaphore
place_semaphore-IsHolding a none ks held h = record {
  counted = h.counted;
  keys_below = h.keys_below;
  held_below = h.held_below;
}
place_semaphore-IsHolding a (some at) ks held h = record {
  counted = h.counted;
  keys_below = h.keys_below;
  held_below = h.held_below;
}

load_semaphores-IsHolding :
    (existing : Map ℕ) (accounts : List Account) (ks : KeyStore) (held : List ℕ)
    → IsHolding ks held
    → IsHolding (load_semaphores existing accounts ks) held
unfolding load_semaphores
load_semaphores-IsHolding existing [] ks held h = h
load_semaphores-IsHolding existing (a ∷ accounts) ks held h =
    load_semaphores-IsHolding existing accounts _ held
      (place_semaphore-IsHolding a (lookup a.id existing) ks held h)

act-IsHolding :
    (hash : String → String) (a : Act) (ks : KeyStore) (held : List ℕ)
    → IsHolding ks held
    → let after = act hash a ks held in IsHolding after.0 after.1
unfolding act record_usage reload_locked
act-IsHolding hash (takes key) ks held h = acquire_key-IsHolding hash key ks held h
act-IsHolding hash (frees n) ks held h = release_key-IsHolding n ks held _ refl h
act-IsHolding hash (records now key i o) ks held h =
    record_entry-IsHolding i o _ held _ (sync_month-IsHolding now ks held h)
act-IsHolding hash (reloads now usage keys groups accounts) ks held h =
    load_semaphores-IsHolding ks.account_sems accounts _ held (
      load_keys-IsHolding hash usage ks.keys ks.next_entry keys _ held h.keys_below (omega arith)
        (record { counted = h.counted; keys_below = tt; held_below = h.held_below }))

acts-IsHolding :
    (hash : String → String) (list : List Act) (ks : KeyStore) (held : List ℕ)
    → IsHolding ks held
    → let after = acts hash list ks held in IsHolding after.0 after.1
unfolding acts
acts-IsHolding hash [] ks held h = h
acts-IsHolding hash (a ∷ rest) ks held h =
    let after = act hash a ks held in
    acts-IsHolding hash rest after.0 after.1 (act-IsHolding hash a ks held h)

-- Whatever requests take and give back slots of a new key store, while usage is recorded and the
-- keys are reloaded: every entry in use counts the slots that are held in it, also those taken
-- before a reload, and no slot is held in an entry that is not in use.
pub acts-new-IsHolding :
    (hash : String → String) (now : String) (usage : Map (ℤ × ℤ)) (keys : List ExternalApiKey)
    (groups : List KeyGroup) (accounts : List Account) (list : List Act)
    → let after = acts hash list (new hash now usage keys groups accounts) [] in
      IsHolding after.0 after.1
unfolding new
acts-new-IsHolding hash now usage keys groups accounts list = acts-IsHolding hash list _ [] (
    unfold act in
    act-IsHolding hash (reloads now usage keys groups accounts) _ []
      (record { counted = λ at l. absurd (omega (arith, l)); keys_below = tt; held_below = tt }))
