-- ===== src/KeyStore/Usage.antt =====
-- The usage of a key within a month, and the change of the month.
use mathlib.Core.Path.{ap₂}
use cc_gateway.Base.{
  ℕ, ℤ, pos, ◌+ℤ◌, int_laws, ◌≡◌, ◌≢◌, refl, sym, ap, ◌∙◌, subst, String, Bool, true, false, ◌||◌,
  List, [], ◌∷◌, Option, none, some, str_eq, eq_iff, eq_refl, if◌then◌else◌, Map, lookup, arith,
  Bool-cases, inl, inr,
}
use cc_gateway.Domain.{ExternalApiKey}
use cc_gateway.Balancer.{wrap_int64}
use cc_gateway.KeyStore.Int64.{wrap_int64-again, wrap_int64-twice, IsInt64, wrap_int64-held}
use cc_gateway.KeyStore.{
  KeyError, usage_limit, KeyEntry, KeyStore, Heap, write, unused, reset_usage, sync_month, reached,
  usage_error, check_usage_limit, hash_of, lookup_key_entry, record_entry, record_usage,
}

abbrev IsUnused : KeyEntry → Type 0
IsUnused e = (e.used_input ≡ pos 0) × (e.used_output ≡ pos 0)

reset_usage-stays :
    (m : Map ℕ) (cells : Heap KeyEntry) (at : ℕ)
    → IsUnused (cells at)
    → IsUnused (reset_usage m cells at)
unfolding reset_usage
reset_usage-stays [] cells at h = h
reset_usage-stays ((k, i) ∷ m) cells at h =
    reset_usage-stays m (write i (unused (cells i)) cells) at
      (unfold write in (ground (arith, h.0), ground (arith, h.1)))

reset_usage-IsUnused :
    (m : Map ℕ) (cells : Heap KeyEntry) (k : String) (at : ℕ)
    → lookup k m ≡ some at
    → IsUnused (reset_usage m cells at)
unfolding reset_usage lookup
reset_usage-IsUnused [] cells k at e = absurd (cc)
reset_usage-IsUnused ((j, i) ∷ m) cells k at e = elim (Bool-cases (str_eq j k)) [
  | inl q ↦
      reset_usage-stays m (write i (unused (cells i)) cells) at
        (unfold write in (ground arith, ground arith))
  | inr q ↦ reset_usage-IsUnused m (write i (unused (cells i)) cells) k at (ground arith)
]

sync_month-keys : (now : String) (ks : KeyStore) → (sync_month now ks).keys ≡ ks.keys
unfolding sync_month
sync_month-keys now ks = ground arith

sync_month-IsUnused :
    (now : String) (ks : KeyStore) (k : String) (at : ℕ)
    → now ≢ ks.month
    → lookup k ks.keys ≡ some at
    → IsUnused ((sync_month now ks).entries at)
unfolding sync_month
sync_month-IsUnused now ks k at n e =
    let r = reset_usage-IsUnused ks.keys ks.entries k at e in
    (ground (arith, eq_iff now ks.month, r.0), ground (arith, eq_iff now ks.month, r.1))

usage_error-unused :
    (key : ExternalApiKey) (ks : KeyStore) (at : ℕ)
    → IsUnused (ks.entries at)
    → usage_error key ks (some at) ≡ none
unfolding usage_error
usage_error-unused key ks at h = ground (arith, h.0, h.1)

-- In a new month a key of the store is not refused for its usage, whatever it has used before.
pub check_usage_limit-new_month :
    (hash : String → String) (now : String) (key : ExternalApiKey) (ks : KeyStore) (at : ℕ)
    → now ≢ ks.month
    → lookup_key_entry hash key ks ≡ some at
    → (check_usage_limit hash now key ks).1 ≡ none
unfolding check_usage_limit lookup_key_entry
check_usage_limit-new_month hash now key ks at n e =
    let synced = sync_month now ks in
    ap (usage_error key synced)
      (ap (λ (m : Map ℕ). lookup (hash_of hash key) m) (sync_month-keys now ks) ∙ e)
    ∙ usage_error-unused key synced at (sync_month-IsUnused now ks (hash_of hash key) at n e)

-- One request's tokens.
pub record Use : Type 0 where
  pub key : ExternalApiKey
  pub input : ℤ
  pub output : ℤ

unfoldable pub uses : (String → String) → List Use → KeyStore → KeyStore
uses hash [] ks = ks
uses hash (u ∷ us) ks = uses hash us (record_usage hash ks.month u.key u.input u.output ks)

-- The tokens of those requests whose key has the given hash.
abbrev pub total : (String → String) → (Use → ℤ) → String → List Use → ℤ
total hash f h [] = pos 0
total hash f h (u ∷ us) =
    let rest = total hash f h us in if str_eq (hash_of hash u.key) h then f u +ℤ rest else rest

-- Two hashes do not share an entry.
abbrev pub IsSeparate : Map ℕ → Type 0
IsSeparate m = (j k : String) (at : ℕ) → lookup j m ≡ some at → lookup k m ≡ some at → j ≡ k

same_month :
    (hash : String → String) (key : ExternalApiKey) (i o : ℤ) (ks : KeyStore)
    → record_usage hash ks.month key i o ks ≡ record_entry i o ks (lookup_key_entry hash key ks)
unfolding record_usage sync_month
same_month hash key i o ks = rw (eq_refl ks.month) refl

-- The keys and the month stay, and the entry at an address has used so many tokens more, in int64.
record HasUsed (ks after : KeyStore) (at : ℕ) (input output : ℤ) : Type 0 where
  pub same_keys : after.keys ≡ ks.keys
  pub month_stays : after.month ≡ ks.month
  pub more_input : (after.entries at).used_input ≡ wrap_int64 ((ks.entries at).used_input +ℤ input)
  pub more_output :
      (after.entries at).used_output ≡ wrap_int64 ((ks.entries at).used_output +ℤ output)

-- The counts of an entry are int64.
abbrev IsWrapped : KeyEntry → Type 0
IsWrapped e = (wrap_int64 e.used_input ≡ e.used_input) × (wrap_int64 e.used_output ≡ e.used_output)

+ℤ_zero : (a : ℤ) → a ≡ a +ℤ pos 0
+ℤ_zero a = omega (int_laws)

wrapped_zero : (a : ℤ) → wrap_int64 a ≡ a → a ≡ wrap_int64 (a +ℤ pos 0)
wrapped_zero a w = sym w ∙ ap wrap_int64 (+ℤ_zero a)

when : Bool → ℤ → ℤ
when b n = if b then n else pos 0

record_entry-HasUsed :
    (i o : ℤ) (ks : KeyStore) (found : Option ℕ) (j k : String) (at : ℕ)
    → IsSeparate ks.keys
    → lookup j ks.keys ≡ found
    → lookup k ks.keys ≡ some at
    → IsWrapped (ks.entries at)
    → HasUsed ks (record_entry i o ks found) at (when (str_eq j k) i) (when (str_eq j k) o)
unfolding record_entry write when
record_entry-HasUsed i o ks none j k at s e h w = record {
  same_keys = refl;
  month_stays = refl;
  more_input = ground (arith, eq_iff j k, wrapped_zero (ks.entries at).used_input w.0);
  more_output = ground (arith, eq_iff j k, wrapped_zero (ks.entries at).used_output w.1);
}
record_entry-HasUsed i o ks (some x) j k at s e h w = record {
  same_keys = refl;
  month_stays = refl;
  more_input = ground (arith, eq_iff j k, s j k x e, wrapped_zero (ks.entries at).used_input w.0);
  more_output = ground (arith, eq_iff j k, s j k x e, wrapped_zero (ks.entries at).used_output w.1);
}

add_when :
    (b : Bool) (x y a n rest : ℤ)
    → x ≡ wrap_int64 (a +ℤ when b n)
    → y ≡ wrap_int64 (x +ℤ rest)
    → y ≡ wrap_int64 (a +ℤ (if b then n +ℤ rest else rest))
unfolding when
add_when b x y a n rest e h =
    h
    ∙ ap (λ (t : ℤ). wrap_int64 (t +ℤ rest)) e
    ∙ wrap_int64-again (a +ℤ when b n) rest
    ∙ ap wrap_int64 (together b)
  where
    together : (b : Bool) → a +ℤ when b n +ℤ rest ≡ a +ℤ (if b then n +ℤ rest else rest)
    together true = omega (int_laws)
    together false = omega (int_laws)

still : (x y : ℤ) → x ≡ wrap_int64 y → wrap_int64 x ≡ x
still x y e = ap wrap_int64 e ∙ wrap_int64-twice y ∙ sym e

uses-HasUsed :
    (hash : String → String) (us : List Use) (ks : KeyStore) (k : String) (at : ℕ)
    → IsSeparate ks.keys
    → lookup k ks.keys ≡ some at
    → IsWrapped (ks.entries at)
    → HasUsed ks
        (uses hash us ks)
        at
        (total hash (λ u. u.input) k us)
        (total hash (λ u. u.output) k us)
unfolding uses
uses-HasUsed hash [] ks k at s h w = record {
  same_keys = refl;
  month_stays = refl;
  more_input = wrapped_zero (ks.entries at).used_input w.0;
  more_output = wrapped_zero (ks.entries at).used_output w.1;
}
uses-HasUsed hash (u ∷ us) ks k at s h w =
    let mid = record_usage hash ks.month u.key u.input u.output ks in
    let first =
      subst
        (λ (m : KeyStore).
          HasUsed ks m at (when (str_eq (hash_of hash u.key) k) u.input)
            (when (str_eq (hash_of hash u.key) k) u.output))
        (sym (same_month hash u.key u.input u.output ks))
        (record_entry-HasUsed u.input u.output ks (lookup_key_entry hash u.key ks)
          (hash_of hash u.key) k at s (unfold lookup_key_entry in refl) h w) in
    let later =
      uses-HasUsed hash us mid k at (subst IsSeparate (sym first.same_keys) s)
        (ap (λ (m : Map ℕ). lookup k m) first.same_keys ∙ h)
        (still _ _ first.more_input, still _ _ first.more_output) in
    record {
      same_keys = later.same_keys ∙ first.same_keys;
      month_stays = later.month_stays ∙ first.month_stays;
      more_input = add_when _ _ _ _ _ _ first.more_input later.more_input;
      more_output = add_when _ _ _ _ _ _ first.more_output later.more_output;
    }

-- The limits against what a key had used and what its requests have used since.
abbrev pub verdict : ExternalApiKey → ℤ → ℤ → Option KeyError
verdict key input output =
    if reached key.max_input_tokens input || reached key.max_output_tokens output
    then some usage_limit
    else none

usage_error-verdict :
    (key : ExternalApiKey) (ks : KeyStore) (at : ℕ)
    → usage_error key ks (some at)
      ≡ verdict key (ks.entries at).used_input (ks.entries at).used_output
unfolding usage_error
usage_error-verdict key ks at = ground arith

check_in_month :
    (hash : String → String) (key : ExternalApiKey) (ks : KeyStore) (at : ℕ)
    → lookup_key_entry hash key ks ≡ some at
    → (check_usage_limit hash ks.month key ks).1
      ≡ verdict key (ks.entries at).used_input (ks.entries at).used_output
unfolding check_usage_limit sync_month
check_in_month hash key ks at h =
    rw (eq_refl ks.month) (ap (usage_error key ks) h ∙ usage_error-verdict key ks at)

-- What the entry at an address had used, and the tokens of all requests since under the hash of a key.
abbrev pub all_input : (String → String) → List Use → KeyStore → ExternalApiKey → ℕ → ℤ
all_input hash us ks key at =
    (ks.entries at).used_input +ℤ total hash (λ u. u.input) (hash_of hash key) us

abbrev pub all_output : (String → String) → List Use → KeyStore → ExternalApiKey → ℕ → ℤ
all_output hash us ks key at =
    (ks.entries at).used_output +ℤ total hash (λ u. u.output) (hash_of hash key) us

-- Within a month a key is refused for its usage exactly if one of its limits is positive and
-- reached by what its entry had used plus the tokens of all requests recorded since under the same
-- hash, whatever other keys have used, if no two hashes share an entry and an int64 holds what the
-- entry had used and those sums.
pub check_usage_limit-uses :
    (hash : String → String) (us : List Use) (ks : KeyStore) (key : ExternalApiKey) (at : ℕ)
    → IsSeparate ks.keys
    → lookup_key_entry hash key ks ≡ some at
    → IsInt64 (ks.entries at).used_input × IsInt64 (ks.entries at).used_output
    → IsInt64 (all_input hash us ks key at) × IsInt64 (all_output hash us ks key at)
    → (check_usage_limit hash ks.month key (uses hash us ks)).1
      ≡ verdict key (all_input hash us ks key at) (all_output hash us ks key at)
unfolding lookup_key_entry
check_usage_limit-uses hash us ks key at s h b t =
    let after = uses hash us ks in
    let used =
      uses-HasUsed hash us ks (hash_of hash key) at s h
        (wrap_int64-held _ b.0, wrap_int64-held _ b.1) in
    ap (λ (m : String). (check_usage_limit hash m key after).1) (sym used.month_stays)
    ∙ check_in_month hash key after at
        (ap (λ (m : Map ℕ). lookup (hash_of hash key) m) used.same_keys ∙ h)
    ∙ ap₂ (verdict key) (used.more_input ∙ wrap_int64-held _ t.0)
        (used.more_output ∙ wrap_int64-held _ t.1)
