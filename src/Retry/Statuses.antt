-- ===== src/Retry/Statuses.antt =====
-- Which errors of an upstream are retried.
use cc_gateway.Base.{
  ℕ, ◌^◌, ◌<◌, ◌≡◌, ◌≢◌, refl, ap, ◌∙◌, true, false, ◌||◌, List, [], ◌∷◌, ◌++◌, Option, some, All,
  arith,
}
use cc_gateway.Retry.{
  RetryConfig, Error, is_digit, is_zero, digits_then_colon, match_here, or_later, find_status,
  value, has_code, retry_status, phrase, is_retryable,
}

abbrev pub IsDigit : ℕ → Type 0
IsDigit c = is_digit c ≡ true

abbrev pub reverse_onto : List ℕ → List ℕ → List ℕ
reverse_onto [] seen = seen
reverse_onto (c ∷ cs) seen = reverse_onto cs (c ∷ seen)

digits_then_colon-digits :
    (ds seen rest : List ℕ)
    → All IsDigit ds
    → reverse_onto ds seen ≢ []
    → digits_then_colon seen (ds ++ 58 ∷ rest) ≡ some (reverse_onto ds seen)
unfolding digits_then_colon
digits_then_colon-digits [] [] rest a n = absurd (n refl)
digits_then_colon-digits [] (s ∷ seen) rest a n = ground arith
digits_then_colon-digits (d ∷ ds) seen rest a n =
    ground (arith, digits_then_colon-digits ds (d ∷ seen) rest a.1 n, a.0)

match_here-phrase : (ps cs : List ℕ) → match_here ps (ps ++ cs) ≡ digits_then_colon [] cs
unfolding match_here
match_here-phrase [] cs = refl
match_here-phrase (p ∷ ps) cs = ground (arith, match_here-phrase ps cs)

found_first : (ps cs ds : List ℕ) → match_here ps cs ≡ some ds → find_status ps cs ≡ some ds
unfolding find_status
found_first ps [] ds h = h
found_first ps (c ∷ cs) ds h = ap (λ (o : Option (List ℕ)). or_later o (find_status ps cs)) h

-- An error that says that the upstream returned a status is retried, if retries are configured
-- and it is neither a cancellation nor a deadline, exactly if the status is one of the configured
-- codes, as long as it is an int.
pub is_retryable-status :
    (rc : RetryConfig) (err : Error) (ds rest : List ℕ)
    → err.message ≡ phrase ++ (ds ++ 58 ∷ rest)
    → All IsDigit ds
    → reverse_onto ds [] ≢ []
    → value (reverse_onto ds []) < 2 ^ 63
    → is_zero rc.max_retries ≡ false
    → (err.is_canceled || err.is_deadline_exceeded) ≡ false
    → is_retryable rc (some err) ≡ has_code (value (reverse_onto ds [])) rc.retryable_status_codes
unfolding is_retryable retry_status
is_retryable-status rc err ds rest m a n l z c =
    let found =
      found_first phrase (phrase ++ (ds ++ 58 ∷ rest)) (reverse_onto ds [])
        (match_here-phrase phrase (ds ++ 58 ∷ rest) ∙ digits_then_colon-digits ds [] rest a n) in
    ground (arith, ap (find_status phrase) m ∙ found)
