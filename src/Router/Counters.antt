-- ===== src/Router/Counters.antt =====
-- The counts of requests in flight, between two reloads.
use cc_gateway.Base.{
  ℕ, suc, ℤ, pos, negsuc, ◌+ℤ◌, int_laws, ◌≡◌, refl, sym, ap, ◌∙◌, pos_part, neg_part, String, Bool,
  true, false, List, [], ◌∷◌, Option, some, str_eq, eq_iff, if◌then◌else◌, lookup, lookup-insert,
  arith, Option-cases, inl, inr,
}
use cc_gateway.Router.{
  Router, or_new, get_account_inflight, increment_inflight, decrement_counter, decrement_inflight,
}

-- A request of an account begins or ends.
pub data Move : Type 0 where
  begins ends : String → Move

unfoldable pub move : Router → Move → Router
move r (begins id) = increment_inflight id r
move r (ends id) = decrement_inflight id r

unfoldable pub moves : Router → List Move → Router
moves r [] = r
moves r (m ∷ ms) = moves (move r m) ms

-- How many requests of an account begin, and how many end.
abbrev pub begun : String → List Move → ℕ
begun id [] = 0
begun id (begins j ∷ ms) = let n = begun id ms in if str_eq j id then suc n else n
begun id (ends j ∷ ms) = begun id ms

abbrev pub ended : String → List Move → ℕ
ended id [] = 0
ended id (begins j ∷ ms) = ended id ms
ended id (ends j ∷ ms) = let n = ended id ms in if str_eq j id then suc n else n

abbrev Counts : Router → String → ℤ → Type 0
Counts r id n = lookup id r.inflight_counts ≡ some n

begins-Counts :
    (r : Router) (j id : String) (n : ℤ)
    → Counts r id n
    → Counts (increment_inflight j r) id (if str_eq j id then n +ℤ pos 1 else n)
unfolding increment_inflight get_account_inflight
begins-Counts r j id n h =
    ground
      (arith, eq_iff j id, lookup-insert j id (get_account_inflight r j +ℤ pos 1) r.inflight_counts)

ends-Counts :
    (r : Router) (j id : String) (n : ℤ)
    → Counts r id n
    → Counts (decrement_inflight j r) id (if str_eq j id then n +ℤ negsuc 0 else n)
unfolding decrement_inflight decrement_counter
ends-Counts r j id n h = elim (Option-cases (lookup j r.inflight_counts)) [
  | inl e ↦ ground (arith, eq_iff j id)
  | inr (c, e) ↦ ground (arith, eq_iff j id, lookup-insert j id (c +ℤ negsuc 0) r.inflight_counts)
]

begun_sum :
    (b : Bool) (m n : ℤ) (e k : ℕ)
    → m +ℤ pos e ≡ (if b then n +ℤ pos 1 else n) +ℤ pos k
    → m +ℤ pos e ≡ n +ℤ pos (if b then suc k else k)
begun_sum true m n e k h = omega (int_laws, ap pos_part h, ap neg_part h)
begun_sum false m n e k h = h

ended_sum :
    (b : Bool) (m n : ℤ) (e k : ℕ)
    → m +ℤ pos e ≡ (if b then n +ℤ negsuc 0 else n) +ℤ pos k
    → m +ℤ pos (if b then suc e else e) ≡ n +ℤ pos k
ended_sum true m n e k h = omega (int_laws, ap pos_part h, ap neg_part h)
ended_sum false m n e k h = h

moves-Counts :
    (id : String) (ms : List Move) (r : Router) (n : ℤ)
    → Counts r id n
    → (m : ℤ) × Counts (moves r ms) id m × (m +ℤ pos (ended id ms) ≡ n +ℤ pos (begun id ms))
unfolding moves move
moves-Counts id [] r n h = (n, h, refl)
moves-Counts id (begins j ∷ ms) r n h =
    let (m, k, e) = moves-Counts id ms (increment_inflight j r) _ (begins-Counts r j id n h) in
    (m, k, begun_sum (str_eq j id) m n (ended id ms) (begun id ms) e)
moves-Counts id (ends j ∷ ms) r n h =
    let (m, k, e) = moves-Counts id ms (decrement_inflight j r) _ (ends-Counts r j id n h) in
    (m, k, ended_sum (str_eq j id) m n (ended id ms) (begun id ms) e)

counted : (r : Router) (id : String) (n : ℤ) → Counts r id n → get_account_inflight r id ≡ n
unfolding get_account_inflight
counted r id n h = ap (λ (o : Option ℤ). or_new o (pos 0)) h

-- Without a reload the count of an account that has a counter moves by the requests that began
-- less those that ended, whatever the other accounts do in between.
pub moves-conserve :
    (r : Router) (id : String) (ms : List Move) (n : ℤ)
    → lookup id r.inflight_counts ≡ some n
    → get_account_inflight (moves r ms) id +ℤ pos (ended id ms)
      ≡ get_account_inflight r id +ℤ pos (begun id ms)
moves-conserve r id ms n h =
    let (m, k, e) = moves-Counts id ms r n h in
    ap (λ (x : ℤ). x +ℤ pos (ended id ms)) (counted (moves r ms) id m k)
    ∙ e
    ∙ ap (λ (x : ℤ). x +ℤ pos (begun id ms)) (sym (counted r id n h))
