-- ===== src/Balancer/Choice.antt =====
-- What every balancer chooses, and what LeastConnections chooses.

use native.Mathlib.Nat.{mod-lt}
use cc_gateway.Base.{
  ℕ, ℤ, pos, ◌+ℤ◌, ◌%◌, ◌≤ℤ◌, ltb_ℤ, ◌≡◌, ◌⊎◌, refl, inl, inr, String, List, [], ◌∷◌, some,
  get_elem?-some, get_elem?-In, length, In, All, arith, Bool-cases, subst, sym,
}
use cc_gateway.Domain.{Account}
use cc_gateway.Balancer.{
  Balancer, round_robin, weighted, least_connections, priority, least, select_least, weight, pick,
  last_of, rem, int_of_u64, wrap_int64, total_weight, select_round_robin, select_weighted,
  select_priority, select,
}

-- The chosen account comes first in `xs` among those with the fewest requests in flight.
abbrev pub IsLeast : (String → ℤ) → Account → List Account → Type 0
IsLeast inflight b xs = All (λ (a : Account). inflight b.id ≤ℤ inflight a.id) xs

least-In :
    (f : String → ℤ) (best : Account) (n : ℤ) (rest : List Account)
    → In (least f best n rest) (best ∷ rest)
unfolding least
least-In f best n [] = inl refl
least-In f best n (a ∷ rest) = elim (Bool-cases (ltb_ℤ (f a.id) n)) [
  | inl e ↦ ground (arith, least-In f a (f a.id) rest)
  | inr e ↦ ground (arith, least-In f best n rest)
]

least-le :
    (f : String → ℤ) (best : Account) (rest : List Account)
    → (f (least f best (f best.id) rest).id ≤ℤ f best.id)
      × IsLeast f (least f best (f best.id) rest) rest
unfolding least
least-le f best [] = (omega arith, tt)
least-le f best (a ∷ rest) = elim (Bool-cases (ltb_ℤ (f a.id) (f best.id))) [
  | inl e ↦ ground (arith, least-le f a rest)
  | inr e ↦ ground (arith, least-le f best rest)
]

-- What LeastConnections chooses is a candidate, and no candidate has fewer requests in flight.
pub select_least-IsLeast :
    (f : String → ℤ) (xs : List Account) (b : Account)
    → select_least f xs ≡ some b
    → In b xs × IsLeast f b xs
unfolding select_least
select_least-IsLeast f [] b e = cc
select_least-IsLeast f (a ∷ rest) b e =
    ground (arith, least-In f a (f a.id) rest, least-le f a rest)

pick-In : (d : Account) (i n : ℤ) (xs : List Account) → (pick d i n xs ≡ d) ⊎ In (pick d i n xs) xs
unfolding pick
pick-In d i n [] = inl refl
pick-In d i n (a ∷ xs) = ground (arith, pick-In d i (wrap_int64 (n +ℤ pos (weight a))) xs)

last_of-In : (a : Account) (xs : List Account) → In (last_of a xs) (a ∷ xs)
unfolding last_of
last_of-In a [] = inl refl
last_of-In a (b ∷ xs) = inr (last_of-In b xs)

select_round_robin-In :
    (n : ℕ) (a : Account) (xs : List Account)
    → (b : Account) × ((select_round_robin n (a ∷ xs)).1 ≡ some b) × In b (a ∷ xs)
unfolding select_round_robin
select_round_robin-In n a xs =
    let (b, e) = get_elem?-some (a ∷ xs) (n % length (a ∷ xs)) (mod-lt n (omega arith)) in
    (b, e, get_elem?-In (a ∷ xs) (n % length (a ∷ xs)) e)

select_weighted-In :
    (n : ℕ) (a : Account) (xs : List Account)
    → (b : Account) × ((select_weighted n (a ∷ xs)).1 ≡ some b) × In b (a ∷ xs)
unfolding select_weighted
select_weighted-In n a [] = (a, refl, inl refl)
select_weighted-In n a (b ∷ xs) = (
  _,
  refl,
  elim (pick-In (last_of b xs) (rem (int_of_u64 n) (total_weight (pos 0) (a ∷ b ∷ xs))) (pos 0)
      (a ∷ b ∷ xs)) [
        | inl e ↦ inr (subst (λ (z : Account). In z (b ∷ xs)) (sym e) (last_of-In b xs))
        | inr i ↦ i
      ],
)

-- Every balancer chooses one of the candidates if there is one.
pub select-In :
    (f : String → ℤ) (bal : Balancer) (a : Account) (xs : List Account)
    → (b : Account) × ((select f bal (a ∷ xs)).1 ≡ some b) × In b (a ∷ xs)
unfolding select
select-In f (round_robin n) a xs = select_round_robin-In n a xs
select-In f (weighted n) a xs = select_weighted-In n a xs
select-In f least_connections a xs = unfold select_least in (_, refl, least-In f a (f a.id) xs)
select-In f priority a xs = unfold select_priority in (a, refl, inl refl)
