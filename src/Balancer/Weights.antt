-- ===== src/Balancer/Weights.antt =====
-- Weighted: each candidate owns an interval of the counter as long as its weight.
use cc_gateway.Base.{
  ℕ, ℤ, pos, ◌+◌, ◌+ℤ◌, ◌%◌, ◌^◌, ◌≤◌, ◌<◌, ◌≡◌, ap, ◌∙◌, List, [], ◌∷◌, ◌++◌, some, arith,
}
use cc_gateway.Domain.{Account}
use cc_gateway.Balancer.{
  weight, total_weight, pick, last_of, rem, int_of_u64, wrap_int64, select_weighted,
}

-- The sum of the weights, as a number without a bound.
abbrev pub sum_of_weights : List Account → ℕ
sum_of_weights [] = 0
sum_of_weights (a ∷ accts) = weight a + sum_of_weights accts

wrap_int64-sum : (c w : ℕ) → c + w < 2 ^ 63 → wrap_int64 (pos c +ℤ pos w) ≡ pos (c + w)
unfolding wrap_int64 int_of_u64 ◌+ℤ◌
wrap_int64-sum c w h = ground arith

-- As long as an int holds the sum, it is the total weight.
total_weight-sum :
    (c : ℕ) (xs : List Account)
    → c + sum_of_weights xs < 2 ^ 63
    → total_weight (pos c) xs ≡ pos (c + sum_of_weights xs)
unfolding total_weight
total_weight-sum c [] h = ap pos (omega arith)
total_weight-sum c (x ∷ xs) h =
    ap (λ (t : ℤ). total_weight t xs) (wrap_int64-sum c (weight x) (omega (arith, h)))
    ∙ total_weight-sum (c + weight x) xs (omega (arith, h))
    ∙ ap pos (omega arith)

pick-skip :
    (d : Account) (i c : ℕ) (x : Account) (rest : List Account)
    → c + weight x < 2 ^ 63
    → c + weight x ≤ i
    → pick d (pos i) (pos c) (x ∷ rest) ≡ pick d (pos i) (pos (c + weight x)) rest
unfolding pick
pick-skip d i c x rest w h = rw (wrap_int64-sum c (weight x) w) (ground arith)

pick-first :
    (d a : Account) (i c : ℕ) (rest : List Account)
    → c + weight a < 2 ^ 63
    → i < c + weight a
    → pick d (pos i) (pos c) (a ∷ rest) ≡ a
unfolding pick
pick-first d a i c rest w h = rw (wrap_int64-sum c (weight a) w) (ground arith)

pick-interval :
    (d a : Account) (i c : ℕ) (xs zs : List Account)
    → c + sum_of_weights xs + weight a < 2 ^ 63
    → c + sum_of_weights xs ≤ i
    → i < c + sum_of_weights xs + weight a
    → pick d (pos i) (pos c) (xs ++ a ∷ zs) ≡ a
pick-interval d a i c [] zs w l h = pick-first d a i c zs (omega arith) (omega arith)
pick-interval d a i c (x ∷ xs) zs w l h =
    pick-skip d i c x (xs ++ a ∷ zs) (omega arith) (omega arith)
    ∙ pick-interval d a i (c + weight x) xs zs (omega arith) (omega arith) (omega arith)

sum_of_weights-append :
    (xs zs : List Account) (a : Account)
    → sum_of_weights xs + weight a ≤ sum_of_weights (xs ++ a ∷ zs)
sum_of_weights-append [] zs a = omega arith
sum_of_weights-append (x ∷ xs) zs a = omega (arith, sum_of_weights-append xs zs a)

rem_of_u64 : (n m : ℕ) → n < 2 ^ 63 → rem (int_of_u64 n) (pos m) ≡ pos (n % m)
unfolding rem int_of_u64
rem_of_u64 n m h = ground arith

-- With two candidates or more, whose weights have a sum below 2 ^ 63, Weighted chooses the account in
-- whose interval the counter falls, taken modulo that sum, while the counter stays below 2 ^ 63. The
-- interval of an account begins at the sum of the weights before it and is as long as its own weight.
pub select_weighted-interval :
    (x y : Account) (cs xs zs : List Account) (a : Account) (n j : ℕ)
    → x ∷ y ∷ cs ≡ xs ++ a ∷ zs
    → sum_of_weights (x ∷ y ∷ cs) < 2 ^ 63
    → n < 2 ^ 63
    → n % sum_of_weights (x ∷ y ∷ cs) ≡ sum_of_weights xs + j
    → j < weight a
    → (select_weighted n (x ∷ y ∷ cs)).1 ≡ some a
unfolding select_weighted
select_weighted-interval x y cs xs zs a n j e w h m l = ap some (
    ap (λ (i : ℤ). pick (last_of y cs) i (pos 0) (x ∷ y ∷ cs))
      (ap (rem (int_of_u64 n))
          (total_weight-sum 0 (x ∷ y ∷ cs) (omega (arith, w)) ∙ ap pos (omega arith))
        ∙ rem_of_u64 n (sum_of_weights (x ∷ y ∷ cs)) h
        ∙ ap pos m)
    ∙ ap (pick (last_of y cs) (pos (sum_of_weights xs + j)) (pos 0)) e
    ∙ pick-interval (last_of y cs) a (sum_of_weights xs + j) 0 xs zs
        (omega (arith, sum_of_weights-append xs zs a, ap sum_of_weights e, w)) (omega arith)
        (omega arith))
