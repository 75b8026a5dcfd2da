-- ===== src/Balancer/Rotation.antt =====
-- RoundRobin over consecutive calls.
use native.Mathlib.Nat.{mod-lt, add-zero, zero-add, suc-add}
use mathlib.Core.Path.{ap₂}
use mathlib.Core.List.{map-append}
use cc_gateway.Base.{
  ℕ, zero, suc, ℤ, ◌+◌, ◌-◌, ◌%◌, ◌^◌, ◌≤◌, ◌<◌, ◌≡◌, refl, sym, ap, ◌∙◌, String, List, [], ◌∷◌,
  ◌++◌, map, Option, some, get_elem?, get_elem?-some, length, take, drop, take-all, length-drop,
  take-drop-suc, arith,
}
use cc_gateway.Domain.{Account}
use cc_gateway.Balancer.{Balancer, round_robin, select}

-- The choices of `k` consecutive calls with the same candidates.
abbrev pub choices : (String → ℤ) → ℕ → Balancer → List Account → List (Option Account)
choices f zero bal xs = []
choices f (suc k) bal xs = (select f bal xs).1 ∷ choices f k (select f bal xs).0 xs

select-round_robin :
    (f : String → ℤ) (n : ℕ) (a : Account) (xs : List Account)
    → n + 1 < 2 ^ 64
    → select f (round_robin n) (a ∷ xs)
      ≡ (round_robin (n + 1), get_elem? (a ∷ xs) (n % length (a ∷ xs)))
unfolding select
select-round_robin f n a xs h =
    ap (λ (k : ℕ). (round_robin k, get_elem? (a ∷ xs) (n % length (a ∷ xs)))) (omega arith)

first_choice :
    (f : String → ℤ) (k n r : ℕ) (a : Account) (xs : List Account) (b : Account)
    → n + 1 < 2 ^ 64
    → n % length (a ∷ xs) ≡ r
    → get_elem? (a ∷ xs) r ≡ some b
    → choices f (suc k) (round_robin n) (a ∷ xs)
      ≡ some b ∷ choices f k (round_robin (n + 1)) (a ∷ xs)
first_choice f k n r a xs b h e g =
    ap (λ (p : Balancer × Option Account). p.1 ∷ choices f k p.0 (a ∷ xs))
      (select-round_robin f n a xs h)
    ∙ ap (λ (o : Option Account). o ∷ choices f k (round_robin (n + 1)) (a ∷ xs))
        (ap (get_elem? (a ∷ xs)) e ∙ g)

next_mod :
    (n r : ℕ) (a : Account) (xs : List Account)
    → n % length (a ∷ xs) ≡ r
    → suc r < length (a ∷ xs)
    → (n + 1) % length (a ∷ xs) ≡ suc r
next_mod n r a xs e l = grind arith

-- Calls that do not pass the end of the list read it in order.
segment :
    (f : String → ℤ) (k n r : ℕ) (a : Account) (xs : List Account)
    → n + k < 2 ^ 64
    → n % length (a ∷ xs) ≡ r
    → r + k ≤ length (a ∷ xs)
    → choices f k (round_robin n) (a ∷ xs) ≡ map some (take k (drop r (a ∷ xs)))
segment f zero n r a xs h e l = refl
segment f (suc zero) n r a xs h e l =
    let (b, g) = get_elem?-some (a ∷ xs) r (omega arith) in
    first_choice f 0 n r a xs b (omega arith) e g
    ∙ ap (map some) (sym (take-drop-suc 0 r (a ∷ xs) g))
segment f (suc (suc k)) n r a xs h e l =
    let (b, g) = get_elem?-some (a ∷ xs) r (omega arith) in
    first_choice f (suc k) n r a xs b (omega arith) e g
    ∙ ap (◌∷◌ (some b)) (
        segment f (suc k) (n + 1) (suc r) a xs (omega arith) (next_mod n r a xs e (omega arith))
          (omega arith))
    ∙ ap (map some) (sym (take-drop-suc (suc k) r (a ∷ xs) g))

choices-add :
    (f : String → ℤ) (j k n : ℕ) (a : Account) (xs : List Account)
    → n + j < 2 ^ 64
    → choices f (j + k) (round_robin n) (a ∷ xs)
      ≡ choices f j (round_robin n) (a ∷ xs) ++ choices f k (round_robin (n + j)) (a ∷ xs)
choices-add f zero k n a xs h = rw (zero-add k, add-zero n)
choices-add f (suc j) k n a xs h =
    let (b, g) = get_elem?-some (a ∷ xs) (n % length (a ∷ xs)) (mod-lt n (omega arith)) in
    ap (λ (m : ℕ). choices f m (round_robin n) (a ∷ xs)) (suc-add j k)
    ∙ first_choice f (j + k) n _ a xs b (omega arith) refl g
    ∙ ap (◌∷◌ (some b)) (
        choices-add f j k (n + 1) a xs (omega arith)
        ∙ ap
            (λ (m : ℕ).
              choices f j (round_robin (n + 1)) (a ∷ xs) ++ choices f k (round_robin m) (a ∷ xs))
            {x = n + 1 + j} {y = n + suc j} (omega arith))
    ∙ ap (λ l. l ++ choices f k (round_robin (n + suc j)) (a ∷ xs))
        (sym (first_choice f j n _ a xs b (omega arith) refl g))

wrapped :
    (n : ℕ) (a : Account) (xs : List Account)
    → (n + (length (a ∷ xs) - n % length (a ∷ xs))) % length (a ∷ xs) ≡ 0
wrapped n a xs = grind (arith, mod-lt n)

-- As many calls of RoundRobin as there are candidates choose each position once, in the order of
-- the list from where the counter stands, if the counter does not wrap in between.
pub choices-rotation :
    (f : String → ℤ) (n : ℕ) (a : Account) (xs : List Account)
    → n + length (a ∷ xs) < 2 ^ 64
    → let r = n % length (a ∷ xs) in
      choices f (length (a ∷ xs)) (round_robin n) (a ∷ xs)
      ≡ map some (drop r (a ∷ xs) ++ take r (a ∷ xs))
choices-rotation f n a xs h =
    let r = n % length (a ∷ xs) in
    let k = length (a ∷ xs) - r in
    let below : r < length (a ∷ xs) = mod-lt n (omega arith) in
    ap (λ (m : ℕ). choices f m (round_robin n) (a ∷ xs)) {x = length (a ∷ xs)} {y = k + r}
      (omega arith)
    ∙ choices-add f k r n a xs (omega arith)
    ∙ ap₂ (λ (l m : List (Option Account)). l ++ m)
        (segment f k n r a xs (omega arith) refl (omega arith)
          ∙ ap (map some) (take-all k (drop r (a ∷ xs)) (omega (arith, length-drop r (a ∷ xs)))))
        (segment f r (n + k) 0 a xs (omega arith) (wrapped n a xs) (omega arith))
    ∙ sym (map-append some (drop r (a ∷ xs)) (take r (a ∷ xs)))
