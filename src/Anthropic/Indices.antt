-- ===== src/Anthropic/Indices.antt =====
-- Lists of the indices of blocks.
use cc_gateway.Base.{ℕ, suc, ◌<◌, ◌≡◌, refl, ◌∙◌, false, List, [], ◌∷◌, ◌++◌, arith}
use cc_gateway.Anthropic.Client.{has, remove, has-append, has-remove}

abbrev pub AreBelow : ℕ → List ℕ → Type 0
AreBelow n [] = Unit {0}
AreBelow n (i ∷ is) = (i < n) × AreBelow n is

abbrev pub AreDistinct : List ℕ → Type 0
AreDistinct [] = Unit {0}
AreDistinct (i ∷ is) = (has i is ≡ false) × AreDistinct is

pub AreBelow-suc : (n : ℕ) (is : List ℕ) → AreBelow n is → AreBelow (suc n) is
AreBelow-suc n [] b = tt
AreBelow-suc n (i ∷ is) b = (omega arith, AreBelow-suc n is b.1)

pub AreBelow-append : (n i : ℕ) (is : List ℕ) → AreBelow n is → i < n → AreBelow n (is ++ i ∷ [])
AreBelow-append n i [] b h = (h, tt)
AreBelow-append n i (j ∷ is) b h = (b.0, AreBelow-append n i is b.1 h)

pub fresh-has : (n : ℕ) (is : List ℕ) → AreBelow n is → has n is ≡ false
unfolding has
fresh-has n [] b = refl
fresh-has n (i ∷ is) b = ground (arith, fresh-has n is b.1)

pub AreDistinct-append :
    (n : ℕ) (is : List ℕ) → AreDistinct is → AreBelow n is → AreDistinct (is ++ n ∷ [])
AreDistinct-append n [] d b = (unfold has in refl, tt)
AreDistinct-append n (i ∷ is) d b =
    (has-append i is (n ∷ []) ∙ unfold has in ground arith, AreDistinct-append n is d.1 b.1)

pub remove-AreBelow : (n i : ℕ) (is : List ℕ) → AreBelow n is → AreBelow n (remove i is)
unfolding remove
remove-AreBelow n i [] b = tt
remove-AreBelow n i (j ∷ is) b = ground (arith, remove-AreBelow n i is b.1)

pub remove-AreDistinct : (i : ℕ) (is : List ℕ) → AreDistinct is → AreDistinct (remove i is)
unfolding remove
remove-AreDistinct i [] d = tt
remove-AreDistinct i (j ∷ is) d = ground (arith, has-remove j i is, remove-AreDistinct i is d.1)
