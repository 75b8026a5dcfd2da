-- ===== src/Base/Decimal.antt =====
-- Decimal numerals, as `%d` of fmt prints them.
use Prim.Native.Nat.{ℕ, zero, suc, ◌/◌, ◌%◌}
use Prim.Native.String.{String, ◌++◌ as append}
use mathlib.Core.Path.{◌≡◌, refl}
use cc_gateway.Base.Tests.{ltb, if◌then◌else◌}
use cc_gateway.Base.Int.{ℤ, pos, negsuc}

infixr 66 ◌<>◌
abbrev pub ◌<>◌ : String → String → String
s <> t = append s t

abbrev digit : ℕ → String
digit zero = "0"
digit (suc zero) = "1"
digit (suc (suc zero)) = "2"
digit (suc (suc (suc zero))) = "3"
digit (suc (suc (suc (suc zero)))) = "4"
digit (suc (suc (suc (suc (suc zero))))) = "5"
digit (suc (suc (suc (suc (suc (suc zero)))))) = "6"
digit (suc (suc (suc (suc (suc (suc (suc zero))))))) = "7"
digit (suc (suc (suc (suc (suc (suc (suc (suc zero)))))))) = "8"
digit n = "9"

-- A number has at most as many digits as its value says, which bounds the fuel.
digits : ℕ → ℕ → String → String
digits zero n acc = acc
digits (suc fuel) n acc =
    let more = digits fuel (n / 10) (digit (n % 10) <> acc) in
    if ltb n 10 then digit n <> acc else more

unfoldable pub show : ℤ → String
unfolding digits
show (pos n) = digits (suc n) n ""
show (negsuc n) = "-" <> digits (suc (suc n)) (suc n) ""

show_tests : show (pos 1207) <> show (negsuc 41) ≡ "1207-42"
unfolding show
show_tests = refl
