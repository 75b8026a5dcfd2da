-- ===== src/Domain/Value.antt =====
-- The dynamic values (`any`) that decoded JSON and YAML carry.
use cc_gateway.Base.{
  ℕ, ℤ, pos, negsuc, pos_part, neg_part, ◌+◌, ◌*◌, ◌/◌, ◌^◌, String, Bool, List, [], ◌∷◌, Option,
  none, some, str_eq, if◌then◌else◌, sub_ℕ,
}

-- A finite float64: mantissa * 2 ^ exponent.
pub record Float64 : Type 0 where
  pub mantissa : ℤ
  pub exponent : ℤ

mutual
  pub data Any : Type 0 where
    nil : Any
    boolean : Bool → Any
    text : String → Any
    integer : ℤ → Any
    float : Float64 → Any
    array : Items → Any
    object : Fields → Any

  pub data Items : Type 0 where
    end_items : Items
    item : Any → Items → Items

  pub data Fields : Type 0 where
    end_fields : Fields
    field : String → Any → Fields → Fields

-- n * 2 ^ e, rounded towards zero.
unfoldable pub scale : ℕ → ℤ → ℕ
scale n (pos e) = n * 2 ^ e
scale n (negsuc e) = n / 2 ^ (e + 1)

-- The conversion `int(f)`, for a value that an int holds.
unfoldable pub int_of_float : Float64 → ℤ
unfolding scale
int_of_float f =
    sub_ℕ (scale (pos_part f.mantissa) f.exponent) (scale (neg_part f.mantissa) f.exponent)

-- `v, ok := m[k]` of a `map[string]any`.
unfoldable pub get_field : String → Fields → Option Any
get_field k end_fields = none
get_field k (field j v fs) = if str_eq j k then some v else get_field k fs

unfoldable pub items_of : Items → List Any
items_of end_items = []
items_of (item v vs) = v ∷ items_of vs

-- `s, _ := v.(string)`
unfoldable pub string_value : Any → String
string_value (text s) = s
string_value _ = ""
