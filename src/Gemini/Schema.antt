-- ===== src/Gemini/Schema.antt =====
-- The schemas of tools in internal/provider/gemini/translate.go. A `map[string]any` is a list of
-- fields with distinct names. strings.ToLower and strings.ToUpper are arguments.
pub mod Names
pub mod Tests
use cc_gateway.Base.{
  String, Bool, true, false, not, ◌||◌, List, [], ◌∷◌, Option, none, some, str_eq, if◌then◌else◌,
}
use cc_gateway.Domain.Value.{
  Any, Items, Fields, nil, boolean, text, integer, float, array, object, end_items, item,
  end_fields, field, get_field,
}

-- geminiAllowedSchemaFields
abbrev pub allowed_fields : List String
allowed_fields =
    "type" ∷ "description" ∷ "properties" ∷ "required" ∷ "items" ∷ "enum" ∷ "nullable" ∷ "title"
    ∷ "format" ∷ "minimum" ∷ "maximum" ∷ "minItems" ∷ "maxItems" ∷ "minLength" ∷ "maxLength"
    ∷ "pattern" ∷ []

abbrev pub is_in : String → List String → Bool
is_in s [] = false
is_in s (t ∷ ts) = if str_eq t s then true else is_in s ts

unfoldable pub is_allowed : String → Bool
is_allowed k = is_in k allowed_fields

unfoldable pub set_field : String → Any → Fields → Fields
set_field k v end_fields = field k v end_fields
set_field k v (field j w fs) = if str_eq j k then field j v fs else field j w (set_field k v fs)

module _ (lower upper : String → String) where
  unfoldable pub map_schema_type : String → String
  map_schema_type t =
      if str_eq (lower t) "string"
      then "STRING"
      else if str_eq (lower t) "number"
      then "NUMBER"
      else if str_eq (lower t) "object"
      then "OBJECT"
      else if str_eq (lower t) "array"
      then "ARRAY"
      else if str_eq (lower t) "boolean"
      then "BOOLEAN"
      else if str_eq (lower t) "integer"
      then "INTEGER"
      else upper t

  -- The value of a field: a type that is a text is mapped, all else is converted.
  abbrev pub typed : String → Any → Any → Any
  typed k (text t) converted = if str_eq k "type" then text (map_schema_type t) else converted
  typed k v converted = converted

  abbrev pub text_or_empty : Option Any → String
  text_or_empty (some (text t)) = t
  text_or_empty _ = ""

  abbrev pub is_null : Fields → Bool
  is_null m = str_eq (lower (text_or_empty (get_field "type" m))) "null"

  abbrev pub retyped : Option Any → Fields → Fields
  retyped (some (text t)) result = set_field "type" (text (map_schema_type t)) result
  retyped _ result = result

  abbrev pub or_flattened : Option Fields → Fields → Fields
  or_flattened none fs = fs
  or_flattened (some flattened) fs = flattened

  unfoldable mutual
    pub convert_schema_value : Any → Any
    convert_schema_value (object fs) = object (or_flattened (any_of_in fs) (convert_fields fs))
    convert_schema_value (array vs) = array (convert_items vs)
    convert_schema_value nil = nil
    convert_schema_value (boolean b) = boolean b
    convert_schema_value (text t) = text t
    convert_schema_value (integer n) = integer n
    convert_schema_value (float f) = float f

    -- The loop over the fields of a map.
    pub convert_fields : Fields → Fields
    convert_fields end_fields = end_fields
    convert_fields (field k v fs) =
        let rest = convert_fields fs in
        let converted = convert_schema_value v in
        if is_allowed k then field k (typed k v converted) rest else rest

    pub convert_items : Items → Items
    convert_items end_items = end_items
    convert_items (item v vs) = item (convert_schema_value v) (convert_items vs)

    -- What flattenAnyOf makes of the field `anyOf`, if that is a list.
    pub any_of_in : Fields → Option Fields
    any_of_in end_fields = none
    any_of_in (field k v fs) =
        let rest = any_of_in fs in
        let here = flatten_any_of v in if str_eq k "anyOf" then here else rest

    pub flatten_any_of : Any → Option Fields
    flatten_any_of (array vs) =
        let result = flatten_items vs end_fields in some (retyped (get_field "type" result) result)
    flatten_any_of _ = none

    pub flatten_items : Items → Fields → Fields
    flatten_items end_items result = result
    flatten_items (item v vs) result = flatten_items vs (flatten_item v result)

    pub flatten_item : Any → Fields → Fields
    flatten_item (object m) result =
        let merged = merge_fields m result in
        if is_null m then set_field "nullable" (boolean true) result else merged
    flatten_item _ result = result

    pub merge_fields : Fields → Fields → Fields
    merge_fields end_fields result = result
    merge_fields (field k v fs) result =
        let converted = convert_schema_value v in
        merge_fields fs (if is_allowed k then set_field k converted result else result)

unfoldable pub has_field : String → Fields → Bool
has_field k end_fields = false
has_field k (field j v fs) = if str_eq j k then true else has_field k fs

unfoldable pub delete_field : String → Fields → Fields
delete_field k end_fields = end_fields
delete_field k (field j v fs) =
    let rest = delete_field k fs in if str_eq j k then rest else field j v rest

-- The names of a list of required fields that are names of properties.
unfoldable pub names_in : Fields → Items → Items
names_in props end_items = end_items
names_in props (item (text n) vs) =
    let rest = names_in props vs in if has_field n props then item (text n) rest else rest
names_in props (item v vs) = names_in props vs

abbrev pub put_required : Items → Fields → Fields
put_required end_items fs = delete_field "required" fs
put_required (item v vs) fs = set_field "required" (array (item v vs)) fs

abbrev pub require_in : Option Any → Items → Fields → Fields
require_in (some (object props)) vs fs = put_required (names_in props vs) fs
require_in _ vs fs = delete_field "required" fs

abbrev pub clean_list : Option Any → Fields → Fields
clean_list (some (array (item v vs))) fs = require_in (get_field "properties" fs) (item v vs) fs
clean_list _ fs = fs

-- The end of cleanRequiredFields, on the list of required fields.
unfoldable pub clean_required : Fields → Fields
clean_required fs = clean_list (get_field "required" fs) fs

abbrev pub is_map : Option Any → Bool
is_map (some (object m)) = true
is_map _ = false

abbrev pub unless_empty : String → Fields → Fields → Fields
unless_empty k end_fields rest = rest
unless_empty k (field j v fs) rest = field k (object (field j v fs)) rest

-- Its beginning: the properties, and the items of a schema that has properties.
unfoldable mutual
  pub clean_inside : Bool → Fields → Fields
  clean_inside has end_fields = end_fields
  clean_inside has (field k v fs) = field k (clean_at has k v) (clean_inside has fs)

  pub clean_at : Bool → String → Any → Any
  clean_at has k (object m) =
      let props = clean_properties m in
      let cleaned = clean_required (clean_inside (is_map (get_field "properties" m)) m) in
      if str_eq k "properties"
      then object props
      else if str_eq k "items"
      then object (if has then cleaned else m)
      else object m
  clean_at has k v = v

  pub clean_properties : Fields → Fields
  clean_properties end_fields = end_fields
  clean_properties (field k v fs) = clean_property k v (clean_properties fs)

  pub clean_property : String → Any → Fields → Fields
  clean_property k (object m) rest =
      unless_empty k (clean_required (clean_inside (is_map (get_field "properties" m)) m)) rest
  clean_property k v rest = field k v rest

unfoldable pub clean_required_fields : Fields → Fields
clean_required_fields fs = clean_required (clean_inside (is_map (get_field "properties" fs)) fs)

-- convertSchemaTypes, on a schema that is not nil: what convertSchemaValue makes of a map is a map.
unfoldable pub convert_schema_types : (String → String) → (String → String) → Fields → Fields
convert_schema_types lower upper fs =
    clean_required_fields
      (or_flattened lower upper (any_of_in lower upper fs) (convert_fields lower upper fs))
