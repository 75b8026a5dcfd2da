-- ===== src/Gemini/Schema/Tests.antt =====
-- The schema of a tool with the parameters `command` and `pattern`.
use cc_gateway.Base.{◌≡◌, refl, String, none, some, if◌then◌else◌, str_eq}
use cc_gateway.Domain.Value.{
  Any, Fields, text, array, object, end_items, item, end_fields, field, get_field,
}
use cc_gateway.Gemini.Schema.{
  convert_schema_types, convert_schema_value, convert_fields, map_schema_type, is_allowed,
  clean_required_fields, clean_inside, clean_required, names_in, has_field, set_field, delete_field,
}
use cc_gateway.Gemini.Schema.Names.{lost_parameters, AllNamed, clean_required_fields-AllNamed}

abbrev lower : String → String
lower s = s

abbrev upper : String → String
upper s = if str_eq s "object" then "OBJECT" else if str_eq s "string" then "STRING" else s

abbrev a_string : Any
a_string = object (field "type" (text "string") end_fields)

abbrev props : Fields
props = field "command" a_string (field "pattern" a_string end_fields)

abbrev schema : Fields
schema = field "type" (text "object") (
    field "properties" (object props)
      (field "required" (array (item (text "command") end_items)) end_fields))

-- The parameter `command` is gone, and with it the list of the required ones.
converted :
    convert_schema_types lower upper schema
    ≡ field "type" (text "OBJECT") (
        field "properties"
          (object (field "pattern" (object (field "type" (text "STRING") end_fields)) end_fields))
          end_fields)
unfolding convert_schema_types convert_schema_value clean_inside clean_required_fields
    clean_required map_schema_type is_allowed names_in has_field set_field delete_field get_field
converted = refl

lost_parameters_example :
    (qs : Fields) × (get_field "properties" (convert_fields lower upper schema) ≡ some (object qs))
    × (get_field "command" qs ≡ none)
unfolding convert_schema_value is_allowed get_field
lost_parameters_example = lost_parameters lower upper schema props "command" refl refl refl

clean_required_fields-AllNamed_example : AllNamed props (item (text "command") end_items)
unfolding clean_required_fields clean_inside clean_required names_in has_field set_field get_field
clean_required_fields-AllNamed_example =
    clean_required_fields-AllNamed schema props (item (text "command") end_items) refl refl
