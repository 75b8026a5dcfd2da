-- ===== src/Gemini/Schema/Names.antt =====
-- The names of the parameters of a tool in its converted schema.
use cc_gateway.Base.{
  ◌≡◌, refl, sym, ap, ◌∙◌, subst, String, Bool, true, false, Option, none, some, str_eq, eq_iff,
  if◌then◌else◌, arith, Bool-cases, inl, inr,
}
use cc_gateway.Domain.Value.{
  Any, Items, Fields, nil, boolean, text, integer, float, array, object, end_items, item,
  end_fields, field, get_field,
}
use cc_gateway.Gemini.Schema.{
  is_allowed, typed, or_flattened, convert_schema_value, convert_fields, any_of_in, has_field,
  names_in, set_field, delete_field, put_required, clean_list, require_in, clean_required,
  clean_inside, is_map, clean_required_fields,
}

other_name : (j k : String) → is_allowed j ≡ true → is_allowed k ≡ false → str_eq j k ≡ false
other_name j k a b = elim (Bool-cases (str_eq j k)) [
  | inl q ↦ absurd (clash (sym a ∙ ap is_allowed ((eq_iff j k).0 q) ∙ b))
  | inr q ↦ q
]
  where
    clash : true ≡ false → ⊥
    clash q = ground arith

properties_allowed : is_allowed "properties" ≡ true
unfolding is_allowed
properties_allowed = refl

-- A field that has another name is passed over.
get_field-other :
    (j k : String) (v : Any) (fs : Fields)
    → str_eq j k ≡ false
    → get_field k (field j v fs) ≡ get_field k fs
unfolding get_field
get_field-other j k v fs e = rw e refl

get_field-first :
    (j k : String) (v : Any) (fs : Fields) → str_eq j k ≡ true → get_field k (field j v fs) ≡ some v
unfolding get_field
get_field-first j k v fs e = rw e refl

abbrev of_some : Any → Option Any → Any
of_some d none = d
of_some d (some v) = v

module _ (lower upper : String → String) where
  -- No field is left that is not a keyword of a schema.
  convert_fields-not_allowed :
      (k : String) (fs : Fields)
      → is_allowed k ≡ false
      → get_field k (convert_fields lower upper fs) ≡ none
  unfolding convert_fields get_field
  convert_fields-not_allowed k end_fields e = refl
  convert_fields-not_allowed k (field j v fs) e =
      choose (is_allowed j) refl (convert_fields-not_allowed k fs e)
    where
      kept : Fields
      kept =
          field j (typed lower upper j v (convert_schema_value lower upper v))
            (convert_fields lower upper fs)

      choose :
          (b : Bool)
          → is_allowed j ≡ b
          → get_field k (convert_fields lower upper fs) ≡ none
          → get_field k (if b then kept else convert_fields lower upper fs) ≡ none
      choose true a h =
          get_field-other j k _ (convert_fields lower upper fs) (other_name j k a e) ∙ h
      choose false a h = h

  convert_fields-properties :
      (fs ps : Fields)
      → get_field "properties" fs ≡ some (object ps)
      → get_field "properties" (convert_fields lower upper fs)
        ≡ some (convert_schema_value lower upper (object ps))
  unfolding convert_fields get_field
  convert_fields-properties end_fields ps e = absurd (cc)
  convert_fields-properties (field j v fs) ps e = elim (Bool-cases (str_eq j "properties")) [
    | inl q ↦
        let same : v ≡ object ps =
          ap (of_some v) (sym (get_field-first j "properties" v fs q) ∙ e) in
        let allowed : is_allowed j ≡ true =
          ap is_allowed ((eq_iff j "properties").0 q) ∙ properties_allowed in
        ap (λ (b : Bool). get_field "properties" (kept b)) allowed
        ∙ get_field-first j "properties" _ (convert_fields lower upper fs) q
        ∙ ap (λ (w : Any). some (typed lower upper j w (convert_schema_value lower upper w))) same
    | inr q ↦
        either (is_allowed j) q
        ∙ convert_fields-properties fs ps (sym (get_field-other j "properties" v fs q) ∙ e)
  ]
    where
      kept : Bool → Fields
      kept b =
          if b
          then field j (typed lower upper j v (convert_schema_value lower upper v))
              (convert_fields lower upper fs)
          else convert_fields lower upper fs

      either :
          (b : Bool)
          → str_eq j "properties" ≡ false
          → get_field "properties" (kept b) ≡ get_field "properties" (convert_fields lower upper fs)
      either true q = get_field-other j "properties" _ (convert_fields lower upper fs) q
      either false q = refl

  -- In a converted schema whose properties are a map, without `anyOf` in either, no parameter is left
  -- whose name is not one of the keywords of a schema, whatever its own schema is.
  pub lost_parameters :
      (fs ps : Fields) (name : String)
      → any_of_in lower upper ps ≡ none
      → get_field "properties" fs ≡ some (object ps)
      → is_allowed name ≡ false
      → (qs : Fields) × (get_field "properties" (convert_fields lower upper fs) ≡ some (object qs))
        × (get_field name qs ≡ none)
  lost_parameters fs ps name a e n = (
    convert_fields lower upper ps,
    convert_fields-properties fs ps e
        ∙ value
        ∙ ap
            (λ (o : Option Fields).
              some (object (or_flattened lower upper o (convert_fields lower upper ps))))
            a,
    convert_fields-not_allowed name ps n,
  )
    where
      value :
          some (convert_schema_value lower upper (object ps))
          ≡ some (
              object (
                or_flattened lower upper
                  (any_of_in lower upper ps)
                  (convert_fields lower upper ps)))
      value = unfold convert_schema_value in refl

-- The name of a required field is that of a property.
abbrev pub AllNamed : Fields → Items → Type 0
AllNamed props end_items = Unit {0}
AllNamed props (item (text n) vs) = (has_field n props ≡ true) × AllNamed props vs
AllNamed props (item v vs) = ⊥

names_in-AllNamed : (props : Fields) (vs : Items) → AllNamed props (names_in props vs)
unfolding names_in
names_in-AllNamed props end_items = tt
names_in-AllNamed props (item (text n) vs) =
    choose (has_field n props) refl (names_in-AllNamed props vs)
  where
    choose :
        (b : Bool)
        → has_field n props ≡ b
        → AllNamed props (names_in props vs)
        → AllNamed props (if b then item (text n) (names_in props vs) else names_in props vs)
    choose true e a = (e, a)
    choose false e a = a
names_in-AllNamed props (item nil vs) = names_in-AllNamed props vs
names_in-AllNamed props (item (boolean b) vs) = names_in-AllNamed props vs
names_in-AllNamed props (item (integer n) vs) = names_in-AllNamed props vs
names_in-AllNamed props (item (float f) vs) = names_in-AllNamed props vs
names_in-AllNamed props (item (array ws) vs) = names_in-AllNamed props vs
names_in-AllNamed props (item (object m) vs) = names_in-AllNamed props vs

get_field-set : (k : String) (v : Any) (fs : Fields) → get_field k (set_field k v fs) ≡ some v
unfolding set_field get_field
get_field-set k v end_fields = ground (arith, eq_iff k k)
get_field-set k v (field j w fs) = ground (arith, get_field-set k v fs)

get_field-delete : (k : String) (fs : Fields) → get_field k (delete_field k fs) ≡ none
unfolding delete_field get_field
get_field-delete k end_fields = refl
get_field-delete k (field j w fs) = ground (arith, get_field-delete k fs)

abbrev items_or : Items → Option Any → Items
items_or d (some (array vs)) = vs
items_or d _ = d

same_items : (vs ws : Items) → some (array ws) ≡ some (array vs) → ws ≡ vs
same_items vs ws e = ap (items_or vs) e

put_required-AllNamed :
    (fs ps : Fields) (ws vs : Items)
    → AllNamed ps ws
    → get_field "required" (put_required ws fs) ≡ some (array vs)
    → AllNamed ps vs
put_required-AllNamed fs ps end_items vs a h =
    absurd (clash none refl (sym (get_field-delete "required" fs) ∙ h))
  where
    clash : (o : Option Any) → o ≡ none → o ≡ some (array vs) → ⊥
    clash o e q = cc
put_required-AllNamed fs ps (item w ws) vs a h =
    subst (AllNamed ps)
      (same_items vs (item w ws) (sym (get_field-set "required" (array (item w ws)) fs) ∙ h)) a

clean_required-AllNamed :
    (fs ps : Fields) (vs : Items)
    → get_field "properties" fs ≡ some (object ps)
    → get_field "required" (clean_required fs) ≡ some (array vs)
    → AllNamed ps vs
unfolding clean_required
clean_required-AllNamed fs ps vs p h = by_list (get_field "required" fs) refl h
  where
    by_list :
        (o : Option Any)
        → get_field "required" fs ≡ o
        → get_field "required" (clean_list o fs) ≡ some (array vs)
        → AllNamed ps vs
    by_list none e g = absurd (cc)
    by_list (some nil) e g = absurd (cc)
    by_list (some (boolean b)) e g = absurd (cc)
    by_list (some (text t)) e g = absurd (cc)
    by_list (some (integer n)) e g = absurd (cc)
    by_list (some (float f)) e g = absurd (cc)
    by_list (some (object m)) e g = absurd (cc)
    by_list (some (array end_items)) e g =
        subst (AllNamed ps) (same_items vs end_items (sym e ∙ g)) tt
    by_list (some (array (item w ws))) e g =
        put_required-AllNamed fs ps (names_in ps (item w ws)) vs (names_in-AllNamed ps (item w ws))
          (ap (λ (o : Option Any). get_field "required" (require_in o (item w ws) fs)) (sym p) ∙ g)

get_field-set_other :
    (j k : String) (v : Any) (fs : Fields)
    → str_eq j k ≡ false
    → get_field k (set_field j v fs) ≡ get_field k fs
unfolding set_field get_field
get_field-set_other j k v end_fields e = rw e refl
get_field-set_other j k v (field i w fs) e =
    ground (arith, get_field-set_other j k v fs e, eq_iff i j, eq_iff j k, eq_iff i k)

get_field-delete_other :
    (j k : String) (fs : Fields)
    → str_eq j k ≡ false
    → get_field k (delete_field j fs) ≡ get_field k fs
unfolding delete_field get_field
get_field-delete_other j k end_fields e = refl
get_field-delete_other j k (field i w fs) e =
    ground (arith, get_field-delete_other j k fs e, eq_iff i j, eq_iff j k, eq_iff i k)

put_required-properties :
    (vs : Items) (fs : Fields)
    → get_field "properties" (put_required vs fs) ≡ get_field "properties" fs
put_required-properties end_items fs = get_field-delete_other "required" "properties" fs refl
put_required-properties (item v vs) fs =
    get_field-set_other "required" "properties" (array (item v vs)) fs refl

require_in-properties :
    (o : Option Any) (vs : Items) (fs : Fields)
    → get_field "properties" (require_in o vs fs) ≡ get_field "properties" fs
require_in-properties (some (object m)) vs fs = put_required-properties (names_in m vs) fs
require_in-properties none vs fs = get_field-delete_other "required" "properties" fs refl
require_in-properties (some nil) vs fs = get_field-delete_other "required" "properties" fs refl
require_in-properties (some (boolean b)) vs fs =
    get_field-delete_other "required" "properties" fs refl
require_in-properties (some (text t)) vs fs = get_field-delete_other "required" "properties" fs refl
require_in-properties (some (integer n)) vs fs =
    get_field-delete_other "required" "properties" fs refl
require_in-properties (some (float f)) vs fs =
    get_field-delete_other "required" "properties" fs refl
require_in-properties (some (array ws)) vs fs =
    get_field-delete_other "required" "properties" fs refl

-- The end of the cleaning leaves the properties alone.
clean_required-properties :
    (fs : Fields) → get_field "properties" (clean_required fs) ≡ get_field "properties" fs
unfolding clean_required
clean_required-properties fs = by_list (get_field "required" fs)
  where
    by_list :
        (o : Option Any) → get_field "properties" (clean_list o fs) ≡ get_field "properties" fs
    by_list none = refl
    by_list (some nil) = refl
    by_list (some (boolean b)) = refl
    by_list (some (text t)) = refl
    by_list (some (integer n)) = refl
    by_list (some (float f)) = refl
    by_list (some (object m)) = refl
    by_list (some (array end_items)) = refl
    by_list (some (array (item w ws))) =
        require_in-properties (get_field "properties" fs) (item w ws) fs

-- Whatever a schema is, after the cleaning of it and of the schemas in it: if its properties are a map,
-- and its required names a list, then every required name is the name of a property that is left.
pub clean_required_fields-AllNamed :
    (fs ps : Fields) (vs : Items)
    → get_field "properties" (clean_required_fields fs) ≡ some (object ps)
    → get_field "required" (clean_required_fields fs) ≡ some (array vs)
    → AllNamed ps vs
unfolding clean_required_fields
clean_required_fields-AllNamed fs ps vs p h =
    let inside = clean_inside (is_map (get_field "properties" fs)) fs in
    clean_required-AllNamed inside ps vs (sym (clean_required-properties inside) ∙ p) h
