-- ===== src/Marketplace/Attributes.antt =====
-- src/modules/marketplace/ad-attributes.ts: the extra details of a listing, checked against the
-- category's schema. A value is JSON, whose `null` stands for `undefined` too; an object's names are
-- distinct, and an object also finds the names that every object of the language inherits.

use v2_backend.Common.Int.{ℤ, ltb_ℤ, pos}
use v2_backend.Common.{
  ℕ, Bool, Option, List, codes, Text, suc, if◌then◌else◌, [], ◌∷◌, some, none, same_text, false,
  true, ltb, has_text, length, ◌||◌,
}

mutual
  pub data Json : Type 0 where
    null fraction : Json
    bool : Bool → Json
    int : ℤ → Json
    text : Text → Json
    list : Items → Json
    object : Fields → Json

  pub data Items : Type 0 where
    nil : Items
    cons : Json → Items → Items

  pub data Fields : Type 0 where
    end : Fields
    field : Text → Json → Fields → Fields

-- `kind` of `FieldSpec`; what is inherited has none.
pub data FieldSpec : Type 0 where
  string_spec : ℕ → Option (List Text) → FieldSpec
  int_spec : ℕ → ℕ → FieldSpec
  boolean_spec inherited_spec : FieldSpec
  string_list_spec : ℕ → ℕ → FieldSpec

pub data Problem : Type 0 where
  not_text not_one_of not_whole out_of_range not_boolean not_list bad_entry unknown_detail : Problem
  too_long too_many : ℕ → Problem

abbrev pub cleaning_sub_categories : List Text
cleaning_sub_categories =
    codes "cln"
    ∷ codes "deep"
    ∷ codes "tnk"
    ∷ codes "sof"
    ∷ codes "crp"
    ∷ codes "kit"
    ∷ codes "bth"
    ∷ codes "lndr"
    ∷ []

abbrev pub repair_sub_categories : List Text
repair_sub_categories =
    codes "ac" ∷ codes "plm" ∷ codes "elc" ∷ codes "cpt" ∷ codes "pnt" ∷ codes "gen" ∷ []

abbrev pub rental_sub_categories : List Text
rental_sub_categories = codes "SEDAN" ∷ codes "SUV" ∷ codes "LUXURY" ∷ []

abbrev pub Schema : Type 0
Schema = List (Text × FieldSpec)

abbrev pub cleaning_schema : Schema
cleaning_schema =
    (codes "subCategory", string_spec 20 (some cleaning_sub_categories))
    ∷ (codes "durationLabel", string_spec 40 none)
    ∷ (codes "includes", string_list_spec 12 80)
    ∷ []

abbrev pub repairing_schema : Schema
repairing_schema =
    (codes "subCategory", string_spec 20 (some repair_sub_categories))
    ∷ (codes "durationLabel", string_spec 40 none)
    ∷ (codes "warrantyLabel", string_spec 40 none)
    ∷ []

abbrev pub car_rental_schema : Schema
car_rental_schema =
    (codes "subCategory", string_spec 20 (some rental_sub_categories))
    ∷ (codes "seats", int_spec 1 60)
    ∷ (codes "transmission", string_spec 20 (some (codes "MANUAL" ∷ codes "AUTOMATIC" ∷ [])))
    ∷ (
      codes "fuel",
      string_spec 20
          (some (codes "PETROL" ∷ codes "DIESEL" ∷ codes "ELECTRIC" ∷ codes "HYBRID" ∷ [])),
    )
    ∷ []

abbrev pub elkstay_schema : Schema
elkstay_schema =
    (codes "roomType", string_spec 40 none)
    ∷ (
      codes "stayType",
      string_spec 20
          (some (codes "PG" ∷ codes "MENS_HOSTEL" ∷ codes "WOMENS_HOSTEL" ∷ codes "HOMESTAY" ∷ [])),
    )
    ∷ (codes "depositAmount", int_spec 0 10_000_000)
    ∷ (codes "furnished", boolean_spec)
    ∷ []

-- `ATTRIBUTE_SCHEMA[categorySlug]`, for the categories that a request may name.
unfoldable pub attribute_schema : Text → Option Schema
attribute_schema slug =
    if same_text slug (codes "cleaning")
    then some cleaning_schema
    else if same_text slug (codes "repairing")
    then some repairing_schema
    else if same_text slug (codes "car_rental")
    then some car_rental_schema
    else if same_text slug (codes "elkstay")
    then some elkstay_schema
    else none

-- The names of `Object.prototype`.
abbrev pub inherited_names : List Text
inherited_names =
    codes "constructor"
    ∷ codes "hasOwnProperty"
    ∷ codes "isPrototypeOf"
    ∷ codes "propertyIsEnumerable"
    ∷ codes "toLocaleString"
    ∷ codes "toString"
    ∷ codes "valueOf"
    ∷ codes "__defineGetter__"
    ∷ codes "__defineSetter__"
    ∷ codes "__lookupGetter__"
    ∷ codes "__lookupSetter__"
    ∷ codes "__proto__"
    ∷ []

unfoldable pub own_spec : Schema → Text → Option FieldSpec
own_spec [] key = none
own_spec ((k, spec) ∷ rest) key = if same_text k key then some spec else own_spec rest key

-- `schema[key]`
unfoldable pub spec_of : Schema → Text → Option FieldSpec
unfolding own_spec
spec_of schema key = elim (own_spec schema key) [
  | some spec ↦ some spec
  | none ↦ if has_text key inherited_names then some inherited_spec else none
]

unfoldable pub items_problem : Items → ℕ → Bool
items_problem nil longest = false
items_problem (cons (text t) rest) longest = ltb longest (length t) || items_problem rest longest
items_problem (cons _ rest) longest = true

unfoldable pub items_length : Items → ℕ
items_length nil = 0
items_length (cons x rest) = suc (items_length rest)

abbrev pub is_one_of : Option (List Text) → Text → Bool
is_one_of none t = true
is_one_of (some l) t = has_text t l

-- `check`, by the kind of the specification.
unfoldable pub check_string : ℕ → Option (List Text) → Json → Option Problem
check_string longest one_of (text t) =
    if ltb longest (length t)
    then some (too_long longest)
    else if is_one_of one_of t
    then none
    else some not_one_of
check_string longest one_of _ = some not_text

unfoldable pub check_int : ℕ → ℕ → Json → Option Problem
check_int low high (int n) =
    if ltb_ℤ n (pos low) || ltb_ℤ (pos high) n then some out_of_range else none
check_int low high _ = some not_whole

unfoldable pub check_boolean : Json → Option Problem
check_boolean (bool b) = none
check_boolean _ = some not_boolean

unfoldable pub check_list : ℕ → ℕ → Json → Option Problem
unfolding items_problem items_length
check_list most longest (list items) =
    if ltb most (items_length items)
    then some (too_many most)
    else if items_problem items longest
    then some bad_entry
    else none
check_list most longest _ = some not_list

unfoldable pub check_value : FieldSpec → Json → Option Problem
unfolding check_string check_int check_boolean check_list
check_value (string_spec longest one_of) value = check_string longest one_of value
check_value (int_spec low high) value = check_int low high value
check_value boolean_spec value = check_boolean value
check_value (string_list_spec most longest) value = check_list most longest value
check_value inherited_spec value = none

-- What one pass of the loop does with a name: skips it, stores it, or reports it.
pub data Verdict : Type 0 where
  skipped taken : Verdict
  bad : Problem → Verdict

abbrev pub judged : Option Problem → Verdict
judged none = taken
judged (some p) = bad p

abbrev pub is_null : Json → Bool
is_null null = true
is_null _ = false

unfoldable pub verdict : Schema → Text → Json → Verdict
unfolding spec_of check_value
verdict schema key value = elim (spec_of schema key) [
  | none ↦ bad unknown_detail
  | some spec ↦ if is_null value then skipped else judged (check_value spec value)
]

-- The errors of the loop, and the object that it builds: `__proto__` is no name of its own there.
unfoldable pub errors_of : Schema → Fields → List (Text × Problem)
unfolding verdict
errors_of schema end = []
errors_of schema (field key value rest) =
    let later = errors_of schema rest in
    elim (verdict schema key value) [ skipped ↦ later | taken ↦ later | bad p ↦ (key, p) ∷ later ]

abbrev pub is_proto : Text → Bool
is_proto key = same_text key (codes "__proto__")

unfoldable pub clean_of : Schema → Fields → Fields
unfolding verdict
clean_of schema end = end
clean_of schema (field key value rest) =
    let later = clean_of schema rest in
    elim (verdict schema key value) [
      | skipped ↦ later
      | taken ↦ if is_proto key then later else field key value later
      | bad p ↦ later
    ]

-- The result: what to store, or every problem at once.
pub data Validated : Type 0 where
  nothing : Validated
  store : Fields → Validated
  invalid : List (Text × Problem) → Validated
  not_object not_taken : Validated

unfoldable pub outcome : List (Text × Problem) → Fields → Validated
outcome (e ∷ es) clean = invalid (e ∷ es)
outcome [] end = nothing
outcome [] (field key value rest) = store (field key value rest)

unfoldable pub validate_fields : Schema → Fields → Validated
unfolding errors_of clean_of outcome
validate_fields schema supplied = outcome (errors_of schema supplied) (clean_of schema supplied)

unfoldable pub validate_ad_attributes : Text → Json → Validated
unfolding attribute_schema validate_fields
validate_ad_attributes slug null = nothing
validate_ad_attributes slug (object end) = elim (attribute_schema slug) [
  | none ↦ nothing
  | some schema ↦ validate_fields schema end
]
validate_ad_attributes slug (object (field key value rest)) = elim (attribute_schema slug) [
  | none ↦ not_taken
  | some schema ↦ validate_fields schema (field key value rest)
]
validate_ad_attributes slug _ = not_object
