-- ===== src/Marketplace/Details.antt =====
-- src/modules/marketplace/ad-attributes.ts: what a listing's taken details are.
use v2_backend.Marketplace.Attributes.{
  Schema, verdict, Verdict, clean_of, errors_of, validate_fields, Fields, Problem, spec_of, Json,
  field, judged, skipped, store, FieldSpec, taken, own_spec, bad, check_value, is_proto,
  inherited_names, outcome, validate_ad_attributes, object, attribute_schema, is_null,
}
use v2_backend.Marketplace.Attributes.{end, field, store}
use v2_backend.Common.{
  Option, Text, ◌≡◌, [], ◌⊎◌, inl, List, none, Option-cases, arith, some, inr, Bool-cases, refl,
  has_text, true, ◌∷◌, false,
}

-- A detail that passed: one of the category's own, or one with an inherited name.
abbrev pub IsTaken : Schema → Text → Json → Type 0
IsTaken schema key value =
    ((spec : FieldSpec) × (own_spec schema key ≡ some spec) × (check_value spec value ≡ none))
    ⊎ (has_text key inherited_names ≡ true)

abbrev pub AllTaken : Schema → Fields → Type 0
AllTaken schema end = Unit
AllTaken schema (field key value rest) = IsTaken schema key value × AllTaken schema rest

judged-taken : (p : Option Problem) → judged p ≡ taken → p ≡ none
judged-taken none h = refl
judged-taken (some p) h = ground arith

verdict-taken :
    (schema : Schema) (key : Text) (value : Json)
    → verdict schema key value ≡ taken
    → IsTaken schema key value
unfolding verdict spec_of
verdict-taken schema key value h = elim (Option-cases (own_spec schema key)) [
  | inr (spec, e) ↦ inl (spec, e, ground (arith, judged-taken (check_value spec value)))
  | inl e ↦ elim (Bool-cases (has_text key inherited_names)) [
    | inl i ↦ inr i
    | inr i ↦ ground arith
  ]
]

-- What a pass of the loop does with a name is one of three.
pub Verdict-cases : (v : Verdict) → (v ≡ skipped) ⊎ ((v ≡ taken) ⊎ ((p : Problem) × (v ≡ bad p)))
Verdict-cases skipped = inl refl
Verdict-cases taken = inr (inl refl)
Verdict-cases (bad p) = inr (inr (p, refl))

pub AllTaken-clean_of :
    (schema : Schema) (supplied : Fields) → AllTaken schema (clean_of schema supplied)
unfolding clean_of
AllTaken-clean_of schema end = tt
AllTaken-clean_of schema (field key value rest) = elim (Verdict-cases (verdict schema key value)) [
  | inl e ↦ ground (arith, AllTaken-clean_of schema rest)
  | inr (inl e) ↦ elim (Bool-cases (is_proto key)) [
    | inl i ↦ ground (arith, AllTaken-clean_of schema rest)
    | inr i ↦ ground (arith, AllTaken-clean_of schema rest, verdict-taken schema key value)
  ]
  | inr (inr (p, e)) ↦ ground (arith, AllTaken-clean_of schema rest)
]

-- Checked again, what was kept has no problem, and is kept whole.
errors_of-clean_of :
    (schema : Schema) (supplied : Fields) → errors_of schema (clean_of schema supplied) ≡ []
unfolding errors_of clean_of
errors_of-clean_of schema end = refl
errors_of-clean_of schema (field key value rest) = elim (Verdict-cases (verdict schema key value)) [
  | inl e ↦ ground (arith, errors_of-clean_of schema rest)
  | inr (inl e) ↦ elim (Bool-cases (is_proto key)) [
    | inl i ↦ ground (arith, errors_of-clean_of schema rest)
    | inr i ↦ ground (arith, errors_of-clean_of schema rest)
  ]
  | inr (inr (p, e)) ↦ ground (arith, errors_of-clean_of schema rest)
]

clean_of-clean_of :
    (schema : Schema) (supplied : Fields)
    → clean_of schema (clean_of schema supplied) ≡ clean_of schema supplied
unfolding clean_of
clean_of-clean_of schema end = refl
clean_of-clean_of schema (field key value rest) = elim (Verdict-cases (verdict schema key value)) [
  | inl e ↦ ground (arith, clean_of-clean_of schema rest)
  | inr (inl e) ↦ elim (Bool-cases (is_proto key)) [
    | inl i ↦ ground (arith, clean_of-clean_of schema rest)
    | inr i ↦ ground (arith, clean_of-clean_of schema rest)
  ]
  | inr (inr (p, e)) ↦ ground (arith, clean_of-clean_of schema rest)
]

outcome-store :
    (es : List (Text × Problem)) (c clean : Fields)
    → outcome es c ≡ store clean
    → (clean ≡ c) × (outcome [] c ≡ store c)
unfolding outcome
outcome-store [] end clean h = ground arith
outcome-store [] (field key value rest) clean h = ground arith
outcome-store (e ∷ es) c clean h = ground arith

pub validate_fields-store :
    (schema : Schema) (supplied clean : Fields)
    → validate_fields schema supplied ≡ store clean
    → (clean ≡ clean_of schema supplied) × (validate_fields schema clean ≡ store clean)
unfolding validate_fields
validate_fields-store schema supplied clean h =
    let (same, kept) =
      outcome-store (errors_of schema supplied) (clean_of schema supplied) clean h in
    (same, rw (same, errors_of-clean_of schema supplied, clean_of-clean_of schema supplied) kept)

-- What is stored came through the loop of the category's schema.
pub schema_used :
    (slug : Text) (supplied clean : Fields)
    → validate_ad_attributes slug (object supplied) ≡ store clean
    → (schema : Schema) × (attribute_schema slug ≡ some schema)
      × (validate_fields schema supplied ≡ store clean)
unfolding validate_ad_attributes
schema_used slug end clean h = elim (Option-cases (attribute_schema slug)) [
  | inl e ↦ ground arith
  | inr (schema, e) ↦ (schema, e, ground arith)
]
schema_used slug (field key value rest) clean h = elim (Option-cases (attribute_schema slug)) [
  | inl e ↦ ground arith
  | inr (schema, e) ↦ (schema, e, ground arith)
]

-- Where details are accepted and stored, the category has a schema, and every stored detail is one of
-- its own and passes its check, or has the name of a property that all objects inherit.
pub AllTaken-validate_ad_attributes :
    (slug : Text) (supplied clean : Fields)
    → validate_ad_attributes slug (object supplied) ≡ store clean
    → (schema : Schema) × (attribute_schema slug ≡ some schema) × AllTaken schema clean
AllTaken-validate_ad_attributes slug supplied clean h =
    let (schema, e, v) = schema_used slug supplied clean h in
    let (same, _) = validate_fields-store schema supplied clean v in
    (schema, e, rw same (AllTaken-clean_of schema supplied))

-- Where details are accepted and stored, submitting what was stored stores the same again.
pub validate_ad_attributes-store :
    (slug : Text) (supplied clean : Fields)
    → validate_ad_attributes slug (object supplied) ≡ store clean
    → validate_ad_attributes slug (object clean) ≡ store clean
unfolding validate_ad_attributes
validate_ad_attributes-store slug supplied end h =
    let (schema, e, v) = schema_used slug supplied end h in
    let (_, again) = validate_fields-store schema supplied end v in
    ground (arith, again, outcome-store (errors_of schema end) (clean_of schema end) end)
validate_ad_attributes-store slug supplied (field key value rest) h =
    let (schema, e, v) = schema_used slug supplied (field key value rest) h in
    let (_, again) = validate_fields-store schema supplied (field key value rest) v in
    ground (arith, again)

-- A single detail that is not null is stored unchecked if its name is inherited by all objects, is not
-- __proto__ and is none of the category's own.
pub validate_ad_attributes-inherited :
    (slug key : Text) (value : Json) (schema : Schema)
    → attribute_schema slug ≡ some schema
    → own_spec schema key ≡ none
    → has_text key inherited_names ≡ true
    → is_proto key ≡ false
    → is_null value ≡ false
    → validate_ad_attributes slug (object (field key value end)) ≡ store (field key value end)
unfolding validate_ad_attributes validate_fields outcome errors_of clean_of verdict spec_of
    check_value
validate_ad_attributes-inherited slug key value schema e own i p v = ground arith
