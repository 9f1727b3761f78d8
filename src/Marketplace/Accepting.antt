-- ===== src/Marketplace/Accepting.antt =====
-- src/modules/marketplace/ad-attributes.ts: which details are stored as they were submitted.
use v2_backend.Marketplace.Attributes.{end, field}
use v2_backend.Marketplace.Details.{Verdict-cases, schema_used, validate_fields-store}
use v2_backend.Marketplace.Attributes.{
  Schema, verdict, Fields, clean_of, validate_ad_attributes, field, spec_of, errors_of,
  validate_fields, Json, check_value, is_null, FieldSpec, taken, object, own_spec, is_proto, store,
  attribute_schema, judged, inherited_names,
}
use v2_backend.Common.{
  ◌↔◌, Text, ℕ, ◌≤◌, ◌≡◌, suc, arith, [], inl, ◌≢◌, false, none, inr, refl, some, Bool-cases, ◌⊎◌,
  Option-cases, has_text, sym, true,
}
use v2_backend.Marketplace.Fitting.{Fits, Fits-check_value}

-- A detail that passes as it is: not null, a name that an object can hold of its own, and a value that
-- fits the category's specification, where the category has one, or else an inherited name.
abbrev pub IsFitting : Schema → Text → Json → Type 0
IsFitting schema key value =
    (is_null value ≡ false)
    × (is_proto key ≡ false)
    × (((spec : FieldSpec) × (own_spec schema key ≡ some spec) × Fits spec value)
        ⊎ ((own_spec schema key ≡ none) × (has_text key inherited_names ≡ true)))

abbrev pub AllFitting : Schema → Fields → Type 0
AllFitting schema end = Unit
AllFitting schema (field key value rest) = IsFitting schema key value × AllFitting schema rest

verdict-own :
    (schema : Schema) (key : Text) (value : Json) (spec : FieldSpec)
    → own_spec schema key ≡ some spec
    → is_null value ≡ false
    → verdict schema key value ≡ judged (check_value spec value)
unfolding verdict spec_of
verdict-own schema key value spec e n = ground arith

IsFitting-verdict :
    (schema : Schema) (key : Text) (value : Json)
    → verdict schema key value ≡ taken
    → is_proto key ≡ false
    → IsFitting schema key value
unfolding verdict spec_of
IsFitting-verdict schema key value h free = elim (Bool-cases (is_null value)) [
  | inl absent ↦ elim (Option-cases (own_spec schema key)) [
    | inr (spec, e) ↦ ground arith
    | inl e ↦ elim (Bool-cases (has_text key inherited_names)) [
      | inl i ↦ ground arith
      | inr i ↦ ground arith
    ]
  ]
  | inr present ↦ elim (Option-cases (own_spec schema key)) [
    | inr (spec, e) ↦
        let passed : check_value spec value ≡ none = ground arith in
        (present, free, inl (spec, e, (Fits-check_value spec value).0 passed))
    | inl e ↦ elim (Bool-cases (has_text key inherited_names)) [
      | inl i ↦ (present, free, inr (e, i))
      | inr i ↦ ground arith
    ]
  ]
]

verdict-IsFitting :
    (schema : Schema) (key : Text) (value : Json)
    → IsFitting schema key value
    → verdict schema key value ≡ taken
unfolding verdict spec_of check_value
verdict-IsFitting schema key value (present, free, which) = elim which [
  | inl (spec, e, fits) ↦
      let passed : check_value spec value ≡ none = (Fits-check_value spec value).1 fits in
      ground (arith, verdict-own schema key value spec e present)
  | inr (e, i) ↦ ground arith
]

-- The number of details.
unfoldable size : Fields → ℕ
size end = 0
size (field key value rest) = suc (size rest)

size-clean_of :
    (schema : Schema) (supplied : Fields) → size (clean_of schema supplied) ≤ size supplied
unfolding clean_of size
size-clean_of schema end = ground arith
size-clean_of schema (field key value rest) = elim (Verdict-cases (verdict schema key value)) [
  | inl e ↦ ground (arith, size-clean_of schema rest)
  | inr (inl e) ↦ elim (Bool-cases (is_proto key)) [
    | inl i ↦ ground (arith, size-clean_of schema rest)
    | inr i ↦ ground (arith, size-clean_of schema rest)
  ]
  | inr (inr (p, e)) ↦ ground (arith, size-clean_of schema rest)
]

-- The details that the loop keeps are not fewer only where each is taken.
clean_of-less :
    (schema : Schema) (key : Text) (value : Json) (rest : Fields)
    → clean_of schema rest ≢ field key value rest
unfolding size
clean_of-less schema key value rest e =
    let less = size-clean_of schema rest in
    let more : size (clean_of schema rest) ≡ suc (size rest) = rw e refl in omega arith

AllFitting-clean_of :
    (schema : Schema) (supplied : Fields)
    → clean_of schema supplied ≡ supplied
    → AllFitting schema supplied
unfolding clean_of
AllFitting-clean_of schema end h = tt
AllFitting-clean_of schema (field key value rest) h =
    elim (Verdict-cases (verdict schema key value)) [
      | inl e ↦ absurd (clean_of-less schema key value rest (ground arith))
      | inr (inl e) ↦ elim (Bool-cases (is_proto key)) [
        | inl i ↦ absurd (clean_of-less schema key value rest (ground arith))
        | inr i ↦
            let later : clean_of schema rest ≡ rest = ground arith in
            (IsFitting-verdict schema key value e i, AllFitting-clean_of schema rest later)
      ]
      | inr (inr (p, e)) ↦ absurd (clean_of-less schema key value rest (ground arith))
    ]

clean_of-AllFitting :
    (schema : Schema) (supplied : Fields)
    → AllFitting schema supplied
    → (clean_of schema supplied ≡ supplied) × (errors_of schema supplied ≡ [])
unfolding clean_of errors_of
clean_of-AllFitting schema end h = (refl, refl)
clean_of-AllFitting schema (field key value rest) (fits, later) =
    let v = verdict-IsFitting schema key value fits in
    let (kept, fine) = clean_of-AllFitting schema rest later in
    let (_, free, _) = fits in (ground (arith, v, kept, free), ground (arith, v, fine))

-- One or more details are stored as they were submitted exactly when the category has a schema and each
-- is not null, is not named __proto__, and either fits the category's own specification of it (a text
-- of at most its length and among its choices, a whole number in its range, a Boolean, or a list of at
-- most so many texts of at most so many characters) or has no own specification and an inherited name.
pub validate_ad_attributes_iff :
    (slug key : Text) (value : Json) (rest : Fields)
    → (validate_ad_attributes slug (object (field key value rest)) ≡ store (field key value rest))
      ↔ ((schema : Schema) × (attribute_schema slug ≡ some schema)
          × AllFitting schema (field key value rest))
unfolding validate_ad_attributes validate_fields
validate_ad_attributes_iff slug key value rest = (to, from)
  where
    supplied : Fields
    supplied = field key value rest

    to :
        validate_ad_attributes slug (object (field key value rest)) ≡ store (field key value rest)
        → (schema : Schema) × (attribute_schema slug ≡ some schema)
          × AllFitting schema (field key value rest)
    to h =
        let (schema, e, v) = schema_used slug (field key value rest) (field key value rest) h in
        let (same, _) =
          validate_fields-store schema (field key value rest) (field key value rest) v in
        (schema, e, AllFitting-clean_of schema (field key value rest) (sym same))

    from :
        ((schema : Schema) × (attribute_schema slug ≡ some schema)
          × AllFitting schema (field key value rest))
        → validate_ad_attributes slug (object (field key value rest)) ≡ store (field key value rest)
    from (schema, e, fits) =
        let (kept, fine) = clean_of-AllFitting schema (field key value rest) fits in
        rw (validate_ad_attributes, e, validate_fields, fine, kept) refl
