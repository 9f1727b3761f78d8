-- ===== src/Witnesses/Attributes.antt =====
-- The properties of a listing's details at concrete inputs.
use v2_backend.Marketplace.Details.{
  AllTaken, validate_ad_attributes-inherited, AllTaken-validate_ad_attributes,
}
use v2_backend.Common.Int.{pos}
use v2_backend.Marketplace.Accepting.{AllFitting, validate_ad_attributes_iff}
use v2_backend.Marketplace.Attributes.{
  end, field, store, Fields, validate_ad_attributes, own_spec, validate_fields, attribute_schema,
  int, outcome, object, errors_of, fraction, null, clean_of, verdict, spec_of, elkstay_schema,
  check_value, check_int, Schema, text,
}
use v2_backend.Common.{codes, ◌≡◌, refl, some, ◌↔◌}

abbrev details : Fields
details =
    field (codes "seats") (int (pos 5))
      (field (codes "fuel") null (field (codes "toString") fraction end))

abbrev kept_details : Fields
kept_details = field (codes "seats") (int (pos 5)) (field (codes "toString") fraction end)

AllTaken-validate_ad_attributes_example :
    (schema : Schema) × (attribute_schema (codes "car_rental") ≡ some schema)
    × AllTaken schema kept_details
unfolding validate_ad_attributes validate_fields outcome errors_of clean_of verdict spec_of own_spec
    check_value check_int attribute_schema
AllTaken-validate_ad_attributes_example =
    AllTaken-validate_ad_attributes (codes "car_rental") details kept_details refl

abbrev fitting : Fields
fitting =
    field (codes "subCategory") (text (codes "SUV"))
      (field (codes "seats") (int (pos 5)) (field (codes "toString") fraction end))

validate_ad_attributes_iff_example :
    (validate_ad_attributes (codes "car_rental") (object fitting) ≡ store fitting) ↔ (
      (schema : Schema) × (attribute_schema (codes "car_rental") ≡ some schema)
      × AllFitting schema fitting)
validate_ad_attributes_iff_example =
    validate_ad_attributes_iff (codes "car_rental") (codes "subCategory") (text (codes "SUV"))
      (field (codes "seats") (int (pos 5)) (field (codes "toString") fraction end))

validate_ad_attributes-inherited_example :
    validate_ad_attributes (codes "elkstay") (object (field (codes "toString") fraction end))
    ≡ store (field (codes "toString") fraction end)
unfolding own_spec attribute_schema
validate_ad_attributes-inherited_example =
    validate_ad_attributes-inherited (codes "elkstay") (codes "toString") fraction elkstay_schema
      refl refl refl refl refl
