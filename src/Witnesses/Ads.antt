-- ===== src/Witnesses/Ads.antt =====
-- The properties of listings at concrete inputs: listing 7 of seller 1, saved by user 3.
use v2_backend.Marketplace.Marks.{marks}
use v2_backend.Common.Int.{pos}
use v2_backend.Marketplace.Saving.{browsing_counts, set_wishlisted_count}
use v2_backend.Marketplace.Managing.{IsDescribed, managing_describes, strangers_manage_nothing}
use v2_backend.Marketplace.Selling.{
  AdEdit, NewAd, detail, set_wishlisted, AdminModule, create_ad, can_moderate, update_ad,
  rental_module, remove_ad,
}
use v2_backend.Marketplace.Counters.{IsCounted}
use v2_backend.Table.Listed.{visible, listed}
use v2_backend.Marketplace.Listings.{
  ListingTable, InterestTable, Listing, Stall, listing_key, interest_key, find_by_id,
  listing_conflict, interest_conflict, remove_from_wishlist, unmark_wish, active,
}
use v2_backend.Marketplace.Attributes.{
  end, field, validate_ad_attributes, validate_fields, int, outcome, errors_of, clean_of, verdict,
  spec_of, own_spec, check_value, check_int, attribute_schema,
}
use v2_backend.Auth.Model.{UserType}
use v2_backend.Common.{
  ℕ, List, codes, ◌∷◌, arith, none, [], false, some, if◌then◌else◌, ◌==◌, ◌≡◌, refl, Bool-cases,
  inl, inr,
}

abbrev ad_table : ListingTable
ad_table = listed listing_key listing_conflict

abbrev mark_table : InterestTable
mark_table = listed interest_key interest_conflict

abbrev seven : Listing
seven = record {
  id = 7;
  seller = 1;
  title = codes "Sedan";
  description = [];
  category = codes "car_rental";
  icon = codes "car";
  price = 200_000;
  price_unit = [];
  locality = none;
  city = none;
  pin_lat = none;
  pin_lng = none;
  attributes = some (field (codes "seats") (int (pos 5)) end);
  status = active;
  view_count = 0;
  wishlist_count = 1;
  rating_average = 0;
  rating_count = 0;
  deleted_at = none;
  images = [];
}

abbrev stall : Stall ad_table mark_table
stall = record {
  listings = seven ∷ [];
  views = [];
  wishes = record { id = 20; ad = 7; user = 3 } ∷ [];
}

counted : IsCounted ad_table mark_table stall
unfolding visible
counted = (
  (λ k x e. ground arith),
  (λ ad who. ground arith),
  (λ k x e. ground arith),
  (λ ad who. ground arith),
)

described : IsDescribed ad_table mark_table stall
unfolding visible validate_ad_attributes validate_fields outcome errors_of clean_of verdict spec_of
    own_spec check_value check_int attribute_schema
described k l e = elim (Bool-cases (7 == k)) [
  | inl same ↦ let is_seven : seven ≡ l = ground arith in rw (← is_seven) refl
  | inr other ↦ ground arith
]

browsing_counts_example :
    IsCounted ad_table mark_table (detail ad_table mark_table 7 3 21 stall).1
    × IsCounted ad_table mark_table (set_wishlisted ad_table mark_table 7 3 false 21 stall).1
browsing_counts_example = browsing_counts ad_table mark_table 7 3 false 21 stall counted

set_wishlisted_count_example :
    pos 0
    ≡ pos (marks mark_table 7 (set_wishlisted ad_table mark_table 7 3 false 21 stall).1.wishes)
unfolding visible set_wishlisted find_by_id remove_from_wishlist unmark_wish
set_wishlisted_count_example =
    set_wishlisted_count ad_table mark_table 7 3 false 21 stall false (pos 0) counted refl

abbrev repaint : AdEdit
repaint = record {
  title = none;
  description = none;
  category = some (codes "cleaning");
  price = none;
  price_unit = none;
  icon = none;
  locality = none;
  city = none;
  pin_lat = none;
  pin_lng = none;
  status = none;
  image_keys = none;
  attributes = none;
}

abbrev another : NewAd
another = record {
  title = codes "Deep clean";
  description = none;
  category = codes "cleaning";
  price = 50_000;
  price_unit = none;
  icon = none;
  locality = none;
  city = none;
  pin_lat = none;
  pin_lng = none;
  status = none;
  image_keys = none;
  attributes = none;
}

abbrev rentals : ℕ → List AdminModule
rentals id = if id == 2 then rental_module ∷ [] else []

managing_describes_example :
    IsDescribed ad_table mark_table (create_ad ad_table mark_table another 1 8 stall).1
    × IsDescribed ad_table mark_table
        (update_ad ad_table mark_table rentals 1 UserType.user 7 repaint stall).1
    × IsDescribed ad_table mark_table
        (remove_ad ad_table mark_table rentals 1 UserType.user 7 99 stall).1
managing_describes_example =
    managing_describes ad_table mark_table rentals 1 UserType.user 7 8 99 repaint another stall
      described

strangers_manage_nothing_example :
    ((update_ad ad_table mark_table rentals 4 UserType.admin 7 repaint stall).1 ≡ stall)
    × ((remove_ad ad_table mark_table rentals 4 UserType.admin 7 99 stall).1 ≡ stall)
unfolding visible can_moderate
strangers_manage_nothing_example =
    strangers_manage_nothing ad_table mark_table rentals 4 UserType.admin 7 repaint 99 stall seven
      refl (λ may. ground arith)
