-- ===== src/Marketplace/Selling.antt =====
-- src/modules/marketplace/marketplace.service.ts: opening, saving and managing listings. The modules of
-- an admin are given, as is the address of a stored photo, `none` where the storage fails.
use v2_backend.Common.Int.{ℤ, pos, sub_ℕ}
use v2_backend.Marketplace.Listings.{
  ListingTable, AdStatus, Listing, InterestTable, find_by_id, insert_listing, find_owned,
  update_listing, soft_delete, active, record_view, add_to_wishlist, Stall, remove_from_wishlist,
}
use v2_backend.Auth.Model.{UserType}
use v2_backend.Marketplace.Attributes.{
  Validated, validate_ad_attributes, Fields, Json, store, nothing, null,
}
use v2_backend.Common.Error.{Resource}
use v2_backend.Common.{
  ℕ, Text, Option, Bool, List, ◌∷◌, some, Result, false, has_text, [], trim, ok, get_or, true,
  codes, none, err, ◌&&◌, if◌then◌else◌, Action, Failure, same_text, any, ◌+◌, ◌>>=◌, gets, answer,
  or_throw, pure, ◌>>◌, throw_if, not, ◌==◌,
}

abbrev default_ad_icon : Text
default_ad_icon = 55_357 ∷ 57_037 ∷ 65_039 ∷ []

unfoldable pub or_null : Option Text → Option Text
or_null none = none
or_null (some t) = let trimmed = trim t in elim trimmed [ [] ↦ none | c ∷ r ↦ some (c ∷ r) ]

-- `CreateAdDto`
pub record NewAd : Type 0 where
  pub title : Text
  pub description : Option Text
  pub category : Text
  pub price : ℕ
  pub price_unit : Option Text
  pub icon : Option Text
  pub locality : Option Text
  pub city : Option Text
  pub pin_lat : Option ℕ
  pub pin_lng : Option ℕ
  pub status : Option AdStatus
  pub image_keys : Option (List Text)
  pub attributes : Option Json

-- `UpdateAdDto`
pub record AdEdit : Type 0 where
  pub title : Option Text
  pub description : Option Text
  pub category : Option Text
  pub price : Option ℕ
  pub price_unit : Option Text
  pub icon : Option Text
  pub locality : Option Text
  pub city : Option Text
  pub pin_lat : Option ℕ
  pub pin_lng : Option ℕ
  pub status : Option AdStatus
  pub image_keys : Option (List Text)
  pub attributes : Option Json

-- What is stored of a validation, or the exception.
unfoldable pub taken_details : Validated → Result (Option Fields)
taken_details nothing = ok none
taken_details (store f) = ok (some f)
taken_details _ = err Failure.validation

-- `dto.icon || DEFAULT_AD_ICON`
abbrev pub icon_or_default : Option Text → Text
icon_or_default none = default_ad_icon
icon_or_default (some []) = default_ad_icon
icon_or_default (some (c ∷ t)) = c ∷ t

abbrev pub new_listing : NewAd → ℕ → ℕ → Option Fields → Listing
new_listing dto seller id attributes = record {
  id = id;
  seller = seller;
  title = dto.title;
  description = get_or dto.description [];
  category = dto.category;
  icon = icon_or_default dto.icon;
  price = dto.price;
  price_unit = get_or dto.price_unit [];
  locality = dto.locality;
  city = dto.city;
  pin_lat = dto.pin_lat;
  pin_lng = dto.pin_lng;
  attributes = attributes;
  status = get_or dto.status active;
  view_count = 0;
  wishlist_count = 0;
  rating_average = 0;
  rating_count = 0;
  deleted_at = none;
  images = get_or dto.image_keys [];
}

-- A value that is written where it is given, over a column that may be null.
abbrev pub given : {A : Type 0} → Option A → Option A → Option A
given none old = old
given (some a) old = some a

-- The details that an edit writes: `none` leaves the column as it is.
abbrev pub written_details : Result (Option Fields) → Result (Option (Option Fields))
written_details (ok d) = ok (some d)
written_details (err e) = err e

unfoldable pub edited_details : Text → Text → Option Json → Result (Option (Option Fields))
unfolding validate_ad_attributes taken_details
edited_details category old (some raw) =
    written_details (taken_details (validate_ad_attributes category raw))
edited_details category old none = if same_text category old then ok none else ok (some none)

abbrev pub edited_listing : AdEdit → Option (Option Fields) → Listing → Listing
edited_listing dto details l = record l {
  title = get_or dto.title l.title;
  description = get_or dto.description l.description;
  category = get_or dto.category l.category;
  price = get_or dto.price l.price;
  price_unit = get_or dto.price_unit l.price_unit;
  icon = get_or dto.icon l.icon;
  locality = given dto.locality l.locality;
  city = given dto.city l.city;
  pin_lat = given dto.pin_lat l.pin_lat;
  pin_lng = given dto.pin_lng l.pin_lng;
  attributes = get_or details l.attributes;
  status = get_or dto.status l.status;
}

pub data AdminModule : Type 0 where
  clean_module repair_module rental_module : AdminModule

abbrev pub is_rental : AdminModule → Bool
is_rental clean_module = false
is_rental repair_module = false
is_rental rental_module = true

abbrev pub is_admin : UserType → Bool
is_admin role = elim role [ UserType.admin ↦ true | _ ↦ false ]

-- `canModerate`, by the modules that the table holds.
unfoldable pub can_moderate : (ℕ → List AdminModule) → ℕ → UserType → Text → Bool
can_moderate modules id role category =
    has_text category (codes "car_rental" ∷ []) && is_admin role && any is_rental (modules id)

module _ (lt : ListingTable) (it : InterestTable) where
  unfoldable pub detail : ℕ → ℕ → ℕ → Action (Stall lt it) (Listing × ℕ)
  unfolding find_by_id record_view
  detail id who row_id = do
    found ← gets (find_by_id lt it id)
    ad ← or_throw found (Failure.not_found Resource.ad)
    first ← record_view lt it id who row_id
    pure (ad, ad.view_count + (if first then 1 else 0))

  -- The count after a change of the caller's mark.
  abbrev pub shown_count : ℕ → Bool → Bool → ℤ
  shown_count n changed wishlisted =
      if changed then (if wishlisted then pos (n + 1) else sub_ℕ n 1) else pos n

  unfoldable pub set_wishlisted : ℕ → ℕ → Bool → ℕ → Action (Stall lt it) (Bool × ℤ)
  unfolding find_by_id add_to_wishlist remove_from_wishlist
  set_wishlisted id who wishlisted row_id = do
    found ← gets (find_by_id lt it id)
    ad ← or_throw found (Failure.not_found Resource.ad)
    changed ←
        if wishlisted
        then add_to_wishlist lt it id who row_id
        else remove_from_wishlist lt it id who
    pure (wishlisted, shown_count ad.wishlist_count changed wishlisted)

  unfoldable pub create_ad : NewAd → ℕ → ℕ → Action (Stall lt it) Listing
  unfolding validate_ad_attributes taken_details insert_listing
  create_ad dto seller id = do
    details ←
        answer (taken_details (validate_ad_attributes dto.category (get_or dto.attributes null)))
    insert_listing lt it (new_listing dto seller id details)

  module _ (modules : ℕ → List AdminModule) where
    unfoldable pub assert_can_manage : ℕ → UserType → ℕ → Action (Stall lt it) Listing
    unfolding find_owned can_moderate
    assert_can_manage caller role id = do
      found ← gets (find_owned lt it id)
      ad ← or_throw found (Failure.not_found Resource.ad)
      throw_if (not (ad.seller == caller) && not (can_moderate modules caller role ad.category))
          Failure.forbidden
      pure ad

    unfoldable pub update_ad : ℕ → UserType → ℕ → AdEdit → Action (Stall lt it) Listing
    unfolding assert_can_manage edited_details update_listing
    update_ad caller role id dto = do
      existing ← assert_can_manage caller role id
      details ←
          answer (
            edited_details (get_or dto.category existing.category) existing.category dto.attributes)
      update_listing lt it id (edited_listing dto details) dto.image_keys

    unfoldable pub remove_ad : ℕ → UserType → ℕ → ℕ → Action (Stall lt it) Listing
    unfolding assert_can_manage soft_delete
    remove_ad caller role id now = do
      existing ← assert_can_manage caller role id
      soft_delete lt it id now
