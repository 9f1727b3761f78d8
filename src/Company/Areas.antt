-- ===== src/Company/Areas.antt =====
-- The areas that a company serves, of src/modules/admin/admin-catalog.service.ts. The maps service is
-- given by its answers.
use v2_backend.HomeServices.Model.{Point}
use v2_backend.Table.{Table}
use v2_backend.Common.Error.{Resource}
use v2_backend.Common.{
  ℕ, Option, Text, Bool, Result, some, is_some, Action, List, ◌==◌, false, ◌||◌, get_or, none,
  ◌>>=◌, ok, ◌++◌, not, if◌then◌else◌, true, ◌&&◌, err, gets, ◌∷◌, codes, same_text, Failure,
  or_throw, pure, [], ◌>>◌, modify,
}

-- `ServiceLocation`
pub record Area : Type 0 where
  pub id : ℕ
  pub company : Option ℕ
  pub area : Text
  pub district : Text
  pub pincode : Text
  pub radius_km : ℕ
  pub pin : Option Point
  pub active : Bool

-- `CreateLocationDto` and `UpdateLocationDto`
pub record NewArea : Type 0 where
  pub area : Text
  pub district : Text
  pub pincode : Text
  pub radius_km : ℕ
  pub active : Option Bool

pub record AreaEdit : Type 0 where
  pub area : Option Text
  pub district : Option Text
  pub pincode : Option Text
  pub radius_km : Option ℕ
  pub active : Option Bool

-- `search` and `details` of the places service.
pub record Maps : Type 0 where
  pub search : Text → Result (List ℕ)
  pub details : ℕ → Result Point

abbrev pub area_key : Area → ℕ
area_key l = l.id

abbrev pub area_conflict : Area → Area → Bool
area_conflict a b = b.id == a.id

abbrev pub AreaTable : Type 1
AreaTable = Table Area area_key area_conflict

abbrev pub point_of : Result Point → Option Point
point_of (ok p) = some p
point_of (err e) = none

abbrev pub first_place : Maps → Result (List ℕ) → Option Point
first_place maps (ok []) = none
first_place maps (ok (place ∷ rest)) = point_of (maps.details place)
first_place maps (err e) = none

-- The centre of an area, `none` where the maps do not find it or fail.
unfoldable pub geocode : Maps → Text → Text → Text → Option Point
geocode maps area district pincode =
    first_place maps
      (maps.search (area ++ codes ", " ++ district ++ codes " " ++ pincode ++ codes ", India"))

-- A given text that is not the one before.
abbrev pub changes : Option Text → Text → Bool
changes none old = false
changes (some new) old = not (same_text new old)

abbrev pub is_moved : AreaEdit → Area → Bool
is_moved dto current =
    changes dto.area current.area
    || changes dto.district current.district
    || changes dto.pincode current.pincode

-- The centre is found again only where the place changed, or was never found.
unfoldable pub centre_of : Maps → AreaEdit → Area → Option Point
unfolding geocode
centre_of maps dto current =
    if is_moved dto current || not (is_some current.pin)
    then geocode maps (get_or dto.area current.area) (get_or dto.district current.district)
        (get_or dto.pincode current.pincode)
    else current.pin

abbrev pub new_area : Maps → NewArea → ℕ → ℕ → Area
new_area maps dto company id = record {
  id = id;
  company = some company;
  area = dto.area;
  district = dto.district;
  pincode = dto.pincode;
  radius_km = dto.radius_km;
  pin = geocode maps dto.area dto.district dto.pincode;
  active = get_or dto.active true;
}

abbrev pub edited_area : AreaEdit → Option Point → Area → Area
edited_area dto pin l = record l {
  area = get_or dto.area l.area;
  district = get_or dto.district l.district;
  pincode = get_or dto.pincode l.pincode;
  radius_km = get_or dto.radius_km l.radius_km;
  pin = pin;
  active = get_or dto.active l.active;
}

-- `AdminLocationDto`, by what it adds to the row.
pub record AreaView : Type 0 where
  pub location : Area
  pub mapped : Bool
  pub pending_bookings : ℕ

unfoldable pub location_json : Area → ℕ → AreaView
location_json l waiting = record {
  location = l;
  mapped = is_some l.pin;
  pending_bookings = waiting;
}

module _ (maps : Maps) (at : AreaTable) where
  abbrev pub area_at : ℕ → at.Rows → Option Area
  area_at id s = at.find (λ l. l.id == id) s

  abbrev pub owns : ℕ → Area → Bool
  owns company l = elim l.company [ none ↦ false | some c ↦ c == company ]

  -- `location`: one of this company.
  unfoldable pub find_area : ℕ → ℕ → at.Rows → Option Area
  find_area id company s = at.find (λ l. l.id == id && owns company l) s

  unfoldable pub create_location : ℕ → NewArea → ℕ → Action at.Rows AreaView
  unfolding geocode location_json
  create_location company dto id s = elim (at.create (new_area maps dto company id) s) [
    | none ↦ (err Failure.crash, s)
    | some t ↦ (ok (location_json (new_area maps dto company id) 0), t)
  ]

  unfoldable pub write_area : ℕ → (Area → Area) → Action at.Rows Area
  write_area id f = do
    found ← gets (area_at id)
    row ← or_throw found Failure.crash
    modify (λ s. (at.update_many (λ l. l.id == id) f s).0)
    pure (f row)

  -- `waiting` is the number of pending bookings of an area.
  unfoldable pub update_location : (ℕ → ℕ) → ℕ → ℕ → AreaEdit → Action at.Rows AreaView
  unfolding find_area centre_of write_area location_json
  update_location waiting company id dto = do
    found ← gets (find_area id company)
    current ← or_throw found (Failure.not_found Resource.location)
    updated ← write_area id (edited_area dto (centre_of maps dto current))
    pure (location_json updated (waiting id))
