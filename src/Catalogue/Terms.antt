-- ===== src/Catalogue/Terms.antt =====
-- src/modules/admin/service-terms.ts and the rows of prisma/schema.prisma that hold requests to change
-- a service. A service's description is left out; amounts are paise.
use v2_backend.HomeServices.Model.{Vertical}
use v2_backend.Table.{Table}
use v2_backend.HomeServices.Service.{HomeService}
use v2_backend.HomeServices.Rules.{ServicePrice}
use v2_backend.Common.{ℕ, Text, Bool, ◌*◌, Option, ◌==◌, true, false, ◌&&◌, some, ◌||◌, none}

-- `ServicePrice` of the source, by the rates of a service and its minimum hours.
pub record AskedPrice : Type 0 where
  pub min_hours : ℕ
  pub rates : ServicePrice

pub record ServiceTerms : Type 0 where
  pub name : Text
  pub vertical : Vertical
  pub category : Text
  pub price : AskedPrice

unfoldable pub terms_of : HomeService → ServiceTerms
terms_of s = record {
  name = s.name;
  vertical = s.vertical;
  category = s.category;
  price = record { min_hours = s.min_hours; rates = s.price };
}

abbrev pub price_of : ServiceTerms → AskedPrice
price_of t = t.price

unfoldable pub same_price : AskedPrice → AskedPrice → Bool
same_price a b =
    a.min_hours == b.min_hours
    && a.rates.hourly_rate == b.rates.hourly_rate
    && a.rates.extra_pro_rate == b.rates.extra_pro_rate
    && a.rates.materials_fee == b.rates.materials_fee

unfoldable pub starting_price : AskedPrice → ℕ
starting_price t = t.rates.hourly_rate * t.min_hours

pub data ChangeKind : Type 0 where
  new_service price_change : ChangeKind

abbrev pub is_new : ChangeKind → Bool
is_new new_service = true
is_new price_change = false

pub data ChangeStatus : Type 0 where
  undecided accepted declined : ChangeStatus

abbrev pub is_undecided : ChangeStatus → Bool
is_undecided undecided = true
is_undecided accepted = false
is_undecided declined = false

-- `ServiceChangeRequest`
pub record ChangeRequest : Type 0 where
  pub id : ℕ
  pub kind : ChangeKind
  pub status : ChangeStatus
  pub service : Option ℕ
  pub open_for : Option ℕ
  pub before : Option ServiceTerms
  pub requested : ServiceTerms
  pub requested_by : ℕ
  pub decided_by : Option ℕ
  pub decided_at : Option ℕ
  pub note : Text
  pub created_at : ℕ

abbrev pub service_key : HomeService → ℕ
service_key s = s.id

abbrev pub service_conflict : HomeService → HomeService → Bool
service_conflict a b = b.id == a.id

abbrev pub request_key : ChangeRequest → ℕ
request_key r = r.id

-- `null` is equal to no identifier.
abbrev pub is_for : ℕ → Option ℕ → Bool
is_for k none = false
is_for k (some j) = j == k

abbrev pub both_for : Option ℕ → Option ℕ → Bool
both_for none o = false
both_for (some k) o = is_for k o

-- At most one open request for a service.
abbrev pub request_conflict : ChangeRequest → ChangeRequest → Bool
request_conflict a b = b.id == a.id || both_for a.open_for b.open_for

abbrev pub ServiceTable : Type 1
ServiceTable = Table HomeService service_key service_conflict

abbrev pub RequestTable : Type 1
RequestTable = Table ChangeRequest request_key request_conflict
