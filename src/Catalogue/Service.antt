-- ===== src/Catalogue/Service.antt =====
-- src/modules/admin/admin-catalog.service.ts: a company's admin adds, edits and deletes services. The
-- number of open bookings of a service is given; the identifier and the instant of a new row too.
use v2_backend.HomeServices.Rules.{ServicePrice}
use v2_backend.Catalogue.Repository.{
  OpenChange, insert_service, write_service, remove_service, Shop, request_new_service, withdraw,
  open_change, request_price_change, service_at,
}
use v2_backend.HomeServices.Service.{HomeService}
use v2_backend.Catalogue.Terms.{
  ChangeKind, terms_of, AskedPrice, ServiceTable, starting_price, RequestTable, is_new, same_price,
  price_of,
}
use v2_backend.HomeServices.Model.{Vertical, cleaning, repair}
use v2_backend.Common.Error.{Resource}
use v2_backend.Admin.Bookings.{same_vertical}
use v2_backend.Common.{
  ℕ, Option, Bool, List, Text, get_or, is_some, if◌then◌else◌, codes, ◌*◌, true, ◌||◌, ◌&&◌, Action,
  ◌∷◌, false, none, [], some, throw_if, ◌>>◌, ◌>>=◌, not, transaction, gets, has_text, pure,
  Failure, or_throw, any,
}

abbrev pub service_categories : Vertical → List Text
service_categories cleaning =
    codes "cln"
    ∷ codes "deep"
    ∷ codes "tnk"
    ∷ codes "sof"
    ∷ codes "crp"
    ∷ codes "kit"
    ∷ codes "bth"
    ∷ codes "lndr"
    ∷ []
service_categories repair =
    codes "ac" ∷ codes "plm" ∷ codes "elc" ∷ codes "cpt" ∷ codes "pnt" ∷ codes "gen" ∷ []

-- `CreateServiceDto`
pub record NewService : Type 0 where
  pub vertical : Vertical
  pub category : Text
  pub name : Text
  pub min_hours : ℕ
  pub price : ServicePrice
  pub active : Option Bool
  pub online : Option Bool

-- `UpdateServiceDto`
pub record ServiceEdit : Type 0 where
  pub vertical : Option Vertical
  pub category : Option Text
  pub name : Option Text
  pub min_hours : Option ℕ
  pub hourly_rate : Option ℕ
  pub extra_pro_rate : Option ℕ
  pub materials_fee : Option ℕ
  pub active : Option Bool
  pub online : Option Bool

-- `PendingChangeDto` and `AdminServiceDto`
pub record PendingView : Type 0 where
  pub id : ℕ
  pub kind : ChangeKind
  pub price : AskedPrice
  pub starting_price : ℕ
  pub requested_at : ℕ

pub record ServiceView : Type 0 where
  pub service : HomeService
  pub from_price : ℕ
  pub live : Bool
  pub pending_change : Option PendingView
  pub open_bookings : ℕ

-- A new service is its own request: what it holds now is what is asked for.
unfoldable pub pending_json : HomeService → OpenChange → PendingView
unfolding terms_of starting_price
pending_json s c =
    let price = if is_new c.kind then price_of (terms_of s) else c.requested in
    record {
      id = c.id;
      kind = c.kind;
      price = price;
      starting_price = starting_price price;
      requested_at = c.created_at;
    }

unfoldable pub service_json : HomeService → ℕ → Option OpenChange → ServiceView
unfolding pending_json
service_json s bookings change = record {
  service = s;
  from_price = s.price.hourly_rate * s.min_hours;
  live = s.approved && s.active && s.online;
  pending_change = elim change [ none ↦ none | some c ↦ some (pending_json s c) ];
  open_bookings = bookings;
}

-- The row of a new service: hidden until it is approved, and offline where it is inactive.
abbrev pub new_row : NewService → ℕ → HomeService
new_row dto id =
    let active = get_or dto.active true in
    record {
      id = id;
      name = dto.name;
      vertical = dto.vertical;
      category = dto.category;
      min_hours = dto.min_hours;
      price = dto.price;
      approved = false;
      active = active;
      online = active && get_or dto.online true;
    }

unfoldable pub prices_asked : ServiceEdit → Bool
prices_asked dto =
    is_some dto.min_hours
    || is_some dto.hourly_rate
    || is_some dto.extra_pro_rate
    || is_some dto.materials_fee

-- A price with what an edit says of it written over.
unfoldable pub with_asked : ServiceEdit → AskedPrice → AskedPrice
with_asked dto p = record {
  min_hours = get_or dto.min_hours p.min_hours;
  rates = record {
    hourly_rate = get_or dto.hourly_rate p.rates.hourly_rate;
    extra_pro_rate = get_or dto.extra_pro_rate p.rates.extra_pro_rate;
    materials_fee = get_or dto.materials_fee p.rates.materials_fee;
  };
}

abbrev pub price_now : HomeService → AskedPrice
price_now s = record { min_hours = s.min_hours; rates = s.price }

-- The price and the hours are written only to a service that was read as not approved.
unfoldable pub edited : ServiceEdit → HomeService → HomeService → HomeService
unfolding with_asked
edited dto current r =
    let price = if current.approved then price_now r else with_asked dto (price_now r) in
    let active = get_or dto.active current.active in
    record r {
      name = get_or dto.name r.name;
      vertical = get_or dto.vertical r.vertical;
      category = get_or dto.category r.category;
      min_hours = price.min_hours;
      price = price.rates;
      active = active;
      online = active && get_or dto.online current.online;
    }

module _ (st : ServiceTable) (rt : RequestTable) where
  abbrev pub check_vertical : List Vertical → Vertical → Action (Shop st rt) (Unit {0})
  check_vertical verticals v = throw_if (not (any (same_vertical v) verticals)) Failure.forbidden

  unfoldable pub check_category : Vertical → Text → Action (Shop st rt) (Unit {0})
  check_category v category =
      throw_if (not (has_text category (service_categories v))) Failure.validation

  -- The transaction of `createService`.
  unfoldable pub save_new :
      NewService → ℕ → ℕ → ℕ → ℕ → Action (Shop st rt) (HomeService × OpenChange)
  unfolding insert_service request_new_service
  save_new dto by service_id request_id now = do
    service ← insert_service st rt (new_row dto service_id)
    change ← request_new_service st rt service by request_id now
    pure (service, change)

  unfoldable pub create_service :
      NewService → ℕ → List Vertical → ℕ → ℕ → ℕ → Action (Shop st rt) ServiceView
  unfolding check_category save_new service_json
  create_service dto by verticals service_id request_id now = do
    check_vertical verticals dto.vertical
    check_category dto.vertical dto.category
    (service, change) ← transaction (save_new dto by service_id request_id now)
    pure (service_json service 0 (some change))

  -- The request that an edit of an approved service files or withdraws.
  unfoldable pub ask_price :
      ServiceEdit
      → HomeService
      → Option OpenChange
      → ℕ
      → ℕ
      → ℕ
      → Action (Shop st rt) (Option OpenChange)
  unfolding with_asked same_price withdraw request_price_change terms_of
  ask_price dto updated waiting by request_id now = do
    let live = price_of (terms_of updated)
    let wanted = with_asked dto (elim waiting [ none ↦ live | some c ↦ c.requested ])
    (if same_price wanted live
        then (withdraw st rt updated.id >> pure none)
        else (request_price_change st rt updated wanted by request_id now >>= λ change.
            pure (some change)))

  -- `updateService`, after the service was written.
  unfoldable pub ask_change :
      HomeService
      → ServiceEdit
      → ℕ
      → (ℕ → ℕ)
      → ℕ
      → ℕ
      → HomeService
      → Action (Shop st rt) ServiceView
  unfolding open_change prices_asked ask_price service_json
  ask_change current dto by bookings request_id now updated = do
    waiting ← gets (open_change st rt current.id)
    change ←
        if current.approved && prices_asked dto
        then ask_price dto updated waiting by request_id now
        else pure waiting
    pure (service_json updated (bookings current.id) change)

  -- `updateService`, after the service was read.
  unfoldable pub update_read :
      HomeService
      → ServiceEdit
      → ℕ
      → List Vertical
      → (ℕ → ℕ)
      → ℕ
      → ℕ
      → Action (Shop st rt) ServiceView
  unfolding check_category edited write_service ask_change
  update_read current dto by verticals bookings request_id now = do
    check_vertical verticals current.vertical
    check_vertical verticals (get_or dto.vertical current.vertical)
    check_category (get_or dto.vertical current.vertical) (get_or dto.category current.category)
    updated ← write_service st rt current.id (edited dto current)
    ask_change current dto by bookings request_id now updated

  unfoldable pub update_service :
      ℕ → ServiceEdit → ℕ → List Vertical → (ℕ → ℕ) → ℕ → ℕ → Action (Shop st rt) ServiceView
  unfolding update_read
  update_service id dto by verticals bookings request_id now = do
    found ← gets (service_at st rt id)
    current ← or_throw found (Failure.not_found Resource.service)
    update_read current dto by verticals bookings request_id now

  unfoldable pub delete_service : ℕ → List Vertical → Action (Shop st rt) (Unit {0})
  unfolding remove_service
  delete_service id verticals = do
    found ← gets (service_at st rt id)
    service ← or_throw found (Failure.not_found Resource.service)
    check_vertical verticals service.vertical
    transaction (remove_service st rt id)
