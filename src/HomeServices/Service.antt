-- ===== src/HomeServices/Service.antt =====
-- src/modules/home-services/home-services.service.ts: booking a service, paying for it, and
-- cancelling it. The tables that these methods only read are one argument, `Catalogue`; the clock,
-- the generated identifiers and the random code are another, `Moment`.
use v2_backend.Common.Error.{
  promo_rejected, Resource, area_not_served, invalid_transition, payments_unavailable,
}
use v2_backend.HomeServices.Repository.{Db, create_booking, find_booking, cancel_booking}
use v2_backend.Common.Int.{sub_ℕ, ltb_ℤ, pos, ◌-ℤ◌}
use v2_backend.Razorpay.Service.{Gateway, verify, checkout, refund}
use v2_backend.HomeServices.Rules.{
  Quote, AreaRule, quote, ServicePrice, PromoRule, apply_promo, applied, match_area,
  cancellation_fee,
}
use v2_backend.HomeServices.Model.{
  Vertical, Point, ServiceBooking, BookingStatus, BookingTable, pending, PaymentTable, confirmed,
  awaiting_payment, is_among,
}
use v2_backend.Common.{
  ℕ, Option, Bool, List, ◌∷◌, ◌&&◌, Result, get_or, if◌then◌else◌, [], ok, false, all, some, ltb,
  Action, ◌++◌, none, err, Failure, ◌>>=◌, ◌>>◌, or_throw, throw_if, not, pure, ◌==◌, on_error,
  answer, throw, Text, is_space,
}

pub record HomeService : Type 0 where
  pub id : ℕ
  pub name : Text
  pub vertical : Vertical
  pub category : Text
  pub min_hours : ℕ
  pub price : ServicePrice
  pub approved : Bool
  pub active : Bool
  pub online : Bool

pub record Address : Type 0 where
  pub label : Text
  pub flat_number : Text
  pub building : Text
  pub formatted : Text
  pub pin : Option Point
  pub directions : Option Text

pub record Catalogue : Type 0 where
  pub find_service : ℕ → Option HomeService
  -- an address of a user
  pub find_address : ℕ → ℕ → Option Address
  pub active_areas : Vertical → List AreaRule
  pub find_promo : ℕ → Option PromoRule
  pub find_phone : ℕ → Option Text
  pub distance : Point → Point → ℕ

pub record Moment : Type 0 where
  pub now : ℕ
  pub today : ℕ
  pub id : ℕ
  pub code : ℕ

-- `CreateServiceBookingDto`; a promo code that is left out or blank is `none`.
pub record BookingRequest : Type 0 where
  pub service : ℕ
  pub hours : ℕ
  pub professionals : ℕ
  pub with_materials : Option Bool
  pub date : ℕ
  pub time_slot : ℕ
  pub address : ℕ
  pub promo_code : Option ℕ
  pub payment_method : Option Text

-- The method of a request that names none.
abbrev razorpay : Text
razorpay = 114 ∷ 97 ∷ 122 ∷ 111 ∷ 114 ∷ 112 ∷ 97 ∷ 121 ∷ []

-- `parts.filter((part) => part && part.trim()).join(', ')`
unfoldable pub join_parts : List Text → Text
join_parts [] = []
join_parts (part ∷ parts) =
    let rest = join_parts parts in
    if all is_space part
    then rest
    else elim rest [ [] ↦ part | c ∷ r ↦ part ++ b',' ∷ b' ' ∷ c ∷ r ]

unfoldable pub address_text : Address → Text
unfolding join_parts
address_text a = join_parts (a.flat_number ∷ a.building ∷ a.formatted ∷ [])

abbrev pub is_live : HomeService → Bool
is_live s = s.approved && s.active && s.online

-- The discount and the code that a request gets, or the refusal.
unfoldable pub take_promo : Catalogue → Option ℕ → ℕ → ℕ → Result (ℕ × Option ℕ)
take_promo c none subtotal today = ok (0, none)
take_promo c (some typed) subtotal today = elim (c.find_promo typed) [
  | none ↦ err (Failure.domain 422 promo_rejected)
  | some promo ↦ elim (apply_promo (some promo) subtotal today) [
    | applied discount capped ↦ ok (discount, some promo.code)
    | _ ↦ err (Failure.domain 422 promo_rejected)
  ]
]

-- Materials can only be asked for where the service offers them.
abbrev pub takes_materials : HomeService → BookingRequest → Bool
takes_materials s dto = get_or dto.with_materials false && ltb 0 s.price.materials_fee

abbrev pub quote_of : HomeService → BookingRequest → Quote
quote_of s dto = quote s.price dto.hours dto.professionals (takes_materials s dto)

-- The row that is created; a booking with nothing to collect is pending at once.
abbrev pub new_booking :
    Catalogue
    → Moment
    → ℕ
    → BookingRequest
    → HomeService
    → Address
    → AreaRule
    → ℕ × Option ℕ
    → ServiceBooking
new_booking c m user dto service address area promo =
    let q = quote_of service dto in
    let total = sub_ℕ q.subtotal promo.0 in
    record {
      id = m.id;
      code = m.code;
      user = user;
      service = service.id;
      service_name = service.name;
      vertical = service.vertical;
      category = service.category;
      hours = dto.hours;
      professionals = dto.professionals;
      with_materials = takes_materials service dto;
      scheduled_date = dto.date;
      time_slot = dto.time_slot;
      address_label = address.label;
      address_text = address_text address;
      pin = address.pin;
      directions = address.directions;
      contact_phone = get_or (c.find_phone user) [];
      location = some area.id;
      company = area.company;
      professional = none;
      professional_name = none;
      professional_phone = none;
      status = if ltb_ℤ (pos 0) total then awaiting_payment else pending;
      base = q.base;
      materials = q.materials;
      discount = promo.0;
      total = total;
      promo_code = promo.1;
      payment_method = get_or dto.payment_method razorpay;
      cancellation_fee = pos 0;
      confirmed_at = none;
      started_at = none;
      completed_at = none;
      cancelled_at = none;
      created_at = m.now;
    }

-- A booking the customer may still walk away from.
abbrev pub customer_cancellable : List BookingStatus
customer_cancellable = pending ∷ confirmed ∷ []

module _ (g : Gateway) (bt : BookingTable) (pt : PaymentTable) where
  -- The end of `book`: the booking is made and, unless it is free, its order opened.
  unfoldable pub place_booking : ServiceBooking → ℕ → Action (Db bt pt) (ServiceBooking × Option ℕ)
  place_booking b now = do
    booking ← create_booking bt pt b
    if not (ltb_ℤ (pos 0) b.total) then pure (booking, none) else do
      order ←
          on_error (checkout g bt pt booking.id booking.code b.total)
            (λ e. do cancel_booking bt pt booking.id (awaiting_payment ∷ []) (pos 0) now; throw e)
      pure (booking, some order)

  unfoldable pub book :
      Catalogue → Moment → ℕ → BookingRequest → Action (Db bt pt) (ServiceBooking × Option ℕ)
  unfolding place_booking
  book c m user dto = do
    service ← or_throw (c.find_service dto.service) (Failure.not_found Resource.service)
    throw_if (not (is_live service)) (Failure.not_found Resource.service)
    throw_if (ltb dto.hours service.min_hours) Failure.validation
    throw_if (ltb dto.date m.today) Failure.validation
    address ← or_throw (c.find_address dto.address user) (Failure.not_found Resource.address)
    area ←
        or_throw
          (match_area c.distance (c.active_areas service.vertical) (address_text address)
            address.pin)
          (Failure.domain 422 area_not_served)
    promo ← answer (take_promo c dto.promo_code (quote_of service dto).subtotal m.today)
    throw_if (ltb_ℤ (pos 0) (sub_ℕ (quote_of service dto).subtotal promo.0) && not g.enabled)
        (Failure.domain 503 payments_unavailable)
    place_booking (new_booking c m user dto service address area promo) m.now

  -- The caller's booking; anyone else's reads as missing.
  unfoldable pub require_own : ℕ → ℕ → Action (Db bt pt) ServiceBooking
  require_own user id = do
    found ← find_booking bt pt id
    booking ← or_throw found (Failure.not_found Resource.booking)
    throw_if (not (booking.user == user)) (Failure.not_found Resource.booking)
    pure booking

  unfoldable pub verify_payment : ℕ → ℕ → ℕ → ℕ → ℕ → ℕ → Action (Db bt pt) (Option ServiceBooking)
  unfolding require_own
  verify_payment user id order payment signature now = do
    require_own user id
    verify g bt pt id order payment signature now
    find_booking bt pt id

  -- The end of `cancel`, with the booking as it was read.
  unfoldable pub cancel_read : ServiceBooking → ℕ → Action (Db bt pt) ServiceBooking
  cancel_read booking now = do
    throw_if (not (is_among customer_cancellable booking.status))
        (Failure.domain 409 invalid_transition)
    cancelled_row ←
        cancel_booking bt pt booking.id customer_cancellable
          (cancellation_fee booking.total booking.created_at now) now
    row ← or_throw cancelled_row (Failure.domain 409 invalid_transition)
    refund g bt pt booking.id
        (booking.total -ℤ cancellation_fee booking.total booking.created_at now)
    pure row

  unfoldable pub cancel : ℕ → ℕ → ℕ → Action (Db bt pt) ServiceBooking
  unfolding require_own cancel_read
  cancel user id now = do booking ← require_own user id; cancel_read booking now
