-- ===== src/HomeServices/Requests.antt =====
-- What a request needs to be booked, and what it becomes.
use v2_backend.HomeServices.Placing.{place_booking-IsConsistent}
use v2_backend.Common.Error.{payments_unavailable, area_not_served, Resource}
use v2_backend.HomeServices.Rules.{AreaRule, match_area, quote}
use v2_backend.HomeServices.Service.{
  place_booking, book, Catalogue, Moment, BookingRequest, HomeService, new_booking, Address,
  is_live, address_text, take_promo, quote_of,
}
use v2_backend.Common.Keeps.{Keeps}
use v2_backend.Razorpay.Service.{Gateway}
use v2_backend.Razorpay.Invariant.{IsConsistent}
use v2_backend.HomeServices.Repository.{Db}
use v2_backend.Common.Int.{pos, ltb_ℤ, sub_ℕ, pos_part, neg_part}
use v2_backend.HomeServices.Model.{BookingTable, PaymentTable, ServiceBooking}
use v2_backend.Common.{
  ℕ, ◌≡◌, some, true, none, arith, inl, inr, Bool-cases, Option, Result, err, ok, refl, Failure,
  ◌⊎◌, ◌≤◌, ◌&&◌, not, false, ltb, ◌+◌,
}

module _ (bt : BookingTable) (pt : PaymentTable) (g : Gateway) where
  -- What a request needs to be booked: a live service for long enough, on no past day, at an own
  -- address in a served area, a promo code that applies if one is given, and a way to pay.
  abbrev pub IsBookable :
      Catalogue
      → Moment
      → ℕ
      → BookingRequest
      → HomeService
      → Address
      → AreaRule
      → ℕ × Option ℕ
      → Type 0
  IsBookable c m user dto service address area promo =
      (c.find_service dto.service ≡ some service)
      × (is_live service ≡ true)
      × (service.min_hours ≤ dto.hours)
      × (m.today ≤ dto.date)
      × (c.find_address dto.address user ≡ some address)
      × (match_area c.distance (c.active_areas service.vertical) (address_text address) address.pin
          ≡ some area)
      × (take_promo c dto.promo_code (quote_of service dto).subtotal m.today ≡ ok promo)
      × ((ltb_ℤ (pos 0) (sub_ℕ (quote_of service dto).subtotal promo.0) && not g.enabled) ≡ false)

  -- What a row charges: its base and its materials, less the discount.
  abbrev pub IsCharged : ServiceBooking → ℕ → Type 0
  IsCharged b discount =
      (b.discount ≡ discount)
      × (pos_part b.total + discount ≡ b.base + b.materials + neg_part b.total)

  charged :
      (c : Catalogue) (m : Moment) (user : ℕ) (dto : BookingRequest) (service : HomeService)
      (address : Address) (area : AreaRule) (promo : ℕ × Option ℕ)
      → IsCharged (new_booking c m user dto service address area promo) promo.0
  unfolding quote
  charged c m user dto service address area promo = (refl, ground arith)

  -- Booking throws and leaves the stores alone, or the request meets every condition (a live service
  -- for enough hours, no past day, an own address in a served area, a promo code that applies if one is
  -- given, a way to pay) and the row computed from it, whose total is its base and materials less the
  -- discount of the code, is placed.
  pub book_ends :
      (c : Catalogue) (m : Moment) (user : ℕ) (dto : BookingRequest) (s : Db bt pt)
      → ((e : Failure) × (book g bt pt c m user dto s ≡ (err e, s)))
        ⊎ ((service : HomeService) × (address : Address) × (area : AreaRule) × (promo : ℕ
              × Option ℕ)
            × IsBookable c m user dto service address area promo
            × IsCharged (new_booking c m user dto service address area promo) promo.0
            × (book g bt pt c m user dto s
                ≡ place_booking g bt pt
                    (new_booking c m user dto service address area promo)
                    m.now
                    s))
  unfolding book
  book_ends c m user dto s = serviced (c.find_service dto.service) refl
    where
      Ends : Type 0
      Ends =
          ((e : Failure) × (book g bt pt c m user dto s ≡ (err e, s)))
          ⊎ ((service : HomeService) × (address : Address) × (area : AreaRule) × (promo : ℕ
                × Option ℕ)
              × IsBookable c m user dto service address area promo
              × IsCharged (new_booking c m user dto service address area promo) promo.0
              × (book g bt pt c m user dto s
                  ≡ place_booking g bt pt (new_booking c m user dto service address area promo)
                      m.now s))

      payable :
          (service : HomeService) (address : Address) (area : AreaRule) (promo : ℕ × Option ℕ)
          → c.find_service dto.service ≡ some service
          → is_live service ≡ true
          → ltb dto.hours service.min_hours ≡ false
          → ltb dto.date m.today ≡ false
          → c.find_address dto.address user ≡ some address
          → match_area c.distance
              (c.active_areas service.vertical)
              (address_text address)
              address.pin
            ≡ some area
          → take_promo c dto.promo_code (quote_of service dto).subtotal m.today ≡ ok promo
          → Ends
      payable service address area promo e l o d f a p =
          elim (Bool-cases
            (ltb_ℤ (pos 0) (sub_ℕ (quote_of service dto).subtotal promo.0) && not g.enabled)) [
              | inl refused ↦ inl (Failure.domain 503 payments_unavailable, ground arith)
              | inr able ↦ inr (
                service,
                address,
                area,
                promo,
                (e, l, ground arith, ground arith, f, a, p, able),
                charged c m user dto service address area promo,
                ground arith,
              )
            ]

      priced :
          (service : HomeService) (address : Address) (area : AreaRule) (r : Result (ℕ × Option ℕ))
          → c.find_service dto.service ≡ some service
          → is_live service ≡ true
          → ltb dto.hours service.min_hours ≡ false
          → ltb dto.date m.today ≡ false
          → c.find_address dto.address user ≡ some address
          → match_area c.distance
              (c.active_areas service.vertical)
              (address_text address)
              address.pin
            ≡ some area
          → take_promo c dto.promo_code (quote_of service dto).subtotal m.today ≡ r
          → Ends
      priced service address area (err x) e l o d f a p = inl (x, ground arith)
      priced service address area (ok promo) e l o d f a p =
          payable service address area promo e l o d f a p

      located :
          (service : HomeService) (address : Address) (x : Option AreaRule)
          → c.find_service dto.service ≡ some service
          → is_live service ≡ true
          → ltb dto.hours service.min_hours ≡ false
          → ltb dto.date m.today ≡ false
          → c.find_address dto.address user ≡ some address
          → match_area c.distance
              (c.active_areas service.vertical)
              (address_text address)
              address.pin
            ≡ x
          → Ends
      located service address none e l o d f a =
          inl (Failure.domain 422 area_not_served, ground arith)
      located service address (some area) e l o d f a =
          priced service address area
            (take_promo c dto.promo_code (quote_of service dto).subtotal m.today) e l o d f a refl

      addressed :
          (service : HomeService) (x : Option Address)
          → c.find_service dto.service ≡ some service
          → is_live service ≡ true
          → ltb dto.hours service.min_hours ≡ false
          → ltb dto.date m.today ≡ false
          → c.find_address dto.address user ≡ x
          → Ends
      addressed service none e l o d f = inl (Failure.not_found Resource.address, ground arith)
      addressed service (some address) e l o d f =
          located service address
            (match_area c.distance (c.active_areas service.vertical) (address_text address)
              address.pin)
            e l o d f refl

      serviced : (x : Option HomeService) → c.find_service dto.service ≡ x → Ends
      serviced none e = inl (Failure.not_found Resource.service, ground arith)
      serviced (some service) e = elim (Bool-cases (is_live service)) [
        | inr dead ↦ inl (Failure.not_found Resource.service, ground arith)
        | inl l ↦ elim (Bool-cases (ltb dto.hours service.min_hours)) [
          | inl short ↦ inl (Failure.validation, ground arith)
          | inr o ↦ elim (Bool-cases (ltb dto.date m.today)) [
            | inl past ↦ inl (Failure.validation, ground arith)
            | inr d ↦ addressed service (c.find_address dto.address user) e l o d refl
          ]
        ]
      ]

  -- Booking keeps the stores consistent, whatever fails on the way.
  pub book-IsConsistent :
      (c : Catalogue) (m : Moment) (user : ℕ) (dto : BookingRequest)
      → Keeps (IsConsistent bt pt) (book g bt pt c m user dto)
  book-IsConsistent c m user dto s h = elim (book_ends c m user dto s) [
    | inl (e, f) ↦ rw f h
    | inr (service, address, area, promo, _, _, f) ↦ rw f (
        place_booking-IsConsistent bt pt g (new_booking c m user dto service address area promo)
          m.now s refl h)
  ]
