-- ===== src/Witnesses.antt =====
-- The properties, each applied at concrete inputs: tables as lists, one paid booking, one gateway.
pub mod Offers
pub mod Homes
pub mod Companies
pub mod Ads
pub mod Attributes
pub mod Tokens
pub mod Listings
pub mod Settings
pub mod Decisions
pub mod Stores
use v2_backend.Witnesses.Stores.{
  bookings, gateway, outside, welcome, area, payments, booking, catalogue, stores, payment, moment,
  stores-IsConsistent, remote, one_costs, worker, request, refund_due, open_due, empty,
  empty-IsConsistent, only_payment,
}
use v2_backend.HomeServices.Cancelling.{cancel_refunds}
use v2_backend.Razorpay.Jobs.{process_refunds, process_once}
use v2_backend.HomeServices.Rules.Fee.{cancellation_fee_bounds}
use v2_backend.HomeServices.Rules.Area.{IsCovering, match_area_nearest}
use v2_backend.HomeServices.Rules.Promo.{
  apply_promo_bounds, apply_promo_overshoots, apply_promo_iff, IsTakenOff,
}
use v2_backend.Admin.Dispatch.{assign-IsConsistent, assign_races}
use v2_backend.Admin.Progress.{set_status-IsConsistent}
use v2_backend.Razorpay.Refunds.{refund_once}
use v2_backend.Razorpay.Settlement.{handle_webhook-IsConsistent, verify_refuses, settle_pays}
use v2_backend.Razorpay.Repository.{
  payment_at, captured_row, payment_by_booking, claimed_row, released_row, set_refund_id,
  mark_refunded,
}
use v2_backend.HomeServices.Requests.{book-IsConsistent, IsBookable, book_ends, IsCharged}
use v2_backend.Razorpay.Queue.{RefundAnswer, process, process_payment, ask_refund}
use v2_backend.Lifecycle.{Reach-IsConsistent, go_on, stay, booked, withdrawn}
use v2_backend.Common.Int.{pos, ◌≤ℤ◌, pos_part, ◌-ℤ◌, eq_ℤ}
use v2_backend.Table.Listed.{listed, visible}
use v2_backend.HomeServices.Rules.{
  AreaRule, PromoRule, apply_promo, match_area, applied, promo_discount, cancellation_fee, covering,
  raw_discount, sort_by_km, insert_by_km, area_by_pincode,
}
use v2_backend.HomeServices.Service.{
  HomeService, Address, Catalogue, Moment, BookingRequest, cancel, book, place_booking, new_booking,
}
use v2_backend.Admin.Bookings.{Outside, Professional, approved, assign, set_status, assign_read}
use v2_backend.Razorpay.Invariant.{IsConsistent, IsPaid}
use v2_backend.HomeServices.Repository.{Db, booking_at, cancel_row}
use v2_backend.Razorpay.Service.{
  RemotePayment, Gateway, settled, payment_captured, is_valid_payment_signature, handle_webhook,
  refund, verify, settle,
}
use v2_backend.HomeServices.Model.{
  BookingTable, PaymentTable, BookingStatus, PaymentStatus, ServiceBooking, ServicePayment,
  booking_id, payment_booking, cleaning, booking_conflict, payment_conflict, cancelled,
  awaiting_payment, pending, refund_pending, created, captured, refunded, confirmed,
}
use v2_backend.Common.{
  ℕ, ◌≡◌, true, ◌∷◌, [], arith, some, none, ◌+◌, Bool-cases, false, ◌==◌, ok, inl, inr, Failure,
  err, ◌≢◌, ◌⊎◌, ◌↔◌, ◌<◌, ◌≤◌, Option, ltb, ◌*◌, refl, All, codes, if◌then◌else◌, ◌&&◌,
}

Reach-IsConsistent_example :
    IsConsistent bookings payments
      (cancel gateway bookings payments 1 7 9000
        (book gateway bookings payments catalogue moment 1 request empty).1).1
Reach-IsConsistent_example =
    Reach-IsConsistent outside gateway bookings payments
      (go_on (go_on (stay empty) (booked catalogue moment 1 request empty))
        (withdrawn 1 7 9000 (book gateway bookings payments catalogue moment 1 request empty).1))
      empty-IsConsistent

settle_pays_example :
    let (r, s') =
      settle gateway bookings payments
        (payment created)
        90
        9000
        (stores awaiting_payment created) in
    (r ≡ ok tt)
    × (payment_at bookings payments 7 s' ≡ some (captured_row 90 2 9000 (payment created)))
    × (booking_at bookings payments 7 s' ≡ some (released_row (booking awaiting_payment)))
unfolding visible
settle_pays_example =
    settle_pays bookings payments gateway 7 90 9000 (stores awaiting_payment created)
      (payment created) (booking awaiting_payment) remote
      (stores-IsConsistent awaiting_payment created open_due) refl refl refl refl refl refl
      (λ j q x y. only_payment awaiting_payment created j q x)

verify_refuses_example :
    ((verify gateway bookings payments 7 30 90 5 9000 (stores awaiting_payment created)).0 ≢ ok tt)
    × ((verify gateway bookings payments 7 30 90 5 9000 (stores awaiting_payment created)).1
        ≡ stores awaiting_payment created)
unfolding is_valid_payment_signature
verify_refuses_example =
    verify_refuses bookings payments gateway 7 30 90 5 9000 (stores awaiting_payment created)
      (inl refl)

refund_once_example :
    let s' = (refund gateway bookings payments 7 (pos 50000) (stores cancelled captured)).1 in
    (refund gateway bookings payments 7 (pos 40000) s').1.refund_jobs ≡ s'.refund_jobs
refund_once_example =
    refund_once bookings payments gateway 7 (pos 50000) (pos 40000) (stores cancelled captured)
      one_costs

-- Razorpay refunds this payment alone, and of this amount alone.
abbrev answer_refund : RefundAnswer
answer_refund payment amount =
    if (payment == 90) && eq_ℤ amount (pos 50000) then ok (55, true) else err Failure.upstream

process_refunds_example :
    ((process answer_refund bookings payments 7 9000 (stores cancelled refund_pending)).0 ≡ ok tt)
    × (payment_at bookings payments 7
          (process answer_refund bookings payments 7 9000 (stores cancelled refund_pending)).1
        ≡ some (record (payment refund_pending) {
          status = refunded;
          refund = some 55;
          refunded_at = some 9000;
        }))
unfolding visible
process_refunds_example =
    process_refunds bookings payments answer_refund 7 9000 55 (stores cancelled refund_pending)
      (payment refund_pending) (stores-IsConsistent cancelled refund_pending refund_due) refl refl
      refl (λ x y f f'. ground (arith, f, f'))
      (λ j q x y. only_payment cancelled refund_pending j q x)

process_once_example :
    process answer_refund bookings payments 7 9500
      (process answer_refund bookings payments 7 9000 (stores cancelled refund_pending)).1
    ≡ (ok tt, (process answer_refund bookings payments 7 9000 (stores cancelled refund_pending)).1)
unfolding visible process payment_by_booking process_payment ask_refund set_refund_id mark_refunded
process_once_example =
    process_once bookings payments answer_refund answer_refund 7 9000 9500
      (stores cancelled refund_pending)
      (process answer_refund bookings payments 7 9000 (stores cancelled refund_pending)).1 refl

book_ends_example :
    ((e : Failure) × (book gateway bookings payments catalogue moment 1 request empty
        ≡ (err e, empty)))
    ⊎ ((service : HomeService) × (address : Address) × (area : AreaRule) × (promo : ℕ × Option ℕ)
        × IsBookable bookings payments gateway catalogue moment 1 request service address area promo
        × IsCharged bookings payments gateway
            (new_booking catalogue moment 1 request service address area promo)
            promo.0
        × (book gateway bookings payments catalogue moment 1 request empty
            ≡ place_booking gateway bookings payments
                (new_booking catalogue moment 1 request service address area promo)
                5000
                empty))
book_ends_example = book_ends bookings payments gateway catalogue moment 1 request empty

cancel_refunds_example :
    let s' = (cancel gateway bookings payments 1 7 9000 (stores pending captured)).1 in
    (booking_at bookings payments 7 s'
      ≡ some (
          cancel_row bookings payments
            (cancellation_fee (pos 50000) 1000 9000)
            9000
            (booking pending)))
    × (payment_at bookings payments 7 s'
        ≡ some (
            claimed_row bookings payments
              (pos 50000 -ℤ cancellation_fee (pos 50000) 1000 9000)
              (payment captured)))
    × (s'.refund_jobs ≡ 7 ∷ [])
unfolding visible
cancel_refunds_example =
    cancel_refunds gateway bookings payments 1 7 9000 (stores pending captured) (booking pending)
      (payment captured) refl refl refl refl refl one_costs

assign_races_example :
    let s' =
      (assign_read outside gateway bookings payments
        (booking pending)
        6
        12
        (cleaning ∷ [])
        9000
        (stores cancelled refund_pending)).1 in
    ((x : ServiceBooking) × (booking_at bookings payments 7 s' ≡ some x)
      × (x.status ≡ confirmed)
      × (payment_at bookings payments 7 s' ≡ some (payment refund_pending)))
    × (IsConsistent bookings payments s' → ⊥)
unfolding visible
assign_races_example =
    assign_races outside gateway bookings payments (booking pending) (booking cancelled) 6 12
      (cleaning ∷ []) worker 9000 (stores cancelled refund_pending) (payment refund_pending)
      (refl, inl refl, refl, refl, refl) refl refl refl refl

apply_promo_iff_example : (apply_promo (some welcome) 50000 20260101 ≡ applied 45000 false) ↔ (
    (promo : PromoRule) × (some welcome ≡ some promo)
    × (20260101 ≤ promo.valid_till)
    × (promo.active ≡ true)
    × (promo.min_order ≤ 50000)
    × IsTakenOff promo 50000 45000 false)
apply_promo_iff_example = apply_promo_iff (some welcome) 50000 20260101 45000 false

apply_promo_bounds_example : (45000 ≤ 50000) × (0 < 0 → 45000 ≤ 0)
unfolding apply_promo promo_discount raw_discount
apply_promo_bounds_example =
    apply_promo_bounds welcome 50000 20260101 45000 false refl (ground arith) (ground arith)

apply_promo_overshoots_example :
    (apply_promo (some welcome) 180 20260101 ≡ applied 200 false) × (180 < 200)
apply_promo_overshoots_example =
    apply_promo_overshoots welcome 180 20260101 refl refl refl (ground arith) (ground arith)
      (ground arith) (ground arith)

cancellation_fee_bounds_example :
    (pos 0 ≤ℤ cancellation_fee (pos 50000) 1000 9000)
    × (cancellation_fee (pos 50000) 1000 9000 ≤ℤ pos 50000)
    × (9000 ≤ 1000 + 7_200_000 → cancellation_fee (pos 50000) 1000 9000 ≡ pos 0)
    × (1000 + 7_200_000 < 9000
        → (10 * pos_part (cancellation_fee (pos 50000) 1000 9000) ≤ 50000 + 5)
          × (50000 < 10 * pos_part (cancellation_fee (pos 50000) 1000 9000) + 5 + 1))
cancellation_fee_bounds_example = cancellation_fee_bounds 50000 1000 9000

match_area_nearest_example :
    ((km : ℕ) × IsCovering (λ a b. 1) (record { lat = 3; lng = 5 }) area km
      × All
          (λ b. (far : ℕ) → IsCovering (λ a b. 1) (record { lat = 3; lng = 5 }) b far → km ≤ far)
          (area ∷ []))
    ⊎ (All
          (λ b. (far : ℕ) → ¬ (IsCovering (λ a b. 1) (record { lat = 3; lng = 5 }) b far))
          (area ∷ [])
        × (area_by_pincode (area ∷ []) [] ≡ some area))
unfolding match_area covering sort_by_km insert_by_km
match_area_nearest_example =
    match_area_nearest (λ a b. 1) (area ∷ []) [] (record { lat = 3; lng = 5 }) area refl
