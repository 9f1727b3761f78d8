-- ===== src/Admin/Bookings.antt =====
-- src/modules/admin/admin-bookings.service.ts and admin-scope.ts: a company assigns, starts, completes
-- and cancels its bookings. Notifications to the customer are left out: a failure to send one is
-- caught, and none changes the stores. The WhatsApp to the professional is an answer from outside.
use v2_backend.Common.Error.{
  invalid_transition, not_assigned, Resource, not_approved, wrong_category,
}
use v2_backend.Common.Int.{pos}
use v2_backend.HomeServices.Repository.{Db, find_booking, cancel_booking, update_booking}
use v2_backend.Razorpay.Service.{Gateway, refund}
use v2_backend.HomeServices.Model.{
  cleaning, repair, Vertical, BookingStatus, ServiceBooking, booking_rank, BookingTable, confirmed,
  PaymentTable, in_progress, cancelled, completed, awaiting_payment, pending, is_among,
}
use v2_backend.Common.{
  ℕ, Bool, Option, List, true, Result, some, false, [], ◌==◌, get_or, Action, ◌∷◌, throw_if,
  if◌then◌else◌, ◌>>=◌, ◌>>◌, not, any, or_throw, ◌&&◌, is_some, Failure, ◌||◌, pure, when, answer,
  none, has_text, Text,
}

pub data ProfessionalStatus : Type 0 where
  waiting approved rejected : ProfessionalStatus

pub record Professional : Type 0 where
  pub id : ℕ
  pub name : Text
  pub phone : Text
  pub status : ProfessionalStatus
  pub categories : List Text

abbrev pub is_approved : ProfessionalStatus → Bool
is_approved approved = true
is_approved _ = false

-- A professional of a company, and the outcome of sending a job to one.
pub record Outside : Type 0 where
  pub find_professional : ℕ → ℕ → Option Professional
  pub send_job : ServiceBooking → Professional → Result ℕ

abbrev pub same_vertical : Vertical → Vertical → Bool
same_vertical cleaning cleaning = true
same_vertical repair repair = true
same_vertical _ _ = false

-- Where the admin may move a booking from each status.
unfoldable pub transitions : BookingStatus → List BookingStatus
transitions awaiting_payment = []
transitions pending = cancelled ∷ []
transitions confirmed = in_progress ∷ cancelled ∷ []
transitions in_progress = completed ∷ []
transitions completed = []
transitions cancelled = []

abbrev pub confirmed_row : Professional → ℕ → ServiceBooking → ServiceBooking → ServiceBooking
confirmed_row pro now read b = record b {
  professional = some pro.id;
  professional_name = some pro.name;
  professional_phone = some pro.phone;
  status = confirmed;
  confirmed_at = some (get_or read.confirmed_at now);
}

-- The stamps of `setStatus`, other than a cancel's.
abbrev pub moved_row : BookingStatus → ℕ → ServiceBooking → ServiceBooking
moved_row in_progress now b = record b { status = in_progress; started_at = some now }
moved_row completed now b = record b { status = completed; completed_at = some now }
moved_row next now b = record b { status = next }

abbrev pub is_status : BookingStatus → BookingStatus → Bool
is_status a b = booking_rank a == booking_rank b

module _ (o : Outside) (g : Gateway) (bt : BookingTable) (pt : PaymentTable) where
  unfoldable pub assert_vertical : Vertical → List Vertical → Action (Db bt pt) (Unit {0})
  assert_vertical vertical verticals =
      throw_if (not (any (same_vertical vertical) verticals)) Failure.forbidden

  -- `require`: a booking of this company.
  unfoldable pub require_company : ℕ → ℕ → Action (Db bt pt) ServiceBooking
  require_company company id = do
    found ← find_booking bt pt id
    b ← or_throw found (Failure.not_found Resource.booking)
    throw_if (not (elim b.company [ none ↦ false | some c ↦ c == company ]))
        (Failure.not_found Resource.booking)
    pure b

  -- `assign` after the booking was read.
  unfoldable pub assign_read :
      ServiceBooking → ℕ → ℕ → List Vertical → ℕ → Action (Db bt pt) (ServiceBooking × ℕ)
  unfolding assert_vertical
  assign_read booking company professional verticals now = do
    assert_vertical booking.vertical verticals
    throw_if (not (is_status booking.status pending) && not (is_status booking.status confirmed))
        (Failure.domain 409 invalid_transition)
    pro ←
        or_throw (o.find_professional professional company)
          (Failure.not_found Resource.professional)
    throw_if (not (is_approved pro.status)) (Failure.domain 409 not_approved)
    throw_if (not (has_text booking.category pro.categories)) (Failure.domain 409 wrong_category)
    updated ← update_booking bt pt booking.id (confirmed_row pro now booking)
    message ← answer (o.send_job updated pro)
    pure (updated, message)

  unfoldable pub assign : ℕ → ℕ → ℕ → List Vertical → ℕ → Action (Db bt pt) (ServiceBooking × ℕ)
  unfolding require_company assign_read
  assign company id professional verticals now = do
    booking ← require_company company id
    assign_read booking company professional verticals now

  unfoldable pub resend : ℕ → ℕ → List Vertical → Action (Db bt pt) (ServiceBooking × ℕ)
  unfolding require_company assert_vertical
  resend company id verticals = do
    booking ← require_company company id
    assert_vertical booking.vertical verticals
    throw_if
        (not (is_some booking.professional)
          || (not (is_status booking.status confirmed)
              && not (is_status booking.status in_progress)))
        (Failure.domain 409 not_assigned)
    pro ←
        or_throw (o.find_professional (get_or booking.professional 0) company)
          (Failure.not_found Resource.professional)
    message ← answer (o.send_job booking pro)
    pure (booking, message)

  -- The write of `setStatus`: a cancel is conditional on the status that was read.
  unfoldable pub write_status :
      ServiceBooking → BookingStatus → ℕ → Action (Db bt pt) (Option ServiceBooking)
  write_status booking next now =
      if is_status next cancelled
      then cancel_booking bt pt booking.id (booking.status ∷ []) (pos 0) now
      else (update_booking bt pt booking.id (moved_row next now) >>= λ b. pure (some b))

  -- `setStatus` after the booking was read; the company's cancel refunds in full.
  unfoldable pub set_status_read :
      ServiceBooking → BookingStatus → List Vertical → ℕ → Action (Db bt pt) ServiceBooking
  unfolding assert_vertical write_status
  set_status_read booking next verticals now = do
    assert_vertical booking.vertical verticals
    throw_if (not (is_among (transitions booking.status) next))
        (Failure.domain 409 invalid_transition)
    throw_if (is_status next in_progress && not (is_some booking.professional))
        (Failure.domain 409 not_assigned)
    written ← write_status booking next now
    updated ← or_throw written (Failure.domain 409 invalid_transition)
    when (is_status next cancelled) (refund g bt pt updated.id updated.total)
    pure updated

  unfoldable pub set_status :
      ℕ → ℕ → BookingStatus → List Vertical → ℕ → Action (Db bt pt) ServiceBooking
  unfolding require_company set_status_read
  set_status company id next verticals now = do
    booking ← require_company company id
    set_status_read booking next verticals now
