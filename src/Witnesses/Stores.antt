-- ===== src/Witnesses/Stores.antt =====
-- Tables as lists with one booking, one gateway, and the rest of what the witnesses apply to.
use v2_backend.Razorpay.Repository.{payment_at}
use v2_backend.Common.Int.{pos, ◌≤ℤ◌}
use v2_backend.Table.Listed.{listed, visible}
use v2_backend.HomeServices.Rules.{AreaRule, PromoRule}
use v2_backend.HomeServices.Service.{HomeService, Address, Catalogue, Moment, BookingRequest}
use v2_backend.Admin.Bookings.{Outside, Professional, approved}
use v2_backend.Razorpay.Invariant.{IsConsistent, IsPaid}
use v2_backend.HomeServices.Repository.{Db}
use v2_backend.Razorpay.Service.{RemotePayment, Gateway, settled, payment_captured}
use v2_backend.HomeServices.Model.{
  BookingTable, PaymentTable, BookingStatus, PaymentStatus, ServiceBooking, ServicePayment,
  booking_id, payment_booking, cleaning, booking_conflict, payment_conflict, cancelled,
  awaiting_payment, pending, refund_pending, created, captured,
}
use v2_backend.Common.{
  ℕ, true, ◌∷◌, [], arith, some, none, ◌+◌, Bool-cases, false, ◌==◌, ok, inl, inr, refl, codes, ◌≡◌,
}

abbrev pub bookings : BookingTable
bookings = listed booking_id booking_conflict

abbrev pub payments : PaymentTable
payments = listed payment_booking payment_conflict

abbrev pub remote : RemotePayment
remote = record {
  id = 90;
  order = 30;
  amount = pos 50000;
  inr = true;
  status = settled;
  method = 2;
}

abbrev pub gateway : Gateway
gateway = record {
  Body = ℕ;
  enabled = true;
  sign_payment = λ order payment. order + payment;
  sign_webhook = λ body. body;
  parse = λ body. payment_captured 30 90;
  create_order = λ amount code. ok 30;
  fetch = λ payment. ok remote;
  capture_payment = λ payment amount. ok remote;
  refetch = λ payment. ok remote;
}

abbrev pub booking : BookingStatus → ServiceBooking
booking status = record {
  id = 7;
  code = 8;
  user = 1;
  service = 2;
  service_name = [];
  vertical = cleaning;
  category = codes "cln";
  hours = 2;
  professionals = 1;
  with_materials = false;
  scheduled_date = 20260101;
  time_slot = 9;
  address_label = [];
  address_text = [];
  pin = none;
  directions = none;
  contact_phone = [];
  location = some 5;
  company = some 6;
  professional = none;
  professional_name = none;
  professional_phone = none;
  status = status;
  base = 50000;
  materials = 0;
  discount = 0;
  total = pos 50000;
  promo_code = none;
  payment_method = [];
  cancellation_fee = pos 0;
  confirmed_at = none;
  started_at = none;
  completed_at = none;
  cancelled_at = none;
  created_at = 1000;
}

abbrev pub payment : PaymentStatus → ServicePayment
payment status = record {
  booking = 7;
  status = status;
  amount = pos 50000;
  order = 30;
  payment = some 90;
  method = none;
  refund_amount = some (pos 50000);
  refund = none;
  captured_at = none;
  refunded_at = none;
}

abbrev pub stores : BookingStatus → PaymentStatus → Db bookings payments
stores b p = record { bookings = booking b ∷ []; payments = payment p ∷ []; refund_jobs = [] }

abbrev pub empty : Db bookings payments
empty = record { bookings = []; payments = []; refund_jobs = [] }

pub empty-IsConsistent : IsConsistent bookings payments empty
unfolding visible
empty-IsConsistent = record { matched = λ k. tt; distinct = λ j k p q e f o. ground arith }

pub stores-IsConsistent :
    (b : BookingStatus) (p : PaymentStatus)
    → IsPaid b (payment p) p
    → IsConsistent bookings payments (stores b p)
unfolding visible
stores-IsConsistent b p paid = record {
  matched = λ k. elim (Bool-cases (7 == k)) [ inl e ↦ rw e (refl, paid) | inr e ↦ rw e tt ];
  distinct = λ j k x y e f o. ground arith;
}

pub only_payment :
    (b : BookingStatus) (p : PaymentStatus) (j : ℕ) (q : ServicePayment)
    → payment_at bookings payments j (stores b p) ≡ some q
    → j ≡ 7
unfolding visible
only_payment b p j q e = ground arith

abbrev pub worker : Professional
worker = record { id = 12; name = []; phone = []; status = approved; categories = codes "cln" ∷ [] }

abbrev pub outside : Outside
outside = record { find_professional = λ id company. some worker; send_job = λ b pro. ok 3 }

abbrev pub service : HomeService
service = record {
  id = 2;
  name = [];
  vertical = cleaning;
  category = codes "cln";
  min_hours = 1;
  price = record { hourly_rate = 25000; extra_pro_rate = 10000; materials_fee = 0 };
  approved = true;
  active = true;
  online = true;
}

abbrev pub area : AreaRule
area = record {
  id = 5;
  company = some 6;
  pincode = [];
  radius = 10;
  pin = some (record { lat = 3; lng = 4 });
}

abbrev pub address : Address
address = record {
  label = [];
  flat_number = [];
  building = [];
  formatted = [];
  pin = some (record { lat = 3; lng = 5 });
  directions = none;
}

abbrev pub welcome : PromoRule
welcome = record {
  code = 77;
  percent = 90;
  max_discount = 0;
  min_order = 0;
  valid_till = 20261231;
  active = true;
}

abbrev pub catalogue : Catalogue
catalogue = record {
  find_service = λ id. some service;
  find_address = λ id user. some address;
  active_areas = λ v. area ∷ [];
  find_promo = λ code. some welcome;
  find_phone = λ user. none;
  distance = λ a b. 1;
}

abbrev pub moment : Moment
moment = record { now = 5000; today = 20260101; id = 7; code = 8 }

abbrev pub request : BookingRequest
request = record {
  service = 2;
  hours = 2;
  professionals = 1;
  with_materials = none;
  date = 20260102;
  time_slot = 9;
  address = 1;
  promo_code = none;
  payment_method = none;
}

pub refund_due : IsPaid cancelled (payment refund_pending) refund_pending
refund_due = ground arith

pub open_due : IsPaid awaiting_payment (payment created) created
open_due = ground arith

pub capture_due : IsPaid pending (payment captured) captured
capture_due = ground arith

pub one_costs : pos 1 ≤ℤ pos 50000
one_costs = ground arith
