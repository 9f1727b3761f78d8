-- ===== src/HomeServices/Model.antt =====
-- The rows of prisma/schema.prisma behind the service bookings. Amounts are paise, instants are
-- milliseconds, calendar days are the number YYYYMMDD, texts are UTF-16 code units. Identifiers are only
-- compared, so they are numbers.
use v2_backend.Common.{Text, false, some, none}
use v2_backend.Common.{ℕ, Bool, Option, List, ◌==◌, ◌||◌, any}
use v2_backend.Common.Int.{ℤ}
use v2_backend.Table.{Table}

pub data Vertical : Type 0 where
  cleaning repair : Vertical

pub data BookingStatus : Type 0 where
  awaiting_payment pending confirmed in_progress completed cancelled : BookingStatus

pub data PaymentStatus : Type 0 where
  created captured refund_pending refunded : PaymentStatus

abbrev pub booking_rank : BookingStatus → ℕ
booking_rank awaiting_payment = 0
booking_rank pending = 1
booking_rank confirmed = 2
booking_rank in_progress = 3
booking_rank completed = 4
booking_rank cancelled = 5

abbrev pub payment_rank : PaymentStatus → ℕ
payment_rank created = 0
payment_rank captured = 1
payment_rank refund_pending = 2
payment_rank refunded = 3

abbrev pub has_status : BookingStatus → BookingStatus → Bool
has_status s t = booking_rank s == booking_rank t

abbrev pub has_payment_status : PaymentStatus → PaymentStatus → Bool
has_payment_status s t = payment_rank s == payment_rank t

-- `{ in: from }`
abbrev pub is_among : List BookingStatus → BookingStatus → Bool
is_among from s = any (has_status s) from

-- A point on the map, by whatever coordinates.
pub record Point : Type 0 where
  pub lat : ℕ
  pub lng : ℕ

pub record ServiceBooking : Type 0 where
  pub id : ℕ
  pub code : ℕ
  pub user : ℕ
  pub service : ℕ
  pub service_name : Text
  pub vertical : Vertical
  pub category : Text
  pub hours : ℕ
  pub professionals : ℕ
  pub with_materials : Bool
  pub scheduled_date : ℕ
  pub time_slot : ℕ
  pub address_label : Text
  pub address_text : Text
  pub pin : Option Point
  pub directions : Option Text
  pub contact_phone : Text
  pub location : Option ℕ
  pub company : Option ℕ
  pub professional : Option ℕ
  pub professional_name : Option Text
  pub professional_phone : Option Text
  pub status : BookingStatus
  pub base : ℕ
  pub materials : ℕ
  pub discount : ℕ
  pub total : ℤ
  pub promo_code : Option ℕ
  pub payment_method : Text
  pub cancellation_fee : ℤ
  pub confirmed_at : Option ℕ
  pub started_at : Option ℕ
  pub completed_at : Option ℕ
  pub cancelled_at : Option ℕ
  pub created_at : ℕ

pub record ServicePayment : Type 0 where
  pub booking : ℕ
  pub status : PaymentStatus
  pub amount : ℤ
  pub order : ℕ
  pub payment : Option ℕ
  pub method : Option ℕ
  pub refund_amount : Option ℤ
  pub refund : Option ℕ
  pub captured_at : Option ℕ
  pub refunded_at : Option ℕ

abbrev pub booking_id : ServiceBooking → ℕ
booking_id b = b.id

abbrev pub payment_booking : ServicePayment → ℕ
payment_booking p = p.booking

-- Whether two optional ids are there and the same, as a unique index compares them: `NULL` is like
-- no other.
abbrev pub is_same_id : Option ℕ → Option ℕ → Bool
is_same_id none y = false
is_same_id (some x) none = false
is_same_id (some x) (some y) = x == y

-- The unique indexes: a booking's id and code, a payment's booking, order, payment id and refund id.
abbrev pub booking_conflict : ServiceBooking → ServiceBooking → Bool
booking_conflict a b = b.id == a.id || b.code == a.code

abbrev pub payment_conflict : ServicePayment → ServicePayment → Bool
payment_conflict a b =
    b.booking == a.booking
    || b.order == a.order
    || is_same_id b.payment a.payment
    || is_same_id b.refund a.refund

abbrev pub BookingTable : Type 1
BookingTable = Table ServiceBooking booking_id booking_conflict

abbrev pub PaymentTable : Type 1
PaymentTable = Table ServicePayment payment_booking payment_conflict

-- The stores: two tables, and the refund jobs that were queued, newest first.
pub record Store (Bookings Payments : Type 0) : Type 0 where
  pub bookings : Bookings
  pub payments : Payments
  pub refund_jobs : List ℕ
