-- ===== src/HomeServices/Repository.antt =====
-- src/modules/home-services/home-services.repository.ts: the writes of bookings.
use v2_backend.Common.{
  ℕ, Bool, ◌&&◌, Option, none, some, List, ◌==◌, if◌then◌else◌, Action, pure, throw, gets, update,
  or_throw, ◌>>=◌, ◌>>◌, Failure,
}
use v2_backend.Common.Int.{ℤ}
use v2_backend.HomeServices.Model.{
  BookingStatus, cancelled, is_among, ServiceBooking, BookingTable, PaymentTable, Store,
}

module _ (bt : BookingTable) (pt : PaymentTable) where
  abbrev pub Db : Type 0
  Db = Store bt.Rows pt.Rows

  abbrev pub booking_at : ℕ → Db → Option ServiceBooking
  booking_at k s = bt.find (λ b. b.id == k) s.bookings

  unfoldable pub create_booking : ServiceBooking → Action Db ServiceBooking
  create_booking b s = elim (bt.create b s.bookings) [
    | none ↦ throw Failure.duplicate s
    | some rows ↦ (pure b) (record s { bookings = rows })
  ]

  unfoldable pub find_booking : ℕ → Action Db (Option ServiceBooking)
  find_booking id = gets (booking_at id)

  -- `updateMany` on bookings.
  abbrev pub update_bookings :
      (ServiceBooking → Bool) → (ServiceBooking → ServiceBooking) → Action Db ℕ
  update_bookings p f =
      update
        (λ s. let (rows, n) = bt.update_many p f s.bookings in (n, record s { bookings = rows }))

  abbrev pub cancel_row : ℤ → ℕ → ServiceBooking → ServiceBooking
  cancel_row fee now b = record b {
    status = cancelled;
    cancelled_at = some now;
    cancellation_fee = fee;
  }

  unfoldable pub cancel_booking : ℕ → List BookingStatus → ℤ → ℕ → Action Db (Option ServiceBooking)
  unfolding find_booking
  cancel_booking id from fee now = do
    n ← update_bookings (λ b. (b.id == id) && is_among from b.status) (cancel_row fee now)
    if n == 1 then find_booking id else pure none

  -- `update`, which throws where no row has the id.
  unfoldable pub update_booking : ℕ → (ServiceBooking → ServiceBooking) → Action Db ServiceBooking
  update_booking id f = do
    update_bookings (λ b. b.id == id) f
    b ← gets (booking_at id)
    or_throw b Failure.crash
