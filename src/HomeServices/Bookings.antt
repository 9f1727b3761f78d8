-- ===== src/HomeServices/Bookings.antt =====
-- Booking and cancelling keep every booking matched by its payment.
use v2_backend.Razorpay.Repository.{payment_at}
use v2_backend.Razorpay.Invariant.{IsMatched, IsConsistent, booking_key}
use v2_backend.Table.{revised}
use v2_backend.HomeServices.Repository.{cancel_booking, find_booking, Db, booking_at, cancel_row}
use v2_backend.Common.Int.{ℤ}
use v2_backend.HomeServices.Model.{
  BookingTable, PaymentTable, ServiceBooking, BookingStatus, ServicePayment, is_among,
  awaiting_payment,
}
use v2_backend.Common.{
  ℕ, ◌≡◌, List, Bool, Option, ◌≢◌, ◌==◌, some, ◌&&◌, ◌⊎◌, false, ok, none, arith, if◌then◌else◌,
  inr, inl, Bool-cases, refl, Option-cases, true, sym, ap, ◌∙◌,
}

module _ (bt : BookingTable) (pt : PaymentTable) where
  -- A write of bookings alone.
  abbrev pub bookings_store :
      (ServiceBooking → Bool) → (ServiceBooking → ServiceBooking) → Db bt pt → Db bt pt
  bookings_store P F s = record s { bookings = (bt.update_many P F s.bookings).0 }

  module _ (P : ServiceBooking → Bool) (F : ServiceBooking → ServiceBooking)
      (key : (r : ServiceBooking) → (F r).id ≡ r.id) (s : Db bt pt) where
    pub booking-bookings_store :
        (k : ℕ) → booking_at bt pt k (bookings_store P F s) ≡ revised P F (booking_at bt pt k s)
    booking-bookings_store k = bt.find_update P F s.bookings k key

    pub bookings_store-IsConsistent :
        ((k : ℕ) (b : ServiceBooking)
          → booking_at bt pt k s ≡ some b
          → IsMatched (some b) (payment_at bt pt k s)
          → IsMatched (some (if P b then F b else b)) (payment_at bt pt k s))
        → IsConsistent bt pt s
        → IsConsistent bt pt (bookings_store P F s)
    bookings_store-IsConsistent row h = record {
      matched =
          λ k. rw (booking-bookings_store k) (matched_row k (Option-cases (booking_at bt pt k s)));
      distinct = h.distinct;
    }
      where
        matched_row :
            (k : ℕ)
            → (booking_at bt pt k s ≡ none)
              ⊎ ((b : ServiceBooking) × (booking_at bt pt k s ≡ some b))
            → IsMatched (revised P F (booking_at bt pt k s)) (payment_at bt pt k s)
        matched_row k (inl e) = rw e (rw e at (h.matched k))
        matched_row k (inr (b, e)) = rw e (row k b e (rw e at (h.matched k)))

  -- A cancel is safe for a booking with no open payment.
  cancel_row-IsMatched :
      (fee : ℤ) (now : ℕ) (b : ServiceBooking) (p : Option ServicePayment)
      → (b.status ≢ awaiting_payment) ⊎ (p ≡ none)
      → IsMatched (some b) p
      → IsMatched (some (cancel_row bt pt fee now b)) p
  cancel_row-IsMatched fee now b none c h = inr (inr refl)
  cancel_row-IsMatched fee now b (some p) c h = ground (arith, c)

  pub cancel_booking_state :
      (k : ℕ) (from : List BookingStatus) (fee : ℤ) (now : ℕ) (s : Db bt pt)
      → (cancel_booking bt pt k from fee now s).1
        ≡ bookings_store (λ b. (b.id == k) && is_among from b.status) (cancel_row bt pt fee now) s
  unfolding cancel_booking
  cancel_booking_state k from fee now s = ground arith

  pub cancel_booking-IsConsistent :
      (k : ℕ) (from : List BookingStatus) (fee : ℤ) (now : ℕ) (s : Db bt pt)
      → (is_among from awaiting_payment ≡ false) ⊎ (payment_at bt pt k s ≡ none)
      → IsConsistent bt pt s
      → IsConsistent bt pt (cancel_booking bt pt k from fee now s).1
  cancel_booking-IsConsistent k from fee now s c h = rw (cancel_booking_state k from fee now s) (
      bookings_store-IsConsistent (λ b. (b.id == k) && is_among from b.status)
        (cancel_row bt pt fee now) (λ r. refl) s row h)
    where
      row :
          (j : ℕ) (b : ServiceBooking)
          → booking_at bt pt j s ≡ some b
          → IsMatched (some b) (payment_at bt pt j s)
          → IsMatched
              (some
                (if (b.id == k) && is_among from b.status then cancel_row bt pt fee now b else b))
              (payment_at bt pt j s)
      row j b e m = elim (Bool-cases (b.id == k)) [
        | inr other ↦ rw other m
        | inl same ↦ elim (Bool-cases (is_among from b.status)) [
          | inr kept ↦ rw (same, kept) m
          | inl hit ↦
              let here : j ≡ k = ground (arith, booking_key bt pt j s b e) in
              rw (same, hit)
                (cancel_row-IsMatched fee now b (payment_at bt pt j s)
                  (elim c [
                    | inl never ↦ inl (λ w.
                        (let z : is_among from awaiting_payment ≡ true =
                            sym (ap (is_among from) w) ∙ hit in
                          cc))
                    | inr free ↦ inr (rw here free)
                  ])
                  m)
        ]
      ]

  -- What a cancel that goes through leaves.
  pub cancel_booking_lem :
      (k : ℕ) (from : List BookingStatus) (fee : ℤ) (now : ℕ) (s : Db bt pt) (b : ServiceBooking)
      → booking_at bt pt k s ≡ some b
      → let (r, s') = cancel_booking bt pt k from fee now s in
        (r ≡ ok (if is_among from b.status then some (cancel_row bt pt fee now b) else none))
        × (booking_at bt pt k s'
            ≡ some (if is_among from b.status then cancel_row bt pt fee now b else b))
  unfolding cancel_booking find_booking
  cancel_booking_lem k from fee now s b e =
      let key : b.id ≡ k = booking_key bt pt k s b e in
      let after =
        booking-bookings_store (λ b. (b.id == k) && is_among from b.status)
          (cancel_row bt pt fee now) (λ r. refl) s k in
      let counted =
        bt.count_unique (λ b. is_among from b.status) (cancel_row bt pt fee now) s.bookings k in
      elim (Bool-cases (is_among from b.status)) [
        | inl hit ↦ (ground (arith, counted, after), ground (arith, after))
        | inr kept ↦ (ground (arith, counted, after), ground (arith, after))
      ]
