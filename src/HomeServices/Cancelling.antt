-- ===== src/HomeServices/Cancelling.antt =====
-- A customer's cancel: whose booking, from which states, what it refunds, and that it keeps the stores
-- consistent.
use v2_backend.Razorpay.Refunds.{refund-IsConsistent, refund_lem}
use v2_backend.Razorpay.Repository.{payment_at, claimed_row}
use v2_backend.HomeServices.Bookings.{
  cancel_booking_lem, cancel_booking-IsConsistent, cancel_booking_state,
}
use v2_backend.Common.Error.{invalid_transition, Resource}
use v2_backend.Razorpay.Invariant.{IsConsistent, booking_key}
use v2_backend.HomeServices.Repository.{find_booking, Db, booking_at, cancel_booking, cancel_row}
use v2_backend.Common.Keeps.{Keeps, state_seq}
use v2_backend.HomeServices.Service.{cancel, customer_cancellable}
use v2_backend.Common.Int.{◌-ℤ◌, ℤ, pos, ◌≤ℤ◌, negsuc}
use v2_backend.HomeServices.Model.{
  BookingTable, PaymentTable, ServiceBooking, is_among, ServicePayment, captured,
}
use v2_backend.Razorpay.Service.{Gateway, refund}
use v2_backend.HomeServices.Rules.{cancellation_fee, tenth}
use v2_backend.Common.{
  ℕ, ◌≡◌, arith, some, ◌≢◌, err, Failure, false, true, Option-cases, inl, inr, pure, Bool-cases,
  ◌==◌, ◌∷◌, refl, ap, ◌∙◌,
}

-- What a cancel gives back is at most what was paid.
refund-le-total :
    (total : ℤ) (booked now : ℕ)
    → pos 1 ≤ℤ (total -ℤ cancellation_fee total booked now)
    → (total -ℤ cancellation_fee total booked now) ≤ℤ total
unfolding cancellation_fee tenth ◌-ℤ◌
refund-le-total (pos n) booked now h = ground arith
refund-le-total (negsuc n) booked now h = ground arith

refund_pos :
    (total : ℤ) (booked now : ℕ)
    → pos 1 ≤ℤ total
    → pos 1 ≤ℤ (total -ℤ cancellation_fee total booked now)
unfolding cancellation_fee tenth ◌-ℤ◌
refund_pos (pos n) booked now h = ground arith
refund_pos (negsuc n) booked now h = absurd (omega arith)

module _ (g : Gateway) (bt : BookingTable) (pt : PaymentTable) where
  -- Another customer's booking reads as missing, and nothing changes.
  pub cancel_refuses_others :
      (user id now : ℕ) (s : Db bt pt) (b : ServiceBooking)
      → booking_at bt pt id s ≡ some b
      → b.user ≢ user
      → cancel g bt pt user id now s ≡ (err (Failure.not_found Resource.booking), s)
  unfolding cancel find_booking
  cancel_refuses_others user id now s b e n = ground arith

  -- A booking that is not pending or confirmed cannot be cancelled, and nothing changes.
  pub cancel_refuses_started :
      (user id now : ℕ) (s : Db bt pt) (b : ServiceBooking)
      → booking_at bt pt id s ≡ some b
      → b.user ≡ user
      → is_among customer_cancellable b.status ≡ false
      → cancel g bt pt user id now s ≡ (err (Failure.domain 409 invalid_transition), s)
  unfolding cancel find_booking
  cancel_refuses_started user id now s b e own started = ground arith

  -- What a cancel does once its checks pass.
  cancel_state :
      (user id now : ℕ) (s : Db bt pt) (b : ServiceBooking)
      → booking_at bt pt id s ≡ some b
      → b.user ≡ user
      → is_among customer_cancellable b.status ≡ true
      → (cancel g bt pt user id now s).1
        ≡ (refund g bt pt id
            (b.total -ℤ cancellation_fee b.total b.created_at now)
            (cancel_booking bt pt id customer_cancellable
              (cancellation_fee b.total b.created_at now)
              now
              s).1).1
  unfolding cancel find_booking
  cancel_state user id now s b e own can =
      let fee = cancellation_fee b.total b.created_at now in
      let key : b.id ≡ id = booking_key bt pt id s b e in
      let (gone, _) = cancel_booking_lem bt pt id customer_cancellable fee now s b e in
      let last =
        state_seq (refund g bt pt id (b.total -ℤ fee)) (pure (cancel_row bt pt fee now b))
          (cancel_booking bt pt id customer_cancellable fee now s).1 (λ t. refl) in
      ground (arith, key, gone, last)

  -- A cancel keeps the stores consistent, whether it goes through or throws.
  pub cancel-IsConsistent :
      (user id now : ℕ) → Keeps (IsConsistent bt pt) (cancel g bt pt user id now)
  cancel-IsConsistent user id now s h = elim (Option-cases (booking_at bt pt id s)) [
    | inl missing ↦
        let same : (cancel g bt pt user id now s).1 ≡ s =
          unfold cancel find_booking in ground arith in
        rw same h
    | inr (b, e) ↦ elim (Bool-cases (b.user == user)) [
      | inr other ↦ rw (cancel_refuses_others user id now s b e (ground arith)) h
      | inl own ↦ elim (Bool-cases (is_among customer_cancellable b.status)) [
        | inr started ↦ rw (cancel_refuses_started user id now s b e (ground arith) started) h
        | inl can ↦
            let fee = cancellation_fee b.total b.created_at now in
            let (_, gone) = cancel_booking_lem bt pt id customer_cancellable fee now s b e in
            let row : booking_at bt pt id (cancel_booking bt pt id customer_cancellable fee now s).1
                ≡ some (cancel_row bt pt fee now b) =
              rw can at gone in
            rw (cancel_state user id now s b e (ground arith) can) (
              refund-IsConsistent bt pt g id (b.total -ℤ fee)
                (cancel_booking bt pt id customer_cancellable fee now s).1
                (λ low x f.
                  (let same : x ≡ cancel_row bt pt fee now b = ground arith in
                    rw same (refl, refund-le-total b.total b.created_at now low)))
                (cancel_booking-IsConsistent bt pt id customer_cancellable fee now s (inl refl) h))
      ]
    ]
  ]

  -- When the customer cancels an own pending or confirmed booking of a positive total whose payment is
  -- captured, the booking is cancelled with the fee kept, the payment is claimed for the rest, and its
  -- refund job is queued.
  pub cancel_refunds :
      (user id now : ℕ) (s : Db bt pt) (b : ServiceBooking) (p : ServicePayment)
      → booking_at bt pt id s ≡ some b
      → b.user ≡ user
      → is_among customer_cancellable b.status ≡ true
      → payment_at bt pt id s ≡ some p
      → p.status ≡ captured
      → pos 1 ≤ℤ b.total
      → let fee = cancellation_fee b.total b.created_at now in
        let s' = (cancel g bt pt user id now s).1 in
        (booking_at bt pt id s' ≡ some (cancel_row bt pt fee now b))
        × (payment_at bt pt id s' ≡ some (claimed_row bt pt (b.total -ℤ fee) p))
        × (s'.refund_jobs ≡ id ∷ s.refund_jobs)
  cancel_refunds user id now s b p e own can paid c low =
      let fee = cancellation_fee b.total b.created_at now in
      let (_, gone) = cancel_booking_lem bt pt id customer_cancellable fee now s b e in
      let mid = cancel_booking_state bt pt id customer_cancellable fee now s in
      let there : payment_at bt pt id (cancel_booking bt pt id customer_cancellable fee now s).1
          ≡ some p =
        rw mid paid in
      let (_, claimed, job, kept) =
        refund_lem bt pt g id (b.total -ℤ fee)
          (cancel_booking bt pt id customer_cancellable fee now s).1 p
          (refund_pos b.total b.created_at now low) there c in
      rw (cancel_state user id now s b e own can) (
        rw can at (ap (λ rows. bt.find (λ x. x.id == id) rows) kept ∙ gone),
        claimed,
        job ∙ ap (λ (t : Db bt pt). id ∷ t.refund_jobs) mid,
      )
