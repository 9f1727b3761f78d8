-- ===== src/Razorpay/Recording.antt =====
-- src/modules/razorpay/razorpay.repository.ts: recording a refund and marking it done.
use v2_backend.Razorpay.Refunds.{payments_store-IsConsistent, payment-payments_store}
use v2_backend.Razorpay.Invariant.{IsMatched, IsConsistent, payment_key}
use v2_backend.HomeServices.Repository.{Db, booking_at}
use v2_backend.Razorpay.Repository.{
  set_refund_id, RefundKey, mark_refunded, payment_at, is_refund, refund_id_row, refunded_row,
  by_booking, is_clash, by_refund,
}
use v2_backend.HomeServices.Model.{
  BookingTable, PaymentTable, ServiceBooking, ServicePayment, refund_pending, has_payment_status,
}
use v2_backend.Common.{
  false, ℕ, ◌≡◌, Option, ok, some, if◌then◌else◌, ◌==◌, ◌&&◌, none, arith, true, Bool-cases, inl,
  refl, inr, Option-cases, ◌≢◌, ◌⊎◌, err, Failure,
}

module _ (bt : BookingTable) (pt : PaymentTable) where
  id_row-IsMatched :
      (k r : ℕ) (b : Option ServiceBooking) (p : ServicePayment)
      → IsMatched b (some p)
      → IsMatched b (some (if p.booking == k then refund_id_row bt pt r p else p))
  id_row-IsMatched k r none p h = absurd h
  id_row-IsMatched k r (some b) p h = ground arith

  recorded_store : ℕ → ℕ → Db bt pt → Db bt pt
  recorded_store k r s = record s {
    payments = (pt.update_many (λ p. p.booking == k) (refund_id_row bt pt r) s.payments).0;
  }

  recorded_store-IsConsistent :
      (k r : ℕ) (s : Db bt pt) → IsConsistent bt pt s → IsConsistent bt pt (recorded_store k r s)
  unfolding recorded_store
  recorded_store-IsConsistent k r s h =
      payments_store-IsConsistent bt pt (λ p. p.booking == k) (refund_id_row bt pt r) (λ x. refl)
        (λ x. refl) s (λ j p e m. id_row-IsMatched k r (booking_at bt pt j s) p m) h

  -- Recording a refund ends in the record, or leaves the stores alone.
  set_refund_id_ends :
      (k r : ℕ) (s : Db bt pt)
      → ((set_refund_id bt pt k r s).1 ≡ s) ⊎ ((set_refund_id bt pt k r s).1 ≡ recorded_store k r s)
  unfolding set_refund_id recorded_store
  set_refund_id_ends k r s =
      elim (Bool-cases (is_clash bt pt (λ p. p.booking == k) (is_refund (by_refund r)) s)) [
        | inl e ↦ inl (ground (arith, e))
        | inr e ↦
            elim (Bool-cases
              ((pt.update_many (λ p. p.booking == k) (refund_id_row bt pt r) s.payments).1 == 0)) [
                | inl z ↦ inr (ground (arith, e, z))
                | inr z ↦ inr (ground (arith, e, z))
              ]
      ]

  pub set_refund_id-IsConsistent :
      (k r : ℕ) (s : Db bt pt)
      → IsConsistent bt pt s
      → IsConsistent bt pt (set_refund_id bt pt k r s).1
  set_refund_id-IsConsistent k r s h = elim (set_refund_id_ends k r s) [
    | inl e ↦ rw e h
    | inr e ↦ rw e (recorded_store-IsConsistent k r s h)
  ]

  pub set_refund_id_clash :
      (k r : ℕ) (s : Db bt pt)
      → is_clash bt pt (λ p. p.booking == k) (is_refund (by_refund r)) s ≡ true
      → set_refund_id bt pt k r s ≡ (err Failure.duplicate, s)
  unfolding set_refund_id
  set_refund_id_clash k r s e = ground (arith, e)

  pub is_refund-some :
      (r : ℕ) (p : ServicePayment) → is_refund (by_refund r) p ≡ true → p.refund ≡ some r
  is_refund-some r p h = elim (Option-cases p.refund) [
    | inl e ↦ ground arith
    | inr (x, e) ↦ ground arith
  ]

  refunded_row-IsMatched :
      (key : RefundKey) (now : ℕ) (b : Option ServiceBooking) (p : ServicePayment)
      → IsMatched b (some p)
      → IsMatched b (
          some (
            if is_refund key p && has_payment_status p.status refund_pending
            then refunded_row bt pt now p
            else p))
  refunded_row-IsMatched key now none p h = absurd h
  refunded_row-IsMatched key now (some b) p h = elim (Bool-cases (is_refund key p)) [
    | inl e ↦ rw e (ground arith)
    | inr e ↦ rw e h
  ]

  -- The confirmation of a refund, by the job or by a webhook, keeps the stores consistent.
  pub mark_refunded-IsConsistent :
      (key : RefundKey) (now : ℕ) (s : Db bt pt)
      → IsConsistent bt pt s
      → IsConsistent bt pt (mark_refunded bt pt key now s).1
  unfolding mark_refunded
  mark_refunded-IsConsistent key now s h =
      payments_store-IsConsistent bt pt
        (λ p. is_refund key p && has_payment_status p.status refund_pending)
        (refunded_row bt pt now) (λ x. refl) (λ x. refl) s
        (λ j p e m. refunded_row-IsMatched key now (booking_at bt pt j s) p m) h

  pub set_refund_id_lem :
      (k r : ℕ) (s : Db bt pt) (p : ServicePayment)
      → payment_at bt pt k s ≡ some p
      → is_clash bt pt (λ p. p.booking == k) (is_refund (by_refund r)) s ≡ false
      → let (res, s') = set_refund_id bt pt k r s in
        (res ≡ ok tt) × (payment_at bt pt k s' ≡ some (refund_id_row bt pt r p))
  unfolding set_refund_id
  set_refund_id_lem k r s p e free =
      let counted : (pt.update_many (λ p. p.booking == k) (refund_id_row bt pt r) s.payments).1
          ≢ 0 =
        λ z.
          (let gone : payment_at bt pt k s ≡ none =
              pt.count_zero (λ p. p.booking == k) (refund_id_row bt pt r) s.payments z in
            cc) in
      (
        ground (arith, counted, free),
        ground (
          arith,
          counted,
          free,
          payment_key bt pt k s p e,
          payment-payments_store bt pt (λ p. p.booking == k) (refund_id_row bt pt r) (λ x. refl)
              (λ x. refl) s k,
        ),
      )

  pub mark_refunded_lem :
      (k now : ℕ) (s : Db bt pt) (p : ServicePayment)
      → payment_at bt pt k s ≡ some p
      → p.status ≡ refund_pending
      → let (res, s') = mark_refunded bt pt (by_booking k) now s in
        (res ≡ ok tt) × (payment_at bt pt k s' ≡ some (refunded_row bt pt now p))
  unfolding mark_refunded
  mark_refunded_lem k now s p e pend = (
    refl,
    ground (
      arith,
      payment_key bt pt k s p e,
      payment-payments_store bt pt
          (λ p. is_refund (by_booking k) p && has_payment_status p.status refund_pending)
          (refunded_row bt pt now) (λ x. refl) (λ x. refl) s k,
    ),
  )
