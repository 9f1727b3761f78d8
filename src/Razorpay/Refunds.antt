-- ===== src/Razorpay/Refunds.antt =====
-- Refunds: a captured payment is refunded once, at most what was paid, and its job asks once.
use v2_backend.Razorpay.Invariant.{IsMatched, IsConsistent, payment_key}
use v2_backend.Table.{revised, hits}
use v2_backend.HomeServices.Repository.{Db, booking_at}
use v2_backend.Razorpay.Service.{Gateway, refund}
use v2_backend.Razorpay.Repository.{start_refund, payment_at, claimed_row}
use v2_backend.Common.Int.{ℤ, pos, ◌≤ℤ◌, leb_ℤ}
use v2_backend.HomeServices.Model.{
  BookingTable, PaymentTable, ServicePayment, ServiceBooking, cancelled, has_payment_status,
  captured,
}
use v2_backend.Common.{
  ℕ, ◌≡◌, Bool, Option, some, Option-cases, inl, if◌then◌else◌, arith, none, ◌==◌, inr, ◌⊎◌, ◌&&◌,
  sym, ◌∙◌, Bool-cases, Result, ok, ◌∷◌, refl,
}

module _ (bt : BookingTable) (pt : PaymentTable) where
  -- A write of payments alone, with what it does to one row.
  abbrev pub payments_store :
      (ServicePayment → Bool) → (ServicePayment → ServicePayment) → Db bt pt → Db bt pt
  payments_store P F s = record s { payments = (pt.update_many P F s.payments).0 }

  module _ (P : ServicePayment → Bool) (F : ServicePayment → ServicePayment)
      (key : (r : ServicePayment) → (F r).booking ≡ r.booking)
      (order : (r : ServicePayment) → (F r).order ≡ r.order) (s : Db bt pt) where
    pub payment-payments_store :
        (k : ℕ) → payment_at bt pt k (payments_store P F s) ≡ revised P F (payment_at bt pt k s)
    payment-payments_store k = pt.find_update P F s.payments k key

    revised_order :
        (k : ℕ) (p : ServicePayment)
        → payment_at bt pt k (payments_store P F s) ≡ some p
        → (q : ServicePayment) × (payment_at bt pt k s ≡ some q) × (p.order ≡ q.order)
    revised_order k p e = elim (Option-cases (payment_at bt pt k s)) [
      | inl x ↦ ground (arith, payment-payments_store k)
      | inr (q, x) ↦ (q, x, ground (arith, payment-payments_store k, order q))
    ]

    pub payments_store-IsConsistent :
        ((k : ℕ) (p : ServicePayment)
          → payment_at bt pt k s ≡ some p
          → IsMatched (booking_at bt pt k s) (some p)
          → IsMatched (booking_at bt pt k s) (some (if P p then F p else p)))
        → IsConsistent bt pt s
        → IsConsistent bt pt (payments_store P F s)
    payments_store-IsConsistent row h = record {
      matched =
          λ k. rw (payment-payments_store k) (matched_row k (Option-cases (payment_at bt pt k s)));
      distinct = λ j k p q e f o.
          let (p', x, a) = revised_order j p e in
          let (q', y, b) = revised_order k q f in h.distinct j k p' q' x y (sym a ∙ o ∙ b);
    }
      where
        matched_row :
            (k : ℕ)
            → (payment_at bt pt k s ≡ none)
              ⊎ ((p : ServicePayment) × (payment_at bt pt k s ≡ some p))
            → IsMatched (booking_at bt pt k s) (revised P F (payment_at bt pt k s))
        matched_row k (inl e) = rw e (rw e at (h.matched k))
        matched_row k (inr (p, e)) = rw e (row k p e (rw e at (h.matched k)))

  -- The booking may be refunded this much: it is cancelled, and cost no less.
  abbrev pub IsRefundable : ℕ → ℤ → Db bt pt → Type 0
  IsRefundable k amount s =
      (b : ServiceBooking)
      → booking_at bt pt k s ≡ some b
      → (b.status ≡ cancelled) × (amount ≤ℤ b.total)

  claimed-IsMatched :
      (k : ℕ) (amount : ℤ) (b : Option ServiceBooking) (p : ServicePayment)
      → pos 1 ≤ℤ amount
      → (p.booking ≡ k
          → (x : ServiceBooking) → b ≡ some x
          → (x.status ≡ cancelled) × (amount ≤ℤ x.total))
      → IsMatched b (some p)
      → IsMatched b (
          some (
            if (p.booking == k) && has_payment_status p.status captured
            then claimed_row bt pt amount p
            else p))
  claimed-IsMatched k amount none p low c h = absurd h
  claimed-IsMatched k amount (some b) p low c h = elim (Bool-cases (p.booking == k)) [
    | inl same ↦ ground (arith, c (ground arith) b refl)
    | inr other ↦ rw other h
  ]

  pub start_refund-IsConsistent :
      (k : ℕ) (amount : ℤ) (s : Db bt pt)
      → pos 1 ≤ℤ amount
      → IsRefundable k amount s
      → IsConsistent bt pt s
      → IsConsistent bt pt (start_refund bt pt k amount s).1
  unfolding start_refund
  start_refund-IsConsistent k amount s low c h =
      payments_store-IsConsistent (λ p. (p.booking == k) && has_payment_status p.status captured)
        (claimed_row bt pt amount) (λ r. refl) (λ r. refl) s
        (λ j p e m.
          claimed-IsMatched k amount (booking_at bt pt j s) p low
            (λ same x f. c x (ground (arith, payment_key bt pt j s p e))) m)
        h

  -- How a refund ends: it is for nothing, or the claim decides whether its job is queued.
  abbrev RefundEnds : ℕ → ℤ → Db bt pt → Result (Unit {0}) × Db bt pt → Type 0
  RefundEnds k amount s r =
      let claimed =
        hits (λ (p : ServicePayment). has_payment_status p.status captured) (payment_at bt pt k s)
        == 1 in
      ((amount ≤ℤ pos 0) × (r ≡ (ok tt, s)))
      ⊎ ((pos 1 ≤ℤ amount)
          × (r ≡ (
            ok tt,
            record (start_refund bt pt k amount s).1 {
              refund_jobs = if claimed then k ∷ s.refund_jobs else s.refund_jobs;
            },
          )))

  module _ (g : Gateway) where
    refund_ends :
        (k : ℕ) (amount : ℤ) (s : Db bt pt) → RefundEnds k amount s (refund g bt pt k amount s)
    unfolding refund start_refund
    refund_ends k amount s = elim (Bool-cases (leb_ℤ amount (pos 0))) [
      | inl free ↦ inl (ground arith, ground arith)
      | inr costs ↦ inr (
        ground arith,
        ground (
          arith,
          pt.count_unique (λ p. has_payment_status p.status captured) (claimed_row bt pt amount)
              s.payments k,
        ),
      )
    ]

    -- A refund of a cancelled booking, of at most its price, keeps the stores consistent.
    pub refund-IsConsistent :
        (k : ℕ) (amount : ℤ) (s : Db bt pt)
        → (pos 1 ≤ℤ amount → IsRefundable k amount s)
        → IsConsistent bt pt s
        → IsConsistent bt pt (refund g bt pt k amount s).1
    refund-IsConsistent k amount s c h = elim (refund_ends k amount s) [
      | inl (_, e) ↦ rw e h
      | inr (low, e) ↦
          let h' = start_refund-IsConsistent k amount s low (c low) h in
          rw e (record { matched = h'.matched; distinct = h'.distinct })
    ]

    -- No captured payment is left where a refund was claimed.
    claimed-hits :
        (k : ℕ) (a : ℤ) (s : Db bt pt)
        → hits
            (λ (p : ServicePayment). has_payment_status p.status captured)
            (payment_at bt pt k (start_refund bt pt k a s).1)
          ≡ 0
    unfolding start_refund
    claimed-hits k a s = elim (Option-cases (payment_at bt pt k s)) [
      | inl e ↦ ground (arith, claim_at)
      | inr (p, e) ↦ ground (arith, claim_at, payment_key bt pt k s p e)
    ]
      where
        claim_at :
            payment_at bt pt k (
              payments_store
                (λ p. (p.booking == k) && has_payment_status p.status captured)
                (claimed_row bt pt a)
                s)
            ≡ revised
                (λ p. (p.booking == k) && has_payment_status p.status captured)
                (claimed_row bt pt a)
                (payment_at bt pt k s)
        claim_at =
            payment-payments_store (λ p. (p.booking == k) && has_payment_status p.status captured)
              (claimed_row bt pt a) (λ r. refl) (λ r. refl) s k

    -- A refund of a booking that runs right after one of a positive amount, on the stores that this one
    -- left, queues no job, whatever its amount.
    pub refund_once :
        (k : ℕ) (a b : ℤ) (s : Db bt pt)
        → pos 1 ≤ℤ a
        → let s' = (refund g bt pt k a s).1 in
          (refund g bt pt k b s').1.refund_jobs ≡ s'.refund_jobs
    refund_once k a b s low = elim (refund_ends k a s) [
      | inl (free, _) ↦ absurd (omega arith)
      | inr (_, e) ↦ elim (refund_ends k b (refund g bt pt k a s).1) [
        | inl (_, f) ↦ rw f
        | inr (_, f) ↦
            let spent : hits (λ (p : ServicePayment). has_payment_status p.status captured)
                  (payment_at bt pt k (refund g bt pt k a s).1)
                ≡ 0 =
              rw e (claimed-hits k a s) in
            rw (f, spent)
      ]
    ]

    -- A refund claims the captured payment and queues its job.
    pub refund_lem :
        (k : ℕ) (amount : ℤ) (s : Db bt pt) (p : ServicePayment)
        → pos 1 ≤ℤ amount
        → payment_at bt pt k s ≡ some p
        → p.status ≡ captured
        → let (r, s') = refund g bt pt k amount s in
          (r ≡ ok tt)
          × (payment_at bt pt k s' ≡ some (claimed_row bt pt amount p))
          × (s'.refund_jobs ≡ k ∷ s.refund_jobs)
          × (s'.bookings ≡ s.bookings)
    unfolding start_refund
    refund_lem k amount s p low e c = elim (refund_ends k amount s) [
      | inl (free, _) ↦ absurd (omega arith)
      | inr (_, ends) ↦
          let after =
            payment-payments_store (λ p. (p.booking == k) && has_payment_status p.status captured)
              (claimed_row bt pt amount) (λ r. refl) (λ r. refl) s k in
          let key = payment_key bt pt k s p e in
          rw ends (refl, ground (arith, after, key), ground arith, refl)
    ]
