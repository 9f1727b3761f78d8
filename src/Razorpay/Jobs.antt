-- ===== src/Razorpay/Jobs.antt =====
-- The refund job: it keeps the stores consistent, completes what it is queued for, and asks once.
use v2_backend.Common.Keeps.{Keeps, Keeps-bind, Keeps-if, Keeps-case, Keeps-seq, Keeps-when}
use v2_backend.Razorpay.Invariant.{IsMatched, IsConsistent, payment_key}
use v2_backend.Razorpay.Recording.{
  set_refund_id-IsConsistent, set_refund_id_clash, is_refund-some, set_refund_id_lem,
  mark_refunded_lem, mark_refunded-IsConsistent,
}
use v2_backend.Razorpay.Capturing.{clash_free}
use v2_backend.Common.Int.{ℤ}
use v2_backend.HomeServices.Repository.{Db, booking_at}
use v2_backend.Razorpay.Queue.{RefundAnswer, ask_refund, process, process_payment}
use v2_backend.Razorpay.Repository.{
  set_refund_id, mark_refunded, payment_at, is_refund, refund_id_row, payment_by_booking,
  by_booking, is_clash, by_refund,
}
use v2_backend.HomeServices.Model.{
  BookingTable, PaymentTable, refunded, ServiceBooking, ServicePayment, refund_pending,
  has_payment_status,
}
use v2_backend.Common.{
  false, ℕ, ◌≡◌, Option, ok, some, ◌==◌, none, arith, true, Bool-cases, inl, refl, inr,
  Option-cases, answer, pure, Bool, not, when, ◌||◌, ◌>>◌, is_some, ◌≢◌, ◌⊎◌, Result, err,
}

module _ (bt : BookingTable) (pt : PaymentTable) where
  -- A job has nothing left to do for a payment.
  abbrev IsSkipped : Option ServicePayment → Type 0
  IsSkipped none = Unit
  IsSkipped (some p) =
      (p.status ≢ refund_pending)
      ⊎ (p.refund ≢ none)
      ⊎ (p.payment ≡ none)
      ⊎ (p.refund_amount ≡ none)

  module _ (ask : RefundAnswer) where
    ask_refund-IsConsistent :
        (k payment : ℕ) (amount : ℤ) (now : ℕ)
        → Keeps (IsConsistent bt pt) (ask_refund ask bt pt k payment amount now)
    unfolding ask_refund
    ask_refund-IsConsistent k payment amount now =
        let marked = λ (done : Bool). when done (mark_refunded bt pt (by_booking k) now) in
        Keeps-bind (IsConsistent bt pt) (answer (ask payment amount))
          (λ a. set_refund_id bt pt k a.0 >> marked a.1) (λ s h. h)
          (λ a.
            Keeps-seq (IsConsistent bt pt) (set_refund_id bt pt k a.0) (marked a.1)
              (set_refund_id-IsConsistent bt pt k a.0)
              (Keeps-when (IsConsistent bt pt) a.1 (mark_refunded bt pt (by_booking k) now)
                (mark_refunded-IsConsistent bt pt (by_booking k) now)))

    process_payment-IsConsistent :
        (p : ServicePayment) (k now : ℕ) (payment : Option ℕ) (amount : Option ℤ)
        → Keeps (IsConsistent bt pt) (process_payment ask bt pt p k now payment amount)
    unfolding process_payment
    process_payment-IsConsistent p k now none amount s h = h
    process_payment-IsConsistent p k now (some payment) none s h = h
    process_payment-IsConsistent p k now (some payment) (some amount) s h =
        Keeps-if (IsConsistent bt pt)
          (not (has_payment_status p.status refund_pending) || is_some p.refund) (pure tt)
          (ask_refund ask bt pt k payment amount now) (λ s h. h)
          (ask_refund-IsConsistent k payment amount now) s h

    -- A run of the job keeps the stores consistent.
    pub process-IsConsistent :
        (k now : ℕ) (s : Db bt pt)
        → IsConsistent bt pt s
        → IsConsistent bt pt (process ask bt pt k now s).1
    unfolding process payment_by_booking
    process-IsConsistent k now s h =
        Keeps-case (IsConsistent bt pt) (payment_at bt pt k s) (pure tt)
          (λ p. process_payment ask bt pt p k now p.payment p.refund_amount) (λ s h. h)
          (λ p. process_payment-IsConsistent p k now p.payment p.refund_amount) s h

    process_payment_skips :
        (p : ServicePayment) (k now : ℕ) (x : Option ℕ) (y : Option ℤ) (s : Db bt pt)
        → p.payment ≡ x
        → p.refund_amount ≡ y
        → IsSkipped (some p)
        → process_payment ask bt pt p k now x y s ≡ (ok tt, s)
    unfolding process_payment
    process_payment_skips p k now none y s f f' d = refl
    process_payment_skips p k now (some x) none s f f' d = refl
    process_payment_skips p k now (some x) (some y) s f f' d = elim (Option-cases p.refund) [
      | inl e ↦ ground (arith, d)
      | inr (r, e) ↦ ground arith
    ]

    process_skips :
        (k now : ℕ) (s : Db bt pt)
        → IsSkipped (payment_at bt pt k s)
        → process ask bt pt k now s ≡ (ok tt, s)
    unfolding process payment_by_booking
    process_skips k now s d = elim (Option-cases (payment_at bt pt k s)) [
      | inl e ↦ ground arith
      | inr (p, e) ↦
          let q : IsSkipped (some p) = rw e at d in
          ground (arith, process_payment_skips p k now p.payment p.refund_amount s refl refl q)
    ]

    asked-IsSkipped :
        (p : ServicePayment) (k now x : ℕ) (y : ℤ) (s s' : Db bt pt)
        → payment_at bt pt k s ≡ some p
        → p.status ≡ refund_pending
        → ask_refund ask bt pt k x y now s ≡ (ok tt, s')
        → IsSkipped (payment_at bt pt k s')
    unfolding ask_refund
    asked-IsSkipped p k now x y s s' e pend f = go (ask x y) refl
      where
        go : (a : Result (ℕ × Bool)) → ask x y ≡ a → IsSkipped (payment_at bt pt k s')
        go (err z) g = ground arith
        go (ok (r, done)) g =
            elim (Bool-cases (is_clash bt pt (λ p. p.booking == k) (is_refund (by_refund r)) s)) [
              | inl e ↦ absurd (ground (arith, f, g, set_refund_id_clash bt pt k r s e))
              | inr free ↦ recorded r done free g
            ]
          where
            recorded :
                (r : ℕ) (done : Bool)
                → is_clash bt pt (λ p. p.booking == k) (is_refund (by_refund r)) s ≡ false
                → ask x y ≡ ok (r, done)
                → IsSkipped (payment_at bt pt k s')
            recorded r true free g =
                let (set_ok, set_at) = set_refund_id_lem bt pt k r s p e free in
                let (mark_ok, mark_at) =
                  mark_refunded_lem bt pt k now (set_refund_id bt pt k r s).1
                    (refund_id_row bt pt r p) set_at pend in
                let same : s'
                    ≡ (mark_refunded bt pt (by_booking k) now (set_refund_id bt pt k r s).1).1 =
                  ground (arith, set_ok, mark_ok) in
                rw (same, mark_at) (inr (inl (λ z. cc)))
            recorded r false free g =
                let (set_ok, set_at) = set_refund_id_lem bt pt k r s p e free in
                let same : s' ≡ (set_refund_id bt pt k r s).1 = ground (arith, set_ok) in
                rw (same, set_at) (inr (inl (λ z. cc)))

    process_payment-IsSkipped :
        (p : ServicePayment) (k now : ℕ) (x : Option ℕ) (y : Option ℤ) (s s' : Db bt pt)
        → p.payment ≡ x
        → p.refund_amount ≡ y
        → payment_at bt pt k s ≡ some p
        → process_payment ask bt pt p k now x y s ≡ (ok tt, s')
        → IsSkipped (payment_at bt pt k s')
    unfolding process_payment
    process_payment-IsSkipped p k now none y s s' f f' e h =
        let same : s ≡ s' = ground arith in rw (← same, e) (inr (inr (inl f)))
    process_payment-IsSkipped p k now (some x) none s s' f f' e h =
        let same : s ≡ s' = ground arith in rw (← same, e) (inr (inr (inr f')))
    process_payment-IsSkipped p k now (some x) (some y) s s' f f' e h =
        elim (Bool-cases (has_payment_status p.status refund_pending)) [
          | inr other ↦ let same : s ≡ s' = ground arith in rw (← same, e) (inl (λ z. ground arith))
          | inl pend ↦ elim (Option-cases p.refund) [
            | inl free ↦ asked-IsSkipped p k now x y s s' e (ground arith) (ground (arith, free))
            | inr (r, spent) ↦
                let same : s ≡ s' = ground arith in rw (← same, e) (inr (inl (λ z. cc)))
          ]
        ]

    process-IsSkipped :
        (k now : ℕ) (s s' : Db bt pt)
        → process ask bt pt k now s ≡ (ok tt, s')
        → IsSkipped (payment_at bt pt k s')
    unfolding process payment_by_booking
    process-IsSkipped k now s s' h = elim (Option-cases (payment_at bt pt k s)) [
      | inl e ↦ let same : s ≡ s' = ground arith in rw (← same, e) tt
      | inr (p, e) ↦
          process_payment-IsSkipped p k now p.payment p.refund_amount s s' refl refl e
            (ground arith)
    ]

    -- No other payment holds Razorpay's refund.
    abbrev pub IsOnlyRefund : ℕ → ℕ → Db bt pt → Type 0
    IsOnlyRefund k refund s =
        (j : ℕ) (q : ServicePayment)
        → payment_at bt pt j s ≡ some q
        → q.refund ≡ some refund
        → j ≡ k

    -- Razorpay's answer for a payment and the amount that is kept with it.
    abbrev pub IsAnswered : ServicePayment → ℕ × Bool → Type 0
    IsAnswered p a =
        (payment : ℕ) (amount : ℤ)
        → p.payment ≡ some payment
        → p.refund_amount ≡ some amount
        → ask payment amount ≡ ok a

    -- In a consistent store, the job for a pending refund not yet asked for returns and leaves the
    -- payment refunded with Razorpay's refund recorded, if Razorpay processes at once a refund of that
    -- payment and of the amount kept with it, and no other payment holds that refund.
    pub process_refunds :
        (k now refund : ℕ) (s : Db bt pt) (p : ServicePayment)
        → IsConsistent bt pt s
        → payment_at bt pt k s ≡ some p
        → p.status ≡ refund_pending
        → p.refund ≡ none
        → IsAnswered p (refund, true)
        → IsOnlyRefund k refund s
        → ((process ask bt pt k now s).0 ≡ ok tt)
          × (payment_at bt pt k (process ask bt pt k now s).1
              ≡ some (record p { status = refunded; refund = some refund; refunded_at = some now }))
    unfolding process payment_by_booking process_payment ask_refund
    process_refunds k now refund s p h e pend free answered only =
        go (booking_at bt pt k s) (rw e at (h.matched k)) p.payment refl p.refund_amount refl
      where
        clear : is_clash bt pt (λ p. p.booking == k) (is_refund (by_refund refund)) s ≡ false
        clear =
            clash_free bt pt (λ p. p.booking == k) (is_refund (by_refund refund)) k s p e
              (ground (arith, payment_key bt pt k s p e))
              (λ j q x y. only j q x (is_refund-some bt pt refund q y))

        go :
            (b : Option ServiceBooking)
            → IsMatched b (some p)
            → (x : Option ℕ) → p.payment ≡ x
            → (y : Option ℤ) → p.refund_amount ≡ y
            → ((process ask bt pt k now s).0 ≡ ok tt)
              × (payment_at bt pt k (process ask bt pt k now s).1
                  ≡ some (record p {
                    status = refunded;
                    refund = some refund;
                    refunded_at = some now;
                  }))
        go none m x f y f' = absurd m
        go (some b) m none f y f' = ground arith
        go (some b) m (some x) f none f' = ground arith
        go (some b) m (some x) f (some y) f' =
            let (set_ok, set_at) = set_refund_id_lem bt pt k refund s p e clear in
            let (mark_ok, mark_at) =
              mark_refunded_lem bt pt k now (set_refund_id bt pt k refund s).1
                (refund_id_row bt pt refund p) set_at pend in
            let asked = answered x y f f' in
            (
              ground (arith, asked, set_ok, mark_ok),
              ground (arith, asked, set_ok, mark_ok, mark_at),
            )

  -- After a run of the refund job that succeeded, another run leaves the stores alone, whatever
  -- Razorpay would answer.
  pub process_once :
      (ask ask' : RefundAnswer) (k now later : ℕ) (s s' : Db bt pt)
      → process ask bt pt k now s ≡ (ok tt, s')
      → process ask' bt pt k later s' ≡ (ok tt, s')
  process_once ask ask' k now later s s' e =
      process_skips ask' k later s' (process-IsSkipped ask k now s s' e)
