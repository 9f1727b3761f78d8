-- ===== src/Razorpay/Settlement.antt =====
-- Settling: a payment is captured only on Razorpay's word, once, and its booking is then released.
use v2_backend.Common.Error.{invalid_webhook_signature, Resource, invalid_payment_signature}
use v2_backend.Razorpay.Recording.{mark_refunded-IsConsistent}
use v2_backend.Razorpay.Invariant.{IsConsistent, booking_key}
use v2_backend.Razorpay.Capturing.{
  capture-IsConsistent, capture_ends, capture_finds, paid_before, paid_at, released_at, clash_free,
  capture_free,
}
use v2_backend.Common.Keeps.{Keeps, Keeps-if, Keeps-seq, Keeps-throw_if, Keeps-case}
use v2_backend.Razorpay.Repository.{
  capture, payment_by_order, payment_by_booking, payment_at, by_refund, captured_row, released_row,
  holds_payment, claim_and_release, is_claimable,
}
use v2_backend.HomeServices.Repository.{Db, booking_at}
use v2_backend.HomeServices.Model.{
  BookingTable, ServicePayment, PaymentTable, created, has_payment_status, ServiceBooking,
  awaiting_payment,
}
use v2_backend.Common.Int.{ℤ, eq_ℤ}
use v2_backend.Razorpay.Service.{
  Gateway, RemotePayment, settle, is_authorized, capture_once, settled, is_same_payment, is_settled,
  verify, handle_event, handle_webhook, WebhookEvent, payment_authorized, payment_captured,
  refund_processed, is_valid_webhook_signature, refund_failed, is_valid_payment_signature,
  other_event,
}
use v2_backend.Common.{
  ℕ, ◌≡◌, true, ok, arith, ◌⊎◌, false, Action, Result, Bool, err, ◌>>◌, inl, pure, Bool-cases,
  throw, inr, refl, Option, Option-cases, ◌>>=◌, some, throw_if, Failure, not, ◌==◌, none, ◌≢◌, ◌∙◌,
  sym,
}

-- What Razorpay must say of a payment before it counts: it is the order's, of the amount, in INR,
-- and captured, at once or by the request to capture it.
abbrev pub IsAttested : Gateway → ServicePayment → ℕ → RemotePayment → Type 0
IsAttested g p payment last =
    (paid : RemotePayment) × (g.fetch payment ≡ ok paid)
    × (paid.order ≡ p.order)
    × (paid.amount ≡ p.amount)
    × (paid.inr ≡ true)
    × (((is_authorized paid.status ≡ false) × (last ≡ paid))
        ⊎ (capture_once g paid p.amount ≡ ok last))
    × (last.status ≡ settled)

eq_ℤ→≡ : (a b : ℤ) → eq_ℤ a b ≡ true → a ≡ b
eq_ℤ→≡ a b h = ground arith

holds_payment-some : (id : ℕ) (p : ServicePayment) → holds_payment id p ≡ true → p.payment ≡ some id
holds_payment-some id p h = elim (Option-cases p.payment) [
  | inl e ↦ ground arith
  | inr (x, e) ↦ ground arith
]

module _ (bt : BookingTable) (pt : PaymentTable) (g : Gateway) where
  abbrev SettleEnds : ServicePayment → ℕ → ℕ → Db bt pt → Type 0
  SettleEnds p payment now s =
      ((settle g bt pt p payment now s).1 ≡ s)
      ⊎ ((p.status ≡ created)
          × ((last : RemotePayment) × IsAttested g p payment last
              × ((settle g bt pt p payment now s).1
                  ≡ (capture bt pt p.order last.id last.method now s).1)))

  captured_or_not :
      (m : Action (Db bt pt) Bool) (s : Db bt pt) → ((m >> pure {S = Db bt pt} tt) s).1 ≡ (m s).1
  captured_or_not m s = go (m s).0 (m s).1
    where
      go :
          (r : Result Bool) (s' : Db bt pt)
          → (elim r as (λ x. Result (Unit {0}) × Db bt pt) [
            | ok a ↦ pure tt s'
            | err e ↦ throw e s'
          ]).1
            ≡ s'
      go (ok a) s' = refl
      go (err e) s' = refl

  module _ (p : ServicePayment) (payment now : ℕ) (s : Db bt pt)
      (open_ : has_payment_status p.status created ≡ true) (paid : RemotePayment)
      (fetched : g.fetch payment ≡ ok paid) (same : is_same_payment paid p ≡ true) where
    settle_last :
        (last : RemotePayment)
        → ((is_authorized paid.status ≡ false) × (last ≡ paid))
          ⊎ ((is_authorized paid.status ≡ true) × (capture_once g paid p.amount ≡ ok last))
        → SettleEnds p payment now s
    unfolding settle
    settle_last last how = elim (Bool-cases (is_settled last.status)) [
      | inr other ↦ inl (ground arith)
      | inl done ↦ inr (
        ground arith,
        (
          last,
          attested done,
          ground (arith, captured_or_not (capture bt pt p.order last.id last.method now) s),
        ),
      )
    ]
      where
        attested : is_settled last.status ≡ true → IsAttested g p payment last
        attested done = (
          paid,
          fetched,
          ground arith,
          eq_ℤ→≡ paid.amount p.amount (ground arith),
          ground arith,
          ground arith,
          ground arith,
        )

    settle_same : SettleEnds p payment now s
    unfolding settle
    settle_same = elim (Bool-cases (is_authorized paid.status)) [
      | inr at_once ↦ settle_last paid (inl (at_once, refl))
      | inl waits ↦ once (capture_once g paid p.amount) refl waits
    ]
      where
        once :
            (r : Result RemotePayment)
            → capture_once g paid p.amount ≡ r
            → is_authorized paid.status ≡ true
            → SettleEnds p payment now s
        once (ok last) e waits = settle_last last (inr (waits, e))
        once (err x) e waits = inl (ground arith)

  -- Settling ends in a capture of what Razorpay attests, of a payment read as open, or leaves the
  -- stores alone.
  pub settle_ends :
      (p : ServicePayment) (payment now : ℕ) (s : Db bt pt) → SettleEnds p payment now s
  unfolding settle
  settle_ends p payment now s = elim (Bool-cases (has_payment_status p.status created)) [
    | inr closed ↦ inl (ground arith)
    | inl open_ ↦ fetched (g.fetch payment) refl open_
  ]
    where
      fetched :
          (r : Result RemotePayment)
          → g.fetch payment ≡ r
          → has_payment_status p.status created ≡ true
          → SettleEnds p payment now s
      fetched (err e) f open_ = inl (ground arith)
      fetched (ok paid) f open_ = elim (Bool-cases (is_same_payment paid p)) [
        | inl same ↦ settle_same p payment now s open_ paid f same
        | inr other ↦ inl (ground (arith, other))
      ]

  -- Settling keeps the stores consistent, however stale the payment it was called with.
  pub settle-IsConsistent :
      (p : ServicePayment) (payment now : ℕ)
      → Keeps (IsConsistent bt pt) (settle g bt pt p payment now)
  settle-IsConsistent p payment now s h = elim (settle_ends p payment now s) [
    | inl e ↦ rw e h
    | inr (_, (last, _, e)) ↦ rw e (capture-IsConsistent bt pt p.order last.id last.method now s h)
  ]

  pub verify-IsConsistent :
      (booking order payment signature now : ℕ)
      → Keeps (IsConsistent bt pt) (verify g bt pt booking order payment signature now)
  unfolding verify payment_by_booking
  verify-IsConsistent booking order payment signature now s h =
      elim (Option-cases (payment_at bt pt booking s)) [
        | inl e ↦ rw e h
        | inr (p, e) ↦ rw e (
            Keeps-seq (IsConsistent bt pt)
              (throw_if (not (p.order == order)) (Failure.not_found Resource.payment))
              (throw_if (not (is_valid_payment_signature g order payment signature))
                  (Failure.domain 400 invalid_payment_signature)
                >> settle g bt pt p payment now)
              (Keeps-throw_if (IsConsistent bt pt) _ _)
              (Keeps-seq (IsConsistent bt pt)
                (throw_if (not (is_valid_payment_signature g order payment signature))
                  (Failure.domain 400 invalid_payment_signature))
                (settle g bt pt p payment now) (Keeps-throw_if (IsConsistent bt pt) _ _)
                (settle-IsConsistent p payment now))
              s h)
      ]

  settle_found :
      (order payment now : ℕ)
      → Keeps (IsConsistent bt pt) (
          payment_by_order bt pt order >>= λ found. elim found [
            | none ↦ pure tt
            | some p ↦ settle g bt pt p payment now
          ])
  unfolding payment_by_order
  settle_found order payment now s h =
      Keeps-case (IsConsistent bt pt) (pt.find (λ p. p.order == order) s.payments) (pure tt)
        (λ p. settle g bt pt p payment now) (λ s h. h) (λ p. settle-IsConsistent p payment now) s h

  handle_event-IsConsistent :
      (event : WebhookEvent) (now : ℕ) → Keeps (IsConsistent bt pt) (handle_event g bt pt event now)
  unfolding handle_event
  handle_event-IsConsistent (payment_authorized order payment) now s h =
      settle_found order payment now s h
  handle_event-IsConsistent (payment_captured order payment) now s h =
      settle_found order payment now s h
  handle_event-IsConsistent (refund_processed refund) now s h =
      mark_refunded-IsConsistent bt pt (by_refund refund) now s h
  handle_event-IsConsistent (refund_failed refund) now s h = h
  handle_event-IsConsistent other_event now s h = h

  -- A webhook keeps the stores consistent, whatever it says, whoever sent it and however Razorpay
  -- answers.
  pub handle_webhook-IsConsistent :
      (body : Option g.Body) (signature : Option ℕ) (now : ℕ)
      → Keeps (IsConsistent bt pt) (handle_webhook g bt pt body signature now)
  unfolding handle_webhook
  handle_webhook-IsConsistent none signature now s h = h
  handle_webhook-IsConsistent (some body) none now s h = h
  handle_webhook-IsConsistent (some body) (some signature) now s h =
      Keeps-if (IsConsistent bt pt) (is_valid_webhook_signature g body signature)
        (handle_event g bt pt (g.parse body) now)
        (throw (Failure.domain 400 invalid_webhook_signature))
        (handle_event-IsConsistent (g.parse body) now) (λ s h. h) s h

  claim_pays :
      (k order payment method now : ℕ) (s : Db bt pt) (p : ServicePayment) (b : ServiceBooking)
      → IsConsistent bt pt s
      → payment_at bt pt k s ≡ some p
      → p.order ≡ order
      → p.status ≡ created
      → booking_at bt pt k s ≡ some b
      → let (r, s') = claim_and_release bt pt order payment method now s in
        (r ≡ ok true)
        × (payment_at bt pt k s' ≡ some (captured_row payment method now p))
        × (booking_at bt pt k s' ≡ some (released_row b))
  claim_pays k order payment method now s p b h e o c f =
      elim (capture_ends bt pt order payment method now s) [
        | inl (free, _) ↦ absurd (
            let missed : is_claimable bt pt order p ≡ false =
              pt.find_complete (is_claimable bt pt order) s.payments k p free e in
            ground arith)
        | inr (inr (claimable, lost)) ↦
            absurd (capture_finds bt pt order payment method now s claimable lost)
        | inr (inl (p', _, found, ends)) ↦
            let (q, before, o') = paid_before bt pt order payment method now s p' found in
            let same : p'.booking ≡ k = h.distinct p'.booking k q p before e (o' ∙ sym o) in
            let open_booking : b.status ≡ awaiting_payment =
              ground (arith, rw (e, f) at (h.matched k)) in
            let key : b.id ≡ k = booking_key bt pt k s b f in
            rw ends (
              refl,
              ground (arith, paid_at bt pt order payment method now s k),
              ground (arith, released_at bt pt order payment method now s p'.booking k),
            )
      ]

  -- No other payment holds Razorpay's payment.
  abbrev pub IsAlone : ℕ → ℕ → Db bt pt → Type 0
  IsAlone k payment s =
      (j : ℕ) (q : ServicePayment)
      → payment_at bt pt j s ≡ some q
      → q.payment ≡ some payment
      → j ≡ k

  capture_pays :
      (k order payment method now : ℕ) (s : Db bt pt) (p : ServicePayment) (b : ServiceBooking)
      → IsConsistent bt pt s
      → payment_at bt pt k s ≡ some p
      → p.order ≡ order
      → p.status ≡ created
      → booking_at bt pt k s ≡ some b
      → IsAlone k payment s
      → let (r, s') = capture bt pt order payment method now s in
        (r ≡ ok true)
        × (payment_at bt pt k s' ≡ some (captured_row payment method now p))
        × (booking_at bt pt k s' ≡ some (released_row b))
  capture_pays k order payment method now s p b h e o c f alone =
      let free =
        clash_free bt pt (is_claimable bt pt order) (holds_payment payment) k s p e (ground arith)
          (λ j q x y. alone j q x (holds_payment-some payment q y)) in
      rw (capture_free bt pt order payment method now s free)
        (claim_pays k order payment method now s p b h e o c f)

  -- In a consistent store, where Razorpay reports the order of an open payment as captured for its
  -- amount, and no other payment holds Razorpay's payment, settling it returns, the payment is captured
  -- and its booking is released to the company.
  pub settle_pays :
      (k payment now : ℕ) (s : Db bt pt) (p : ServicePayment) (b : ServiceBooking)
      (paid : RemotePayment)
      → IsConsistent bt pt s
      → payment_at bt pt k s ≡ some p
      → p.status ≡ created
      → booking_at bt pt k s ≡ some b
      → g.fetch payment ≡ ok paid
      → is_same_payment paid p ≡ true
      → paid.status ≡ settled
      → IsAlone k paid.id s
      → let (r, s') = settle g bt pt p payment now s in
        (r ≡ ok tt)
        × (payment_at bt pt k s' ≡ some (captured_row paid.id paid.method now p))
        × (booking_at bt pt k s' ≡ some (released_row b))
  unfolding settle
  settle_pays k payment now s p b paid h e c f fetched same done alone =
      let (x, y, z) = capture_pays k p.order paid.id paid.method now s p b h e refl c f alone in
      ground (arith, x, y, z)

  -- Without a valid signature, or with another order than that of the booking's payment, verifying a
  -- payment throws and changes nothing.
  pub verify_refuses :
      (booking order payment signature now : ℕ) (s : Db bt pt)
      → (is_valid_payment_signature g order payment signature ≡ false)
        ⊎ ((p : ServicePayment) → payment_at bt pt booking s ≡ some p → p.order ≢ order)
      → ((verify g bt pt booking order payment signature now s).0 ≢ ok tt)
        × ((verify g bt pt booking order payment signature now s).1 ≡ s)
  unfolding verify payment_by_booking
  verify_refuses booking order payment signature now s bad =
      elim (Option-cases (payment_at bt pt booking s)) [
        | inl e ↦ ground arith
        | inr (p, e) ↦ elim bad [
          | inl forged ↦ elim (Bool-cases (p.order == order)) [
            | inl same ↦ ground arith
            | inr other ↦ ground arith
          ]
          | inr others ↦ ground (arith, others p e)
        ]
      ]
