-- ===== src/Razorpay/Queue.antt =====
-- src/modules/razorpay/razorpay.queue.ts: the job that asks Razorpay for a refund.
use v2_backend.Common.{
  ℕ, Bool, ◌||◌, not, Option, none, some, Action, Result, pure, answer, when, ◌>>=◌, ◌>>◌, is_some,
  if◌then◌else◌,
}
use v2_backend.Common.Int.{ℤ}
use v2_backend.HomeServices.Model.{
  refund_pending, has_payment_status, ServicePayment, BookingTable, PaymentTable,
}
use v2_backend.HomeServices.Repository.{Db}
use v2_backend.Razorpay.Repository.{by_booking, payment_by_booking, set_refund_id, mark_refunded}

-- Razorpay's answer to a refund of a payment: the refund, and whether it is processed.
abbrev pub RefundAnswer : Type 0
RefundAnswer = ℕ → ℤ → Result (ℕ × Bool)

module _ (ask : RefundAnswer) (bt : BookingTable) (pt : PaymentTable) where
  -- The request, and the record of it.
  unfoldable pub ask_refund : ℕ → ℕ → ℤ → ℕ → Action (Db bt pt) (Unit {0})
  ask_refund booking payment amount now = do
    (refund, processed) ← answer (ask payment amount)
    set_refund_id bt pt booking refund
    when processed (mark_refunded bt pt (by_booking booking) now)

  -- The early return: asked for already, or nothing to ask for.
  unfoldable pub process_payment :
      ServicePayment → ℕ → ℕ → Option ℕ → Option ℤ → Action (Db bt pt) (Unit {0})
  unfolding ask_refund
  process_payment p booking now (some payment) (some amount) =
      if not (has_payment_status p.status refund_pending) || is_some p.refund
      then pure tt
      else ask_refund booking payment amount now
  process_payment p booking now none amount = pure tt
  process_payment p booking now (some payment) none = pure tt

  -- `RefundProcessor.process`
  unfoldable pub process : ℕ → ℕ → Action (Db bt pt) (Unit {0})
  unfolding process_payment
  process booking now = do
    found ← payment_by_booking bt pt booking
    elim found [ none ↦ pure tt | some p ↦ process_payment p booking now p.payment p.refund_amount ]
