-- ===== src/Razorpay/Service.antt =====
-- src/modules/razorpay/razorpay.service.ts, and the signature checks of razorpay.client.ts. Razorpay
-- itself is a parameter: what it answers to each call. Amounts are paise on both sides, so `toPaise`
-- has nothing to convert.
use v2_backend.Common.{
  ℕ, Bool, true, false, not, ◌&&◌, Option, none, some, ◌==◌, if◌then◌else◌, Action, Result, ok, err,
  pure, throw, answer, or_throw, throw_if, when, modify, ◌∷◌, ◌>>=◌, ◌>>◌, Failure,
}
use v2_backend.Common.Error.{
  payment_mismatch, payment_not_completed, invalid_payment_signature, invalid_webhook_signature,
  Resource,
}
use v2_backend.Common.Int.{ℤ, pos, eq_ℤ, leb_ℤ}
use v2_backend.HomeServices.Model.{
  created, has_payment_status, ServicePayment, BookingTable, PaymentTable,
}
use v2_backend.HomeServices.Repository.{Db}
use v2_backend.Razorpay.Repository.{
  by_refund, create_payment, payment_by_booking, payment_by_order, capture, start_refund,
  mark_refunded,
}

pub data RemoteStatus : Type 0 where
  opened authorized settled returned failed : RemoteStatus

-- `RazorpayPayment`; `inr` says that the currency is INR, and `settled` is the status 'captured'.
pub record RemotePayment : Type 0 where
  pub id : ℕ
  pub order : ℕ
  pub amount : ℤ
  pub inr : Bool
  pub status : RemoteStatus
  pub method : ℕ

-- `WebhookEvent`, with the identifiers that the handler reads.
pub data WebhookEvent : Type 0 where
  payment_authorized payment_captured : ℕ → ℕ → WebhookEvent
  refund_processed refund_failed : ℕ → WebhookEvent
  other_event : WebhookEvent

-- What is outside the repository: Razorpay's answers, the HMACs and the JSON parser. `refetch`
-- answers a second read of a payment.
pub record Gateway : Type 1 where
  pub Body : Type 0
  pub enabled : Bool
  pub sign_payment : ℕ → ℕ → ℕ
  pub sign_webhook : Body → ℕ
  pub parse : Body → WebhookEvent
  pub create_order : ℤ → ℕ → Result ℕ
  pub fetch : ℕ → Result RemotePayment
  pub capture_payment : ℕ → ℤ → Result RemotePayment
  pub refetch : ℕ → Result RemotePayment

abbrev pub is_settled : RemoteStatus → Bool
is_settled settled = true
is_settled _ = false

abbrev pub is_authorized : RemoteStatus → Bool
is_authorized authorized = true
is_authorized _ = false

-- The comparison of a payment with its booking's.
abbrev pub is_same_payment : RemotePayment → ServicePayment → Bool
is_same_payment paid p = (paid.order == p.order) && eq_ℤ paid.amount p.amount && paid.inr

module _ (g : Gateway) where
  unfoldable pub is_valid_payment_signature : ℕ → ℕ → ℕ → Bool
  is_valid_payment_signature order payment signature = g.sign_payment order payment == signature

  unfoldable pub is_valid_webhook_signature : g.Body → ℕ → Bool
  is_valid_webhook_signature body signature = g.sign_webhook body == signature

  -- `captureOnce`: the loser of a race re-reads instead of failing.
  abbrev reread : Failure → Result RemotePayment → Result RemotePayment
  reread e (err e') = err e'
  reread e (ok now) = if is_settled now.status then ok now else err e

  unfoldable pub capture_once : RemotePayment → ℤ → Result RemotePayment
  capture_once paid amount = elim (g.capture_payment paid.id amount) [
    | ok now ↦ ok now
    | err e ↦ reread e (g.refetch paid.id)
  ]

  module _ (bt : BookingTable) (pt : PaymentTable) where
    -- `settle`, of a payment as it was read before.
    unfoldable pub settle : ServicePayment → ℕ → ℕ → Action (Db bt pt) (Unit {0})
    settle p payment now = if not (has_payment_status p.status created) then pure tt else do
      paid ← answer (g.fetch payment)
      throw_if (not (is_same_payment paid p)) (Failure.domain 409 payment_mismatch)
      paid' ← if is_authorized paid.status then answer (capture_once paid p.amount) else pure paid
      throw_if (not (is_settled paid'.status)) (Failure.domain 402 payment_not_completed)
      capture bt pt p.order paid'.id paid'.method now
      pure tt

    -- `checkout`, which answers with the order.
    unfoldable pub checkout : ℕ → ℕ → ℤ → Action (Db bt pt) ℕ
    checkout booking code total = do
      order ← answer (g.create_order total code)
      create_payment bt pt booking total order
      pure order

    unfoldable pub verify : ℕ → ℕ → ℕ → ℕ → ℕ → Action (Db bt pt) (Unit {0})
    verify booking order payment signature now = do
      found ← payment_by_booking bt pt booking
      p ← or_throw found (Failure.not_found Resource.payment)
      throw_if (not (p.order == order)) (Failure.not_found Resource.payment)
      throw_if (not (is_valid_payment_signature order payment signature))
          (Failure.domain 400 invalid_payment_signature)
      settle p payment now

    -- The `switch` of `handleWebhook`.
    unfoldable pub handle_event : WebhookEvent → ℕ → Action (Db bt pt) (Unit {0})
    handle_event (payment_authorized order payment) now = do
      found ← payment_by_order bt pt order
      elim found [ none ↦ pure tt | some p ↦ settle p payment now ]
    handle_event (payment_captured order payment) now = do
      found ← payment_by_order bt pt order
      elim found [ none ↦ pure tt | some p ↦ settle p payment now ]
    handle_event (refund_processed refund) now = mark_refunded bt pt (by_refund refund) now
    handle_event (refund_failed refund) now = pure tt
    handle_event other_event now = pure tt

    unfoldable pub handle_webhook : Option g.Body → Option ℕ → ℕ → Action (Db bt pt) (Unit {0})
    handle_webhook (some body) (some signature) now =
        if is_valid_webhook_signature body signature
        then handle_event (g.parse body) now
        else throw (Failure.domain 400 invalid_webhook_signature)
    handle_webhook (some body) none now = throw (Failure.domain 400 invalid_webhook_signature)
    handle_webhook none signature now = throw (Failure.domain 400 invalid_webhook_signature)

    abbrev queue_refund : ℕ → Db bt pt → Db bt pt
    queue_refund booking s = record s { refund_jobs = booking ∷ s.refund_jobs }

    -- `refund`: claims the refund, and queues its job once.
    unfoldable pub refund : ℕ → ℤ → Action (Db bt pt) (Unit {0})
    refund booking amount = if leb_ℤ amount (pos 0) then pure tt else do
      claimed ← start_refund bt pt booking amount
      when claimed (modify (queue_refund booking))
