-- ===== src/Razorpay/Repository.antt =====
-- src/modules/razorpay/razorpay.repository.ts: every write of a payment is conditional on its status.
use v2_backend.Common.{
  ℕ, Bool, true, false, ◌&&◌, Option, none, some, ◌==◌, if◌then◌else◌, Action, pure, throw, gets,
  update, or_throw, transaction, ◌>>=◌, ◌>>◌, Failure, is_some, throw_if, not,
}
use v2_backend.Common.Int.{ℤ}
use v2_backend.HomeServices.Model.{
  created, captured, refund_pending, refunded, has_payment_status, awaiting_payment, pending,
  has_status, ServiceBooking, ServicePayment, BookingTable, PaymentTable, is_same_id,
}
use v2_backend.HomeServices.Repository.{Db, update_bookings}

-- What a refund is marked by: its booking, or Razorpay's refund.
pub data RefundKey : Type 0 where
  by_booking by_refund : ℕ → RefundKey

abbrev pub is_refund : RefundKey → ServicePayment → Bool
is_refund (by_booking k) p = p.booking == k
is_refund (by_refund r) p = elim p.refund [ none ↦ false | some x ↦ x == r ]

abbrev pub holds_payment : ℕ → ServicePayment → Bool
holds_payment id p = is_same_id (some id) p.payment

abbrev pub new_payment : ℕ → ℤ → ℕ → ServicePayment
new_payment booking amount order = record {
  booking = booking;
  status = created;
  amount = amount;
  order = order;
  payment = none;
  method = none;
  refund_amount = none;
  refund = none;
  captured_at = none;
  refunded_at = none;
}

abbrev pub captured_row : ℕ → ℕ → ℕ → ServicePayment → ServicePayment
captured_row payment method now p = record p {
  status = captured;
  payment = some payment;
  method = some method;
  captured_at = some now;
}

abbrev pub released_row : ServiceBooking → ServiceBooking
released_row b = record b { status = pending }

module _ (bt : BookingTable) (pt : PaymentTable) where
  abbrev pub payment_at : ℕ → Db bt pt → Option ServicePayment
  payment_at k s = pt.find (λ p. p.booking == k) s.payments

  abbrev pub update_payments :
      (ServicePayment → Bool) → (ServicePayment → ServicePayment) → Action (Db bt pt) ℕ
  update_payments p f =
      update
        (λ s. let (rows, n) = pt.update_many p f s.payments in (n, record s { payments = rows }))

  -- Whether a unique index refuses an update of the rows that pass the first test: there is such a
  -- row, and another row holds the value to be written.
  abbrev pub is_clash : (ServicePayment → Bool) → (ServicePayment → Bool) → Db bt pt → Bool
  is_clash written holds s =
      is_some (pt.find written s.payments)
      && is_some (pt.find (λ p. holds p && not (written p)) s.payments)

  abbrev pub refuse_clash :
      (ServicePayment → Bool) → (ServicePayment → Bool) → Action (Db bt pt) (Unit {0})
  refuse_clash written holds = do throw_if (← gets (is_clash written holds)) Failure.duplicate

  unfoldable pub create_payment : ℕ → ℤ → ℕ → Action (Db bt pt) (Unit {0})
  create_payment booking amount order s =
      elim (pt.create (new_payment booking amount order) s.payments) [
        | none ↦ throw Failure.duplicate s
        | some rows ↦ (pure tt) (record s { payments = rows })
      ]

  unfoldable pub payment_by_booking : ℕ → Action (Db bt pt) (Option ServicePayment)
  payment_by_booking k = gets (payment_at k)

  unfoldable pub payment_by_order : ℕ → Action (Db bt pt) (Option ServicePayment)
  payment_by_order order = gets (λ s. pt.find (λ p. p.order == order) s.payments)

  -- The rest of `capture`, once the payment is claimed.
  unfoldable pub release_booking : ℕ → Action (Db bt pt) Bool
  unfolding payment_by_order
  release_booking order = do
    found ← payment_by_order order
    p ← or_throw found Failure.crash
    update_bookings bt pt (λ b. (b.id == p.booking) && has_status b.status awaiting_payment)
        released_row
    pure true

  abbrev pub is_claimable : ℕ → ServicePayment → Bool
  is_claimable order p = (p.order == order) && has_payment_status p.status created

  -- The transaction of `capture` where the unique index of Razorpay's payments lets it write.
  unfoldable pub claim_and_release : ℕ → ℕ → ℕ → ℕ → Action (Db bt pt) Bool
  unfolding release_booking
  claim_and_release order payment method now = transaction (do
    n ← update_payments (is_claimable order) (captured_row payment method now)
    if n == 0 then pure false else release_booking order)

  -- `capture`: the payment and its booking, both or neither. Where another payment holds Razorpay's
  -- payment, the update throws and nothing is written.
  unfoldable pub capture : ℕ → ℕ → ℕ → ℕ → Action (Db bt pt) Bool
  unfolding claim_and_release
  capture order payment method now = do
    refuse_clash (is_claimable order) (holds_payment payment)
    claim_and_release order payment method now

  abbrev pub claimed_row : ℤ → ServicePayment → ServicePayment
  claimed_row amount p = record p { status = refund_pending; refund_amount = some amount }

  -- `startRefund`: claims the refund of a captured payment.
  unfoldable pub start_refund : ℕ → ℤ → Action (Db bt pt) Bool
  start_refund booking amount = do
    n ←
        update_payments (λ p. (p.booking == booking) && has_payment_status p.status captured)
          (claimed_row amount)
    pure (n == 1)

  abbrev pub refund_id_row : ℕ → ServicePayment → ServicePayment
  refund_id_row refund p = record p { refund = some refund }

  -- `setRefundId`: an `update`, which throws where the booking has no payment, and where another
  -- payment holds the refund.
  unfoldable pub set_refund_id : ℕ → ℕ → Action (Db bt pt) (Unit {0})
  set_refund_id booking refund = do
    refuse_clash (λ p. p.booking == booking) (is_refund (by_refund refund))
    n ← update_payments (λ p. p.booking == booking) (refund_id_row refund)
    if n == 0 then throw Failure.crash else pure tt

  abbrev pub refunded_row : ℕ → ServicePayment → ServicePayment
  refunded_row now p = record p { status = refunded; refunded_at = some now }

  unfoldable pub mark_refunded : RefundKey → ℕ → Action (Db bt pt) (Unit {0})
  mark_refunded key now = do
    update_payments (λ p. is_refund key p && has_payment_status p.status refund_pending)
        (refunded_row now)
    pure tt
