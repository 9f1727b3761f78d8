-- ===== src/Razorpay/Invariant.antt =====
-- What ties a payment to its booking.
use v2_backend.Common.{ℕ, ◌≡◌, ◌≢◌, ◌⊎◌, Option, none, some, arith}
use v2_backend.Common.Int.{ℤ, pos, ◌≤ℤ◌}
use v2_backend.HomeServices.Model.{
  BookingStatus, awaiting_payment, cancelled, PaymentStatus, created, captured, refund_pending,
  refunded, ServiceBooking, ServicePayment, BookingTable, PaymentTable,
}
use v2_backend.HomeServices.Repository.{Db, booking_at}
use v2_backend.Razorpay.Repository.{payment_at}

-- A refund takes something, and at most what was paid.
abbrev pub IsWithin : ℤ → Option ℤ → Type 0
IsWithin amount none = ⊥
IsWithin amount (some a) = (pos 1 ≤ℤ a) × (a ≤ℤ amount)

-- What each status of a payment says of its booking: an open one waits for it, and only a cancelled
-- one is refunded.
abbrev pub IsPaid : BookingStatus → ServicePayment → PaymentStatus → Type 0
IsPaid s p created = (s ≡ awaiting_payment) × (pos 1 ≤ℤ p.amount)
IsPaid s p captured = (s ≢ awaiting_payment) × (p.payment ≢ none) × (pos 1 ≤ℤ p.amount)
IsPaid s p refund_pending = (s ≡ cancelled) × (p.payment ≢ none) × IsWithin p.amount p.refund_amount
IsPaid s p refunded = (s ≡ cancelled) × (p.payment ≢ none) × IsWithin p.amount p.refund_amount

-- A booking that no payment covers was free, or is not yet or no longer to be done.
abbrev pub IsUnpaid : ServiceBooking → Type 0
IsUnpaid b = (b.total ≤ℤ pos 0) ⊎ (b.status ≡ awaiting_payment) ⊎ (b.status ≡ cancelled)

abbrev pub IsMatched : Option ServiceBooking → Option ServicePayment → Type 0
IsMatched none none = Unit
IsMatched none (some p) = ⊥
IsMatched (some b) none = IsUnpaid b
IsMatched (some b) (some p) = (p.amount ≡ b.total) × IsPaid b.status p p.status

module _ (bt : BookingTable) (pt : PaymentTable) where
  -- Every booking is matched by its payment, and no two payments share an order.
  pub record IsConsistent (s : Db bt pt) : Type 0 where
    pub matched : (k : ℕ) → IsMatched (booking_at bt pt k s) (payment_at bt pt k s)
    pub distinct :
        (j k : ℕ) (p q : ServicePayment)
        → payment_at bt pt j s ≡ some p
        → payment_at bt pt k s ≡ some q
        → p.order ≡ q.order
        → j ≡ k

  -- The rows that carry the key they are looked up by.
  pub booking_key :
      (k : ℕ) (s : Db bt pt) (b : ServiceBooking) → booking_at bt pt k s ≡ some b → b.id ≡ k
  booking_key k s b e = ground (arith, (bt.find_sound _ _ _ e).0)

  pub payment_key :
      (k : ℕ) (s : Db bt pt) (p : ServicePayment) → payment_at bt pt k s ≡ some p → p.booking ≡ k
  payment_key k s p e = ground (arith, (pt.find_sound _ _ _ e).0)
