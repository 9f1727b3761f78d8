-- ===== src/Lifecycle.antt =====
-- A service booking from the request to the refund: every write that the customer, the company, the
-- payment gateway's webhook and the refund job make, one after another in any order.
-- (src/modules/home-services/home-services.service.ts, src/modules/razorpay/razorpay.service.ts and
-- razorpay.queue.ts, src/modules/admin/admin-bookings.service.ts.)
use v2_backend.Razorpay.Queue.{RefundAnswer, process}
use v2_backend.Razorpay.Jobs.{process-IsConsistent}
use v2_backend.Admin.Dispatch.{assign-IsConsistent}
use v2_backend.Admin.Progress.{set_status-IsConsistent}
use v2_backend.HomeServices.Cancelling.{cancel-IsConsistent}
use v2_backend.Razorpay.Settlement.{handle_webhook-IsConsistent, verify-IsConsistent}
use v2_backend.HomeServices.Requests.{book-IsConsistent}
use v2_backend.Razorpay.Invariant.{IsConsistent}
use v2_backend.Common.Keeps.{Keeps, Keeps-seq}
use v2_backend.HomeServices.Service.{
  require_own, verify_payment, Catalogue, Moment, BookingRequest, book, cancel,
}
use v2_backend.HomeServices.Repository.{Db, find_booking, booking_at}
use v2_backend.HomeServices.Model.{BookingTable, PaymentTable, Vertical, BookingStatus}
use v2_backend.Razorpay.Service.{Gateway, verify, handle_webhook}
use v2_backend.Admin.Bookings.{Outside, assign, set_status}
use v2_backend.Common.{ℕ, ◌≡◌, Option-cases, inl, arith, ◌>>◌, Option, inr, Bool-cases, ◌==◌, List}

module _ (o : Outside) (g : Gateway) (bt : BookingTable) (pt : PaymentTable) where
  -- One request, webhook or job, run from its first read to its last write.
  pub data Step : Db bt pt → Db bt pt → Type 1 where
    booked :
        (c : Catalogue) (m : Moment) (user : ℕ) (dto : BookingRequest) (s : Db bt pt)
        → Step s (book g bt pt c m user dto s).1
    paid :
        (user id order payment signature now : ℕ) (s : Db bt pt)
        → Step s (verify_payment g bt pt user id order payment signature now s).1
    notified :
        (body : Option g.Body) (signature : Option ℕ) (now : ℕ) (s : Db bt pt)
        → Step s (handle_webhook g bt pt body signature now s).1
    withdrawn : (user id now : ℕ) (s : Db bt pt) → Step s (cancel g bt pt user id now s).1
    assigned :
        (company id professional : ℕ) (verticals : List Vertical) (now : ℕ) (s : Db bt pt)
        → Step s (assign o g bt pt company id professional verticals now s).1
    moved :
        (company id : ℕ) (next : BookingStatus) (verticals : List Vertical) (now : ℕ) (s : Db bt pt)
        → Step s (set_status o g bt pt company id next verticals now s).1
    processed :
        (ask : RefundAnswer) (booking now : ℕ) (s : Db bt pt)
        → Step s (process ask bt pt booking now s).1

  pub data Reach : Db bt pt → Db bt pt → Type 1 where
    stay : (s : Db bt pt) → Reach s s
    go_on : {s t u : Db bt pt} → Reach s t → Step t u → Reach s u

  -- Only the customer's own booking is looked at, and the stores stay as they are.
  require_own_state : (user id : ℕ) (s : Db bt pt) → (require_own g bt pt user id s).1 ≡ s
  unfolding require_own find_booking
  require_own_state user id s = elim (Option-cases (booking_at bt pt id s)) [
    | inl e ↦ ground (arith, e)
    | inr (b, e) ↦ elim (Bool-cases (b.user == user)) [
      | inl own ↦ ground (arith, e, own)
      | inr other ↦ ground (arith, e, other)
    ]
  ]

  find_booking-IsConsistent : (id : ℕ) → Keeps (IsConsistent bt pt) (find_booking bt pt id)
  unfolding find_booking
  find_booking-IsConsistent id s h = h

  verify_payment-IsConsistent :
      (user id order payment signature now : ℕ)
      → Keeps (IsConsistent bt pt) (verify_payment g bt pt user id order payment signature now)
  unfolding verify_payment
  verify_payment-IsConsistent user id order payment signature now =
      Keeps-seq (IsConsistent bt pt) (require_own g bt pt user id)
        (verify g bt pt id order payment signature now >> find_booking bt pt id)
        (λ s h. rw (require_own_state user id s) h)
        (Keeps-seq (IsConsistent bt pt) (verify g bt pt id order payment signature now)
          (find_booking bt pt id) (verify-IsConsistent bt pt g id order payment signature now)
          (find_booking-IsConsistent id))

  Step-IsConsistent : {s t : Db bt pt} → Step s t → IsConsistent bt pt s → IsConsistent bt pt t
  Step-IsConsistent (booked c m user dto s) h = book-IsConsistent bt pt g c m user dto s h
  Step-IsConsistent (paid user id order payment signature now s) h =
      verify_payment-IsConsistent user id order payment signature now s h
  Step-IsConsistent (notified body signature now s) h =
      handle_webhook-IsConsistent bt pt g body signature now s h
  Step-IsConsistent (withdrawn user id now s) h = cancel-IsConsistent g bt pt user id now s h
  Step-IsConsistent (assigned company id professional verticals now s) h =
      assign-IsConsistent o g bt pt company id professional verticals now s h
  Step-IsConsistent (moved company id next verticals now s) h =
      set_status-IsConsistent o g bt pt company id next verticals now s h
  Step-IsConsistent (processed ask booking now s) h = process-IsConsistent bt pt ask booking now s h

  -- From a consistent store, requests, webhooks and refund jobs in any order, each run from its first
  -- read to its last write, lead to a consistent one: every booking is matched by its payment, and no
  -- two payments share an order.
  pub Reach-IsConsistent :
      {s t : Db bt pt} → Reach s t → IsConsistent bt pt s → IsConsistent bt pt t
  Reach-IsConsistent (stay s) h = h
  Reach-IsConsistent (go_on r x) h = Step-IsConsistent x (Reach-IsConsistent r h)
