-- ===== src/HomeServices/Placing.antt =====
-- Placing a booking: what it needs, what it costs, and that its payment is opened with it or not at all.
use v2_backend.HomeServices.Service.{place_booking}
use v2_backend.Common.Keeps.{state_seq}
use v2_backend.HomeServices.Bookings.{cancel_booking-IsConsistent}
use v2_backend.Razorpay.Service.{Gateway, checkout}
use v2_backend.Razorpay.Invariant.{IsUnpaid, IsConsistent, IsMatched, booking_key}
use v2_backend.Razorpay.Repository.{new_payment, payment_at, create_payment}
use v2_backend.HomeServices.Repository.{Db, booking_at, cancel_booking, create_booking}
use v2_backend.Common.Int.{ℤ, pos, ◌≤ℤ◌, ltb_ℤ}
use v2_backend.HomeServices.Model.{
  BookingTable, PaymentTable, ServiceBooking, awaiting_payment, ServicePayment, booking_conflict,
  payment_conflict, pending,
}
use v2_backend.Common.{
  ℕ, ◌≡◌, some, ◌==◌, if◌then◌else◌, true, none, Option-cases, arith, inl, sym, inr, ◌≢◌, Action,
  Bool-cases, Option, ◌>>=◌, on_error, ◌∷◌, [], ◌>>◌, throw, pure, Result, err, ok, refl, Failure,
}

module _ (bt : BookingTable) (pt : PaymentTable) where
  -- The key of a created booking was free, of payments too.
  created_absent :
      (b : ServiceBooking) (s : Db bt pt) (rows : bt.Rows)
      → bt.create b s.bookings ≡ some rows
      → (k : ℕ) → (b.id == k) ≡ true
      → booking_at bt pt k s ≡ none
  created_absent b s rows e k same = elim (Option-cases (booking_at bt pt k s)) [
    | inl gone ↦ gone
    | inr (x, here) ↦
        let free =
          bt.find_complete (booking_conflict b) s.bookings k x (bt.create_some b s.bookings e).0
            here in
        ground (arith, free, booking_key bt pt k s x here)
  ]

  created_unpaid :
      (b : ServiceBooking) (s : Db bt pt) (rows : bt.Rows)
      → bt.create b s.bookings ≡ some rows
      → IsConsistent bt pt s
      → (k : ℕ) → (b.id == k) ≡ true
      → payment_at bt pt k s ≡ none
  created_unpaid b s rows e h k same = elim (Option-cases (payment_at bt pt k s)) [
    | inl none_there ↦ none_there
    | inr (p, there) ↦ absurd (rw (created_absent b s rows e k same, there) at (h.matched k))
  ]

  created-IsConsistent :
      (b : ServiceBooking) (s : Db bt pt) (rows : bt.Rows)
      → bt.create b s.bookings ≡ some rows
      → IsUnpaid b
      → IsConsistent bt pt s
      → IsConsistent bt pt (record s { bookings = rows })
  created-IsConsistent b s rows e free h = record {
    matched = λ k. elim (Bool-cases (b.id == k)) [
      | inl same ↦ rw (at k, same) (rw (created_unpaid b s rows e h k same) free)
      | inr other ↦ rw (at k, other) (h.matched k)
    ];
    distinct = h.distinct;
  }
    where
      at :
          (k : ℕ)
          → bt.find (λ x. x.id == k) rows ≡ (if b.id == k then some b else booking_at bt pt k s)
      at = (bt.create_some b s.bookings e).1

  opened-IsConsistent :
      (k : ℕ) (amount : ℤ) (order : ℕ) (b : ServiceBooking) (s : Db bt pt) (rows : pt.Rows)
      → pt.create (new_payment k amount order) s.payments ≡ some rows
      → booking_at bt pt k s ≡ some b
      → b.total ≡ amount
      → b.status ≡ awaiting_payment
      → pos 1 ≤ℤ amount
      → IsConsistent bt pt s
      → IsConsistent bt pt (record s { payments = rows })
  opened-IsConsistent k amount order b s rows e here cost waits low h = record {
    matched = λ j. elim (Bool-cases (k == j)) [
      | inl same ↦ rw (at j, same) (opened j same)
      | inr other ↦ rw (at j, other) (h.matched j)
    ];
    distinct = only;
  }
    where
      at :
          (j : ℕ)
          → pt.find (λ x. x.booking == j) rows
            ≡ (if k == j then some (new_payment k amount order) else payment_at bt pt j s)
      at = (pt.create_some (new_payment k amount order) s.payments e).1

      opened :
          (j : ℕ)
          → (k == j) ≡ true
          → IsMatched (booking_at bt pt j s) (some (new_payment k amount order))
      opened j same =
          let there : k ≡ j = ground arith in rw (← there, here) (sym cost, (waits, low))

      apart : (j : ℕ) (p : ServicePayment) → payment_at bt pt j s ≡ some p → p.order ≢ order
      apart j p x o =
          let free =
            pt.find_complete (payment_conflict (new_payment k amount order)) s.payments j p
              (pt.create_some (new_payment k amount order) s.payments e).0 x in
          ground (arith, free)

      only :
          (i j : ℕ) (p q : ServicePayment)
          → pt.find (λ z. z.booking == i) rows ≡ some p
          → pt.find (λ z. z.booking == j) rows ≡ some q
          → p.order ≡ q.order
          → i ≡ j
      only i j p q x y o = elim (Bool-cases (k == i)) [
        | inl a ↦ elim (Bool-cases (k == j)) [
          | inl b ↦ ground arith
          | inr b ↦ absurd (apart j q (ground (arith, at j)) (ground (arith, at i)))
        ]
        | inr a ↦ elim (Bool-cases (k == j)) [
          | inl b ↦ absurd (apart i p (ground (arith, at i)) (ground (arith, at j)))
          | inr b ↦ h.distinct i j p q (ground (arith, at i)) (ground (arith, at j)) o
        ]
      ]

  module _ (g : Gateway) where
    -- The end of a booking: the checkout of a created row, and its cancellation where that fails.
    checkout_or_cancel : ServiceBooking → ℕ → Action (Db bt pt) (ServiceBooking × Option ℕ)
    checkout_or_cancel b now = do
      order ←
          on_error (checkout g bt pt b.id b.code b.total)
            (λ e. do cancel_booking bt pt b.id (awaiting_payment ∷ []) (pos 0) now; throw e)
      pure (b, some order)

    checkout_or_cancel-IsConsistent :
        (b : ServiceBooking) (now : ℕ) (s : Db bt pt)
        → booking_at bt pt b.id s ≡ some b
        → payment_at bt pt b.id s ≡ none
        → b.status ≡ awaiting_payment
        → pos 1 ≤ℤ b.total
        → IsConsistent bt pt s
        → IsConsistent bt pt (checkout_or_cancel b now s).1
    unfolding checkout_or_cancel checkout create_payment
    checkout_or_cancel-IsConsistent b now s here unpaid waits low h =
        ordered (g.create_order b.total b.code) refl
      where
        closed :
            IsConsistent bt pt (cancel_booking bt pt b.id (awaiting_payment ∷ []) (pos 0) now s).1
        closed =
            cancel_booking-IsConsistent bt pt b.id (awaiting_payment ∷ []) (pos 0) now s
              (inr unpaid) h

        closed_by :
            (e : Failure)
            → ((cancel_booking bt pt b.id (awaiting_payment ∷ []) (pos 0) now >> throw {A = ℕ} e)
                s).1
              ≡ (cancel_booking bt pt b.id (awaiting_payment ∷ []) (pos 0) now s).1
        closed_by e =
            state_seq (cancel_booking bt pt b.id (awaiting_payment ∷ []) (pos 0) now)
              (throw {A = ℕ} e) s (λ t. refl)

        ordered :
            (r : Result ℕ)
            → g.create_order b.total b.code ≡ r
            → IsConsistent bt pt (checkout_or_cancel b now s).1
        ordered (err e) f =
            let ends : (checkout_or_cancel b now s).1
                ≡ (cancel_booking bt pt b.id (awaiting_payment ∷ []) (pos 0) now s).1 =
              ground (arith, closed_by e) in
            rw ends closed
        ordered (ok order) f =
            elim (Option-cases (pt.create (new_payment b.id b.total order) s.payments)) [
              | inl clash ↦
                  let ends : (checkout_or_cancel b now s).1
                      ≡ (cancel_booking bt pt b.id (awaiting_payment ∷ []) (pos 0) now s).1 =
                    ground (arith, closed_by Failure.duplicate) in
                  rw ends closed
              | inr (rows, made) ↦
                  let ends : (checkout_or_cancel b now s).1 ≡ record s { payments = rows } =
                    ground arith in
                  rw ends
                    (opened-IsConsistent b.id b.total order b s rows made here refl waits low h)
            ]

    pub place_booking-IsConsistent :
        (b : ServiceBooking) (now : ℕ) (s : Db bt pt)
        → b.status ≡ (if ltb_ℤ (pos 0) b.total then awaiting_payment else pending)
        → IsConsistent bt pt s
        → IsConsistent bt pt (place_booking g bt pt b now s).1
    unfolding place_booking create_booking
    place_booking-IsConsistent b now s status h = elim (Option-cases (bt.create b s.bookings)) [
      | inl clash ↦ let ends : (place_booking g bt pt b now s).1 ≡ s = ground arith in rw ends h
      | inr (rows, made) ↦ elim (Bool-cases (ltb_ℤ (pos 0) b.total)) [
        | inr free ↦
            let ends : (place_booking g bt pt b now s).1 ≡ record s { bookings = rows } =
              ground arith in
            rw ends (created-IsConsistent b s rows made (inl (ground arith)) h)
        | inl costs ↦
            let ends : (place_booking g bt pt b now s).1
                ≡ (checkout_or_cancel b now (record s { bookings = rows })).1 =
              unfold checkout_or_cancel in ground arith in
            let h' = created-IsConsistent b s rows made (inr (inl (ground arith))) h in
            let here : booking_at bt pt b.id (record s { bookings = rows }) ≡ some b =
              ground (arith, (bt.create_some b s.bookings made).1 b.id) in
            rw ends (
              checkout_or_cancel-IsConsistent b now (record s { bookings = rows }) here
                (created_unpaid b s rows made h b.id (ground arith)) (ground arith) (ground arith)
                h')
      ]
    ]
