-- ===== src/Admin/Progress.antt =====
-- Moving a company's booking on, and dropping it.
use v2_backend.Admin.Dispatch.{update_booking_state, require_company_lem, one-IsConsistent}
use v2_backend.Razorpay.Refunds.{refund-IsConsistent}
use v2_backend.Common.Int.{pos}
use v2_backend.Razorpay.Invariant.{IsConsistent, booking_key}
use v2_backend.Common.Keeps.{Keeps, state_bind, bind_err, bind_ok, state_seq}
use v2_backend.HomeServices.Bookings.{
  bookings_store, cancel_booking_lem, cancel_booking-IsConsistent,
}
use v2_backend.HomeServices.Repository.{update_booking, Db, booking_at, cancel_row, cancel_booking}
use v2_backend.HomeServices.Model.{
  BookingTable, PaymentTable, ServiceBooking, Vertical, pending, confirmed, BookingStatus,
  awaiting_payment, cancelled, is_among, in_progress, completed,
}
use v2_backend.Razorpay.Service.{Gateway, refund}
use v2_backend.Admin.Bookings.{
  Outside, same_vertical, is_status, require_company, set_status_read, transitions, moved_row,
  write_status, set_status,
}
use v2_backend.Common.Error.{Failure, invalid_transition}
use v2_backend.Common.{
  ℕ, ◌≡◌, List, ◌==◌, ◌⊎◌, Option, any, Bool-cases, arith, true, inr, some, inl, none, refl, ◌>>=◌,
  pure, ◌≢◌, ◌∙◌, not, ◌&&◌, Action, Failure, ok, or_throw, ◌>>◌, is_some, when, false, ap, ◌∷◌, [],
}

module _ (o : Outside) (g : Gateway) (bt : BookingTable) (pt : PaymentTable) where
  moved_id :
      (next : BookingStatus) (now : ℕ) (b : ServiceBooking) → (moved_row next now b).id ≡ b.id
  moved_id next now b = ground arith

  moved_status :
      (next : BookingStatus) (now : ℕ) (b : ServiceBooking) → (moved_row next now b).status ≡ next
  moved_status next now b = ground arith

  moved_total :
      (next : BookingStatus) (now : ℕ) (b : ServiceBooking) → (moved_row next now b).total ≡ b.total
  moved_total next now b = ground arith

  -- A move starts from a booking that is open and never makes one wait for a payment.
  transitions_live :
      (from to : BookingStatus)
      → is_among (transitions from) to ≡ true
      → (from ≢ awaiting_payment) × (from ≢ cancelled) × (to ≢ awaiting_payment)
  unfolding transitions
  transitions_live from to e = ground arith

  droppable :
      (from : BookingStatus)
      → is_among (transitions from) cancelled ≡ true
      → is_among (from ∷ []) awaiting_payment ≡ false
  unfolding transitions
  droppable awaiting_payment e = ground arith
  droppable pending e = refl
  droppable confirmed e = refl
  droppable in_progress e = refl
  droppable completed e = refl
  droppable cancelled e = refl

  -- The write of a status change.
  set_status_ends :
      (booking : ServiceBooking) (next : BookingStatus) (verticals : List Vertical) (now : ℕ)
      (s : Db bt pt)
      → ((set_status_read o g bt pt booking next verticals now s).1 ≡ s)
        ⊎ ((is_among (transitions booking.status) next ≡ true)
            × (((next ≢ cancelled)
                  × ((set_status_read o g bt pt booking next verticals now s).1
                      ≡ bookings_store bt pt (λ b. b.id == booking.id) (moved_row next now) s))
                ⊎ ((next ≡ cancelled)
                    × (set_status_read o g bt pt booking next verticals now s
                        ≡ (write_status o g bt pt booking next now >>= λ w.
                              (or_throw w (Failure.domain 409 invalid_transition) >>= λ u.
                              (refund g bt pt u.id u.total >> pure u)))
                            s))))
  unfolding set_status_read
  set_status_ends booking next verticals now s =
      elim (Bool-cases (any (same_vertical booking.vertical) verticals)) [
        | inr foreign ↦ inl (ground arith)
        | inl mine ↦ elim (Bool-cases (is_among (transitions booking.status) next)) [
          | inr shut ↦ inl (ground arith)
          | inl free ↦
              elim (Bool-cases (is_status next in_progress && not (is_some booking.professional))) [
                | inl nobody ↦ inl (ground arith)
                | inr led ↦ elim (Bool-cases (is_status next cancelled)) [
                  | inl dropped ↦ inr (free, inr (ground arith, ground arith))
                  | inr moved ↦ inr (
                    free,
                    inl (ground arith, ground (arith, mine, free, led, moved, moved_state)),
                  )
                ]
              ]
        ]
      ]
    where
      named : Option ServiceBooking → Action (Db bt pt) ServiceBooking
      named w = or_throw w (Failure.domain 409 invalid_transition) >>= λ u.
          (when false (refund g bt pt u.id u.total) >> pure u)

      named_state : (w : Option ServiceBooking) (t : Db bt pt) → (named w t).1 ≡ t
      named_state none t = refl
      named_state (some u) t = refl

      moved_state :
          ((update_booking bt pt booking.id (moved_row next now) >>= (λ b. pure (some b)) >>= named)
            s).1
          ≡ bookings_store bt pt (λ b. b.id == booking.id) (moved_row next now) s
      moved_state =
          state_bind (update_booking bt pt booking.id (moved_row next now) >>= λ b. pure (some b))
            named s named_state
          ∙ state_bind (update_booking bt pt booking.id (moved_row next now)) (λ b. pure (some b)) s
              (λ b t. refl)
          ∙ update_booking_state o g bt pt booking.id (moved_row next now) s

  -- A company's cancel of a booking as it is in the stores refunds it in full.
  drop-IsConsistent :
      (b : ServiceBooking) (now : ℕ) (s : Db bt pt)
      → booking_at bt pt b.id s ≡ some b
      → is_among (transitions b.status) cancelled ≡ true
      → IsConsistent bt pt s
      → IsConsistent bt pt
          ((write_status o g bt pt b cancelled now >>= λ w.
              (or_throw w (Failure.domain 409 invalid_transition) >>= λ u.
              (refund g bt pt u.id u.total >> pure u)))
            s).1
  unfolding write_status
  drop-IsConsistent b now s e free h =
      let row = cancel_row bt pt (pos 0) now b in
      let t = (cancel_booking bt pt b.id (b.status ∷ []) (pos 0) now s).1 in
      let own : is_among (b.status ∷ []) b.status ≡ true = ground arith in
      let (answered, left) = cancel_booking_lem bt pt b.id (b.status ∷ []) (pos 0) now s b e in
      let went : cancel_booking bt pt b.id (b.status ∷ []) (pos 0) now s ≡ (ok (some row), t) =
        ground (arith, answered, own) in
      let settled : booking_at bt pt b.id t ≡ some row = ground (arith, left, own) in
      let t-IsConsistent : IsConsistent bt pt t =
        cancel_booking-IsConsistent bt pt b.id (b.status ∷ []) (pos 0) now s
          (inl (droppable b.status free)) h in
      rw
        (bind_ok (cancel_booking bt pt b.id (b.status ∷ []) (pos 0) now)
          (λ w.
            (or_throw w (Failure.domain 409 invalid_transition) >>= λ u.
            (refund g bt pt u.id u.total >> pure u)))
          s t (some row) went)
        (rw (state_seq (refund g bt pt b.id b.total) (pure row) t (λ u. refl)) (
          refund-IsConsistent bt pt g b.id b.total t
            (λ low x f.
              let same : row ≡ x = ground (arith, settled, f) in rw (← same) (refl, omega arith))
            t-IsConsistent))

  -- A company's change of a booking's status, made without another write between its read and its
  -- write, keeps the stores consistent.
  pub set_status-IsConsistent :
      (company id : ℕ) (next : BookingStatus) (verticals : List Vertical) (now : ℕ)
      → Keeps (IsConsistent bt pt) (set_status o g bt pt company id next verticals now)
  unfolding set_status
  set_status-IsConsistent company id next verticals now s h =
      elim (require_company_lem o g bt pt company id s) [
        | inl (e, thrown) ↦
            rw
              (bind_err (require_company o g bt pt company id)
                (λ b. set_status_read o g bt pt b next verticals now) s s e thrown)
              h
        | inr (b, e, mine, read) ↦
            let key : b.id ≡ id = booking_key bt pt id s b e in
            let here : booking_at bt pt b.id s ≡ some b = ground (arith, key) in
            rw
              (bind_ok (require_company o g bt pt company id)
                (λ b. set_status_read o g bt pt b next verticals now) s s b read)
              (elim (set_status_ends b next verticals now s) [
                | inl same ↦ rw same h
                | inr (free, inl (going, state)) ↦
                    let (paid, kept, shown) = transitions_live b.status next free in
                    rw state (
                      one-IsConsistent o g bt pt b (moved_row next now) next s
                        (λ r. moved_id next now r) (λ r. moved_status next now r)
                        (λ r. moved_total next now r) here paid kept shown h)
                | inr (free, inr (dropped, state)) ↦
                    rw (ap (λ x. x.1) state) (dropping b here dropped free)
              ])
      ]
    where
      dropping :
          (b : ServiceBooking)
          → booking_at bt pt b.id s ≡ some b
          → next ≡ cancelled
          → is_among (transitions b.status) next ≡ true
          → IsConsistent bt pt
              ((write_status o g bt pt b next now >>= λ w.
                  (or_throw w (Failure.domain 409 invalid_transition) >>= λ u.
                  (refund g bt pt u.id u.total >> pure u)))
                s).1
      dropping b here dropped free = rw dropped (drop-IsConsistent b now s here (ground arith) h)
