-- ===== src/Admin/Dispatch.antt =====
-- What a company's operations keep, and a race that they lose.
use v2_backend.Razorpay.Repository.{payment_at}
use v2_backend.Razorpay.Invariant.{IsConsistent, IsMatched, booking_key}
use v2_backend.Common.Keeps.{Keeps, state_bind, state_answer, bind_err, bind_ok}
use v2_backend.HomeServices.Bookings.{
  bookings_store, bookings_store-IsConsistent, booking-bookings_store,
}
use v2_backend.HomeServices.Repository.{update_booking, Db, booking_at, find_booking}
use v2_backend.HomeServices.Model.{
  BookingTable, PaymentTable, ServiceBooking, Vertical, pending, confirmed, ServicePayment,
  BookingStatus, awaiting_payment, cancelled, refund_pending,
}
use v2_backend.Razorpay.Service.{Gateway}
use v2_backend.Admin.Bookings.{
  Outside, assign_read, Professional, confirmed_row, same_vertical, approved, assign, is_status,
  is_approved, require_company,
}
use v2_backend.Common.Error.{Failure, Resource}
use v2_backend.Common.{
  ℕ, ◌≡◌, List, ◌==◌, ◌⊎◌, Option, any, Bool-cases, arith, true, inr, some, inl, Option-cases, none,
  refl, ◌>>=◌, answer, pure, ◌≢◌, ◌∙◌, not, ◌&&◌, Action, if◌then◌else◌, Failure, err, ok, has_text,
}

module _ (o : Outside) (g : Gateway) (bt : BookingTable) (pt : PaymentTable) where
  pub update_booking_state :
      (k : ℕ) (f : ServiceBooking → ServiceBooking) (s : Db bt pt)
      → (update_booking bt pt k f s).1 ≡ bookings_store bt pt (λ b. b.id == k) f s
  unfolding update_booking
  update_booking_state k f s =
      go (booking_at bt pt k (bookings_store bt pt (λ b. b.id == k) f s)) refl
    where
      go :
          (x : Option ServiceBooking)
          → booking_at bt pt k (bookings_store bt pt (λ b. b.id == k) f s) ≡ x
          → (update_booking bt pt k f s).1 ≡ bookings_store bt pt (λ b. b.id == k) f s
      go none e = ground arith
      go (some b) e = ground arith

  -- What an assignment checks.
  abbrev pub IsAssignable : ServiceBooking → ℕ → ℕ → List Vertical → Professional → Type 0
  IsAssignable booking company professional verticals pro =
      (any (same_vertical booking.vertical) verticals ≡ true)
      × ((booking.status ≡ pending) ⊎ (booking.status ≡ confirmed))
      × (o.find_professional professional company ≡ some pro)
      × (pro.status ≡ approved)
      × (has_text booking.category pro.categories ≡ true)

  -- The write of an assignment that passes its checks.
  assign_writes :
      (booking : ServiceBooking) (company professional : ℕ) (verticals : List Vertical) (now : ℕ)
      (s : Db bt pt) (pro : Professional)
      → IsAssignable booking company professional verticals pro
      → (assign_read o g bt pt booking company professional verticals now s).1
        ≡ bookings_store bt pt (λ b. b.id == booking.id) (confirmed_row pro now booking) s
  unfolding assign_read
  assign_writes booking company professional verticals now s pro (mine, live, found, good, able) =
      elim live [
        | inl due ↦ ground (arith, written, mine, due, found, good, able)
        | inr due ↦ ground (arith, written, mine, due, found, good, able)
      ]
    where
      sent : ServiceBooking → Action (Db bt pt) (ServiceBooking × ℕ)
      sent u = answer (o.send_job u pro) >>= λ m. pure (u, m)

      written :
          ((update_booking bt pt booking.id (confirmed_row pro now booking) >>= sent) s).1
          ≡ bookings_store bt pt (λ b. b.id == booking.id) (confirmed_row pro now booking) s
      written =
          state_bind (update_booking bt pt booking.id (confirmed_row pro now booking)) sent s
            (λ u t. state_answer (o.send_job u pro) (λ m. (u, m)) t)
          ∙ update_booking_state booking.id (confirmed_row pro now booking) s

  -- An assignment throws and changes nothing, or an approved professional of the company who does the
  -- booking's kind of work is put on a pending or confirmed booking, which is confirmed.
  pub assign_ends :
      (booking : ServiceBooking) (company professional : ℕ) (verticals : List Vertical) (now : ℕ)
      (s : Db bt pt)
      → ((assign_read o g bt pt booking company professional verticals now s).1 ≡ s)
        ⊎ ((pro : Professional) × IsAssignable booking company professional verticals pro
            × ((assign_read o g bt pt booking company professional verticals now s).1
                ≡ bookings_store bt pt (λ b. b.id == booking.id) (confirmed_row pro now booking) s))
  unfolding assign_read
  assign_ends booking company professional verticals now s =
      elim (Bool-cases (any (same_vertical booking.vertical) verticals)) [
        | inr foreign ↦ inl (ground arith)
        | inl mine ↦ elim (Option-cases (o.find_professional professional company)) [
          | inl unknown ↦
              elim (Bool-cases (
                not (is_status booking.status pending)
                && not (is_status booking.status confirmed))) [
                  | inl shut ↦ inl (ground arith)
                  | inr free ↦ inl (ground arith)
                ]
          | inr (pro, found) ↦ checked pro found mine
        ]
      ]
    where
      Ends : Type 0
      Ends =
          ((assign_read o g bt pt booking company professional verticals now s).1 ≡ s)
          ⊎ ((pro : Professional) × IsAssignable booking company professional verticals pro
              × ((assign_read o g bt pt booking company professional verticals now s).1
                  ≡ bookings_store bt pt (λ b. b.id == booking.id) (confirmed_row pro now booking)
                      s))

      checked :
          (pro : Professional)
          → o.find_professional professional company ≡ some pro
          → any (same_vertical booking.vertical) verticals ≡ true
          → Ends
      checked pro found mine =
          elim (Bool-cases
            (not (is_status booking.status pending) && not (is_status booking.status confirmed))) [
              | inl shut ↦ inl (ground arith)
              | inr free ↦ elim (Bool-cases (is_approved pro.status)) [
                | inr undecided ↦ inl (ground arith)
                | inl good ↦ elim (Bool-cases (has_text booking.category pro.categories)) [
                  | inr other ↦ inl (ground arith)
                  | inl able ↦ inr (
                    pro,
                    (mine, ground arith, found, ground arith, able),
                    assign_writes booking company professional verticals now s pro
                        (mine, ground arith, found, ground arith, able),
                  )
                ]
              ]
            ]

  moved-IsMatched :
      (b : ServiceBooking) (p : Option ServicePayment) (next : BookingStatus) (c : ServiceBooking)
      → b.status ≢ awaiting_payment
      → b.status ≢ cancelled
      → next ≢ awaiting_payment
      → c.status ≡ next
      → c.total ≡ b.total
      → IsMatched (some b) p
      → IsMatched (some c) p
  moved-IsMatched b none next c x y z s t h = ground arith
  moved-IsMatched b (some p) next c x y z s t h = ground arith

  -- A write of one booking that keeps what its payment fixes.
  pub one-IsConsistent :
      (booking : ServiceBooking) (F : ServiceBooking → ServiceBooking) (next : BookingStatus)
      (s : Db bt pt)
      → ((b : ServiceBooking) → (F b).id ≡ b.id)
      → ((b : ServiceBooking) → (F b).status ≡ next)
      → ((b : ServiceBooking) → (F b).total ≡ b.total)
      → booking_at bt pt booking.id s ≡ some booking
      → booking.status ≢ awaiting_payment
      → booking.status ≢ cancelled
      → next ≢ awaiting_payment
      → IsConsistent bt pt s
      → IsConsistent bt pt (bookings_store bt pt (λ b. b.id == booking.id) F s)
  one-IsConsistent booking F next s key status total here x y z h =
      bookings_store-IsConsistent bt pt (λ b. b.id == booking.id) F key s row h
    where
      row :
          (k : ℕ) (b : ServiceBooking)
          → booking_at bt pt k s ≡ some b
          → IsMatched (some b) (payment_at bt pt k s)
          → IsMatched (some (if b.id == booking.id then F b else b)) (payment_at bt pt k s)
      row k b e m = elim (Bool-cases (b.id == booking.id)) [
        | inr other ↦ rw other m
        | inl same ↦
            let eq : b ≡ booking = ground (arith, booking_key bt pt k s b e) in
            rw same (
              moved-IsMatched b (payment_at bt pt k s) next (F b) (ground (arith, eq))
                (ground (arith, eq)) z (status b) (total b) m)
      ]

  -- Only a booking of the company is acted on, as it is in the stores.
  pub require_company_lem :
      (company id : ℕ) (s : Db bt pt)
      → ((e : Failure) × (require_company o g bt pt company id s ≡ (err e, s)))
        ⊎ ((b : ServiceBooking) × (booking_at bt pt id s ≡ some b)
            × (b.company ≡ some company)
            × (require_company o g bt pt company id s ≡ (ok b, s)))
  unfolding require_company find_booking
  require_company_lem company id s = elim (Option-cases (booking_at bt pt id s)) [
    | inl absent ↦ inl (Failure.not_found Resource.booking, ground (arith, absent))
    | inr (b, e) ↦ elim (Option-cases b.company) [
      | inl open_call ↦ inl (Failure.not_found Resource.booking, ground (arith, e, open_call))
      | inr (c, mine) ↦ elim (Bool-cases (c == company)) [
        | inr other ↦ inl (Failure.not_found Resource.booking, ground (arith, e, mine, other))
        | inl same ↦ inr (b, e, ground (arith, mine, same), ground (arith, e, mine, same))
      ]
    ]
  ]

  -- A company's assignment of a professional, made without another write between its read and its
  -- write, keeps the stores consistent.
  pub assign-IsConsistent :
      (company id professional : ℕ) (verticals : List Vertical) (now : ℕ)
      → Keeps (IsConsistent bt pt) (assign o g bt pt company id professional verticals now)
  unfolding assign
  assign-IsConsistent company id professional verticals now s h =
      elim (require_company_lem company id s) [
        | inl (e, thrown) ↦
            rw
              (bind_err (require_company o g bt pt company id)
                (λ b. assign_read o g bt pt b company professional verticals now) s s e thrown)
              h
        | inr (b, e, mine, read) ↦
            rw
              (bind_ok (require_company o g bt pt company id)
                (λ b. assign_read o g bt pt b company professional verticals now) s s b read)
              (elim (assign_ends b company professional verticals now s) [
                | inl same ↦ rw same h
                | inr (pro, (_, live, _, _, _), state) ↦ rw state (
                    one-IsConsistent b (confirmed_row pro now b) confirmed s (λ r. refl) (λ r. refl)
                      (λ r. refl) (ground (arith, booking_key bt pt id s b e))
                      (ground (arith, live)) (ground (arith, live)) (ground arith) h)
              ])
      ]

  -- If a booking was read before it was cancelled, and its refund is pending by the time of the write,
  -- an assignment that passes its checks confirms the cancelled booking, and the stores are no longer
  -- consistent.
  pub assign_races :
      (booking now_stored : ServiceBooking) (company professional : ℕ) (verticals : List Vertical)
      (pro : Professional) (now : ℕ) (s : Db bt pt) (p : ServicePayment)
      → IsAssignable booking company professional verticals pro
      → booking_at bt pt booking.id s ≡ some now_stored
      → now_stored.status ≡ cancelled
      → payment_at bt pt booking.id s ≡ some p
      → p.status ≡ refund_pending
      → let s' = (assign_read o g bt pt booking company professional verticals now s).1 in
        ((x : ServiceBooking) × (booking_at bt pt booking.id s' ≡ some x)
          × (x.status ≡ confirmed)
          × (payment_at bt pt booking.id s' ≡ some p))
        × (IsConsistent bt pt s' → ⊥)
  assign_races booking old company professional verticals pro now s p can e gone paid due =
      let state = assign_writes booking company professional verticals now s pro can in
      let after =
        booking-bookings_store bt pt (λ b. b.id == booking.id) (confirmed_row pro now booking)
          (λ r. refl) s booking.id in
      let here = booking_key bt pt booking.id s old e in
      let revived : booking_at bt pt booking.id
            (assign_read o g bt pt booking company professional verticals now s).1
          ≡ some (confirmed_row pro now booking old) =
        rw state (ground (arith, after, here)) in
      let kept : payment_at bt pt booking.id
            (assign_read o g bt pt booking company professional verticals now s).1
          ≡ some p =
        rw state paid in
      (
        (confirmed_row pro now booking old, revived, refl, kept),
        λ h. ground (arith, revived, kept, h.matched booking.id),
      )
