-- ===== src/Razorpay/Capturing.antt =====
-- src/modules/razorpay/razorpay.repository.ts: `capture`, how it ends and that it keeps the stores
-- consistent.
use v2_backend.Razorpay.Invariant.{IsConsistent, IsMatched, booking_key}
use v2_backend.Common.Keeps.{Keeps-seq, Keeps-throw_if, Keeps}
use v2_backend.Common.{
  ℕ, ◌≡◌, ◌≢◌, refl, ◌⊎◌, ◌&&◌, Option, none, some, ◌==◌, arith, Bool, Result, ok, false, true,
  Option-cases, inl, inr, Bool-cases, ◌∙◌, sym, not,
}
use v2_backend.HomeServices.Model.{
  awaiting_payment, created, has_payment_status, has_status, ServiceBooking, ServicePayment,
  BookingTable, PaymentTable,
}
use v2_backend.HomeServices.Repository.{Db, booking_at}
use v2_backend.Razorpay.Repository.{
  payment_at, captured_row, released_row, capture, is_claimable, claim_and_release, is_clash,
  holds_payment, refuse_clash,
}
use v2_backend.Table.{revised}

-- One row under a capture.
released-IsMatched :
    (k order payment method now : ℕ) (b : Option ServiceBooking) (p : ServicePayment)
    → IsMatched b (some p)
    → p.order ≡ order
    → ((x : ServiceBooking) → b ≡ some x → x.id ≡ k)
    → IsMatched
        (revised (λ b. (b.id == k) && has_status b.status awaiting_payment) released_row b)
        (revised
          (λ p. (p.order == order) && has_payment_status p.status created)
          (captured_row payment method now)
          (some p))
released-IsMatched k order payment method now none p h e c = absurd h
released-IsMatched k order payment method now (some b) p h e c = ground (arith, c b refl)

-- Rows that a capture leaves alone.
released_ne :
    (k t : ℕ) (b : Option ServiceBooking)
    → k ≢ t
    → ((x : ServiceBooking) → b ≡ some x → x.id ≡ k)
    → revised (λ b. (b.id == t) && has_status b.status awaiting_payment) released_row b ≡ b
released_ne k t none n c = refl
released_ne k t (some b) n c = ground (arith, c b refl)

claimed_ne :
    (order payment method now : ℕ) (p : Option ServicePayment)
    → ((x : ServicePayment) → p ≡ some x → x.order ≢ order)
    → revised
        (λ p. (p.order == order) && has_payment_status p.status created)
        (captured_row payment method now)
        p
      ≡ p
claimed_ne order payment method now none n = refl
claimed_ne order payment method now (some p) n = ground (arith, n p refl)

module _ (bt : BookingTable) (pt : PaymentTable) where
  -- The stores with the payment captured, and with its booking released too.
  abbrev pub paid_store : ℕ → ℕ → ℕ → ℕ → Db bt pt → Db bt pt
  paid_store order payment method now s = record s {
    payments =
        (pt.update_many (is_claimable bt pt order) (captured_row payment method now) s.payments).0;
  }

  abbrev pub released_store : ℕ → Db bt pt → Db bt pt
  released_store k s = record s {
    bookings =
        (bt.update_many (λ b. (b.id == k) && has_status b.status awaiting_payment) released_row
          s.bookings).0;
  }

  -- How a capture ends.
  abbrev pub CaptureEnds : ℕ → ℕ → ℕ → ℕ → Db bt pt → Result Bool × Db bt pt → Type 0
  CaptureEnds order payment method now s r =
      let s' = paid_store order payment method now s in
      ((pt.find (is_claimable bt pt order) s.payments ≡ none) × (r ≡ (ok false, s')))
      ⊎ ((p : ServicePayment) × (pt.find (is_claimable bt pt order) s.payments ≢ none)
          × (pt.find (λ p. p.order == order) s'.payments ≡ some p)
          × (r ≡ (ok true, released_store p.booking s')))
      ⊎ ((pt.find (is_claimable bt pt order) s.payments ≢ none)
          × (pt.find (λ p. p.order == order) s'.payments ≡ none))

  pub capture_ends :
      (order payment method now : ℕ) (s : Db bt pt)
      → CaptureEnds order payment method now s (claim_and_release bt pt order payment method now s)
  unfolding claim_and_release
  capture_ends order payment method now s =
      elim (Option-cases (pt.find (is_claimable bt pt order) s.payments)) [
        | inl free ↦ inl (
          free,
          ground (
            arith,
            pt.count_found (is_claimable bt pt order) (captured_row payment method now) s.payments
                free,
          ),
        )
        | inr (q, hit) ↦
            let claimable : pt.find (is_claimable bt pt order) s.payments ≢ none = λ e. cc in
            let counted : (pt.update_many (is_claimable bt pt order)
                  (captured_row payment method now) s.payments).1
                ≢ 0 =
              λ z. claimable (
                pt.count_zero (is_claimable bt pt order) (captured_row payment method now)
                  s.payments z) in
            elim (Option-cases
              (pt.find (λ p. p.order == order) (paid_store order payment method now s).payments)) [
                | inl lost ↦ inr (inr (claimable, lost))
                | inr (p, found) ↦ inr (inl (p, claimable, found, ground (arith, counted)))
              ]
      ]

  module _ (order payment method now : ℕ) (s : Db bt pt) where
    pub paid_at :
        (k : ℕ)
        → payment_at bt pt k (paid_store order payment method now s)
          ≡ revised
              (is_claimable bt pt order)
              (captured_row payment method now)
              (payment_at bt pt k s)
    paid_at k =
        pt.find_update (is_claimable bt pt order) (captured_row payment method now) s.payments k
          (λ r. refl)

    pub released_at :
        (k j : ℕ)
        → booking_at bt pt j (released_store k (paid_store order payment method now s))
          ≡ revised
              (λ b. (b.id == k) && has_status b.status awaiting_payment)
              released_row
              (booking_at bt pt j s)
    released_at k j =
        bt.find_update (λ b. (b.id == k) && has_status b.status awaiting_payment) released_row
          s.bookings j (λ r. refl)

    pub paid_of_unclaimed :
        pt.find (is_claimable bt pt order) s.payments ≡ none
        → (k : ℕ)
        → payment_at bt pt k (paid_store order payment method now s) ≡ payment_at bt pt k s
    paid_of_unclaimed free k = elim (Option-cases (payment_at bt pt k s)) [
      | inl e ↦ ground (arith, paid_at k)
      | inr (q, e) ↦
          ground
            (arith, paid_at k, pt.find_complete (is_claimable bt pt order) s.payments k q free e)
    ]

    -- The payment that a capture claimed is found again.
    pub capture_finds :
        pt.find (is_claimable bt pt order) s.payments ≢ none
        → pt.find (λ p. p.order == order) (paid_store order payment method now s).payments ≢ none
    capture_finds claimable lost =
        elim (Option-cases (pt.find (is_claimable bt pt order) s.payments)) [
          | inl e ↦ claimable e
          | inr (q, e) ↦
              let (hit, here) = pt.find_sound (is_claimable bt pt order) s.payments q e in
              ground (
                arith,
                hit,
                here,
                paid_at q.booking,
                pt.find_complete (λ p. p.order == order)
                    (paid_store order payment method now s).payments q.booking
                    (captured_row payment method now q) lost,
              )
        ]

    -- The payment found after the claim, as it stood before.
    pub paid_before :
        (p : ServicePayment)
        → pt.find (λ p. p.order == order) (paid_store order payment method now s).payments ≡ some p
        → (q : ServicePayment) × (payment_at bt pt p.booking s ≡ some q) × (q.order ≡ order)
    paid_before p found =
        let (hit, here) =
          pt.find_sound (λ p. p.order == order) (paid_store order payment method now s).payments p
            found in
        elim (Option-cases (payment_at bt pt p.booking s)) [
          | inl e ↦ ground (arith, here, paid_at p.booking)
          | inr (q, e) ↦ (q, e, ground (arith, hit, here, paid_at p.booking))
        ]

    module _ (h : IsConsistent bt pt s) where
      paid-distinct :
          (j k : ℕ) (p q : ServicePayment)
          → payment_at bt pt j (paid_store order payment method now s) ≡ some p
          → payment_at bt pt k (paid_store order payment method now s) ≡ some q
          → p.order ≡ q.order
          → j ≡ k
      paid-distinct j k p q e f o = elim (Option-cases (payment_at bt pt j s)) [
        | inl x ↦ ground (arith, paid_at j)
        | inr (p', x) ↦ elim (Option-cases (payment_at bt pt k s)) [
          | inl y ↦ ground (arith, paid_at k)
          | inr (q', y) ↦ h.distinct j k p' q' x y (ground (arith, paid_at j, paid_at k))
        ]
      ]

      released_store-IsMatched :
          (p q : ServicePayment)
          → payment_at bt pt p.booking s ≡ some q
          → q.order ≡ order
          → (k : ℕ)
          → let s' = released_store p.booking (paid_store order payment method now s) in
            IsMatched (booking_at bt pt k s') (payment_at bt pt k s')
      released_store-IsMatched p q e o k =
          rw (released_at p.booking k, paid_at k)
            (elim (Bool-cases (k == p.booking)) [
              | inl same ↦
                  let here : k ≡ p.booking = ground arith in
                  rw (here, e)
                    (released-IsMatched p.booking order payment method now
                      (booking_at bt pt p.booking s) q (rw e at (h.matched p.booking)) o
                      (booking_key bt pt p.booking s))
              | inr other ↦
                  let away : k ≢ p.booking = ground arith in
                  rw
                    (
                      released_ne k p.booking (booking_at bt pt k s) away (booking_key bt pt k s),
                      claimed_ne order payment method now (payment_at bt pt k s)
                          (λ x f c. away (h.distinct k p.booking x q f e (c ∙ sym o))),
                    )
                    (h.matched k)
            ])

      claimed-IsConsistent :
          IsConsistent bt pt (claim_and_release bt pt order payment method now s).1
      claimed-IsConsistent = elim (capture_ends order payment method now s) [
        | inl (free, e) ↦ rw e (record {
          matched = λ k. rw (paid_of_unclaimed free k) (h.matched k);
          distinct = paid-distinct;
        })
        | inr (inl (p, _, found, e)) ↦
            let (q, before, o) = paid_before p found in
            rw e
              (record { matched = released_store-IsMatched p q before o; distinct = paid-distinct })
        | inr (inr (claimable, lost)) ↦ absurd (capture_finds claimable lost)
      ]

  -- A unique index does not refuse the update of a row that alone may hold the value.
  pub clash_free :
      (written holds : ServicePayment → Bool) (k : ℕ) (s : Db bt pt) (p : ServicePayment)
      → payment_at bt pt k s ≡ some p
      → written p ≡ true
      → ((j : ℕ) (q : ServicePayment) → payment_at bt pt j s ≡ some q → holds q ≡ true → j ≡ k)
      → is_clash bt pt written holds s ≡ false
  clash_free written holds k s p e w alone =
      elim (Option-cases (pt.find (λ q. holds q && not (written q)) s.payments)) [
        | inl free ↦ ground arith
        | inr (q, found) ↦
            let (hit, here) = pt.find_sound (λ q. holds q && not (written q)) s.payments q found in
            let held : holds q ≡ true = ground arith in
            let unwritten : written q ≡ false = ground arith in
            let at_k : q.booking ≡ k = alone q.booking q here held in
            let same : some q ≡ some p = ground (arith, here, at_k, e) in absurd (let w' = w in cc)
      ]

  pub capture_free :
      (order payment method now : ℕ) (s : Db bt pt)
      → is_clash bt pt (is_claimable bt pt order) (holds_payment payment) s ≡ false
      → capture bt pt order payment method now s
        ≡ claim_and_release bt pt order payment method now s
  unfolding capture
  capture_free order payment method now s free = ground arith

  -- A capture that ends in what it claims, or throws, keeps the stores consistent.
  pub capture-IsConsistent :
      (order payment method now : ℕ)
      → Keeps (IsConsistent bt pt) (capture bt pt order payment method now)
  unfolding capture
  capture-IsConsistent order payment method now =
      Keeps-seq (IsConsistent bt pt)
        (refuse_clash bt pt (is_claimable bt pt order) (holds_payment payment))
        (claim_and_release bt pt order payment method now)
        (λ s. Keeps-throw_if (IsConsistent bt pt) _ _ s)
        (λ s h. claimed-IsConsistent order payment method now s h)
