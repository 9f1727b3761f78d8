-- ===== src/HomeServices/Rules/Promo.antt =====
-- What a promo code takes off.
use v2_backend.HomeServices.Rules.{promo_discount, raw_discount, apply_promo, PromoRule, applied}
use v2_backend.Common.{
  ℕ, ◌≡◌, ◌<◌, ◌≤◌, Option, Bool, arith, some, ◌*◌, ◌↔◌, true, ltb, none, refl, false, inl, ◌+◌,
  ◌⊎◌, inr, ◌/◌,
}

-- A discount stays under its cap.
discount-le-cap :
    (promo : PromoRule) (subtotal : ℕ)
    → 0 < promo.max_discount
    → promo_discount promo subtotal ≤ promo.max_discount
unfolding promo_discount
discount-le-cap promo subtotal h = ground arith

discount-le-raw :
    (promo : PromoRule) (subtotal : ℕ)
    → promo_discount promo subtotal ≤ raw_discount subtotal promo.percent
unfolding promo_discount
discount-le-raw promo subtotal = ground arith

raw-le-subtotal :
    (subtotal percent : ℕ)
    → percent ≤ 90
    → 500 ≤ subtotal
    → raw_discount subtotal percent ≤ subtotal
unfolding raw_discount
raw-le-subtotal subtotal percent h k =
    let most : subtotal * percent ≤ subtotal * 90 = grind arith in omega arith

raw-le-rupees :
    (rupees percent : ℕ) → percent ≤ 100 → raw_discount (rupees * 100) percent ≤ rupees * 100
unfolding raw_discount
raw-le-rupees rupees percent h =
    let most : rupees * percent ≤ rupees * 100 = grind arith in omega arith

-- When a promo code takes an amount off, by the amount that the code computes.
apply_promo-discount :
    (found : Option PromoRule) (subtotal today discount : ℕ) (capped : Bool)
    → (apply_promo found subtotal today ≡ applied discount capped) ↔ (
        (promo : PromoRule) × (found ≡ some promo)
        × (today ≤ promo.valid_till)
        × (promo.active ≡ true)
        × (promo.min_order ≤ subtotal)
        × (discount ≡ promo_discount promo subtotal)
        × (capped ≡ ltb discount (raw_discount subtotal promo.percent)))
unfolding apply_promo
apply_promo-discount none subtotal today discount capped = (λ e. cc, λ h. cc)
apply_promo-discount (some promo) subtotal today discount capped =
    (λ e. (promo, refl, ground arith, ground arith, ground arith, ground arith, ground arith), from)
  where
    from :
        ((p : PromoRule) × (some promo ≡ some p)
          × (today ≤ p.valid_till)
          × (p.active ≡ true)
          × (p.min_order ≤ subtotal)
          × (discount ≡ promo_discount p subtotal)
          × (capped ≡ ltb discount (raw_discount subtotal p.percent)))
        → apply_promo (some promo) subtotal today ≡ applied discount capped
    from (p, same, day, on, enough, amount, cap) = ground arith

-- What a promo code takes off: its percentage of the order to the nearest rupee, halves going up, or
-- its cap where it has one that is less.
abbrev pub IsTakenOff : PromoRule → ℕ → ℕ → Bool → Type 0
IsTakenOff promo subtotal discount capped =
    (rupees : ℕ) × (10000 * rupees ≤ subtotal * promo.percent + 5000)
    × (subtotal * promo.percent + 5000 < 10000 * rupees + 10000)
    × (((discount ≡ 100 * rupees)
          × (capped ≡ false)
          × (0 < promo.max_discount → 100 * rupees ≤ promo.max_discount))
        ⊎ ((discount ≡ promo.max_discount)
            × (capped ≡ true)
            × (0 < promo.max_discount)
            × (promo.max_discount < 100 * rupees)))

taken_off :
    (promo : PromoRule) (subtotal discount : ℕ) (capped : Bool)
    → discount ≡ promo_discount promo subtotal
    → capped ≡ ltb discount (raw_discount subtotal promo.percent)
    → IsTakenOff promo subtotal discount capped
unfolding promo_discount raw_discount
taken_off promo subtotal discount capped d c =
    ((subtotal * promo.percent + 5000) / 10000, omega arith, omega arith, ground arith)

rupees_of :
    (rupees amount : ℕ)
    → 10000 * rupees ≤ amount + 5000
    → amount + 5000 < 10000 * rupees + 10000
    → (amount + 5000) / 10000 * 100 ≡ 100 * rupees
rupees_of rupees amount low high = omega arith

discount-taken_off :
    (promo : PromoRule) (subtotal discount : ℕ) (capped : Bool)
    → IsTakenOff promo subtotal discount capped
    → (discount ≡ promo_discount promo subtotal)
      × (capped ≡ ltb discount (raw_discount subtotal promo.percent))
unfolding promo_discount raw_discount
discount-taken_off promo subtotal discount capped (rupees, low, high, which) =
    let raw = rupees_of rupees (subtotal * promo.percent) low high in
    elim which [
      | inl (d, c, under) ↦ (ground (arith, raw), ground (arith, raw))
      | inr (d, c, has, over) ↦ (ground (arith, raw), ground (arith, raw))
    ]

-- A promo code takes an amount off exactly when it exists, has not expired, is active and the order
-- reaches its minimum; the amount is its percentage of the order to the nearest rupee, halves going up,
-- or its cap where it has one that is less, and it is reported capped in that case alone.
pub apply_promo_iff :
    (found : Option PromoRule) (subtotal today discount : ℕ) (capped : Bool)
    → (apply_promo found subtotal today ≡ applied discount capped) ↔ (
        (promo : PromoRule) × (found ≡ some promo)
        × (today ≤ promo.valid_till)
        × (promo.active ≡ true)
        × (promo.min_order ≤ subtotal)
        × IsTakenOff promo subtotal discount capped)
apply_promo_iff found subtotal today discount capped =
    let (to, from) = apply_promo-discount found subtotal today discount capped in
    (
      λ e.
          (let (promo, f, day, on, enough, d, c) = to e in
            (promo, f, day, on, enough, taken_off promo subtotal discount capped d c)),
      λ (promo, f, day, on, enough, t).
          (let (d, c) = discount-taken_off promo subtotal discount capped t in
            from (promo, f, day, on, enough, d, c)),
    )

-- A promo code of at most 90 percent takes no more than an order of at least five rupees costs, and no
-- more than its cap where it has one.
pub apply_promo_bounds :
    (promo : PromoRule) (subtotal today discount : ℕ) (capped : Bool)
    → apply_promo (some promo) subtotal today ≡ applied discount capped
    → promo.percent ≤ 90
    → 500 ≤ subtotal
    → (discount ≤ subtotal) × (0 < promo.max_discount → discount ≤ promo.max_discount)
apply_promo_bounds promo subtotal today discount capped e h k =
    let (p, same, _, _, _, amount, _) =
      (apply_promo-discount (some promo) subtotal today discount capped).0 e in
    let rule : promo ≡ p = ground arith in
    rw amount (
      rw (← rule) (
        omega (arith, discount-le-raw promo subtotal, raw-le-subtotal subtotal promo.percent h k),
        discount-le-cap promo subtotal,
      ))

-- On an order of whole rupees a discount is at most the order, whatever the rate up to 100 percent.
pub apply_promo_rupees :
    (promo : PromoRule) (rupees today discount : ℕ) (capped : Bool)
    → apply_promo (some promo) (rupees * 100) today ≡ applied discount capped
    → promo.percent ≤ 100
    → discount ≤ rupees * 100
apply_promo_rupees promo rupees today discount capped e h =
    let (p, same, _, _, _, amount, _) =
      (apply_promo-discount (some promo) (rupees * 100) today discount capped).0 e in
    let rule : promo ≡ p = ground arith in
    rw amount (
      rw (← rule)
        (omega (arith, discount-le-raw promo (rupees * 100), raw-le-rupees rupees promo.percent h)))

-- A valid promo code of 90 percent without a cap takes two rupees off an order from 1.67 to 1.99
-- rupees, which is more than it costs.
pub apply_promo_overshoots :
    (promo : PromoRule) (subtotal today : ℕ)
    → promo.percent ≡ 90
    → promo.max_discount ≡ 0
    → promo.active ≡ true
    → today ≤ promo.valid_till
    → promo.min_order ≤ subtotal
    → 167 ≤ subtotal
    → subtotal < 200
    → (apply_promo (some promo) subtotal today ≡ applied 200 false) × (subtotal < 200)
unfolding apply_promo promo_discount raw_discount
apply_promo_overshoots promo subtotal today p m a d o low high = (ground arith, high)
