-- ===== src/HomeServices/Rules.antt =====
-- src/modules/home-services/home-services.rules.ts: prices, promo codes, the cancellation fee and the
-- area of an address. Amounts are paise, exactly: what the source computes in rupees with floats.
pub mod Promo
pub mod Fee
pub mod Area
use v2_backend.HomeServices.Model.{Point}
use v2_backend.Common.Int.{ℤ, pos, negsuc, ◌-ℤ◌}
use v2_backend.Common.{
  ℕ, ◌≡◌, Bool, ◌*◌, if◌then◌else◌, Option, ◌+◌, ltb, some, leb, ◌||◌, List, ◌-◌, ◌/◌, not, ◌&&◌,
  ◌∷◌, select, [], find, none, ◌==◌, ◌++◌, length, true, any, all, false, is_digit, Text, same_text,
}

abbrev pub max_hours : ℕ
max_hours = 12

abbrev pub max_professionals : ℕ
max_professionals = 4

pub record ServicePrice : Type 0 where
  pub hourly_rate : ℕ
  pub extra_pro_rate : ℕ
  pub materials_fee : ℕ

pub record Quote : Type 0 where
  pub base : ℕ
  pub materials : ℕ
  pub subtotal : ℕ

-- Requests ask for one professional or more.
unfoldable pub quote : ServicePrice → ℕ → ℕ → Bool → Quote
quote price hours professionals with_materials =
    let base = price.hourly_rate * hours + price.extra_pro_rate * hours * (professionals - 1) in
    let materials = if with_materials then price.materials_fee else 0 in
    record { base = base; materials = materials; subtotal = base + materials }

-- Days are YYYYMMDD, which compare as the source's YYYY-MM-DD do.
pub record PromoRule : Type 0 where
  pub code : ℕ
  pub percent : ℕ
  pub max_discount : ℕ
  pub min_order : ℕ
  pub valid_till : ℕ
  pub active : Bool

-- The messages' reasons; `below_minimum` has the minimum and what is missing to it.
pub data PromoResult : Type 0 where
  applied : ℕ → Bool → PromoResult
  unknown_code expired inactive : PromoResult
  below_minimum : ℕ → ℕ → PromoResult

-- `Math.round(subtotal * percent / 100)` is in whole rupees.
unfoldable pub raw_discount : ℕ → ℕ → ℕ
raw_discount subtotal percent = (subtotal * percent + 5000) / 10000 * 100

unfoldable pub promo_discount : PromoRule → ℕ → ℕ
promo_discount promo subtotal =
    let raw = raw_discount subtotal promo.percent in
    if ltb 0 promo.max_discount
    then (if ltb promo.max_discount raw then promo.max_discount else raw)
    else raw

-- The typed code stands in the messages alone.
unfoldable pub apply_promo : Option PromoRule → ℕ → ℕ → PromoResult
apply_promo none subtotal today = unknown_code
apply_promo (some promo) subtotal today =
    if ltb promo.valid_till today
    then expired
    else if not promo.active
    then inactive
    else if ltb subtotal promo.min_order
    then below_minimum promo.min_order (promo.min_order - subtotal)
    else let discount = promo_discount promo subtotal in
      applied discount (ltb discount (raw_discount subtotal promo.percent))

-- FREE_CANCELLATION_HOURS, in milliseconds, and CANCELLATION_FEE_PERCENT.
abbrev pub free_cancellation : ℕ
free_cancellation = 2 * 3_600_000

-- `Math.round(total * 10) / 100` rupees: a tenth, to the nearest paisa, halves going up.
unfoldable pub tenth : ℤ → ℤ
tenth (pos n) = pos ((n + 5) / 10)
tenth (negsuc n) = pos 0 -ℤ pos ((n + 5) / 10)

unfoldable pub cancellation_fee : ℤ → ℕ → ℕ → ℤ
cancellation_fee total booked_at now =
    if leb (now - booked_at) free_cancellation then pos 0 else tenth total

pub record AreaRule : Type 0 where
  pub id : ℕ
  pub company : Option ℕ
  pub pincode : Text
  pub radius : ℕ
  pub pin : Option Point

-- The word characters of a regular expression.
abbrev pub is_word : ℕ → Bool
is_word c = is_digit c || (leb b'A' c && leb c b'Z') || (leb b'a' c && leb c b'z') || (c == b'_')

-- The longest runs of word characters: `\b` stands at their ends and nowhere else.
unfoldable pub words : Text → Text → List Text
words run [] = run ∷ []
words run (c ∷ text) =
    let longer = words (run ++ c ∷ []) text in
    let closed = run ∷ words [] text in if is_word c then longer else closed

-- `text.match(/\b\d{6}\b/g)`
unfoldable pub pincodes : Text → List Text
unfolding words
pincodes text = select (λ run. (length run == 6) && all is_digit run) (words [] text)

unfoldable pub area_by_pincode : List AreaRule → Text → Option AreaRule
area_by_pincode areas text =
    find (λ a. any (λ code. same_text code a.pincode) (pincodes text)) areas

-- `distance` is `distanceKm`, the great-circle distance by the floating-point trigonometry of the
-- language, in the unit of the radii.
module _ (distance : Point → Point → ℕ) where
  -- An area with its distance, if it has a pin.
  abbrev pub measured : Point → AreaRule → Option Point → List (AreaRule × ℕ)
  measured at a none = []
  measured at a (some pin) = (a, distance at pin) ∷ []

  unfoldable pub covering : Point → List AreaRule → List (AreaRule × ℕ)
  covering at [] = []
  covering at (a ∷ areas) =
      select (λ m. leb m.1 m.0.radius) (measured at a a.pin) ++ covering at areas

  -- The sort by distance keeps the order of areas that are as far.
  unfoldable pub insert_by_km : AreaRule × ℕ → List (AreaRule × ℕ) → List (AreaRule × ℕ)
  insert_by_km m [] = m ∷ []
  insert_by_km m (n ∷ rest) = if leb m.1 n.1 then m ∷ n ∷ rest else n ∷ insert_by_km m rest

  unfoldable pub sort_by_km : List (AreaRule × ℕ) → List (AreaRule × ℕ)
  unfolding insert_by_km
  sort_by_km [] = []
  sort_by_km (m ∷ rest) = insert_by_km m (sort_by_km rest)

  abbrev pub nearest : List (AreaRule × ℕ) → Option AreaRule
  nearest [] = none
  nearest (m ∷ rest) = some m.0

  unfoldable pub match_area : List AreaRule → Text → Option Point → Option AreaRule
  match_area areas text none = area_by_pincode areas text
  match_area areas text (some at) = elim (nearest (sort_by_km (covering at areas))) [
    | some a ↦ some a
    | none ↦ area_by_pincode areas text
  ]
