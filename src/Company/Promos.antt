-- ===== src/Company/Promos.antt =====
-- The promo codes of src/modules/admin/admin-catalog.service.ts. The day is given as the number YYYYMMDD.
use v2_backend.Company.Staff.{map_given}
use v2_backend.Table.{Table}
use v2_backend.Common.Error.{Resource, promo_expired}
use v2_backend.Common.{
  ℕ, Text, Option, Bool, if◌then◌else◌, upper, get_or, Action, ◌==◌, ltb, true, false, same_text,
  throw_if, ◌>>◌, ◌>>=◌, ◌||◌, [], ◌&&◌, Failure, gets, none, not, is_some, some, or_throw, err,
  modify, ok, pure,
}

-- `PromoCode`
pub record PromoRow : Type 0 where
  pub id : ℕ
  pub code : Text
  pub percent : ℕ
  pub max_discount : ℕ
  pub min_order : ℕ
  pub valid_till : ℕ
  pub active : Bool
  pub description : Text

-- `CreatePromoCodeDto` and `UpdatePromoCodeDto`
pub record NewPromo : Type 0 where
  pub code : Text
  pub percent : ℕ
  pub max_discount : ℕ
  pub min_order : ℕ
  pub valid_till : ℕ
  pub active : Option Bool
  pub description : Option Text

pub record PromoEdit : Type 0 where
  pub code : Option Text
  pub percent : Option ℕ
  pub max_discount : Option ℕ
  pub min_order : Option ℕ
  pub valid_till : Option ℕ
  pub active : Option Bool
  pub description : Option Text

abbrev pub promo_key : PromoRow → ℕ
promo_key p = p.id

abbrev pub promo_conflict : PromoRow → PromoRow → Bool
promo_conflict a b = b.id == a.id || same_text b.code a.code

abbrev pub PromoTable : Type 1
PromoTable = Table PromoRow promo_key promo_conflict

pub data PromoState : Type 0 where
  expired usable switched_off : PromoState

unfoldable pub promo_state : PromoRow → ℕ → PromoState
promo_state p today =
    if ltb p.valid_till today then expired else if p.active then usable else switched_off

abbrev pub new_promo : NewPromo → ℕ → PromoRow
new_promo dto id = record {
  id = id;
  code = upper dto.code;
  percent = dto.percent;
  max_discount = dto.max_discount;
  min_order = dto.min_order;
  valid_till = dto.valid_till;
  active = get_or dto.active true;
  description = get_or dto.description [];
}

abbrev pub edited_promo : PromoEdit → PromoRow → PromoRow
edited_promo dto p = record p {
  code = get_or (map_given upper dto.code) p.code;
  percent = get_or dto.percent p.percent;
  max_discount = get_or dto.max_discount p.max_discount;
  min_order = get_or dto.min_order p.min_order;
  valid_till = get_or dto.valid_till p.valid_till;
  active = get_or dto.active p.active;
  description = get_or dto.description p.description;
}

-- Switching on a code that has expired, without a new day.
abbrev pub revives : PromoEdit → PromoRow → ℕ → Bool
revives dto current today =
    get_or dto.active false && not (is_some dto.valid_till) && ltb current.valid_till today

module _ (pt : PromoTable) where
  abbrev pub promo_at : ℕ → pt.Rows → Option PromoRow
  promo_at id s = pt.find (λ p. p.id == id) s

  abbrev pub promo_by_code : Text → pt.Rows → Option PromoRow
  promo_by_code code s = pt.find (λ p. same_text p.code code) s

  abbrev pub check_valid_till : ℕ → ℕ → Action pt.Rows (Unit {0})
  check_valid_till valid_till today = throw_if (ltb valid_till today) Failure.validation

  unfoldable pub create_promo_code : NewPromo → ℕ → ℕ → Action pt.Rows PromoRow
  create_promo_code dto id today = do
    check_valid_till dto.valid_till today
    taken ← gets (promo_by_code (upper dto.code))
    throw_if (is_some taken) Failure.duplicate
    λ s. elim (pt.create (new_promo dto id) s) [
      | none ↦ (err Failure.crash, s)
      | some t ↦ (ok (new_promo dto id), t)
    ]

  -- Another code has the new name.
  abbrev pub name_taken : PromoEdit → PromoRow → pt.Rows → Bool
  name_taken dto current s = elim (map_given upper dto.code) [
    | none ↦ false
    | some code ↦ not (same_text code current.code) && is_some (promo_by_code code s)
  ]

  unfoldable pub update_promo_code : ℕ → PromoEdit → ℕ → Action pt.Rows PromoRow
  update_promo_code id dto today = do
    found ← gets (promo_at id)
    current ← or_throw found (Failure.not_found Resource.promo_code)
    clash ← gets (name_taken dto current)
    throw_if clash Failure.duplicate
    throw_if (elim dto.valid_till [ none ↦ false | some day ↦ ltb day today ]) Failure.validation
    throw_if (revives dto current today) (Failure.domain 409 promo_expired)
    modify (λ s. (pt.update_many (λ p. p.id == id) (edited_promo dto) s).0)
    pure (edited_promo dto current)

  unfoldable pub delete_promo_code : ℕ → Action pt.Rows (Unit {0})
  delete_promo_code id = do
    found ← gets (promo_at id)
    or_throw found (Failure.not_found Resource.promo_code)
    modify (λ s. pt.delete_many (λ p. p.id == id) s)
