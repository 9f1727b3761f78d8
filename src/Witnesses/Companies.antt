-- ===== src/Witnesses/Companies.antt =====
-- The properties of a company's people and of promo codes at concrete inputs.
use v2_backend.Company.Expiry.{update_promo_code_lem}
use v2_backend.Admin.Bookings.{approved}
use v2_backend.HomeServices.Model.{cleaning}
use v2_backend.Table.Listed.{visible, listed}
use v2_backend.Company.Promos.{
  PromoTable, PromoRow, PromoEdit, update_promo_code, promo_key, promo_conflict, promo_at,
  edited_promo, promo_state, usable,
}
use v2_backend.Company.Contacts.{
  contact_at, StaffStep, contact_of, revise, staff_after_all, staff_after, dismiss,
  contacts_approved,
}
use v2_backend.Company.Staff.{
  MemberTable, Member, MemberEdit, member_key, member_conflict, update_professional,
  delete_professional, find_member, update_member_read, edited_categories, edited_member, resubmits,
  to_e164, normal_email, write_member,
}
use v2_backend.Common.{
  List, codes, some, ◌∷◌, none, false, upper, [], true, ◌≡◌, refl, trim, trim_start, reversed,
  lower,
}

abbrev member_table : MemberTable
member_table = listed member_key member_conflict

abbrev cleaner : Member
cleaner = record {
  id = 3;
  company = 2;
  name = codes "Asha";
  phone = codes "+919876543210";
  email = codes "asha@elk.in";
  experience_years = 4;
  categories = codes "deep" ∷ [];
  status = approved;
  decided_by = some 1;
  decided_at = some 100;
  note = [];
}

-- The same number, written otherwise.
abbrev rewritten : MemberEdit
rewritten = record {
  name = some (codes " Asha K ");
  phone = some (codes "98765 43210");
  email = none;
  experience_years = none;
  categories = none;
}

abbrev moved : MemberEdit
moved = record rewritten { phone = some (codes "90000 00000") }

abbrev steps : List StaffStep
steps = revise 2 3 rewritten (cleaning ∷ []) ∷ dismiss (λ id. true) 2 3 ∷ []

contacts_approved_example :
    contact_at member_table 3 (cleaner ∷ []) ≡ some (codes "+919876543210", codes "asha@elk.in")
unfolding contact_at contact_of visible staff_after_all staff_after update_professional
    delete_professional find_member update_member_read edited_categories edited_member resubmits
    to_e164 normal_email trim trim_start reversed lower write_member
contacts_approved_example =
    contacts_approved member_table steps 3 (codes "+919876543210", codes "asha@elk.in")
      (cleaner ∷ []) refl

-- With another number, the professional waits again.
moved_waits :
    contact_at member_table 3
      (staff_after member_table (revise 2 3 moved (cleaning ∷ [])) (cleaner ∷ []))
    ≡ none
unfolding contact_at contact_of visible staff_after update_professional find_member
    update_member_read edited_categories edited_member resubmits to_e164 normal_email trim
    trim_start reversed lower write_member
moved_waits = refl

abbrev promo_table : PromoTable
promo_table = listed promo_key promo_conflict

abbrev summer : PromoRow
summer = record {
  id = 4;
  code = codes "SUMMER";
  percent = 10;
  max_discount = 0;
  min_order = 0;
  valid_till = 20_250_601;
  active = false;
  description = [];
}

abbrev extend : PromoEdit
extend = record {
  code = some (codes "autumn");
  percent = none;
  max_discount = none;
  min_order = none;
  valid_till = some 20_251_101;
  active = some true;
  description = none;
}

update_promo_code_lem_example :
    (promo_at promo_table 4 (update_promo_code promo_table 4 extend 20_250_901 (summer ∷ [])).1
      ≡ some (edited_promo extend summer))
    × (promo_state (edited_promo extend summer) 20_250_901 ≡ usable)
unfolding visible update_promo_code upper
update_promo_code_lem_example =
    update_promo_code_lem promo_table 4 extend 20_250_901 (summer ∷ []) (edited_promo extend summer)
      refl refl
