-- ===== src/Company/Staff.antt =====
-- The professionals of src/modules/admin/admin-catalog.service.ts and admin.repository.ts. Whether a
-- professional has a confirmed or running booking is given, and so are their jobs.
use v2_backend.Catalogue.Service.{service_categories}
use v2_backend.HomeServices.Model.{Vertical}
use v2_backend.Admin.Bookings.{ProfessionalStatus, waiting, rejected, is_approved}
use v2_backend.Table.{Table}
use v2_backend.Common.Error.{Resource, has_assignments}
use v2_backend.Common.{
  ℕ, Text, Option, Bool, List, Action, ◌==◌, select, lower, some, ◌∷◌, false, true, none, get_or,
  trim, ◌>>=◌, is_digit, not, Result, ◌||◌, [], if◌then◌else◌, ◌&&◌, err, gets, answer, length,
  same_text, ◌++◌, all, ok, Failure, or_throw, ◌>>◌, codes, has_text, modify, pure, throw_if,
}

-- `Professional`, with their categories
pub record Member : Type 0 where
  pub id : ℕ
  pub company : ℕ
  pub name : Text
  pub phone : Text
  pub email : Text
  pub experience_years : ℕ
  pub categories : List Text
  pub status : ProfessionalStatus
  pub decided_by : Option ℕ
  pub decided_at : Option ℕ
  pub note : Text

-- `CreateProfessionalDto` and `UpdateProfessionalDto`
pub record NewMember : Type 0 where
  pub name : Text
  pub phone : Text
  pub email : Text
  pub experience_years : Option ℕ
  pub categories : List Text

pub record MemberEdit : Type 0 where
  pub name : Option Text
  pub phone : Option Text
  pub email : Option Text
  pub experience_years : Option ℕ
  pub categories : Option (List Text)

abbrev pub member_key : Member → ℕ
member_key p = p.id

abbrev pub member_conflict : Member → Member → Bool
member_conflict a b = b.id == a.id

abbrev pub MemberTable : Type 1
MemberTable = Table Member member_key member_conflict

-- "+91 98765 43210" or "9876543210" becomes "+919876543210".
unfoldable pub to_e164 : Text → Text
to_e164 phone =
    let digits = select is_digit phone in
    if length digits == 10 then codes "+91" ++ digits else codes "+" ++ digits

unfoldable pub normal_email : Text → Text
normal_email email = lower (trim email)

abbrev pub map_given : {A B : Type 0} → (A → B) → Option A → Option B
map_given f none = none
map_given f (some a) = some (f a)

-- `[...new Set(categories)]`: the first of equal ones stays.
unfoldable pub distinct_texts : List Text → List Text
distinct_texts [] = []
distinct_texts (c ∷ l) = c ∷ select (λ x. not (same_text c x)) (distinct_texts l)

unfoldable pub allowed_categories : List Vertical → List Text
allowed_categories [] = []
allowed_categories (v ∷ l) = service_categories v ++ allowed_categories l

-- The categories of a request, or the exception.
unfoldable pub check_categories : List Text → List Vertical → Result (List Text)
unfolding distinct_texts allowed_categories
check_categories categories verticals =
    if all (λ c. has_text c (allowed_categories verticals)) categories
    then ok (distinct_texts categories)
    else err Failure.validation

unfoldable pub edited_categories : Option (List Text) → List Vertical → Result (Option (List Text))
unfolding check_categories
edited_categories none verticals = ok none
edited_categories (some l) verticals = elim (check_categories l verticals) [
  | ok c ↦ ok (some c)
  | err e ↦ err e
]

-- A given text that is not the one before.
abbrev pub differs : Option Text → Text → Bool
differs none old = false
differs (some new) old = not (same_text new old)

abbrev pub is_rejected : ProfessionalStatus → Bool
is_rejected rejected = true
is_rejected _ = false

-- Whether an edit sends the professional back for approval.
unfoldable pub resubmits : MemberEdit → Member → Bool
unfolding to_e164 normal_email
resubmits dto current =
    is_rejected current.status
    || (is_approved current.status
        && (differs (map_given to_e164 dto.phone) current.phone
            || differs (map_given normal_email dto.email) current.email))

abbrev pub sent_back : Member → Member
sent_back p = record p { status = waiting; decided_by = none; decided_at = none; note = [] }

unfoldable pub edited_member : MemberEdit → Option (List Text) → Member → Member → Member
unfolding resubmits to_e164 normal_email
edited_member dto categories current p =
    let base = record p {
      name = get_or (map_given trim dto.name) p.name;
      phone = get_or (map_given to_e164 dto.phone) p.phone;
      email = get_or (map_given normal_email dto.email) p.email;
      experience_years = get_or dto.experience_years p.experience_years;
      categories = get_or categories p.categories;
    } in
    if resubmits dto current then sent_back base else base

abbrev pub new_member : NewMember → ℕ → ℕ → List Text → Member
new_member dto company id categories = record {
  id = id;
  company = company;
  name = trim dto.name;
  phone = to_e164 dto.phone;
  email = normal_email dto.email;
  experience_years = get_or dto.experience_years 0;
  categories = categories;
  status = waiting;
  decided_by = none;
  decided_at = none;
  note = [];
}

module _ (mt : MemberTable) where
  abbrev pub member_at : ℕ → mt.Rows → Option Member
  member_at id s = mt.find (λ p. p.id == id) s

  -- `professional`: one of this company.
  unfoldable pub find_member : ℕ → ℕ → mt.Rows → Option Member
  find_member id company s = mt.find (λ p. p.id == id && p.company == company) s

  unfoldable pub insert_member : Member → Action mt.Rows Member
  insert_member row s = elim (mt.create row s) [
    | none ↦ (err Failure.crash, s)
    | some t ↦ (ok row, t)
  ]

  unfoldable pub write_member : ℕ → (Member → Member) → Action mt.Rows Member
  write_member id f = do
    found ← gets (member_at id)
    row ← or_throw found Failure.crash
    modify (λ s. (mt.update_many (λ p. p.id == id) f s).0)
    pure (f row)

  unfoldable pub create_professional : ℕ → NewMember → List Vertical → ℕ → Action mt.Rows Member
  unfolding check_categories insert_member
  create_professional company dto verticals id = do
    categories ← answer (check_categories dto.categories verticals)
    insert_member (new_member dto company id categories)

  -- `updateProfessional`, after the professional was read.
  unfoldable pub update_member_read : Member → MemberEdit → List Vertical → Action mt.Rows Member
  unfolding edited_categories edited_member write_member
  update_member_read current dto verticals = do
    categories ← answer (edited_categories dto.categories verticals)
    write_member current.id (edited_member dto categories current)

  unfoldable pub update_professional : ℕ → ℕ → MemberEdit → List Vertical → Action mt.Rows Member
  unfolding find_member update_member_read
  update_professional company id dto verticals = do
    found ← gets (find_member id company)
    current ← or_throw found (Failure.not_found Resource.professional)
    update_member_read current dto verticals

  unfoldable pub delete_professional : (ℕ → Bool) → ℕ → ℕ → Action mt.Rows (Unit {0})
  unfolding find_member
  delete_professional assigned company id = do
    found ← gets (find_member id company)
    or_throw found (Failure.not_found Resource.professional)
    throw_if (assigned id) (Failure.domain 409 has_assignments)
    modify (λ s. mt.delete_many (λ p. p.id == id) s)
