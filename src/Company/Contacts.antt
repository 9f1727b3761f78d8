-- ===== src/Company/Contacts.antt =====
-- The phone and the email of an approved professional are those that were approved.
use v2_backend.Admin.Bookings.{waiting, is_approved}
use v2_backend.HomeServices.Model.{Vertical}
use v2_backend.Company.Staff.{
  NewMember, edited_member, MemberTable, Member, differs, resubmits, member_at, create_professional,
  insert_member, map_given, MemberEdit, update_professional, delete_professional, to_e164,
  normal_email, write_member, update_member_read, find_member, new_member, check_categories,
  edited_categories,
}
use v2_backend.Common.{
  ℕ, Option, Text, List, ◌≡◌, ◌==◌, some, ◌∷◌, Option-cases, if◌then◌else◌, Bool, false, Bool-cases,
  inl, get_or, inr, [], none, same_text-eq, arith, refl, true, Result, answer, ◌&&◌, ◌>>=◌, ok, err,
  ap, sym, ◌∙◌,
}

-- Where the job messages for a professional go.
unfoldable pub contact_of : Option Member → Option (Text × Text)
contact_of none = none
contact_of (some p) = if is_approved p.status then some (p.phone, p.email) else none

-- What a company does with its people.
pub data StaffStep : Type 0 where
  hire : ℕ → NewMember → List Vertical → ℕ → StaffStep
  revise : ℕ → ℕ → MemberEdit → List Vertical → StaffStep
  dismiss : (ℕ → Bool) → ℕ → ℕ → StaffStep

differs-same :
    (f : Text → Text) (o : Option Text) (old : Text)
    → differs (map_given f o) old ≡ false
    → get_or (map_given f o) old ≡ old
differs-same f none old h = refl
differs-same f (some t) old h = same_text-eq (f t) old (ground arith)

unchanged :
    (dto : MemberEdit) (p : Member)
    → resubmits dto p ≡ false
    → is_approved p.status ≡ true
    → (differs (map_given to_e164 dto.phone) p.phone ≡ false)
      × (differs (map_given normal_email dto.email) p.email ≡ false)
unfolding resubmits
unchanged dto p e a = (ground arith, ground arith)

contact_of-edited :
    (dto : MemberEdit) (c : Option (List Text)) (p : Member) (x : Text × Text)
    → contact_of (some (edited_member dto c p p)) ≡ some x
    → contact_of (some p) ≡ some x
unfolding contact_of edited_member resubmits
contact_of-edited dto c p x h = elim (Bool-cases (resubmits dto p)) [
  | inl e ↦ let none_left = rw e at h in ground arith
  | inr e ↦ elim (Bool-cases (is_approved p.status)) [
    | inr a ↦ let none_left = rw (e, a) at h in ground arith
    | inl a ↦
        let phone = differs-same to_e164 dto.phone p.phone (unchanged dto p e a).0 in
        let email = differs-same normal_email dto.email p.email (unchanged dto p e a).1 in
        let same = rw (e, a, phone, email) at h in rw a same
  ]
]

key-edited :
    (dto : MemberEdit) (c : Option (List Text)) (p q : Member) → (edited_member dto c p q).id ≡ q.id
unfolding edited_member
key-edited dto c p q = elim (Bool-cases (resubmits dto p)) [ inl e ↦ rw e refl | inr e ↦ rw e refl ]

module _ (mt : MemberTable) where
  unfoldable pub contact_at : ℕ → mt.Rows → Option (Text × Text)
  unfolding contact_of
  contact_at k s = contact_of (member_at mt k s)

  unfoldable pub staff_after : StaffStep → mt.Rows → mt.Rows
  unfolding create_professional update_professional delete_professional
  staff_after (hire company dto verticals id) s =
      (create_professional mt company dto verticals id s).1
  staff_after (revise company id dto verticals) s =
      (update_professional mt company id dto verticals s).1
  staff_after (dismiss assigned company id) s = (delete_professional mt assigned company id s).1

  unfoldable pub staff_after_all : List StaffStep → mt.Rows → mt.Rows
  unfolding staff_after
  staff_after_all [] s = s
  staff_after_all (c ∷ cs) s = staff_after_all cs (staff_after c s)

  -- No contact at the end that was not there before.
  module _ (k : ℕ) (x : Text × Text) (s : mt.Rows) where
    Kept : mt.Rows → Type 0
    Kept t = contact_at k t ≡ some x → contact_at k s ≡ some x

    Kept-insert : (row : Member) → row.status ≡ waiting → Kept (insert_member mt row s).1
    unfolding Kept contact_at contact_of insert_member
    Kept-insert row h = elim (Option-cases (mt.create row s)) [
      | inl e ↦ rw (insert_member, e) (λ c. c)
      | inr (t, e) ↦
          rw (insert_member, e, (mt.create_some row s e).1 k)
            (elim (Bool-cases (row.id == k)) [
              | inl i ↦ rw (i, h) (λ c. ground arith)
              | inr i ↦ rw i (λ c. c)
            ])
    ]

    Kept-delete : (id : ℕ) → Kept (mt.delete_many (λ p. p.id == id) s)
    unfolding Kept contact_at contact_of
    Kept-delete id =
        rw (mt.find_delete (λ p. p.id == id) s k) (elim (Option-cases (member_at mt k s)) [
          | inl e ↦ rw e (λ c. c)
          | inr (p, e) ↦ elim (Bool-cases (p.id == id)) [
            | inl i ↦ rw (e, i) (λ c. ground arith)
            | inr i ↦ rw (e, i) (λ c. c)
          ]
        ])

    Kept-write :
        (id : ℕ) (f : Member → Member)
        → ((p : Member) → (f p).id ≡ p.id)
        → ((p : Member)
            → member_at mt id s ≡ some p
            → contact_of (some (f p)) ≡ some x
            → contact_of (some p) ≡ some x)
        → Kept (write_member mt id f s).1
    unfolding Kept contact_at write_member
    Kept-write id f key keeps = elim (Option-cases (member_at mt id s)) [
      | inl e ↦ rw (write_member, e) (λ c. c)
      | inr (q, e) ↦
          rw (write_member, e, mt.find_update (λ p. p.id == id) f s k key)
            (elim (Option-cases (member_at mt k s)) [
              | inl n ↦ rw n (λ c. c)
              | inr (p, n) ↦ elim (Bool-cases (p.id == id)) [
                | inl i ↦
                    let own : p.id ≡ id = ground arith in
                    rw (n, i) (keeps p (rw (← own) (mt.find_sound (λ z. z.id == k) s p n).1))
                | inr i ↦ rw (n, i) (λ c. c)
              ]
            ])
    ]

    Kept-create :
        (company : ℕ) (dto : NewMember) (verticals : List Vertical) (id : ℕ)
        → Kept (create_professional mt company dto verticals id s).1
    unfolding create_professional Kept
    Kept-create company dto verticals id = go (check_categories dto.categories verticals)
      where
        go :
            (r : Result (List Text))
            → Kept ((answer r >>= λ c. insert_member mt (new_member dto company id c)) s).1
        go (ok c) = Kept-insert (new_member dto company id c) refl
        go (err e) = λ c. c

    Kept-update_read :
        (p : Member) (dto : MemberEdit) (verticals : List Vertical)
        → member_at mt p.id s ≡ some p
        → Kept (update_member_read mt p dto verticals s).1
    unfolding update_member_read Kept
    Kept-update_read p dto verticals at = go (edited_categories dto.categories verticals)
      where
        go :
            (r : Result (Option (List Text)))
            → Kept ((answer r >>= λ c. write_member mt p.id (edited_member dto c p)) s).1
        go (ok c) = Kept-write p.id (edited_member dto c p) (key-edited dto c p) (λ q at2 h.
            let same : p ≡ q = ground arith in
            ap (λ z. contact_of (some z)) (sym same)
            ∙ contact_of-edited dto c p x
                (ap (λ z. contact_of (some (edited_member dto c p z))) same ∙ h))
        go (err e) = λ c. c

    Kept-update :
        (company id : ℕ) (dto : MemberEdit) (verticals : List Vertical)
        → Kept (update_professional mt company id dto verticals s).1
    unfolding update_professional find_member Kept
    Kept-update company id dto verticals = elim (Option-cases (find_member mt id company s)) [
      | inl e ↦ rw (update_professional, e) (λ c. c)
      | inr (p, e) ↦
          rw (update_professional, e)
            (Kept-update_read p dto verticals
              (mt.find_sound (λ q. q.id == id && q.company == company) s p e).1)
    ]

    Kept-dismiss :
        (assigned : ℕ → Bool) (company id : ℕ)
        → Kept (delete_professional mt assigned company id s).1
    unfolding delete_professional Kept
    Kept-dismiss assigned company id = elim (Option-cases (find_member mt id company s)) [
      | inl e ↦ rw (delete_professional, e) (λ c. c)
      | inr (p, e) ↦ elim (Bool-cases (assigned id)) [
        | inl b ↦ rw (delete_professional, e, b) (λ c. c)
        | inr b ↦ rw (delete_professional, e, b) (Kept-delete id)
      ]
    ]

  Kept-staff_after :
      (c : StaffStep) (k : ℕ) (x : Text × Text) (s : mt.Rows)
      → contact_at k (staff_after c s) ≡ some x
      → contact_at k s ≡ some x
  unfolding staff_after Kept
  Kept-staff_after (hire company dto verticals id) k x s =
      Kept-create k x s company dto verticals id
  Kept-staff_after (revise company id dto verticals) k x s =
      Kept-update k x s company id dto verticals
  Kept-staff_after (dismiss assigned company id) k x s = Kept-dismiss k x s assigned company id

  -- After a company added, edited and removed professionals, in any number and order, the phone and the
  -- email of a professional who is approved are those of the same professional approved before.
  pub contacts_approved :
      (steps : List StaffStep) (k : ℕ) (x : Text × Text) (s : mt.Rows)
      → contact_at k (staff_after_all steps s) ≡ some x
      → contact_at k s ≡ some x
  unfolding staff_after_all
  contacts_approved [] k x s h = h
  contacts_approved (c ∷ cs) k x s h =
      Kept-staff_after c k x s (contacts_approved cs k x (staff_after c s) h)
