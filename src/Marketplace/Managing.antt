-- ===== src/Marketplace/Managing.antt =====
-- Managing listings: who may, and what the stored details stay.
use v2_backend.Auth.Model.{UserType}
use v2_backend.Marketplace.Details.{validate_ad_attributes-store}
use v2_backend.Common.Keeps.{Keeps, transaction_at, bind_err, bind_ok}
use v2_backend.Marketplace.Listings.{
  ListingTable, InterestTable, Stall, insert_listing, Listing, listing_at, write_listing,
  update_listing, with_photos, find_owned, soft_delete, put_away,
}
use v2_backend.Marketplace.Selling.{
  taken_details, create_ad, NewAd, edited_details, AdEdit, new_listing, written_details,
  edited_listing, AdminModule, assert_can_manage, can_moderate, update_ad, remove_ad,
}
use v2_backend.Marketplace.Attributes.{
  nothing, store, invalid, null, object, not_object, not_taken, Validated, Json, Fields,
  validate_ad_attributes,
}
use v2_backend.Common.Error.{Resource}
use v2_backend.Common.{
  ℕ, Text, Option, some, ◌≡◌, ok, none, arith, Option-cases, inl, inr, Bool-cases, ◌==◌, Result,
  get_or, answer, ◌>>=◌, err, refl, List, same_text, same_text-eq, ◌⊎◌, Failure, true, ◌&&◌, not,
  is_some, ap,
}

-- Stored details are details that the category of the listing takes.
abbrev pub AreFor : Text → Option Fields → Type 0
AreFor category none = Unit
AreFor category (some f) = validate_ad_attributes category (object f) ≡ store f

taken-store : (v : Validated) (f : Fields) → taken_details v ≡ ok (some f) → v ≡ store f
unfolding taken_details
taken-store nothing f h = ground arith
taken-store (store g) f h = ground arith
taken-store (invalid es) f h = ground arith
taken-store not_object f h = ground arith
taken-store not_taken f h = ground arith

object-store :
    (category : Text) (raw : Json) (f : Fields)
    → validate_ad_attributes category raw ≡ store f
    → validate_ad_attributes category (object f) ≡ store f
unfolding validate_ad_attributes
object-store category (object g) f e = validate_ad_attributes-store category g f e
object-store category null f e = ground arith
object-store category _ f e = ground arith

AreFor-validated :
    (category : Text) (raw : Json) (d : Option Fields)
    → taken_details (validate_ad_attributes category raw) ≡ ok d
    → AreFor category d
AreFor-validated category raw none h = tt
AreFor-validated category raw (some f) h =
    object-store category raw f (taken-store (validate_ad_attributes category raw) f h)

-- The details that an edit leaves are for the category that it leaves.
AreFor-edited :
    (category old : Text) (raw : Option Json) (d : Option (Option Fields)) (a : Option Fields)
    → edited_details category old raw ≡ ok d
    → AreFor old a
    → AreFor category (get_or d a)
unfolding edited_details
AreFor-edited category old (some raw) d a h own =
    from_raw (taken_details (validate_ad_attributes category raw)) refl h
  where
    from_raw :
        (r : Result (Option Fields))
        → taken_details (validate_ad_attributes category raw) ≡ r
        → written_details r ≡ ok d
        → AreFor category (get_or d a)
    from_raw (ok e) v w =
        let same : some e ≡ d = ground arith in rw (← same) (AreFor-validated category raw e v)
    from_raw (err x) v w = ground arith
AreFor-edited category old none d a h own = elim (Bool-cases (same_text category old)) [
  | inl e ↦
      let left : none ≡ d = ground (arith, h, e) in rw (← left, same_text-eq category old e) own
  | inr e ↦ let dropped : some none ≡ d = ground (arith, h, e) in rw (← dropped) tt
]

module _ (lt : ListingTable) (it : InterestTable) where
  abbrev pub IsDescribed : Stall lt it → Type 0
  IsDescribed s =
      (k : ℕ) (l : Listing) → listing_at lt it k s ≡ some l → AreFor l.category l.attributes

  IsDescribed-insert :
      (row : Listing)
      → AreFor row.category row.attributes
      → Keeps IsDescribed (insert_listing lt it row)
  unfolding insert_listing
  IsDescribed-insert row own s i = elim (Option-cases (lt.create row s.listings)) [
    | inl e ↦ rw (insert_listing, e) i
    | inr (t, e) ↦
        rw (insert_listing, e)
          (λ k l at. elim (Bool-cases (row.id == k)) [
            | inl same ↦
                let is_row : row ≡ l = ground (arith, (lt.create_some row s.listings e).1 k) in
                rw (← is_row) own
            | inr other ↦ i k l (ground (arith, (lt.create_some row s.listings e).1 k))
          ])
  ]

  Keeps-create_ad :
      (dto : NewAd) (seller id : ℕ) → Keeps IsDescribed (create_ad lt it dto seller id)
  unfolding create_ad
  Keeps-create_ad dto seller id s i =
      go (taken_details (validate_ad_attributes dto.category (get_or dto.attributes null))) refl
    where
      go :
          (r : Result (Option Fields))
          → taken_details (validate_ad_attributes dto.category (get_or dto.attributes null)) ≡ r
          → IsDescribed ((answer r >>= λ d. insert_listing lt it (new_listing dto seller id d)) s).1
      go (ok d) e =
          IsDescribed-insert (new_listing dto seller id d)
            (AreFor-validated dto.category (get_or dto.attributes null) d e) s i
      go (err x) e = i

  IsDescribed-write :
      (id : ℕ) (f : Listing → Listing) (s : Stall lt it)
      → ((l : Listing) → (f l).id ≡ l.id)
      → ((l : Listing) → listing_at lt it id s ≡ some l → AreFor (f l).category (f l).attributes)
      → IsDescribed s
      → IsDescribed (write_listing lt it id f s).1
  unfolding write_listing
  IsDescribed-write id f s key own i = elim (Option-cases (listing_at lt it id s)) [
    | inl e ↦ rw (write_listing, e) i
    | inr (x, e) ↦
        rw (write_listing, e)
          (λ k l at. elim (Option-cases (listing_at lt it k s)) [
            | inl n ↦ ground (arith, lt.find_update (λ y. y.id == id) f s.listings k key, n)
            | inr (y, n) ↦ elim (Bool-cases (y.id == id)) [
              | inl same ↦
                  let new : f y ≡ l =
                    ground (arith, lt.find_update (λ z. z.id == id) f s.listings k key, n) in
                  let it_is : y.id ≡ id = ground arith in
                  rw (← new)
                    (own y (rw (← it_is) (lt.find_sound (λ z. z.id == k) s.listings y n).1))
              | inr other ↦
                  i k l (ground (arith, lt.find_update (λ z. z.id == id) f s.listings k key, n))
            ]
          ])
  ]

  -- The photos are apart from the details.
  with_photos-details :
      (photos : Option (List Text)) (l : Listing)
      → ((with_photos lt it photos l).id ≡ l.id)
        × ((with_photos lt it photos l).category ≡ l.category)
        × ((with_photos lt it photos l).attributes ≡ l.attributes)
  with_photos-details none l = (refl, refl, refl)
  with_photos-details (some keys) l = (refl, refl, refl)

  IsDescribed-update :
      (id : ℕ) (dto : AdEdit) (x : Listing) (d : Option (Option Fields)) (s : Stall lt it)
      → listing_at lt it id s ≡ some x
      → edited_details (get_or dto.category x.category) x.category dto.attributes ≡ ok d
      → IsDescribed s
      → IsDescribed (update_listing lt it id (edited_listing dto d) dto.image_keys s).1
  unfolding update_listing
  IsDescribed-update id dto x d s at h i =
      let f : Listing → Listing = λ l. with_photos lt it dto.image_keys (edited_listing dto d l) in
      transaction_at IsDescribed (write_listing lt it id f) s i (
        IsDescribed-write id f s
          (λ l. (with_photos-details dto.image_keys (edited_listing dto d l)).0)
          (λ l at2.
            let same : x ≡ l = ground arith in
            let (_, category, attributes) =
              with_photos-details dto.image_keys (edited_listing dto d l) in
            rw (category, attributes, ← same)
              (AreFor-edited (get_or dto.category x.category) x.category dto.attributes d
                x.attributes h (i id x at)))
          i)

  module _ (modules : ℕ → List AdminModule) where
    -- Whom `assert_can_manage` lets pass.
    abbrev pub MayManage : ℕ → UserType → Listing → Type 0
    MayManage caller role l =
        (l.seller ≡ caller) ⊎ (can_moderate modules caller role l.category ≡ true)

    -- A listing that is not there or not the caller's to manage is left alone; another is passed on.
    managed :
        (caller : ℕ) (role : UserType) (id : ℕ) (s : Stall lt it)
        → ((e : Failure) × (assert_can_manage lt it modules caller role id s ≡ (err e, s)))
          ⊎ ((x : Listing) × (assert_can_manage lt it modules caller role id s ≡ (ok x, s))
              × (listing_at lt it id s ≡ some x)
              × MayManage caller role x)
    unfolding assert_can_manage find_owned
    managed caller role id s = elim (Option-cases (find_owned lt it id s)) [
      | inl e ↦ inl (Failure.not_found Resource.ad, rw (assert_can_manage, e) refl)
      | inr (x, e) ↦
          let (found, own) =
            lt.find_sound (λ l. l.id == id && not (is_some l.deleted_at)) s.listings x e in
          let at : listing_at lt it id s ≡ some x = ground (arith, found, own) in
          elim (Bool-cases (x.seller == caller)) [
            | inl c ↦ inr (x, rw (assert_can_manage, e, c) refl, at, inl (ground (arith, c)))
            | inr c ↦ elim (Bool-cases (can_moderate modules caller role x.category)) [
              | inl m ↦ inr (x, rw (assert_can_manage, e, c, m) refl, at, inr m)
              | inr m ↦ inl (Failure.forbidden, rw (assert_can_manage, e, c, m) refl)
            ]
          ]
    ]

    Keeps-update_ad :
        (caller : ℕ) (role : UserType) (id : ℕ) (dto : AdEdit)
        → Keeps IsDescribed (update_ad lt it modules caller role id dto)
    unfolding update_ad
    Keeps-update_ad caller role id dto s i = elim (managed caller role id s) [
      | inl (e, none_passed) ↦
          rw (bind_err (assert_can_manage lt it modules caller role id) _ s s e none_passed) i
      | inr (x, passed, at, _) ↦
          rw (bind_ok (assert_can_manage lt it modules caller role id) _ s s x passed) (
            after_edit x at
              (edited_details (get_or dto.category x.category) x.category dto.attributes) refl)
    ]
      where
        after_edit :
            (x : Listing)
            → listing_at lt it id s ≡ some x
            → (r : Result (Option (Option Fields)))
            → edited_details (get_or dto.category x.category) x.category dto.attributes ≡ r
            → IsDescribed
                ((answer r >>= λ d. update_listing lt it id (edited_listing dto d) dto.image_keys)
                  s).1
        after_edit x at (ok d) e = IsDescribed-update id dto x d s at e i
        after_edit x at (err z) e = i

    -- An edit and a removal by a caller who neither sells the listing nor moderates its category leave
    -- the stores alone.
    pub strangers_manage_nothing :
        (caller : ℕ) (role : UserType) (id : ℕ) (dto : AdEdit) (now : ℕ) (s : Stall lt it)
        (l : Listing)
        → listing_at lt it id s ≡ some l
        → (MayManage caller role l → ⊥)
        → ((update_ad lt it modules caller role id dto s).1 ≡ s)
          × ((remove_ad lt it modules caller role id now s).1 ≡ s)
    unfolding update_ad remove_ad
    strangers_manage_nothing caller role id dto now s l at stranger =
        elim (managed caller role id s) [
          | inl (e, none_passed) ↦ (
            ap (λ z. z.1)
                (bind_err (assert_can_manage lt it modules caller role id)
                  (λ x.
                    answer
                      (edited_details (get_or dto.category x.category) x.category dto.attributes)
                    >>= λ d. update_listing lt it id (edited_listing dto d) dto.image_keys)
                  s s e none_passed),
            ap (λ z. z.1)
                (bind_err (assert_can_manage lt it modules caller role id)
                  (λ x. soft_delete lt it id now) s s e none_passed),
          )
          | inr (x, _, at2, may) ↦
              let same : x ≡ l = ground arith in elim (stranger (rw (← same) may)) [ ]
        ]

    Keeps-remove_ad :
        (caller : ℕ) (role : UserType) (id now : ℕ)
        → Keeps IsDescribed (remove_ad lt it modules caller role id now)
    unfolding remove_ad soft_delete
    Keeps-remove_ad caller role id now s i = elim (managed caller role id s) [
      | inl (e, none_passed) ↦
          rw (bind_err (assert_can_manage lt it modules caller role id) _ s s e none_passed) i
      | inr (x, passed, at, _) ↦
          rw (bind_ok (assert_can_manage lt it modules caller role id) _ s s x passed)
            (IsDescribed-write id (put_away lt it now) s (λ _. refl) (λ l at2. i id l at2) i)
    ]

    -- Creating, editing and removing listings keep the details: what is stored of a listing is what the
    -- validation for its category stores of it, also where an edit moves the listing to another
    -- category.
    pub managing_describes :
        (caller : ℕ) (role : UserType) (id fresh now : ℕ) (dto : AdEdit) (new : NewAd)
        (s : Stall lt it)
        → IsDescribed s
        → IsDescribed (create_ad lt it new caller fresh s).1
          × IsDescribed (update_ad lt it modules caller role id dto s).1
          × IsDescribed (remove_ad lt it modules caller role id now s).1
    managing_describes caller role id fresh now dto new s i = (
      Keeps-create_ad new caller fresh s i,
      Keeps-update_ad caller role id dto s i,
      Keeps-remove_ad caller role id now s i,
    )
