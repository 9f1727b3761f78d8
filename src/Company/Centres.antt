-- ===== src/Company/Centres.antt =====
-- The centre of an area is that of its place.
use v2_backend.Common.Keeps.{Keeps, state_bind}
use v2_backend.Company.Areas.{
  Maps, Area, centre_of, AreaTable, AreaEdit, area_at, create_location, write_area, update_location,
  NewArea, changes, edited_area, find_area, geocode, is_moved, new_area, owns, location_json,
}
use v2_backend.Common.{
  ℕ, Option, ◌≡◌, Text, none, some, ◌⊎◌, false, Bool-cases, Option-cases, Action, get_or, inl,
  ◌>>=◌, same_text-eq, ◌||◌, inr, pure, arith, not, ◌==◌, is_some, ◌&&◌, refl,
}

module _ (maps : Maps) where
  -- The maps did not find the area when it was saved, or its centre is what they say of its place.
  abbrev pub IsCentred : Area → Type 0
  IsCentred l = (l.pin ≡ none) ⊎ (l.pin ≡ geocode maps l.area l.district l.pincode)

  changes-same : (o : Option Text) (old : Text) → changes o old ≡ false → get_or o old ≡ old
  changes-same none old h = refl
  changes-same (some t) old h = same_text-eq t old (ground arith)

  IsCentred-edited :
      (dto : AreaEdit) (l : Area)
      → IsCentred l
      → IsCentred (edited_area dto (centre_of maps dto l) l)
  unfolding centre_of
  IsCentred-edited dto l i = elim (Bool-cases (is_moved dto l || not (is_some l.pin))) [
    | inl e ↦ inr (rw e refl)
    | inr e ↦
        let area = changes-same dto.area l.area (ground arith) in
        let district = changes-same dto.district l.district (ground arith) in
        let pincode = changes-same dto.pincode l.pincode (ground arith) in
        rw (e, area, district, pincode) i
  ]

  module _ (at : AreaTable) where
    abbrev pub AreCentred : at.Rows → Type 0
    AreCentred s = (k : ℕ) (l : Area) → area_at maps at k s ≡ some l → IsCentred l

    AreCentred-create :
        (company : ℕ) (dto : NewArea) (id : ℕ)
        → Keeps AreCentred (create_location maps at company dto id)
    unfolding create_location
    AreCentred-create company dto id s i =
        elim (Option-cases (at.create (new_area maps dto company id) s)) [
          | inl e ↦ rw (create_location, e) i
          | inr (t, e) ↦
              rw (create_location, e)
                (λ k l found. elim (Bool-cases (id == k)) [
                  | inl same ↦
                      let is_row : new_area maps dto company id ≡ l =
                        ground (arith, (at.create_some (new_area maps dto company id) s e).1 k) in
                      rw (← is_row) (inr refl)
                  | inr other ↦
                      i k l
                        (ground (arith, (at.create_some (new_area maps dto company id) s e).1 k))
                ])
        ]

    AreCentred-write :
        (id : ℕ) (f : Area → Area) (s : at.Rows)
        → ((l : Area) → (f l).id ≡ l.id)
        → ((l : Area) → area_at maps at id s ≡ some l → IsCentred (f l))
        → AreCentred s
        → AreCentred (write_area maps at id f s).1
    unfolding write_area
    AreCentred-write id f s key own i = elim (Option-cases (area_at maps at id s)) [
      | inl e ↦ rw (write_area, e) i
      | inr (x, e) ↦
          rw (write_area, e)
            (λ k l found. elim (Option-cases (area_at maps at k s)) [
              | inl n ↦ ground (arith, at.find_update (λ y. y.id == id) f s k key, n)
              | inr (y, n) ↦ elim (Bool-cases (y.id == id)) [
                | inl same ↦
                    let new : f y ≡ l =
                      ground (arith, at.find_update (λ z. z.id == id) f s k key, n) in
                    let it_is : y.id ≡ id = ground arith in
                    rw (← new) (own y (rw (← it_is) (at.find_sound (λ z. z.id == k) s y n).1))
                | inr other ↦ i k l (ground (arith, at.find_update (λ z. z.id == id) f s k key, n))
              ]
            ])
    ]

    AreCentred-update :
        (waiting : ℕ → ℕ) (company id : ℕ) (dto : AreaEdit)
        → Keeps AreCentred (update_location maps at waiting company id dto)
    unfolding update_location find_area
    AreCentred-update waiting company id dto s i =
        elim (Option-cases (find_area maps at id company s)) [
          | inl e ↦ rw (update_location, e) i
          | inr (x, e) ↦
              let (found, own) = at.find_sound (λ l. l.id == id && owns maps at company l) s x e in
              let f : Area → Area = edited_area dto (centre_of maps dto x) in
              let here : area_at maps at id s ≡ some x = ground (arith, found, own) in
              rw (update_location, e)
                (Keeps-map (write_area maps at id f) (λ l. location_json l (waiting id)) s
                  (AreCentred-write id f s (λ l. refl)
                    (λ l at2.
                      let same : x ≡ l = ground arith in
                      rw (← same) (IsCentred-edited dto x (i id x here)))
                    i))
        ]
      where
        Keeps-map :
            {A B : Type 0} (m : Action at.Rows A) (f : A → B) (s : at.Rows)
            → AreCentred (m s).1
            → AreCentred ((m >>= λ a. pure (f a)) s).1
        Keeps-map m f s h = rw (state_bind m (λ a. pure (f a)) s (λ a t. refl)) h

    pub areas_centred :
        (waiting : ℕ → ℕ) (company id fresh : ℕ) (new : NewArea) (dto : AreaEdit) (s : at.Rows)
        → AreCentred s
        → AreCentred (create_location maps at company new fresh s).1
          × AreCentred (update_location maps at waiting company id dto s).1
    areas_centred waiting company id fresh new dto s i =
        (AreCentred-create company new fresh s i, AreCentred-update waiting company id dto s i)
