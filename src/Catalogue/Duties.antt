-- ===== src/Catalogue/Duties.antt =====
-- Every operation on the catalogue is one move of the abstract services.
use v2_backend.Admin.Bookings.{same_vertical}
use v2_backend.HomeServices.Model.{Vertical}
use v2_backend.Catalogue.Service.{
  create_service, check_category, NewService, save_new, new_row, service_categories, service_json,
  ask_change, update_read, edited, ask_price, ServiceEdit, prices_asked, update_service,
  delete_service, with_asked,
}
use v2_backend.HomeServices.Service.{HomeService}
use v2_backend.Common.Keeps.{Keeps, Keeps-bind, Leads-then, Leads-transaction}
use v2_backend.Catalogue.Repository.{
  Shop, insert_request, request_price_change, filed, request_new_service, asked_terms,
  to_open_change, insert_service, withdraw, service_at, write_service, OpenChange, open_change,
  remove_service,
}
use v2_backend.Catalogue.Terms.{
  ServiceTable, RequestTable, ChangeRequest, AskedPrice, is_for, price_change, new_service,
  terms_of, price_of, same_price,
}
use v2_backend.Catalogue.Standing.{
  admin, Step, Same, Moved, Same-Moved, stays, Step-insert_service, standing, Actor, standing_of,
  Move, Step-write_service, Step-remove_service,
}
use v2_backend.Common.{
  ℕ, Action, ◌≡◌, Option-cases, inl, inr, ◌>>=◌, pure, List, Option, some, none, refl, any,
  Bool-cases, has_text, transaction, ◌&&◌, get_or, arith, ◌==◌,
}

module _ (st : ServiceTable) (rt : RequestTable) where
  -- Filing, replacing and withdrawing a request leaves the services.
  module _ (s : Shop st rt) where
    abbrev Quiet : {A : Type 0} → Action (Shop st rt) A → Type 0
    Quiet m = Keeps (λ t. t.services ≡ s.services) m

    Quiet-insert_request : (row : ChangeRequest) → Quiet (insert_request st rt row)
    unfolding insert_request
    Quiet-insert_request row t h = elim (Option-cases (rt.create row t.requests)) [
      | inl e ↦ rw (insert_request, e) h
      | inr (u, e) ↦ rw (insert_request, e) h
    ]

    Quiet-request_price_change :
        (x : HomeService) (p : AskedPrice) (by id now : ℕ)
        → Quiet (request_price_change st rt x p by id now)
    unfolding request_price_change
    Quiet-request_price_change x p by id now t h =
        elim (Option-cases (rt.find (λ r. is_for x.id r.open_for) t.requests)) [
          | inl e ↦
              rw (request_price_change, e)
                (Keeps-bind (λ u. u.services ≡ s.services)
                  (insert_request st rt
                    (filed st rt price_change (asked_terms st rt x p) x by id now))
                  (λ row. pure (to_open_change row)) (Quiet-insert_request _) (λ row u i. i) t h)
          | inr (r, e) ↦ rw (request_price_change, e) h
        ]

    Quiet-request_new_service :
        (x : HomeService) (by rid now : ℕ) → Quiet (request_new_service st rt x by rid now)
    unfolding request_new_service
    Quiet-request_new_service x by rid now =
        Keeps-bind (λ t. t.services ≡ s.services)
          (insert_request st rt (filed st rt new_service (terms_of x) x by rid now))
          (λ row. pure (to_open_change row)) (Quiet-insert_request _) (λ _ _ h. h)

  Quiet-ask_price :
      (s : Shop st rt) (dto : ServiceEdit) (y : HomeService) (waiting : Option OpenChange)
      (by rid now : ℕ)
      → Quiet s (ask_price st rt dto y waiting by rid now)
  unfolding ask_price withdraw
  Quiet-ask_price s dto y waiting by rid now t h =
      let wanted =
        with_asked dto (elim waiting [ none ↦ price_of (terms_of y) | some c ↦ c.requested ]) in
      elim (Bool-cases (same_price wanted (price_of (terms_of y)))) [
        | inl c ↦ rw (ask_price, c) h
        | inr c ↦
            rw (ask_price, c)
              (Keeps-bind (λ u. u.services ≡ s.services)
                (request_price_change st rt y wanted by rid now) (λ change. pure (some change))
                (Quiet-request_price_change s y wanted by rid now) (λ _ _ i. i) t h)
      ]

  pub same_row :
      (k : ℕ) (s : Shop st rt) (j : ℕ) (y x : HomeService)
      → service_at st rt k s ≡ some y
      → y.id ≡ j
      → service_at st rt j s ≡ some x
      → y ≡ x
  same_row k s j y x at same e = ground (arith, st.find_sound (λ z. z.id == k) s.services y at)

  -- What leaves the services keeps a move that was made.
  pub Keeps-Moved :
      {A : Type 0} (a : Actor) (k : ℕ) (s : Shop st rt) (m : Action (Shop st rt) A)
      → ((t : Shop st rt) → Quiet t m)
      → Keeps (Moved st rt a k s) m
  unfolding standing
  Keeps-Moved a k s m h t moved = rw (h t t refl) moved

  pub Keeps-map :
      {A B : Type 0} (a : Actor) (k : ℕ) (s : Shop st rt) (m : Action (Shop st rt) A) (f : A → B)
      → ((t : Shop st rt) → Quiet t m)
      → Keeps (Moved st rt a k s) (m >>= λ x. pure (f x))
  Keeps-map a k s m f h =
      Keeps-bind (Moved st rt a k s) m (λ x. pure (f x)) (Keeps-Moved a k s m h) (λ _ _ i. i)

  module _ (k : ℕ) (s : Shop st rt) where
    abbrev AdminStep : {A : Type 0} → Action (Shop st rt) A → Type 0
    AdminStep m = Step st rt admin k s m

    Step-save_new :
        (dto : NewService) (by sid rid now : ℕ) → AdminStep (save_new st rt dto by sid rid now)
    unfolding save_new
    Step-save_new dto by sid rid now =
        Leads-then (Same st rt s) (Moved st rt admin k s) (Same-Moved st rt admin k s)
          (insert_service st rt (new_row dto sid))
          (λ x. request_new_service st rt x by rid now >>= λ c. pure (x, c))
          (Step-insert_service st rt admin k s (new_row dto sid) refl refl)
          (λ x.
            Keeps-map admin k s (request_new_service st rt x by rid now) (λ c. (x, c))
              (λ t. Quiet-request_new_service t x by rid now))

    pub Moved-create_service :
        (dto : NewService) (by : ℕ) (verticals : List Vertical) (sid rid now : ℕ)
        → Moved st rt admin k s (create_service st rt dto by verticals sid rid now s).1
    unfolding create_service check_category
    Moved-create_service dto by verticals sid rid now =
        elim (Bool-cases (any (same_vertical dto.vertical) verticals)) [
          | inr c ↦ rw (create_service, c) stays
          | inl c ↦ elim (Bool-cases (has_text dto.category (service_categories dto.vertical))) [
            | inr d ↦ rw (create_service, c, check_category, d) stays
            | inl d ↦
                rw (create_service, c, check_category, d)
                  (Leads-then (Same st rt s) (Moved st rt admin k s) (Same-Moved st rt admin k s)
                    (transaction (save_new st rt dto by sid rid now))
                    (λ x. pure (service_json x.0 0 (some x.1)))
                    (Leads-transaction (Same st rt s) (Moved st rt admin k s)
                      (Same-Moved st rt admin k s) _ (Step-save_new dto by sid rid now))
                    (λ _ _ h. h) s refl)
          ]
        ]

    -- An edit of the service that was read leaves its standing.
    Move-edited :
        (dto : ServiceEdit) (x : HomeService)
        → Move admin (standing_of (some x)) (standing_of (some (edited dto x x)))
    unfolding standing_of edited
    Move-edited dto x = elim (Bool-cases x.approved) [ inl i ↦ rw i stays | inr i ↦ rw i stays ]

    key-edited : (dto : ServiceEdit) (x y : HomeService) → (edited dto x y).id ≡ y.id
    unfolding edited
    key-edited dto x y = refl

    Quiet-ask_change :
        (x : HomeService) (dto : ServiceEdit) (by : ℕ) (bookings : ℕ → ℕ) (rid now : ℕ)
        (y : HomeService) (t : Shop st rt)
        → Quiet t (ask_change st rt x dto by bookings rid now y)
    unfolding ask_change ask_price withdraw
    Quiet-ask_change x dto by bookings rid now y t u h =
        elim (Bool-cases (x.approved && prices_asked dto)) [
          | inr c ↦ rw (ask_change, c) h
          | inl c ↦
              rw (ask_change, c)
                (Keeps-bind (Same st rt t)
                  (ask_price st rt dto y (open_change st rt x.id u) by rid now)
                  (λ change. pure (service_json y (bookings x.id) change))
                  (Quiet-ask_price t dto y (open_change st rt x.id u) by rid now) (λ _ _ i. i) u h)
        ]

    Moved-update_read :
        (x : HomeService) (dto : ServiceEdit) (by : ℕ) (verticals : List Vertical)
        (bookings : ℕ → ℕ) (rid now : ℕ)
        → service_at st rt x.id s ≡ some x
        → Moved st rt admin k s (update_read st rt x dto by verticals bookings rid now s).1
    unfolding update_read check_category
    Moved-update_read x dto by verticals bookings rid now e =
        elim (Bool-cases (any (same_vertical x.vertical) verticals)) [
          | inr c ↦ rw (update_read, c) stays
          | inl c ↦
              elim (Bool-cases (any (same_vertical (get_or dto.vertical x.vertical)) verticals)) [
                | inr d ↦ rw (update_read, c, d) stays
                | inl d ↦
                    elim (Bool-cases (
                      has_text (get_or dto.category x.category)
                        (service_categories (get_or dto.vertical x.vertical)))) [
                          | inr f ↦ rw (update_read, c, d, check_category, f) stays
                          | inl f ↦
                              rw (update_read, c, d, check_category, f)
                                (Leads-then (Same st rt s) (Moved st rt admin k s)
                                  (Same-Moved st rt admin k s)
                                  (write_service st rt x.id (edited dto x))
                                  (ask_change st rt x dto by bookings rid now)
                                  (Step-write_service st rt admin k s x.id (edited dto x)
                                    (λ y. key-edited dto x y)
                                    (λ y at same.
                                      rw (same_row k s x.id y x at same e) (Move-edited dto x)))
                                  (λ y.
                                    Keeps-Moved admin k s
                                      (ask_change st rt x dto by bookings rid now y)
                                      (Quiet-ask_change x dto by bookings rid now y))
                                  s refl)
                        ]
              ]
        ]

    pub Moved-update_service :
        (id : ℕ) (dto : ServiceEdit) (by : ℕ) (verticals : List Vertical) (bookings : ℕ → ℕ)
        (rid now : ℕ)
        → Moved st rt admin k s (update_service st rt id dto by verticals bookings rid now s).1
    unfolding update_service
    Moved-update_service id dto by verticals bookings rid now =
        elim (Option-cases (service_at st rt id s)) [
          | inl e ↦ rw (update_service, e) stays
          | inr (x, e) ↦
              rw (update_service, e)
                (Moved-update_read x dto by verticals bookings rid now
                  (st.find_sound (λ z. z.id == id) s.services x e).1)
        ]

    pub Moved-delete_service :
        (id : ℕ) (verticals : List Vertical)
        → Moved st rt admin k s (delete_service st rt id verticals s).1
    unfolding delete_service
    Moved-delete_service id verticals = elim (Option-cases (service_at st rt id s)) [
      | inl e ↦ rw (delete_service, e) stays
      | inr (x, e) ↦ elim (Bool-cases (any (same_vertical x.vertical) verticals)) [
        | inr c ↦ rw (delete_service, e, c) stays
        | inl c ↦
            rw (delete_service, e, c)
              (Leads-transaction (Same st rt s) (Moved st rt admin k s) (Same-Moved st rt admin k s)
                (remove_service st rt id) (Step-remove_service st rt admin k s id) s refl)
      ]
    ]
