-- ===== src/Catalogue/Pricing.antt =====
-- How a price reaches the app: by the approval of a request, or by an edit of a service that was read
-- before its approval.
use v2_backend.Common.Error.{already_decided}
use v2_backend.Catalogue.Decided.{key-granted}
use v2_backend.Common.Keeps.{bind_ok, transaction_ok}
use v2_backend.Admin.Bookings.{same_vertical}
use v2_backend.HomeServices.Model.{Vertical}
use v2_backend.Catalogue.Repository.{
  claim_request, write_service, Shop, service_at, request_at, settled_request, Decision,
}
use v2_backend.HomeServices.Service.{HomeService, is_live}
use v2_backend.Catalogue.Service.{
  update_read, check_category, ask_change, edited, ServiceEdit, service_categories, with_asked,
  price_now,
}
use v2_backend.Catalogue.Terms.{
  ServiceTable, RequestTable, ChangeRequest, terms_of, is_undecided, is_new,
}
use v2_backend.Catalogue.Approvals.{
  decide, decide_within, decide_read, apply_decision, requested_terms, service_of, decision_on,
  granted, change_json,
}
use v2_backend.Common.{
  ℕ, Bool, if◌then◌else◌, List, Text, ◌≡◌, some, false, true, any, get_or, has_text, ◌==◌, arith,
  refl, ok, ◌&&◌, ap, ◌∙◌, pure, Action, gets, throw_if, Option, ◌>>=◌, not, transaction, or_throw,
  Failure,
}

module _ (st : ServiceTable) (rt : RequestTable) where
  write_service-found :
      (id : ℕ) (f : HomeService → HomeService) (s : Shop st rt) (x : HomeService)
      → service_at st rt id s ≡ some x
      → write_service st rt id f s
        ≡ (ok (f x), record s { services = (st.update_many (λ z. z.id == id) f s.services).0 })
  unfolding write_service
  write_service-found id f s x e = rw (write_service, e) refl

  ask_change-stale :
      (x : HomeService) (dto : ServiceEdit) (by : ℕ) (bookings : ℕ → ℕ) (rid now : ℕ)
      (y : HomeService) (t : Shop st rt)
      → x.approved ≡ false
      → (ask_change st rt x dto by bookings rid now y t).1 ≡ t
  unfolding ask_change
  ask_change-stale x dto by bookings rid now y t h = rw (ask_change, h) refl

  -- The store after an edit of a service that was read as not approved.
  written :
      (x y : HomeService) (dto : ServiceEdit) (by : ℕ) (verticals : List Vertical)
      (bookings : ℕ → ℕ) (rid now : ℕ) (s : Shop st rt)
      → service_at st rt x.id s ≡ some y
      → x.approved ≡ false
      → any (same_vertical x.vertical) verticals ≡ true
      → any (same_vertical (get_or dto.vertical x.vertical)) verticals ≡ true
      → has_text
          (get_or dto.category x.category)
          (service_categories (get_or dto.vertical x.vertical))
        ≡ true
      → (update_read st rt x dto by verticals bookings rid now s).1
        ≡ record s { services = (st.update_many (λ z. z.id == x.id) (edited dto x) s.services).0 }
  unfolding update_read check_category
  written x y dto by verticals bookings rid now s at stale c d f =
      let m = write_service st rt x.id (edited dto x) in
      let rest = ask_change st rt x dto by bookings rid now in
      let t = record s {
        services = (st.update_many (λ z. z.id == x.id) (edited dto x) s.services).0;
      } in
      rw (update_read, c, d, check_category, f)
        (ap (λ z. z.1)
            (bind_ok m rest s t (edited dto x y) (write_service-found x.id (edited dto x) s y at))
          ∙ ask_change-stale x dto by bookings rid now (edited dto x y) t stale)

  -- If an edit read a service as not approved, and the service is approved by the time of the write, an
  -- edit that passes the checks leaves it approved, at the price of the edit, and live exactly if the
  -- edit, over what it read, has it active and online.
  pub update_read_races :
      (x y : HomeService) (dto : ServiceEdit) (by : ℕ) (verticals : List Vertical)
      (bookings : ℕ → ℕ) (rid now : ℕ) (s : Shop st rt)
      → service_at st rt x.id s ≡ some y
      → x.approved ≡ false
      → y.approved ≡ true
      → any (same_vertical x.vertical) verticals ≡ true
      → any (same_vertical (get_or dto.vertical x.vertical)) verticals ≡ true
      → has_text
          (get_or dto.category x.category)
          (service_categories (get_or dto.vertical x.vertical))
        ≡ true
      → (z : HomeService) × (service_at st rt x.id
            (update_read st rt x dto by verticals bookings rid now s).1
          ≡ some z)
        × (z.approved ≡ true)
        × (price_now z ≡ with_asked dto (price_now y))
        × (is_live z ≡ (get_or dto.active x.active && get_or dto.online x.online))
  unfolding edited
  update_read_races x y dto by verticals bookings rid now s at stale live c d f =
      let key = st.find_update (λ z. z.id == x.id) (edited dto x) s.services x.id (λ z. refl) in
      let own = (st.find_sound (λ z. z.id == x.id) s.services y at).0 in
      (
        edited dto x y,
        rw (written x y dto by verticals bookings rid now s at stale c d f, key, at, own) refl,
        live,
        rw stale refl,
        ground (arith, live),
      )

  -- What a decision on a price leaves of the service.
  abbrev pub priced : Bool → ChangeRequest → HomeService → HomeService
  priced b c x =
      if b
      then record x { min_hours = c.requested.price.min_hours; price = c.requested.price.rates }
      else x

  decide_price_within :
      (b : Bool) (by : ℕ) (note : Text) (now : ℕ) (s : Shop st rt) (c : ChangeRequest)
      (x : HomeService)
      → request_at st rt c.id s ≡ some c
      → is_undecided c.status ≡ true
      → service_of st rt c s ≡ some x
      → decide_within st rt c.id b by note now s ≡ decide_read st rt b by note now c x s
  unfolding decide_within
  decide_price_within b by note now s c x at u rel = rw (at, u, rel) refl

  -- The request after the claim, which lands.
  claim_request-undecided :
      (d : Decision) (now : ℕ) (s : Shop st rt) (c : ChangeRequest)
      → request_at st rt c.id s ≡ some c
      → is_undecided c.status ≡ true
      → ((claim_request st rt c.id d now s).0 ≡ ok true)
        × (request_at st rt c.id (claim_request st rt c.id d now s).1
            ≡ some (settled_request st rt d now c))
  unfolding claim_request
  claim_request-undecided d now s c at u =
      let count =
        rt.count_unique (λ r. is_undecided r.status) (settled_request st rt d now) s.requests
          c.id in
      let found =
        rt.find_update (λ r. (r.id == c.id) && is_undecided r.status) (settled_request st rt d now)
          s.requests c.id (λ r. refl) in
      (ground (arith, count, at), ground (arith, found, at))

  abbrev after_claim : Bool → ℕ → Text → ℕ → ChangeRequest → HomeService → Shop st rt → Shop st rt
  after_claim b by note now c x s =
      (claim_request st rt c.id (decision_on st rt b c x by note) now s).1

  applied :
      (b : Bool) (c : ChangeRequest) (x : HomeService) (t : Shop st rt)
      → is_new c.kind ≡ false
      → service_at st rt x.id t ≡ some x
      → (u : Shop st rt) × (apply_decision st rt b c x t ≡ (ok tt, u))
        × (u.requests ≡ t.requests)
        × (service_at st rt x.id u ≡ some (priced b c x))
  unfolding apply_decision requested_terms terms_of
  applied true c x t k e =
      let u = record t {
        services = (st.update_many (λ z. z.id == x.id) (granted st rt c x) t.services).0;
      } in
      let key =
        st.find_update (λ z. z.id == x.id) (granted st rt c x) t.services x.id
          (λ z. key-granted st rt 0 t c x z) in
      (
        u,
        bind_ok (write_service st rt x.id (granted st rt c x)) (λ _. pure tt) t u
            (granted st rt c x x) (write_service-found x.id (granted st rt c x) t x e),
        refl,
        ground (arith, key, e, k),
      )
  applied false c x t k e = (t, rw k refl, refl, e)

  claim_request-services :
      (id : ℕ) (d : Decision) (now : ℕ) (s : Shop st rt)
      → (claim_request st rt id d now s).1.services ≡ s.services
  unfolding claim_request
  claim_request-services id d now s = refl

  -- The end of the transaction, from the store that the decision was applied to.
  abbrev land :
      Bool → ChangeRequest → HomeService → Action (Shop st rt) (ChangeRequest × Option HomeService)
  land b c x = apply_decision st rt b c x >>= λ _. gets (request_at st rt c.id) >>= λ decided.
      or_throw decided Failure.crash >>= λ row. gets (λ t. (row, service_of st rt row t))

  land-ok :
      (b : Bool) (c : ChangeRequest) (x : HomeService) (t u : Shop st rt) (r : ChangeRequest)
      → apply_decision st rt b c x t ≡ (ok tt, u)
      → request_at st rt c.id u ≡ some r
      → land b c x t ≡ (ok (r, service_of st rt r u), u)
  land-ok b c x t u r e at =
      bind_ok (apply_decision st rt b c x)
        (λ _. gets (request_at st rt c.id) >>= λ decided.
          or_throw decided Failure.crash >>= λ row. gets (λ t. (row, service_of st rt row t)))
        t u tt e
      ∙ rw at refl

  decide_read-land :
      (b : Bool) (by : ℕ) (note : Text) (now : ℕ) (s t : Shop st rt) (c : ChangeRequest)
      (x : HomeService)
      → claim_request st rt c.id (decision_on st rt b c x by note) now s ≡ (ok true, t)
      → decide_read st rt b by note now c x s ≡ land b c x t
  unfolding decide_read
  decide_read-land b by note now s t c x e =
      bind_ok (claim_request st rt c.id (decision_on st rt b c x by note) now)
        (λ claimed. throw_if (not claimed) (Failure.domain 409 already_decided) >>= λ _. land b c x)
        s t true e

  decide-state :
      (b : Bool) (by : ℕ) (note : Text) (now : ℕ) (s t : Shop st rt) (id : ℕ)
      (v : ChangeRequest × Option HomeService)
      → decide_within st rt id b by note now s ≡ (ok v, t)
      → (decide st rt id b by note now s).1 ≡ t
  unfolding decide
  decide-state b by note now s t id v e =
      ap (λ z. z.1)
        (bind_ok (transaction (decide_within st rt id b by note now))
          (λ x. pure (change_json x.0 x.1)) s t v
          (transaction_ok (decide_within st rt id b by note now) s t v e))

  -- A decision on a price change that waits, of a service that exists, leaves that service with the
  -- requested price and hours where it approves and as it was where it rejects, and leaves the request
  -- with the decision.
  pub decide_price :
      (b : Bool) (by : ℕ) (note : Text) (now : ℕ) (s : Shop st rt) (c : ChangeRequest)
      (x : HomeService)
      → request_at st rt c.id s ≡ some c
      → is_undecided c.status ≡ true
      → is_new c.kind ≡ false
      → service_of st rt c s ≡ some x
      → service_at st rt x.id s ≡ some x
      → (service_at st rt x.id (decide st rt c.id b by note now s).1 ≡ some (priced b c x))
        × (request_at st rt c.id (decide st rt c.id b by note now s).1
            ≡ some (settled_request st rt (decision_on st rt b c x by note) now c))
  unfolding claim_request
  decide_price b by note now s c x at u k rel own =
      let d = decision_on st rt b c x by note in
      let (won, row) = claim_request-undecided d now s c at u in
      let s1 = (claim_request st rt c.id d now s).1 in
      let (t, done, requests, service) =
        applied b c x s1 k (rw (claim_request-services c.id d now s) own) in
      let r = settled_request st rt d now c in
      let row_at : request_at st rt c.id t ≡ some r =
        ap (λ q. rt.find (λ z. z.id == c.id) q) requests ∙ row in
      let claimed : claim_request st rt c.id d now s ≡ (ok true, s1) = ap (λ z. (z, s1)) won in
      let within =
        decide_price_within b by note now s c x at u rel
        ∙ decide_read-land b by note now s s1 c x claimed
        ∙ land-ok b c x s1 t r done row_at in
      rw (decide-state b by note now s t c.id (r, service_of st rt r t) within) (service, row_at)
