-- ===== src/Catalogue/Decided.antt =====
-- A decision of the super admin is one move of the abstract services, and lands once.
use v2_backend.Common.Error.{already_decided}
use v2_backend.Common.Keeps.{Leads-then, Leads-bind, Leads-transaction, Keeps-throw_if}
use v2_backend.HomeServices.Service.{HomeService}
use v2_backend.Catalogue.Repository.{Shop, claim_request, write_service, request_at}
use v2_backend.Catalogue.Terms.{ServiceTable, RequestTable, ChangeRequest, is_new, is_undecided}
use v2_backend.Catalogue.Approvals.{
  decide, apply_decision, decide_read, granted, decision_on, decide_within, change_json, service_of,
}
use v2_backend.Catalogue.Standing.{
  super, Step, Same, Moved, Same-Moved, approves, reprices, stays, standing_of, Move,
  Step-write_service, Step-remove_service,
}
use v2_backend.Common.{
  ℕ, Action, Bool, Option, ◌≡◌, Text, gets, Option-cases, Bool-cases, some, transaction, pure,
  ◌>>=◌, inl, throw_if, inr, or_throw, not, Failure, refl, true, false,
}

module _ (st : ServiceTable) (rt : RequestTable) (k : ℕ) (s : Shop st rt) where
  abbrev SuperStep : {A : Type 0} → Action (Shop st rt) A → Type 0
  SuperStep m = Step st rt super k s m

  pub key-granted : (c : ChangeRequest) (x y : HomeService) → (granted st rt c x y).id ≡ y.id
  key-granted c x y = elim (Bool-cases (is_new c.kind)) [ inl i ↦ rw i refl | inr i ↦ rw i refl ]

  Move-granted :
      (c : ChangeRequest) (x y : HomeService)
      → Move super (standing_of (some y)) (standing_of (some (granted st rt c x y)))
  unfolding standing_of
  Move-granted c x y = elim (Bool-cases (is_new c.kind)) [
    | inl n ↦ elim (Bool-cases y.approved) [ inl i ↦ rw (n, i) stays | inr i ↦ rw (n, i) approves ]
    | inr n ↦ elim (Bool-cases y.approved) [ inl i ↦ rw (n, i) reprices | inr i ↦ rw (n, i) stays ]
  ]

  Step-apply_decision :
      (b : Bool) (c : ChangeRequest) (x : HomeService) → SuperStep (apply_decision st rt b c x)
  unfolding apply_decision
  Step-apply_decision true c x =
      Leads-then (Same st rt s) (Moved st rt super k s) (Same-Moved st rt super k s)
        (write_service st rt x.id (granted st rt c x)) (λ _. pure tt)
        (Step-write_service st rt super k s x.id (granted st rt c x) (key-granted c x)
          (λ y _ _. Move-granted c x y))
        (λ _ _ h. h)
  Step-apply_decision false c x = elim (Bool-cases (is_new c.kind)) [
    | inl n ↦ λ t h. rw (apply_decision, n) (Step-remove_service st rt super k s x.id t h)
    | inr n ↦ λ t h. rw (apply_decision, n) (Same-Moved st rt super k s t h)
  ]

  -- What `decide` reads last.
  abbrev read_back : ChangeRequest → Action (Shop st rt) (ChangeRequest × Option HomeService)
  read_back c = gets (request_at st rt c.id) >>= λ decided.
      or_throw decided Failure.crash >>= λ row. gets (λ t. (row, service_of st rt row t))

  same-read_back : (c : ChangeRequest) (t : Shop st rt) → (read_back c t).1 ≡ t
  same-read_back c t = elim (Option-cases (request_at st rt c.id t)) [
    | inl e ↦ rw e refl
    | inr (r, e) ↦ rw e refl
  ]

  Step-decide_read :
      (b : Bool) (by : ℕ) (note : Text) (now : ℕ) (c : ChangeRequest) (x : HomeService)
      → SuperStep (decide_read st rt b by note now c x)
  unfolding decide_read claim_request
  Step-decide_read b by note now c x =
      Leads-bind (Same st rt s) (Moved st rt super k s) (Same-Moved st rt super k s)
        (claim_request st rt c.id (decision_on st rt b c x by note) now)
        (λ claimed. throw_if (not claimed) (Failure.domain 409 already_decided) >>= λ _.
          apply_decision st rt b c x >>= λ _. read_back c)
        (λ t h. h)
        (λ claimed.
          Leads-bind (Same st rt s) (Moved st rt super k s) (Same-Moved st rt super k s)
            (throw_if (not claimed) (Failure.domain 409 already_decided))
            (λ _. apply_decision st rt b c x >>= λ _. read_back c)
            (Keeps-throw_if (Same st rt s) (not claimed) (Failure.domain 409 already_decided))
            (λ _.
              Leads-then (Same st rt s) (Moved st rt super k s) (Same-Moved st rt super k s)
                (apply_decision st rt b c x) (λ _. read_back c) (Step-apply_decision b c x)
                (λ _ t h. rw (same-read_back c t) h)))

  Step-decide_within :
      (id : ℕ) (b : Bool) (by : ℕ) (note : Text) (now : ℕ)
      → SuperStep (decide_within st rt id b by note now)
  unfolding decide_within
  Step-decide_within id b by note now t h = elim (Option-cases (request_at st rt id t)) [
    | inl e ↦ rw (decide_within, e) (Same-Moved st rt super k s t h)
    | inr (c, e) ↦ elim (Bool-cases (is_undecided c.status)) [
      | inr u ↦ rw (decide_within, e, u) (Same-Moved st rt super k s t h)
      | inl u ↦ elim (Option-cases (service_of st rt c t)) [
        | inl n ↦ rw (decide_within, e, u, n) (Same-Moved st rt super k s t h)
        | inr (x, n) ↦ rw (decide_within, e, u, n) (Step-decide_read b by note now c x t h)
      ]
    ]
  ]

  pub Moved-decide :
      (id : ℕ) (b : Bool) (by : ℕ) (note : Text) (now : ℕ)
      → Moved st rt super k s (decide st rt id b by note now s).1
  unfolding decide
  Moved-decide id b by note now =
      Leads-then (Same st rt s) (Moved st rt super k s) (Same-Moved st rt super k s)
        (transaction (decide_within st rt id b by note now)) (λ x. pure (change_json x.0 x.1))
        (Leads-transaction (Same st rt s) (Moved st rt super k s) (Same-Moved st rt super k s)
          (decide_within st rt id b by note now) (Step-decide_within id b by note now))
        (λ _ _ h. h) s refl
