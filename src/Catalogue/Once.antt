-- ===== src/Catalogue/Once.antt =====
-- A request is decided once.
use v2_backend.Common.Error.{already_decided}
use v2_backend.HomeServices.Service.{HomeService}
use v2_backend.Common.Keeps.{
  Keeps, Keeps-bind, Gives, Keeps-when, Gives-bind, Gives-Keeps, Gives-transaction, Keeps-seq,
  bind_err, transaction_err,
}
use v2_backend.Catalogue.Repository.{
  Shop, claim_request, withdraw, remove_service, Decision, write_service, request_at, service_at,
  settled_request, forget_service,
}
use v2_backend.Catalogue.Terms.{
  ServiceTable, RequestTable, ChangeRequest, is_undecided, is_for, is_new,
}
use v2_backend.Catalogue.Approvals.{
  decide, apply_decision, decide_read, decision_on, service_of, decide_within, ChangeView,
  change_json, granted,
}
use v2_backend.Common.{
  ℕ, Bool, ◌≡◌, some, false, Option-cases, none, true, inl, refl, inr, ◌==◌, ◌&&◌, arith, Failure,
  throw_if, not, Bool-cases, Action, Option, Text, gets, ◌>>=◌, or_throw, ok, err, transaction,
  pure,
}

module _ (st : ServiceTable) (rt : RequestTable) (id : ℕ) where
  abbrev IsSettled : Shop st rt → Type 0
  IsSettled t =
      (r : ChangeRequest) × (request_at st rt id t ≡ some r)
      × (is_undecided r.status ≡ false)
      × (r.open_for ≡ none)

  settles :
      (d : Decision) (now : ℕ)
      → is_undecided d.status ≡ false
      → Gives
          (λ _. Unit {0})
          (claim_request st rt id d now)
          (λ claimed t. claimed ≡ true → IsSettled t)
  unfolding claim_request
  settles d now h s i claimed e c =
      let count =
        rt.count_unique (λ r. is_undecided r.status) (settled_request st rt d now) s.requests id in
      let at =
        rt.find_update (λ r. (r.id == id) && is_undecided r.status) (settled_request st rt d now)
          s.requests id (λ r. refl) in
      elim (Option-cases (request_at st rt id s)) [
        | inl n ↦ ground (arith, count, n)
        | inr (r, n) ↦ (
          settled_request st rt d now r,
          ground (arith, at, count, n, (rt.find_sound (λ x. x.id == id) s.requests r n).0),
          h,
          refl,
        )
      ]

  Keeps-withdraw : (k : ℕ) → Keeps IsSettled (withdraw st rt k)
  unfolding withdraw
  Keeps-withdraw k t (r, e, u, o) =
      (r, rw (rt.find_delete (λ x. is_for k x.open_for) t.requests id, e, o) refl, u, o)

  IsSettled-forget :
      (k : ℕ) (t : Shop st rt) (u : st.Rows)
      → IsSettled t
      → IsSettled (record {
        services = u;
        requests = (rt.update_many (λ r. is_for k r.service) (forget_service st rt k) t.requests).0;
      })
  IsSettled-forget k t u (r, e, d, o) = elim (Bool-cases (is_for k r.service)) [
    | inl i ↦ (
      forget_service st rt k r,
      rw
          (
            rt.find_update (λ x. is_for k x.service) (forget_service st rt k) t.requests id
                (λ x. refl),
            e,
            i,
          )
          refl,
      d,
      o,
    )
    | inr i ↦ (
      r,
      rw
          (
            rt.find_update (λ x. is_for k x.service) (forget_service st rt k) t.requests id
                (λ x. refl),
            e,
            i,
          )
          refl,
      d,
      o,
    )
  ]

  Keeps-remove_service : (k : ℕ) → Keeps IsSettled (remove_service st rt k)
  unfolding remove_service
  Keeps-remove_service k t h = elim (Option-cases (service_at st rt k t)) [
    | inl e ↦ rw (remove_service, e) (Keeps-withdraw k t h)
    | inr (y, e) ↦
        rw (remove_service, e)
          (IsSettled-forget k (withdraw st rt k t).1 (st.delete_many (λ x. x.id == k) t.services)
            (Keeps-withdraw k t h))
  ]

  Keeps-write_service :
      (k : ℕ) (f : HomeService → HomeService) → Keeps IsSettled (write_service st rt k f)
  unfolding write_service
  Keeps-write_service k f t h = elim (Option-cases (service_at st rt k t)) [
    | inl e ↦ rw (write_service, e) h
    | inr (y, e) ↦ rw (write_service, e) h
  ]

  Keeps-apply_decision :
      (b : Bool) (c : ChangeRequest) (x : HomeService)
      → Keeps IsSettled (apply_decision st rt b c x)
  unfolding apply_decision write_service
  Keeps-apply_decision true c x =
      Keeps-seq IsSettled (write_service st rt x.id (granted st rt c x)) (pure tt)
        (Keeps-write_service x.id (granted st rt c x)) (λ t h. h)
  Keeps-apply_decision false c x =
      Keeps-when IsSettled (is_new c.kind) (remove_service st rt x.id) (Keeps-remove_service x.id)

  refuses :
      (claimed : Bool) (e : Failure)
      → Gives (λ t. claimed ≡ true → IsSettled t) (throw_if (not claimed) e) (λ _. IsSettled)
  refuses true e s h a r = h refl
  refuses false e s h a r = ground arith

  -- What `decide` reads last.
  abbrev read_back : Action (Shop st rt) (ChangeRequest × Option HomeService)
  read_back = gets (request_at st rt id) >>= λ decided.
      or_throw decided Failure.crash >>= λ row. gets (λ t. (row, service_of st rt row t))

  Keeps-read_back : Keeps IsSettled read_back
  Keeps-read_back t h = elim (Option-cases (request_at st rt id t)) [
    | inl e ↦ rw e h
    | inr (r, e) ↦ rw e h
  ]

module _ (st : ServiceTable) (rt : RequestTable) where
  decision_on-status :
      (b : Bool) (by : ℕ) (note : Text) (c : ChangeRequest) (x : HomeService)
      → is_undecided (decision_on st rt b c x by note).status ≡ false
  decision_on-status true by note c x = refl
  decision_on-status false by note c x = refl

  IsSettled-decide_read :
      (b : Bool) (by : ℕ) (note : Text) (now : ℕ) (c : ChangeRequest) (x : HomeService)
      → Gives (λ _. Unit {0}) (decide_read st rt b by note now c x) (λ _. IsSettled st rt c.id)
  unfolding decide_read
  IsSettled-decide_read b by note now c x =
      let I = IsSettled st rt c.id in
      let land = apply_decision st rt b c x >>= λ _. read_back st rt c.id in
      Gives-bind (λ _. Unit {0}) (λ claimed t. claimed ≡ true → I t) (λ _. I)
        (claim_request st rt c.id (decision_on st rt b c x by note) now)
        (λ claimed. throw_if (not claimed) (Failure.domain 409 already_decided) >>= λ _. land)
        (settles st rt c.id (decision_on st rt b c x by note) now
          (decision_on-status b by note c x))
        (λ claimed.
          Gives-bind (λ t. claimed ≡ true → I t) (λ _. I) (λ _. I)
            (throw_if (not claimed) (Failure.domain 409 already_decided)) (λ _. land)
            (refuses st rt c.id claimed (Failure.domain 409 already_decided))
            (λ _. Gives-Keeps I land (
              Keeps-bind I (apply_decision st rt b c x) (λ _. read_back st rt c.id)
                (Keeps-apply_decision st rt c.id b c x) (λ _. Keeps-read_back st rt c.id))))

  decide_within-read :
      (id : ℕ) (b : Bool) (by : ℕ) (note : Text) (now : ℕ) (t : Shop st rt) (c : ChangeRequest)
      (x : HomeService)
      → request_at st rt id t ≡ some c
      → is_undecided c.status ≡ true
      → service_of st rt c t ≡ some x
      → decide_within st rt id b by note now t ≡ decide_read st rt b by note now c x t
  unfolding decide_within
  decide_within-read id b by note now t c x n u m = rw (n, u, m) refl

  IsSettled-at : (j k : ℕ) (t : Shop st rt) → j ≡ k → IsSettled st rt j t → IsSettled st rt k t
  IsSettled-at j k t h = rw h (λ x. x)

  IsSettled-decide_within :
      (id : ℕ) (b : Bool) (by : ℕ) (note : Text) (now : ℕ)
      → Gives (λ _. Unit {0}) (decide_within st rt id b by note now) (λ _. IsSettled st rt id)
  unfolding decide_within
  IsSettled-decide_within id b by note now t h v e = elim (Option-cases (request_at st rt id t)) [
    | inl n ↦ ground (arith, n)
    | inr (c, n) ↦ elim (Bool-cases (is_undecided c.status)) [
      | inr u ↦ ground (arith, n, u)
      | inl u ↦ elim (Option-cases (service_of st rt c t)) [
        | inl m ↦ ground (arith, n, u, m)
        | inr (x, m) ↦
            let same = decide_within-read id b by note now t c x n u m in
            let settled = IsSettled-decide_read b by note now c x t tt v (rw⁻¹ same e) in
            rw same (
              IsSettled-at c.id id (decide_read st rt b by note now c x t).1
                (ground (arith, (rt.find_sound (λ x. x.id == id) t.requests c n).0)) settled)
      ]
    ]
  ]

  IsSettled-decide :
      (id : ℕ) (b : Bool) (by : ℕ) (note : Text) (now : ℕ)
      → Gives (λ _. Unit {0}) (decide st rt id b by note now) (λ _. IsSettled st rt id)
  unfolding decide
  IsSettled-decide id b by note now =
      Gives-bind (λ _. Unit {0}) (λ _. IsSettled st rt id) (λ _. IsSettled st rt id)
        (transaction (decide_within st rt id b by note now)) (λ x. pure (change_json x.0 x.1))
        (Gives-transaction (λ _. Unit {0}) (λ _. IsSettled st rt id)
          (decide_within st rt id b by note now) (IsSettled-decide_within id b by note now))
        (λ _ _ h _ _. h)

  decide_within-again :
      (id : ℕ) (d : Bool) (by : ℕ) (note : Text) (now : ℕ) (s : Shop st rt) (r : ChangeRequest)
      → request_at st rt id s ≡ some r
      → is_undecided r.status ≡ false
      → decide_within st rt id d by note now s ≡ (err (Failure.domain 409 already_decided), s)
  unfolding decide_within
  decide_within-again id d by note now s r at u = rw (at, u) refl

  decide_again :
      (id : ℕ) (d : Bool) (by : ℕ) (note : Text) (now : ℕ) (s : Shop st rt) (r : ChangeRequest)
      → request_at st rt id s ≡ some r
      → is_undecided r.status ≡ false
      → decide st rt id d by note now s ≡ (err (Failure.domain 409 already_decided), s)
  unfolding decide
  decide_again id d by note now s r at u =
      let m = decide_within st rt id d by note now in
      bind_err (transaction m) (λ x. pure (change_json x.0 x.1)) s s
        (Failure.domain 409 already_decided)
        (transaction_err m s s (Failure.domain 409 already_decided)
          (decide_within-again id d by note now s r at u))

  -- After a decision on a request returned, any other decision on it throws and changes nothing.
  pub decide_once :
      (id : ℕ) (b d : Bool) (by by2 : ℕ) (note note2 : Text) (now later : ℕ) (s : Shop st rt)
      (v : ChangeView)
      → (decide st rt id b by note now s).0 ≡ ok v
      → let s2 = (decide st rt id b by note now s).1 in
        decide st rt id d by2 note2 later s2 ≡ (err (Failure.domain 409 already_decided), s2)
  decide_once id b d by by2 note note2 now later s v e =
      let (r, at, u, _) = IsSettled-decide id b by note now s tt v e in
      decide_again id d by2 note2 later (decide st rt id b by note now s).1 r at u
