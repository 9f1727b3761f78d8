-- ===== src/Catalogue/Repository.antt =====
-- src/modules/admin/service-change.repository.ts, and the services of admin.repository.ts.
use v2_backend.HomeServices.Service.{HomeService}
use v2_backend.Catalogue.Terms.{
  ChangeKind, ChangeRequest, ChangeStatus, ServiceTable, AskedPrice, price_of, RequestTable,
  ServiceTerms, is_for, terms_of, undecided, new_service, price_change, is_undecided,
}
use v2_backend.Common.{
  ℕ, Option, ◌==◌, Action, none, Text, err, some, modify, Bool, ◌>>=◌, ◌>>◌, Failure, gets, [],
  update, ok, or_throw, pure, ◌&&◌,
}

pub record OpenChange : Type 0 where
  pub id : ℕ
  pub kind : ChangeKind
  pub requested : AskedPrice
  pub created_at : ℕ

unfoldable pub to_open_change : ChangeRequest → OpenChange
to_open_change r = record {
  id = r.id;
  kind = r.kind;
  requested = price_of r.requested;
  created_at = r.created_at;
}

pub record Decision : Type 0 where
  pub status : ChangeStatus
  pub before : Option ServiceTerms
  pub requested : ServiceTerms
  pub decided_by : ℕ
  pub note : Text

module _ (st : ServiceTable) (rt : RequestTable) where
  pub record Shop : Type 0 where
    pub services : st.Rows
    pub requests : rt.Rows

  abbrev pub service_at : ℕ → Shop → Option HomeService
  service_at id s = st.find (λ x. x.id == id) s.services

  abbrev pub request_at : ℕ → Shop → Option ChangeRequest
  request_at id s = rt.find (λ x. x.id == id) s.requests

  unfoldable pub insert_service : HomeService → Action Shop HomeService
  insert_service row s = elim (st.create row s.services) [
    | none ↦ (err Failure.crash, s)
    | some t ↦ (ok row, record s { services = t })
  ]

  unfoldable pub insert_request : ChangeRequest → Action Shop ChangeRequest
  insert_request row s = elim (rt.create row s.requests) [
    | none ↦ (err Failure.crash, s)
    | some t ↦ (ok row, record s { requests = t })
  ]

  -- `update` throws where there is no such row.
  unfoldable pub write_service : ℕ → (HomeService → HomeService) → Action Shop HomeService
  write_service id f = do
    found ← gets (service_at id)
    row ← or_throw found Failure.crash
    modify (λ s. record s { services = (st.update_many (λ x. x.id == id) f s.services).0 })
    pure (f row)

  unfoldable pub open_change : ℕ → Shop → Option OpenChange
  unfolding to_open_change
  open_change service s = elim (rt.find (λ r. is_for service r.open_for) s.requests) [
    | none ↦ none
    | some r ↦ some (to_open_change r)
  ]

  unfoldable pub withdraw : ℕ → Action Shop (Unit {0})
  withdraw service =
      modify
        (λ s. record s { requests = rt.delete_many (λ r. is_for service r.open_for) s.requests })

  -- The deletion of a service takes it off the requests that were decided.
  abbrev pub forget_service : ℕ → ChangeRequest → ChangeRequest
  forget_service id r = record r { service = none }

  unfoldable pub remove_service : ℕ → Action Shop (Unit {0})
  unfolding withdraw
  remove_service id = do
    withdraw id
    found ← gets (service_at id)
    or_throw found Failure.crash
    modify (λ s. record s {
      services = st.delete_many (λ x. x.id == id) s.services;
      requests = (rt.update_many (λ r. is_for id r.service) (forget_service id) s.requests).0;
    })

  abbrev pub filed : ChangeKind → ServiceTerms → HomeService → ℕ → ℕ → ℕ → ChangeRequest
  filed kind requested service by id now = record {
    id = id;
    kind = kind;
    status = undecided;
    service = some service.id;
    open_for = some service.id;
    before = none;
    requested = requested;
    requested_by = by;
    decided_by = none;
    decided_at = none;
    note = [];
    created_at = now;
  }

  unfoldable pub request_new_service : HomeService → ℕ → ℕ → ℕ → Action Shop OpenChange
  unfolding insert_request to_open_change terms_of
  request_new_service service by id now = do
    row ← insert_request (filed new_service (terms_of service) service by id now)
    pure (to_open_change row)

  abbrev pub replaced : ServiceTerms → ℕ → ℕ → ChangeRequest → ChangeRequest
  replaced requested by now r = record r {
    requested = requested;
    requested_by = by;
    created_at = now;
  }

  abbrev pub asked_terms : HomeService → AskedPrice → ServiceTerms
  asked_terms service price = record (terms_of service) { price = price }

  -- `upsert`, by the service that the request is open for.
  unfoldable pub request_price_change :
      HomeService → AskedPrice → ℕ → ℕ → ℕ → Action Shop OpenChange
  unfolding insert_request to_open_change
  request_price_change service price by id now = do
    waiting ← gets (λ s. rt.find (λ r. is_for service.id r.open_for) s.requests)
    row ← elim waiting [
      | none ↦ insert_request (filed price_change (asked_terms service price) service by id now)
      | some r ↦ do
        modify (λ s. record s {
          requests =
              (rt.update_many (λ x. is_for service.id x.open_for)
                (replaced (asked_terms service price) by now) s.requests).0;
        })
        pure (replaced (asked_terms service price) by now r)
    ]
    pure (to_open_change row)

  abbrev pub settled_request : Decision → ℕ → ChangeRequest → ChangeRequest
  settled_request d now r = record r {
    status = d.status;
    open_for = none;
    before = d.before;
    requested = d.requested;
    decided_by = some d.decided_by;
    decided_at = some now;
    note = d.note;
  }

  -- `claim`: only one decision on a request lands.
  unfoldable pub claim_request : ℕ → Decision → ℕ → Action Shop Bool
  claim_request id d now = do
    n ← update (λ s.
        let (t, n) =
          rt.update_many (λ r. (r.id == id) && is_undecided r.status) (settled_request d now)
            s.requests in
        (n, record s { requests = t }))
    pure (n == 1)
