-- ===== src/Catalogue/Approvals.antt =====
-- src/modules/admin/admin-approvals.service.ts: the super admin decides on a request, in one
-- transaction.
use v2_backend.Catalogue.Repository.{
  Shop, write_service, claim_request, Decision, remove_service, service_at, request_at,
}
use v2_backend.HomeServices.Service.{HomeService}
use v2_backend.Catalogue.Terms.{
  ChangeRequest, ServiceTerms, ChangeKind, terms_of, ServiceTable, ChangeStatus, RequestTable,
  is_new, price_of, is_undecided, accepted, declined,
}
use v2_backend.Admin.Bookings.{same_vertical}
use v2_backend.Common.Error.{Resource, already_decided}
use v2_backend.Common.{
  ℕ, Bool, if◌then◌else◌, List, ◌*◌, Option, ◌∷◌, same_text, Text, Action, some, true, false, none,
  ◌>>=◌, [], ◌>>◌, transaction, trim, pure, gets, when, or_throw, Failure, ◌==◌, throw_if, not,
}

-- A new service asks for itself; a price change for its price on the terms of today.
unfoldable pub requested_terms : ChangeRequest → ServiceTerms → ServiceTerms
requested_terms change live =
    if is_new change.kind then live else record live { price = price_of change.requested }

pub data TermsKey : Type 0 where
  name vertical category min_hours hourly_rate extra_pro_rate materials_fee : TermsKey

abbrev pub key_if : Bool → TermsKey → List TermsKey → List TermsKey
key_if same k rest = if same then rest else k ∷ rest

-- The keys of the terms that differ.
unfoldable pub changed : ServiceTerms → ServiceTerms → List TermsKey
changed a b = key_if (same_text a.name b.name) name (
    key_if (same_vertical a.vertical b.vertical) vertical (
      key_if (same_text a.category b.category) category (
        key_if (a.price.min_hours == b.price.min_hours) min_hours (
          key_if (a.price.rates.hourly_rate == b.price.rates.hourly_rate) hourly_rate (
            key_if (a.price.rates.extra_pro_rate == b.price.rates.extra_pro_rate) extra_pro_rate (
              key_if (a.price.rates.materials_fee == b.price.rates.materials_fee) materials_fee
                []))))))

-- `ServiceTermsDto` and `ServiceChangeDto`
pub record TermsView : Type 0 where
  pub terms : ServiceTerms
  pub starting_price : ℕ

pub record ChangeView : Type 0 where
  pub id : ℕ
  pub kind : ChangeKind
  pub status : ChangeStatus
  pub service : Option ℕ
  pub current : Option TermsView
  pub requested : TermsView
  pub changed_keys : List TermsKey
  pub requested_by : ℕ
  pub requested_at : ℕ
  pub decided_by : Option ℕ
  pub decided_at : Option ℕ
  pub note : Text

abbrev pub terms_json : ServiceTerms → TermsView
terms_json t = record { terms = t; starting_price = t.price.rates.hourly_rate * t.price.min_hours }

-- What a request shows as current and as requested: the service's own while it waits.
unfoldable pub sides : ChangeRequest → Option HomeService → Option ServiceTerms × ServiceTerms
unfolding requested_terms terms_of
sides r none = (r.before, r.requested)
sides r (some s) =
    if is_undecided r.status
    then ((if is_new r.kind then none else some (terms_of s)), requested_terms r (terms_of s))
    else (r.before, r.requested)

unfoldable pub change_json : ChangeRequest → Option HomeService → ChangeView
unfolding sides changed
change_json r service =
    let (current, requested) = sides r service in
    record {
      id = r.id;
      kind = r.kind;
      status = r.status;
      service = r.service;
      current = elim current [ none ↦ none | some t ↦ some (terms_json t) ];
      requested = terms_json requested;
      changed_keys = elim current [ none ↦ [] | some t ↦ changed t requested ];
      requested_by = r.requested_by;
      requested_at = r.created_at;
      decided_by = r.decided_by;
      decided_at = r.decided_at;
      note = r.note;
    }

module _ (st : ServiceTable) (rt : RequestTable) where
  -- The relation `service` of a request.
  abbrev pub service_of : ChangeRequest → Shop st rt → Option HomeService
  service_of r s = elim r.service [ none ↦ none | some id ↦ service_at st rt id s ]

  abbrev pub decision_on : Bool → ChangeRequest → HomeService → ℕ → Text → Decision
  decision_on approve change service super note = record {
    status = if approve then accepted else declined;
    before = if is_new change.kind then none else some (terms_of service);
    requested = requested_terms change (terms_of service);
    decided_by = super;
    note = note;
  }

  -- What approving writes to the service.
  abbrev pub granted : ChangeRequest → HomeService → HomeService → HomeService
  granted change service r =
      let price = price_of (requested_terms change (terms_of service)) in
      if is_new change.kind
      then record r { approved = true }
      else record r { min_hours = price.min_hours; price = price.rates }

  unfoldable pub apply_decision :
      Bool → ChangeRequest → HomeService → Action (Shop st rt) (Unit {0})
  unfolding write_service remove_service requested_terms terms_of
  apply_decision true change service =
      write_service st rt service.id (granted change service) >> pure tt
  apply_decision false change service = when (is_new change.kind) (remove_service st rt service.id)

  -- `decide`, after the request and its service were read.
  unfoldable pub decide_read :
      Bool
      → ℕ
      → Text
      → ℕ
      → ChangeRequest
      → HomeService
      → Action (Shop st rt) (ChangeRequest × Option HomeService)
  unfolding claim_request apply_decision
  decide_read approve super note now change service = do
    claimed ← claim_request st rt change.id (decision_on approve change service super note) now
    throw_if (not claimed) (Failure.domain 409 already_decided)
    apply_decision approve change service
    decided ← gets (request_at st rt change.id)
    row ← or_throw decided Failure.crash
    gets (λ s. (row, service_of row s))

  -- The transaction of `decide`.
  unfoldable pub decide_within :
      ℕ → Bool → ℕ → Text → ℕ → Action (Shop st rt) (ChangeRequest × Option HomeService)
  unfolding decide_read
  decide_within id approve super note now = do
    found ← gets (request_at st rt id)
    change ← or_throw found (Failure.not_found Resource.request)
    throw_if (not (is_undecided change.status)) (Failure.domain 409 already_decided)
    related ← gets (service_of change)
    service ← or_throw related (Failure.domain 409 already_decided)
    decide_read approve super note now change service

  unfoldable pub decide : ℕ → Bool → ℕ → Text → ℕ → Action (Shop st rt) ChangeView
  unfolding decide_within change_json
  decide id approve super note now = do
    (row, service) ← transaction (decide_within id approve super note now)
    pure (change_json row service)

  unfoldable pub approve : ℕ → ℕ → ℕ → Action (Shop st rt) ChangeView
  unfolding decide
  approve id super now = decide id true super [] now

  unfoldable pub reject : ℕ → ℕ → Text → ℕ → Action (Shop st rt) ChangeView
  unfolding decide
  reject id super note now = decide id false super (trim note) now
