-- ===== src/Catalogue/Standing.antt =====
-- The standing of a service: gone, not approved, or approved at a price. A company's admin may file a
-- service and take one away; only the super admin approves one, or changes the price of one that is
-- approved. The app shows an approved service while it is active and online.
use v2_backend.Common.Keeps.{Leads}
use v2_backend.Catalogue.Repository.{
  Shop, service_at, write_service, remove_service, insert_service, withdraw,
}
use v2_backend.HomeServices.Model.{Vertical}
use v2_backend.HomeServices.Service.{HomeService}
use v2_backend.Catalogue.Service.{
  NewService, create_service, ServiceEdit, update_service, price_now, delete_service,
}
use v2_backend.Catalogue.Terms.{AskedPrice, ServiceTable, RequestTable}
use v2_backend.Catalogue.Approvals.{approve, reject}
use v2_backend.Common.{
  ℕ, Option, ◌≡◌, List, some, if◌then◌else◌, Action, Text, false, none, ◌==◌, Option-cases, inl,
  inr, Bool-cases, arith,
}

pub data Standing : Type 0 where
  gone unapproved : Standing
  approved_at : AskedPrice → Standing

pub data Actor : Type 0 where
  admin super : Actor

-- The abstract services: who may take a service from one standing to another.
pub data Move : Actor → Standing → Standing → Type 0 where
  stays : {a : Actor} {o : Standing} → Move a o o
  files : Move admin gone unapproved
  removes : {a : Actor} {o : Standing} → Move a o gone
  approves : {p : AskedPrice} → Move super unapproved (approved_at p)
  reprices : {p q : AskedPrice} → Move super (approved_at p) (approved_at q)

unfoldable pub standing_of : Option HomeService → Standing
standing_of none = gone
standing_of (some s) = if s.approved then approved_at (price_now s) else unapproved

Move-same : (a : Actor) (o p : Standing) → o ≡ p → Move a o p
Move-same a o p h = rw (← h) stays

-- What the tables let a request do.
pub data Command : Type 0 where
  create : NewService → ℕ → List Vertical → ℕ → ℕ → ℕ → Command
  edit : ℕ → ServiceEdit → ℕ → List Vertical → (ℕ → ℕ) → ℕ → ℕ → Command
  delete : ℕ → List Vertical → Command
  grant : ℕ → ℕ → ℕ → Command
  turn_down : ℕ → ℕ → Text → ℕ → Command

unfoldable pub actor_of : Command → Actor
actor_of (create _ _ _ _ _ _) = admin
actor_of (edit _ _ _ _ _ _ _) = admin
actor_of (delete _ _) = admin
actor_of (grant _ _ _) = super
actor_of (turn_down _ _ _ _) = super

module _ (st : ServiceTable) (rt : RequestTable) where
  unfoldable pub standing : ℕ → Shop st rt → Standing
  unfolding standing_of
  standing k s = standing_of (service_at st rt k s)

  unfoldable pub after : Command → Shop st rt → Shop st rt
  unfolding create_service update_service delete_service approve reject
  after (create dto by verticals sid rid now) s =
      (create_service st rt dto by verticals sid rid now s).1
  after (edit id dto by verticals bookings rid now) s =
      (update_service st rt id dto by verticals bookings rid now s).1
  after (delete id verticals) s = (delete_service st rt id verticals s).1
  after (grant id by now) s = (approve st rt id by now s).1
  after (turn_down id by note now) s = (reject st rt id by note now s).1

  -- The services are those of a store before.
  abbrev pub Same : Shop st rt → Shop st rt → Type 0
  Same s t = t.services ≡ s.services

  abbrev pub Moved : Actor → ℕ → Shop st rt → Shop st rt → Type 0
  Moved a k s t = Move a (standing k s) (standing k t)

  pub Same-Moved : (a : Actor) (k : ℕ) (s t : Shop st rt) → Same s t → Moved a k s t
  unfolding standing
  Same-Moved a k s t h = rw h stays

  module _ (a : Actor) (k : ℕ) (s : Shop st rt) where
    abbrev pub Step : {A : Type 0} → Action (Shop st rt) A → Type 0
    Step m = Leads (Same s) (Moved a k s) (Same-Moved a k s) m

    Move-revised :
        (id : ℕ) (f : HomeService → HomeService) (t : Shop st rt)
        → ((x : HomeService) → (f x).id ≡ x.id)
        → ((x : HomeService)
            → service_at st rt k s ≡ some x
            → x.id ≡ id
            → Move a (standing_of (some x)) (standing_of (some (f x))))
        → Same s t
        → Moved a k s (record t { services = (st.update_many (λ x. x.id == id) f t.services).0 })
    unfolding standing
    Move-revised id f t key moves h =
        rw (st.find_update (λ x. x.id == id) f t.services k key, h)
          (elim (Option-cases (service_at st rt k s)) [
            | inl e ↦ rw e stays
            | inr (x, e) ↦ elim (Bool-cases (x.id == id)) [
              | inl i ↦ rw (e, i) (moves x e (ground arith))
              | inr i ↦ rw (e, i) stays
            ]
          ])

    pub Step-write_service :
        (id : ℕ) (f : HomeService → HomeService)
        → ((x : HomeService) → (f x).id ≡ x.id)
        → ((x : HomeService)
            → service_at st rt k s ≡ some x
            → x.id ≡ id
            → Move a (standing_of (some x)) (standing_of (some (f x))))
        → Step (write_service st rt id f)
    unfolding write_service
    Step-write_service id f key moves t h = elim (Option-cases (service_at st rt id t)) [
      | inl e ↦ rw e (Same-Moved a k s t h)
      | inr (row, e) ↦ rw e (Move-revised id f t key moves h)
    ]

    Move-deleted :
        (id : ℕ) (t : Shop st rt) (q : rt.Rows)
        → Same s t
        → Moved a k s
            (record { services = st.delete_many (λ x. x.id == id) t.services; requests = q })
    unfolding standing
    Move-deleted id t q h =
        rw (st.find_delete (λ x. x.id == id) t.services k, h)
          (elim (Option-cases (service_at st rt k s)) [
            | inl n ↦ rw n stays
            | inr (x, n) ↦ elim (Bool-cases (x.id == id)) [
              | inl i ↦ rw (n, i) removes
              | inr i ↦ rw (n, i) stays
            ]
          ])

    pub Step-remove_service : (id : ℕ) → Step (remove_service st rt id)
    unfolding remove_service withdraw
    Step-remove_service id t h = elim (Option-cases (service_at st rt id t)) [
      | inl e ↦ rw e (Same-Moved a k s _ h)
      | inr (row, e) ↦ rw e (Move-deleted id t _ h)
    ]

    Move-created :
        (row : HomeService) (t : Shop st rt) (u : st.Rows)
        → row.approved ≡ false
        → a ≡ admin
        → Same s t
        → st.create row t.services ≡ some u
        → Moved a k s (record t { services = u })
    unfolding standing standing_of
    Move-created row t u hid by h e =
        let (free, at) = st.create_some row t.services e in
        elim (Bool-cases (row.id == k)) [
          | inl i ↦
              let same : row.id ≡ k = ground arith in
              let none_before : service_at st rt k s ≡ none = rw (← h, ← same) free in
              rw (at k, i, none_before, hid, by) files
          | inr i ↦ rw (at k, i, h) stays
        ]

    pub Step-insert_service :
        (row : HomeService) → row.approved ≡ false → a ≡ admin → Step (insert_service st rt row)
    unfolding insert_service
    Step-insert_service row hid by t h = elim (Option-cases (st.create row t.services)) [
      | inl e ↦ rw (insert_service, e) (Same-Moved a k s t h)
      | inr (u, e) ↦ rw (insert_service, e) (Move-created row t u hid by h e)
    ]
