-- ===== src/Catalogue/Refinement.antt =====
-- The catalogue implements the abstract services.
use v2_backend.Catalogue.Service.{price_now}
use v2_backend.HomeServices.Service.{HomeService}
use v2_backend.Catalogue.Decided.{Moved-decide}
use v2_backend.Catalogue.Duties.{Moved-create_service, Moved-update_service, Moved-delete_service}
use v2_backend.Catalogue.Repository.{Shop, service_at}
use v2_backend.Catalogue.Terms.{ServiceTable, RequestTable, AskedPrice}
use v2_backend.Catalogue.Standing.{
  admin, Move, create, edit, delete, grant, turn_down, stays, removes, files, approved_at, actor_of,
  after, Standing, Command, standing, standing_of,
}
use v2_backend.Catalogue.Approvals.{approve, reject}
use v2_backend.Common.{
  ℕ, List, ◌≡◌, ◌∷◌, All, [], arith, true, false, trim, Option, some, Bool-cases, refl, inl, inr,
  none,
}

module _ (st : ServiceTable) (rt : RequestTable) where
  -- Whatever one operation on the catalogue does to the stores, and whether it throws, to each service
  -- it is a move that the abstract services allow to its actor: a company's admin files a service that
  -- is not approved or takes one away, and only the super admin approves one or changes the price of
  -- one that is approved.
  pub Move-after :
      (c : Command) (k : ℕ) (s : Shop st rt)
      → Move (actor_of c) (standing st rt k s) (standing st rt k (after st rt c s))
  unfolding actor_of after approve reject
  Move-after (create dto by verticals sid rid now) k s =
      Moved-create_service st rt k s dto by verticals sid rid now
  Move-after (edit id dto by verticals bookings rid now) k s =
      Moved-update_service st rt k s id dto by verticals bookings rid now
  Move-after (delete id verticals) k s = Moved-delete_service st rt k s id verticals
  Move-after (grant id by now) k s = Moved-decide st rt k s id true by [] now
  Move-after (turn_down id by note now) k s = Moved-decide st rt k s id false by (trim note) now

  -- The stores after a list of operations.
  unfoldable pub after_all : List Command → Shop st rt → Shop st rt
  unfolding after
  after_all [] s = s
  after_all (c ∷ cs) s = after_all cs (after st rt c s)

  admin_approved :
      (o q : Standing) (p : AskedPrice) → Move admin o q → q ≡ approved_at p → o ≡ approved_at p
  admin_approved o _ p stays e = e
  admin_approved _ _ p files e = ground arith
  admin_approved o _ p removes e = ground arith

  admins_keep_approved :
      (cs : List Command) (k : ℕ) (p : AskedPrice) (s : Shop st rt)
      → All (λ c. actor_of c ≡ admin) cs
      → standing st rt k (after_all cs s) ≡ approved_at p
      → standing st rt k s ≡ approved_at p
  unfolding after_all
  admins_keep_approved [] k p s h e = e
  admins_keep_approved (c ∷ cs) k p s (by, h) e =
      admin_approved (standing st rt k s) (standing st rt k (after st rt c s)) p
        (rw⁻¹ by (Move-after c k s)) (admins_keep_approved cs k p (after st rt c s) h e)

  approved_at-some :
      (o : Option HomeService) (p : AskedPrice)
      → standing_of o ≡ approved_at p
      → (y : HomeService) × (o ≡ some y) × (y.approved ≡ true) × (price_now y ≡ p)
  unfolding standing_of
  approved_at-some none p e = ground arith
  approved_at-some (some y) p e = elim (Bool-cases y.approved) [
    | inl i ↦ (y, refl, i, ground arith)
    | inr i ↦ ground arith
  ]

  -- After operations of company admins alone, in any number and order, a service that is approved was
  -- there and approved before them, at the same price and hours.
  pub admins_approve_nothing :
      (cs : List Command) (k : ℕ) (x : HomeService) (s : Shop st rt)
      → All (λ c. actor_of c ≡ admin) cs
      → service_at st rt k (after_all cs s) ≡ some x
      → x.approved ≡ true
      → (y : HomeService) × (service_at st rt k s ≡ some y)
        × (y.approved ≡ true)
        × (price_now y ≡ price_now x)
  unfolding standing standing_of
  admins_approve_nothing cs k x s h e i =
      let after_it : standing st rt k (after_all cs s) ≡ approved_at (price_now x) =
        rw (e, i) refl in
      approved_at-some (service_at st rt k s) (price_now x)
        (admins_keep_approved cs k (price_now x) s h after_it)
