-- ===== src/Witnesses/Offers.antt =====
-- The properties of the catalogue at concrete inputs: service 5 waits for its approval by request 8,
-- service 6 is approved, with request 9 for another price.
use v2_backend.Catalogue.Once.{decide_once}
use v2_backend.Common.Error.{already_decided}
use v2_backend.Catalogue.Pricing.{priced, decide_price, update_read_races}
use v2_backend.Catalogue.Refinement.{Move-after, after_all, admins_approve_nothing}
use v2_backend.HomeServices.Model.{cleaning}
use v2_backend.Table.Listed.{visible, listed}
use v2_backend.Catalogue.Service.{
  ServiceEdit, update_service, update_read, check_category, edited, with_asked, ask_change,
  price_now, prices_asked, ask_price, service_json, pending_json, delete_service,
}
use v2_backend.Catalogue.Repository.{
  Shop, filed, service_at, settled_request, asked_terms, claim_request, write_service, request_at,
  open_change, to_open_change, request_price_change, remove_service, withdraw,
}
use v2_backend.HomeServices.Service.{HomeService, is_live}
use v2_backend.Catalogue.Terms.{
  ServiceTable, RequestTable, AskedPrice, ChangeRequest, service_key, request_key, new_service,
  price_change, service_conflict, request_conflict, terms_of, same_price,
}
use v2_backend.Catalogue.Standing.{
  super, Move, edit, delete, grant, standing, after, Command, actor_of,
}
use v2_backend.Catalogue.Approvals.{
  decide, ChangeView, change_json, decide_within, decide_read, decision_on, apply_decision,
}
use v2_backend.Common.{ℕ, List, codes, true, ◌∷◌, none, [], some, false, ◌≡◌, err, Failure, refl}

abbrev service_table : ServiceTable
service_table = listed service_key service_conflict

abbrev request_table : RequestTable
request_table = listed request_key request_conflict

abbrev hidden_service : HomeService
hidden_service = record {
  id = 5;
  name = codes "Deep cleaning";
  vertical = cleaning;
  category = codes "deep";
  min_hours = 2;
  price = record { hourly_rate = 30_000; extra_pro_rate = 10_000; materials_fee = 0 };
  approved = false;
  active = true;
  online = true;
}

abbrev shown_service : HomeService
shown_service = record hidden_service { id = 6; approved = true }

abbrev dearer : AskedPrice
dearer = record {
  min_hours = 3;
  rates = record { hourly_rate = 40_000; extra_pro_rate = 10_000; materials_fee = 0 };
}

abbrev new_request : ChangeRequest
new_request =
    filed service_table request_table new_service (terms_of hidden_service) hidden_service 2 8 100

abbrev price_request : ChangeRequest
price_request =
    filed service_table request_table price_change
      (asked_terms service_table request_table shown_service dearer) shown_service 2 9 200

abbrev shop : Shop service_table request_table
shop = record {
  services = shown_service ∷ hidden_service ∷ [];
  requests = price_request ∷ new_request ∷ [];
}

abbrev cheaper : ServiceEdit
cheaper = record {
  vertical = none;
  category = none;
  name = none;
  min_hours = none;
  hourly_rate = some 100;
  extra_pro_rate = none;
  materials_fee = none;
  active = none;
  online = none;
}

abbrev no_bookings : ℕ → ℕ
no_bookings id = 0

Move-after_example : Move super (standing service_table request_table 5 shop) (
    standing service_table request_table 5 (after service_table request_table (grant 8 1 300) shop))
unfolding actor_of
Move-after_example = Move-after service_table request_table (grant 8 1 300) 5 shop

abbrev edits : List Command
edits = edit 6 cheaper 2 (cleaning ∷ []) no_bookings 10 300 ∷ delete 5 (cleaning ∷ []) ∷ []

admins_approve_nothing_example :
    (y : HomeService) × (service_at service_table request_table 6 shop ≡ some y)
    × (y.approved ≡ true)
    × (price_now y ≡ price_now shown_service)
unfolding visible after_all after update_service update_read check_category write_service edited
    ask_change prices_asked ask_price open_change to_open_change with_asked same_price terms_of
    request_price_change service_json pending_json delete_service remove_service withdraw actor_of
admins_approve_nothing_example =
    admins_approve_nothing service_table request_table edits 6 shown_service shop (refl, (refl, tt))
      refl refl

abbrev shown_view : ChangeView
shown_view =
    change_json
      (settled_request service_table request_table
        (decision_on service_table request_table true new_request hidden_service 1 []) 300
        new_request)
      (some (record hidden_service { approved = true }))

decide_once_example :
    let s2 = (decide service_table request_table 8 true 1 [] 300 shop).1 in
    decide service_table request_table 8 false 1 [] 400 s2
    ≡ (err (Failure.domain 409 already_decided), s2)
unfolding visible decide decide_within decide_read claim_request apply_decision write_service
    change_json
decide_once_example =
    decide_once service_table request_table 8 true false 1 1 [] [] 300 400 shop shown_view refl

decide_price_example :
    (service_at service_table request_table 6
        (decide service_table request_table 9 true 1 [] 300 shop).1
      ≡ some (priced service_table request_table true price_request shown_service))
    × (request_at service_table request_table 9
          (decide service_table request_table 9 true 1 [] 300 shop).1
        ≡ some (
            settled_request service_table request_table
              (decision_on service_table request_table true price_request shown_service 1 [])
              300
              price_request))
unfolding visible
decide_price_example =
    decide_price service_table request_table true 1 [] 300 shop price_request shown_service refl
      refl refl refl refl

update_read_races_example :
    (z : HomeService) × (service_at service_table request_table 5
        (update_read service_table request_table hidden_service cheaper 2
          (cleaning ∷ [])
          no_bookings
          10
          400
          (decide service_table request_table 8 true 1 [] 300 shop).1).1
      ≡ some z)
    × (z.approved ≡ true)
    × (price_now z ≡ with_asked cheaper (price_now (record hidden_service { approved = true })))
    × (is_live z ≡ true)
unfolding visible decide decide_within decide_read claim_request apply_decision write_service
update_read_races_example =
    update_read_races service_table request_table hidden_service
      (record hidden_service { approved = true }) cheaper 2 (cleaning ∷ []) no_bookings 10 400
      (decide service_table request_table 8 true 1 [] 300 shop).1 refl refl refl refl refl refl
