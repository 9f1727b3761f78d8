-- ===== src/Witnesses/Listings.antt =====
-- The properties of orders of listings at concrete inputs: one listing, one order, one moderator.
use v2_backend.Marketplace.Moves.{set_order_read_finished, set_order_status_ends}
use v2_backend.Common.{◌≡◌, some, none, [], ◌==◌, true, ◌∷◌, ◌⊎◌, ◌≢◌, inl, refl, codes}
use v2_backend.Marketplace.Orders.{
  completed, cancelled, OrderTable, Ad, Market, AdOrderRequest, AdOrder, order_at, set_order_status,
  new_order, set_order_read, order_id, stamped, order_conflict, new,
}
use v2_backend.Table.Listed.{visible, listed}

abbrev order_table : OrderTable
order_table = listed order_id order_conflict

abbrev room : Ad
room = record { id = 20; seller = 2; price = 900; title = []; category = 5 }

abbrev market : Market
market = record {
  find_ad = λ id. some room;
  category_of = λ id. 5;
  can_moderate = λ caller category. caller == 9;
}

-- The same listing at another price.
abbrev dearer_room : Ad
dearer_room = record room { price = 1200 }

abbrev later_market : Market
later_market = record market { find_ad = λ id. some dearer_room }

abbrev question : AdOrderRequest
question = record {
  is_enquiry = some true;
  quantity = none;
  address_text = [];
  pin = none;
  contact_phone = [];
  scheduled_at = none;
  end_at = none;
  duration_months = none;
  deposit_amount = none;
  fees_amount = none;
  tax_amount = none;
  payment_method = none;
  note = none;
}

abbrev asked : AdOrder
asked = new_order 1 31 3 room question

abbrev other_question : AdOrderRequest
other_question = record question { contact_phone = codes "9876543210"; quantity = some 2 }

set_order_read_finished_example :
    order_at order_table market 1
      (set_order_read order_table market asked 3 cancelled 70 (stamped completed 60 asked ∷ [])).1
    ≡ some (stamped completed 60 asked)
unfolding visible
set_order_read_finished_example =
    set_order_read_finished order_table market asked 3 cancelled 70 1
      (stamped completed 60 asked ∷ []) (stamped completed 60 asked) refl (inl refl)

set_order_status_ends_example :
    ((set_order_status order_table market 3 1 cancelled 70 (asked ∷ [])).1 ≡ asked ∷ [])
    ⊎ ((o : AdOrder) × (order_at order_table market 1 (asked ∷ []) ≡ some o)
        × (order_at order_table market 1
              (set_order_status order_table market 3 1 cancelled 70 (asked ∷ [])).1
            ≡ some (stamped cancelled 70 o))
        × (o.status ≢ completed)
        × (o.status ≢ cancelled)
        × (cancelled ≢ new)
        × (((o.seller ≡ 3) ⊎ (market.can_moderate 3 (market.category_of o.ad) ≡ true))
            ⊎ ((o.buyer ≡ 3) × (o.status ≡ new) × (cancelled ≡ cancelled))))
set_order_status_ends_example =
    set_order_status_ends order_table market 3 1 cancelled 70 (asked ∷ [])
