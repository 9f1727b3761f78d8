-- ===== src/Marketplace/Orders.antt =====
-- src/modules/marketplace/ad-orders.service.ts and ad-orders.repository.ts: ordering a listing or
-- asking about it, and moving an order on. The active listings and the rights of admins are given; a
-- notification that fails is caught and changes nothing here. Amounts are paise.
use v2_backend.Common.Error.{invalid_transition, Resource, cannot_order_own_listing}
use v2_backend.Table.{Table}
use v2_backend.HomeServices.Model.{Point}
use v2_backend.Common.{
  ℕ, some, none, Bool, Option, List, if◌then◌else◌, Action, ◌==◌, ◌∷◌, get_or, ◌*◌, any, throw,
  gets, ◌>>=◌, ◌||◌, [], false, Failure, ◌&&◌, update, or_throw, pure, not, ◌>>◌, throw_if, Text,
}

pub data AdOrderStatus : Type 0 where
  new in_progress completed cancelled : AdOrderStatus

abbrev pub order_rank : AdOrderStatus → ℕ
order_rank new = 0
order_rank in_progress = 1
order_rank completed = 2
order_rank cancelled = 3

abbrev pub same_order_status : AdOrderStatus → AdOrderStatus → Bool
same_order_status a b = order_rank a == order_rank b

-- A listing that is active.
pub record Ad : Type 0 where
  pub id : ℕ
  pub seller : ℕ
  pub price : ℕ
  pub title : Text
  pub category : ℕ

pub record AdOrder : Type 0 where
  pub id : ℕ
  pub code : ℕ
  pub ad : ℕ
  pub buyer : ℕ
  pub seller : ℕ
  pub status : AdOrderStatus
  pub amount : ℕ
  pub is_enquiry : Bool
  pub quantity : ℕ
  pub service_name : Text
  pub address_text : Text
  pub pin : Option Point
  pub contact_phone : Text
  pub scheduled_at : Option ℕ
  pub end_at : Option ℕ
  pub duration_months : Option ℕ
  pub deposit_amount : Option ℕ
  pub fees_amount : ℕ
  pub tax_amount : ℕ
  pub payment_method : Option Text
  pub note : Option Text
  pub accepted_at : Option ℕ
  pub completed_at : Option ℕ
  pub cancelled_at : Option ℕ

-- `CreateAdOrderDto`
pub record AdOrderRequest : Type 0 where
  pub is_enquiry : Option Bool
  pub quantity : Option ℕ
  pub address_text : Text
  pub pin : Option Point
  pub contact_phone : Text
  pub scheduled_at : Option ℕ
  pub end_at : Option ℕ
  pub duration_months : Option ℕ
  pub deposit_amount : Option ℕ
  pub fees_amount : Option ℕ
  pub tax_amount : Option ℕ
  pub payment_method : Option Text
  pub note : Option Text

abbrev pub order_id : AdOrder → ℕ
order_id o = o.id

abbrev pub order_conflict : AdOrder → AdOrder → Bool
order_conflict a b = b.id == a.id || b.code == a.code

abbrev pub OrderTable : Type 1
OrderTable = Table AdOrder order_id order_conflict

-- Which moves each side may make, and from where.
unfoldable pub seller_transitions : AdOrderStatus → List AdOrderStatus
seller_transitions new = in_progress ∷ cancelled ∷ []
seller_transitions in_progress = completed ∷ cancelled ∷ []
seller_transitions completed = []
seller_transitions cancelled = []

unfoldable pub buyer_transitions : AdOrderStatus → List AdOrderStatus
buyer_transitions new = cancelled ∷ []
buyer_transitions in_progress = []
buyer_transitions completed = []
buyer_transitions cancelled = []

-- The active listings by id, the category of any listing, which an order is read with, and whether an
-- admin moderates a category.
pub record Market : Type 0 where
  pub find_ad : ℕ → Option Ad
  pub category_of : ℕ → ℕ
  pub can_moderate : ℕ → ℕ → Bool

abbrev pub asks : AdOrderRequest → Bool
asks dto = get_or dto.is_enquiry false

-- The row that is created: seller and price as they stand, and nothing to pay for a question.
abbrev pub new_order : ℕ → ℕ → ℕ → Ad → AdOrderRequest → AdOrder
new_order id code buyer ad dto = record {
  id = id;
  code = code;
  ad = ad.id;
  buyer = buyer;
  seller = ad.seller;
  status = new;
  amount = if asks dto then 0 else ad.price * get_or dto.quantity 1;
  is_enquiry = asks dto;
  quantity = get_or dto.quantity 1;
  service_name = ad.title;
  address_text = dto.address_text;
  pin = dto.pin;
  contact_phone = dto.contact_phone;
  scheduled_at = dto.scheduled_at;
  end_at = dto.end_at;
  duration_months = dto.duration_months;
  deposit_amount = dto.deposit_amount;
  fees_amount = get_or dto.fees_amount 0;
  tax_amount = get_or dto.tax_amount 0;
  payment_method = if asks dto then none else dto.payment_method;
  note = dto.note;
  accepted_at = none;
  completed_at = none;
  cancelled_at = none;
}

-- The status and its stamp.
abbrev pub stamped : AdOrderStatus → ℕ → AdOrder → AdOrder
stamped new now o = record o { status = new }
stamped in_progress now o = record o { status = in_progress; accepted_at = some now }
stamped completed now o = record o { status = completed; completed_at = some now }
stamped cancelled now o = record o { status = cancelled; cancelled_at = some now }

abbrev pub allows : List AdOrderStatus → AdOrderStatus → Bool
allows l next = any (same_order_status next) l

module _ (ot : OrderTable) (mk : Market) where
  abbrev pub order_at : ℕ → ot.Rows → Option AdOrder
  order_at k s = ot.find (λ o. o.id == k) s

  unfoldable pub create_order : AdOrder → Action ot.Rows AdOrder
  create_order o s = elim (ot.create o s) [
    | none ↦ throw Failure.duplicate s
    | some rows ↦ pure o rows
  ]

  abbrev pub is_open_enquiry : ℕ → ℕ → AdOrder → Bool
  is_open_enquiry ad buyer o =
      (o.ad == ad)
      && (o.buyer == buyer)
      && o.is_enquiry
      && not (same_order_status o.status cancelled)

  -- The newest one in the source; here any.
  unfoldable pub find_open_enquiry : ℕ → ℕ → Action ot.Rows (Option AdOrder)
  find_open_enquiry ad buyer = gets (ot.find (is_open_enquiry ad buyer))

  -- Moves an order on only if it is still `from`.
  unfoldable pub update_status :
      ℕ → AdOrderStatus → AdOrderStatus → ℕ → Action ot.Rows (Option AdOrder)
  update_status id from next now = do
    n ← update (λ s.
        let (rows, n) =
          ot.update_many (λ o. (o.id == id) && same_order_status o.status from) (stamped next now)
            s in
        (n, rows))
    if n == 1 then gets (order_at id) else pure none

  unfoldable pub place_order : ℕ → ℕ → ℕ → ℕ → AdOrderRequest → Action ot.Rows AdOrder
  unfolding create_order find_open_enquiry
  place_order id code buyer ad_key dto = do
    ad ← or_throw (mk.find_ad ad_key) (Failure.not_found Resource.ad)
    throw_if (ad.seller == buyer) (Failure.domain 409 cannot_order_own_listing)
    existing ← (if asks dto then find_open_enquiry ad.id buyer else pure none)
    elim existing [ none ↦ create_order (new_order id code buyer ad dto) | some o ↦ pure o ]

  -- What a user may do with an order: a seller's or an admin's moves, a buyer's, or none.
  unfoldable pub moves : ℕ → AdOrder → Option (List AdOrderStatus)
  moves caller o =
      if o.seller == caller
      then some (seller_transitions o.status)
      else if o.buyer == caller
      then some (buyer_transitions o.status)
      else if mk.can_moderate caller (mk.category_of o.ad)
      then some (seller_transitions o.status)
      else none

  unfoldable pub set_order_read : AdOrder → ℕ → AdOrderStatus → ℕ → Action ot.Rows AdOrder
  unfolding moves update_status
  set_order_read o caller next now = do
    allowed ← or_throw (moves caller o) Failure.forbidden
    throw_if (not (allows allowed next)) (Failure.domain 409 invalid_transition)
    updated ← update_status o.id o.status next now
    or_throw updated (Failure.domain 409 invalid_transition)

  unfoldable pub set_order_status : ℕ → ℕ → AdOrderStatus → ℕ → Action ot.Rows AdOrder
  unfolding set_order_read
  set_order_status caller id next now = do
    found ← gets (order_at id)
    o ← or_throw found (Failure.not_found Resource.order)
    set_order_read o caller next now
