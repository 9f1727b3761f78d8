-- ===== src/Marketplace/Moves.antt =====
-- The orders of listings: one open enquiry per buyer and listing, and no way back.
use v2_backend.Common.Keeps.{state_bind}
use v2_backend.Common.Error.{invalid_transition}
use v2_backend.Table.{revised}
use v2_backend.Marketplace.Orders.{
  in_progress, OrderTable, Market, moves, seller_transitions, buyer_transitions, AdOrder,
  AdOrderStatus, allows, cancelled, completed, new, order_at, set_order_read, set_order_status,
  same_order_status, update_status, stamped,
}
use v2_backend.Common.{
  ℕ, some, none, List, ◌≡◌, true, ◌≢◌, ◌⊎◌, Bool-cases, ◌==◌, inl, arith, inr, ◌&&◌, Option-cases,
  Option, refl, Action, or_throw, Failure, if◌then◌else◌, gets, pure, ◌>>=◌, ◌∙◌, update,
}

module _ (ot : OrderTable) (mk : Market) where
  -- A seller's and a buyer's moves leave no finished order, and never lead back to a new one.
  moves_ends :
      (caller : ℕ) (o : AdOrder) (l : List AdOrderStatus) (next : AdOrderStatus)
      → moves ot mk caller o ≡ some l
      → allows l next ≡ true
      → (o.status ≢ completed)
        × (o.status ≢ cancelled)
        × (next ≢ new)
        × (((o.seller ≡ caller) ⊎ (mk.can_moderate caller (mk.category_of o.ad) ≡ true))
            ⊎ ((o.buyer ≡ caller) × (o.status ≡ new) × (next ≡ cancelled)))
  unfolding moves seller_transitions buyer_transitions
  moves_ends caller o l next e can = elim (Bool-cases (o.seller == caller)) [
    | inl sells ↦ ground arith
    | inr _ ↦ elim (Bool-cases (o.buyer == caller)) [
      | inl buys ↦ ground arith
      | inr _ ↦ elim (Bool-cases (mk.can_moderate caller (mk.category_of o.ad))) [
        | inl rules ↦ ground arith
        | inr denied ↦ ground arith
      ]
    ]
  ]

  orders_store : AdOrder → AdOrderStatus → ℕ → ot.Rows → ot.Rows
  orders_store o next now s =
      (ot.update_many (λ x. (x.id == o.id) && same_order_status x.status o.status)
        (stamped next now) s).0

  order-orders_store :
      (o : AdOrder) (next : AdOrderStatus) (now k : ℕ) (s : ot.Rows)
      → order_at ot mk k (orders_store o next now s)
        ≡ revised
            (λ x. (x.id == o.id) && same_order_status x.status o.status)
            (stamped next now)
            (order_at ot mk k s)
  unfolding orders_store
  order-orders_store o next now k s =
      ot.find_update (λ x. (x.id == o.id) && same_order_status x.status o.status) (stamped next now)
        s k (λ x. stamped_id next now x)
    where
      stamped_id : (next : AdOrderStatus) (now : ℕ) (x : AdOrder) → (stamped next now x).id ≡ x.id
      stamped_id new now x = refl
      stamped_id in_progress now x = refl
      stamped_id completed now x = refl
      stamped_id cancelled now x = refl

  set_order_read_ends :
      (o : AdOrder) (caller : ℕ) (next : AdOrderStatus) (now : ℕ) (s : ot.Rows)
      → ((set_order_read ot mk o caller next now s).1 ≡ s)
        ⊎ ((l : List AdOrderStatus) × (moves ot mk caller o ≡ some l)
            × (allows l next ≡ true)
            × ((set_order_read ot mk o caller next now s).1 ≡ orders_store o next now s))
  unfolding set_order_read update_status orders_store
  set_order_read_ends o caller next now s = elim (Option-cases (moves ot mk caller o)) [
    | inl nobody ↦ inl (ground (arith, nobody))
    | inr (l, may) ↦ elim (Bool-cases (allows l next)) [
      | inr shut ↦ inl (ground (arith, may, shut))
      | inl can ↦ inr (l, may, can, ground (arith, may, can, written))
    ]
  ]
    where
      told : Option AdOrder → Action ot.Rows AdOrder
      told w = or_throw w (Failure.domain 409 invalid_transition)

      told_state : (w : Option AdOrder) (t : ot.Rows) → (told w t).1 ≡ t
      told_state none t = refl
      told_state (some x) t = refl

      found : ℕ → Action ot.Rows (Option AdOrder)
      found n = if n == 1 then gets (order_at ot mk o.id) else pure none

      found_state : (n : ℕ) (t : ot.Rows) → (found n t).1 ≡ t
      found_state n t = elim (Bool-cases (n == 1)) [ inl e ↦ rw e refl | inr e ↦ rw e refl ]

      written :
          ((update_status ot mk o.id o.status next now >>= told) s).1 ≡ orders_store o next now s
      written =
          state_bind (update_status ot mk o.id o.status next now) told s told_state
          ∙ state_bind
              (update (λ t.
                let (rows, n) =
                  ot.update_many (λ x. (x.id == o.id) && same_order_status x.status o.status)
                    (stamped next now) t in
                (n, rows)))
              found s found_state

  -- Whatever was read of an order before, changing its status leaves every completed or cancelled order
  -- as it is.
  pub set_order_read_finished :
      (o : AdOrder) (caller : ℕ) (next : AdOrderStatus) (now k : ℕ) (s : ot.Rows) (x : AdOrder)
      → order_at ot mk k s ≡ some x
      → (x.status ≡ completed) ⊎ (x.status ≡ cancelled)
      → order_at ot mk k (set_order_read ot mk o caller next now s).1 ≡ some x
  set_order_read_finished o caller next now k s x e over =
      elim (set_order_read_ends o caller next now s) [
        | inl same ↦ rw same e
        | inr (l, may, can, state) ↦
            let (unfinished, uncancelled, _, _) = moves_ends caller o l next may can in
            rw state (ground (arith, order-orders_store o next now k s, e))
      ]

  -- Changing the status of an order leaves the orders alone, or gives it the new status with its stamp,
  -- where it was neither completed nor cancelled, the new status is not the first, and the caller is
  -- its seller or a moderator of its category, or its buyer who cancels a new order.
  pub set_order_status_ends :
      (caller id : ℕ) (next : AdOrderStatus) (now : ℕ) (s : ot.Rows)
      → ((set_order_status ot mk caller id next now s).1 ≡ s)
        ⊎ ((o : AdOrder) × (order_at ot mk id s ≡ some o)
            × (order_at ot mk id (set_order_status ot mk caller id next now s).1
                ≡ some (stamped next now o))
            × (o.status ≢ completed)
            × (o.status ≢ cancelled)
            × (next ≢ new)
            × (((o.seller ≡ caller) ⊎ (mk.can_moderate caller (mk.category_of o.ad) ≡ true))
                ⊎ ((o.buyer ≡ caller) × (o.status ≡ new) × (next ≡ cancelled))))
  unfolding set_order_status
  set_order_status_ends caller id next now s = elim (Option-cases (order_at ot mk id s)) [
    | inl missing ↦ inl (ground (arith, missing))
    | inr (o, e) ↦ elim (set_order_read_ends o caller next now s) [
      | inl same ↦ inl (ground (arith, e, same))
      | inr (l, may, can, state) ↦
          let (unfinished, uncancelled, later, who) = moves_ends caller o l next may can in
          let key : o.id ≡ id = ground (arith, (ot.find_sound (λ x. x.id == id) s o e).0) in
          let there : order_at ot mk id (set_order_read ot mk o caller next now s).1
              ≡ some (stamped next now o) =
            rw state (ground (arith, order-orders_store o next now id s, e, key)) in
          inr (o, e, ground (arith, e, there), unfinished, uncancelled, later, who)
    ]
  ]
