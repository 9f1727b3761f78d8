-- ===== src/Marketplace/Listings.antt =====
-- src/modules/marketplace/marketplace.repository.ts: the rows of listings, with the people who viewed
-- and saved them. A field that a request sends as `null` where the table has no null is left out.
use v2_backend.Marketplace.Attributes.{Fields}
use v2_backend.Table.{Table}
use v2_backend.Common.{
  ℕ, Bool, Text, List, Option, Action, ◌+◌, ◌-◌, some, false, ◌==◌, codes, ◌&&◌, ◌>>◌, transaction,
  none, ◌>>=◌, true, ◌||◌, ◌∷◌, has_text, not, gets, err, pure, update, [], is_some, or_throw,
  Failure, if◌then◌else◌, modify, ok, ltb,
}

pub data AdStatus : Type 0 where
  draft active paused : AdStatus

abbrev pub is_active : AdStatus → Bool
is_active draft = false
is_active active = true
is_active paused = false

-- `Ad`, with its photos; the rating is in tenths.
pub record Listing : Type 0 where
  pub id : ℕ
  pub seller : ℕ
  pub title : Text
  pub description : Text
  pub category : Text
  pub icon : Text
  pub price : ℕ
  pub price_unit : Text
  pub locality : Option Text
  pub city : Option Text
  pub pin_lat : Option ℕ
  pub pin_lng : Option ℕ
  pub attributes : Option Fields
  pub status : AdStatus
  pub view_count : ℕ
  pub wishlist_count : ℕ
  pub rating_average : ℕ
  pub rating_count : ℕ
  pub deleted_at : Option ℕ
  pub images : List Text

-- `AdView` and `AdWishlist`
pub record Interest : Type 0 where
  pub id : ℕ
  pub ad : ℕ
  pub user : ℕ

abbrev pub listing_key : Listing → ℕ
listing_key l = l.id

abbrev pub listing_conflict : Listing → Listing → Bool
listing_conflict a b = b.id == a.id

abbrev pub interest_key : Interest → ℕ
interest_key i = i.id

-- One row for a person and a listing.
abbrev pub interest_conflict : Interest → Interest → Bool
interest_conflict a b = b.id == a.id || (b.ad == a.ad && b.user == a.user)

abbrev pub ListingTable : Type 1
ListingTable = Table Listing listing_key listing_conflict

abbrev pub InterestTable : Type 1
InterestTable = Table Interest interest_key interest_conflict

abbrev pub ad_categories : List Text
ad_categories = codes "cleaning" ∷ codes "repairing" ∷ codes "car_rental" ∷ codes "elkstay" ∷ []

abbrev pub is_shown : Listing → Bool
is_shown l = is_active l.status && has_text l.category ad_categories

abbrev pub of_pair : ℕ → ℕ → Interest → Bool
of_pair ad user i = i.ad == ad && i.user == user

module _ (lt : ListingTable) (it : InterestTable) where
  pub record Stall : Type 0 where
    pub listings : lt.Rows
    pub views : it.Rows
    pub wishes : it.Rows

  abbrev pub listing_at : ℕ → Stall → Option Listing
  listing_at id s = lt.find (λ l. l.id == id) s.listings

  -- What a buyer may open, and what the owner may.
  unfoldable pub find_by_id : ℕ → Stall → Option Listing
  find_by_id id s = lt.find (λ l. l.id == id && is_shown l) s.listings

  unfoldable pub find_owned : ℕ → Stall → Option Listing
  find_owned id s = lt.find (λ l. l.id == id && not (is_some l.deleted_at)) s.listings

  -- `update` throws where there is no such row.
  unfoldable pub write_listing : ℕ → (Listing → Listing) → Action Stall Listing
  write_listing id f = do
    found ← gets (listing_at id)
    row ← or_throw found Failure.crash
    modify (λ s. record s { listings = (lt.update_many (λ l. l.id == id) f s.listings).0 })
    pure (f row)

  unfoldable pub insert_listing : Listing → Action Stall Listing
  insert_listing row s = elim (lt.create row s.listings) [
    | none ↦ (err Failure.crash, s)
    | some t ↦ (ok row, record s { listings = t })
  ]

  unfoldable pub insert_view : Interest → Action Stall (Unit {0})
  insert_view row s = elim (it.create row s.views) [
    | none ↦ (err Failure.crash, s)
    | some t ↦ (ok tt, record s { views = t })
  ]

  unfoldable pub insert_wish : Interest → Action Stall (Unit {0})
  insert_wish row s = elim (it.create row s.wishes) [
    | none ↦ (err Failure.crash, s)
    | some t ↦ (ok tt, record s { wishes = t })
  ]

  abbrev pub viewed : Listing → Listing
  viewed l = record l { view_count = l.view_count + 1 }

  abbrev pub wished : Listing → Listing
  wished l = record l { wishlist_count = l.wishlist_count + 1 }

  abbrev pub unwished : Listing → Listing
  unwished l = record l { wishlist_count = l.wishlist_count - 1 }

  unfoldable pub first_view : ℕ → ℕ → ℕ → Action Stall Bool
  unfolding insert_view write_listing
  first_view ad who id = do
    insert_view (record { id = id; ad = ad; user = who })
    write_listing ad viewed
    pure true

  -- The transaction of `recordView`.
  unfoldable pub mark_view : ℕ → ℕ → ℕ → Action Stall Bool
  unfolding first_view
  mark_view ad who id = do
    existing ← gets (λ s. it.find (of_pair ad who) s.views)
    if is_some existing then pure false else first_view ad who id

  unfoldable pub record_view : ℕ → ℕ → ℕ → Action Stall Bool
  unfolding mark_view
  record_view ad who id = transaction (mark_view ad who id)

  unfoldable pub first_wish : ℕ → ℕ → ℕ → Action Stall Bool
  unfolding insert_wish write_listing
  first_wish ad who id = do
    insert_wish (record { id = id; ad = ad; user = who })
    write_listing ad wished
    pure true

  -- The transaction of `addToWishlist`.
  unfoldable pub mark_wish : ℕ → ℕ → ℕ → Action Stall Bool
  unfolding first_wish
  mark_wish ad who id = do
    existing ← gets (λ s. it.find (of_pair ad who) s.wishes)
    if is_some existing then pure false else first_wish ad who id

  unfoldable pub add_to_wishlist : ℕ → ℕ → ℕ → Action Stall Bool
  unfolding mark_wish
  add_to_wishlist ad who id = transaction (mark_wish ad who id)

  -- The transaction of `removeFromWishlist`.
  unfoldable pub unmark_wish : ℕ → ℕ → Action Stall Bool
  unmark_wish ad who = do
    n ← update (λ s. (
      it.count (of_pair ad who) s.wishes,
      record s { wishes = it.delete_many (of_pair ad who) s.wishes },
    ))
    if n == 0 then pure false else (do
      modify (λ s. record s {
        listings =
            (lt.update_many (λ l. l.id == ad && ltb 0 l.wishlist_count) unwished s.listings).0;
      })
      pure true)

  unfoldable pub remove_from_wishlist : ℕ → ℕ → Action Stall Bool
  unfolding unmark_wish
  remove_from_wishlist ad who = transaction (unmark_wish ad who)

  abbrev pub with_photos : Option (List Text) → Listing → Listing
  with_photos none l = l
  with_photos (some keys) l = record l { images = keys }

  -- `update`: the photos are replaced only where they are given.
  unfoldable pub update_listing :
      ℕ → (Listing → Listing) → Option (List Text) → Action Stall Listing
  unfolding write_listing
  update_listing id write photos =
      transaction (write_listing id (λ l. with_photos photos (write l)))

  abbrev pub put_away : ℕ → Listing → Listing
  put_away now l = record l { deleted_at = some now; status = paused }

  unfoldable pub soft_delete : ℕ → ℕ → Action Stall Listing
  unfolding write_listing
  soft_delete id now = write_listing id (put_away now)
