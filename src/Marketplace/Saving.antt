-- ===== src/Marketplace/Saving.antt =====
-- Saving a listing, from the request to the number in the answer.
use v2_backend.Common.Int.{ℤ, pos}
use v2_backend.Marketplace.Marks.{marks, marks-create, marks-delete}
use v2_backend.Marketplace.Counters.{
  IsCounted, Keeps-record_view, first_wish_ends, Keeps-add_to_wishlist, Keeps-remove_from_wishlist,
}
use v2_backend.Common.Keeps.{Keeps, Keeps-bind, Keeps-if}
use v2_backend.Marketplace.Selling.{detail, set_wishlisted, shown_count}
use v2_backend.Marketplace.Listings.{
  ListingTable, InterestTable, Stall, find_by_id, record_view, mark_wish, of_pair,
  remove_from_wishlist, unmark_wish, Listing, add_to_wishlist, is_shown,
}
use v2_backend.Common.Error.{Resource}
use v2_backend.Common.{
  ℕ, Result, Bool, Option-cases, ◌≡◌, ok, inl, false, inr, ◌⊎◌, Failure, pure, err, ◌+◌, true,
  if◌then◌else◌, suc, Action, transaction, arith, refl, Bool-cases, ◌==◌, none, some, ◌&&◌, ap, sym,
  ◌∙◌,
}

module _ (lt : ListingTable) (it : InterestTable) where
  -- Opening and saving keep the counters.
  Keeps-detail : (id who row : ℕ) → Keeps (IsCounted lt it) (detail lt it id who row)
  unfolding detail
  Keeps-detail id who row s i = elim (Option-cases (find_by_id lt it id s)) [
    | inl e ↦ rw (detail, e) i
    | inr (ad, e) ↦
        rw (detail, e)
          (Keeps-bind (IsCounted lt it) (record_view lt it id who row)
            (λ first. pure (ad, ad.view_count + (if first then 1 else 0)))
            (Keeps-record_view lt it id who row) (λ _ _ h. h) s i)
  ]

  Keeps-set_wishlisted :
      (id who : ℕ) (b : Bool) (row : ℕ)
      → Keeps (IsCounted lt it) (set_wishlisted lt it id who b row)
  unfolding set_wishlisted
  Keeps-set_wishlisted id who b row s i = elim (Option-cases (find_by_id lt it id s)) [
    | inl e ↦ rw (set_wishlisted, e) i
    | inr (ad, e) ↦
        rw (set_wishlisted, e)
          (Keeps-bind (IsCounted lt it)
            (if b then add_to_wishlist lt it id who row else remove_from_wishlist lt it id who)
            (λ changed. pure (b, shown_count lt it ad.wishlist_count changed b))
            (Keeps-if (IsCounted lt it) b (add_to_wishlist lt it id who row)
              (remove_from_wishlist lt it id who) (Keeps-add_to_wishlist lt it id who row)
              (Keeps-remove_from_wishlist lt it id who))
            (λ _ _ h. h) s i)
  ]

  -- Opening a listing, and saving or unsaving it, keep the counters: each listing's view count and
  -- wishlist count is the number of rows of people who viewed and who saved it, and nobody has two rows
  -- for one listing.
  pub browsing_counts :
      (id who : ℕ) (b : Bool) (row : ℕ) (s : Stall lt it)
      → IsCounted lt it s
      → IsCounted lt it (detail lt it id who row s).1
        × IsCounted lt it (set_wishlisted lt it id who b row s).1
  browsing_counts id who b row s i =
      (Keeps-detail id who row s i, Keeps-set_wishlisted id who b row s i)

  -- How a mark ends: as it was, in an exception without a write, or with one person more or less.
  Saved : ℕ → ℕ → Stall lt it → Result Bool × Stall lt it → Type 0
  Saved ad who s (r, t) =
      ((r ≡ ok false) × (marks it ad t.wishes ≡ marks it ad s.wishes))
      ⊎ (((e : Failure) × (r ≡ err e))
          ⊎ ((r ≡ ok true) × (marks it ad t.wishes ≡ suc (marks it ad s.wishes))))

  Saved-mark_wish :
      (ad who row : ℕ) (s : Stall lt it) → Saved ad who s (mark_wish lt it ad who row s)
  unfolding Saved mark_wish
  Saved-mark_wish ad who row s = elim (Option-cases (it.find (of_pair ad who) s.wishes)) [
    | inr (x, e) ↦ rw (mark_wish, e) (inl (refl, refl))
    | inl e ↦
        rw (mark_wish, e)
          (elim (first_wish_ends lt it ad who row s) [
            | inl (x, u, done) ↦ rw done (inr (inl (x, refl)))
            | inr (t, c, done) ↦ rw done (
                inr (
                  inr (
                    refl,
                    ground (
                      arith,
                      marks-create it (record { id = row; ad = ad; user = who }) s.wishes c ad,
                    ),
                  )))
          ])
  ]

  -- A transaction shows the same.
  Saved-transaction :
      (ad who : ℕ) (m : Action (Stall lt it) Bool) (s : Stall lt it)
      → Saved ad who s (m s)
      → Saved ad who s (transaction m s)
  unfolding Saved
  Saved-transaction ad who m s h = go (m s).0 (m s).1 h
    where
      go :
          (r : Result Bool) (t : Stall lt it)
          → Saved ad who s (r, t)
          → Saved ad who s
              (elim r as (λ x. Result Bool × Stall lt it) [ ok a ↦ (ok a, t) | err e ↦ (err e, s) ])
      go (ok a) t k = k
      go (err e) t k = inr (inl (e, refl))

  -- How taking a mark away ends.
  Dropped : ℕ → Stall lt it → Result Bool × Stall lt it → Type 0
  Dropped ad s (r, t) =
      ((r ≡ ok false) × (marks it ad t.wishes ≡ marks it ad s.wishes))
      ⊎ (((e : Failure) × (r ≡ err e))
          ⊎ ((r ≡ ok true) × (marks it ad s.wishes ≡ suc (marks it ad t.wishes))))

  Dropped-unmark_wish :
      (ad who : ℕ) (s : Stall lt it) → IsCounted lt it s → Dropped ad s (unmark_wish lt it ad who s)
  unfolding Dropped unmark_wish
  Dropped-unmark_wish ad who s (w, ws, v, vs) =
      let less = marks-delete it ad who s.wishes ad in
      elim (Bool-cases (it.count (of_pair ad who) s.wishes == 0)) [
        | inl e ↦ rw (unmark_wish, e) (inl (refl, ground (arith, less, e)))
        | inr e ↦ rw (unmark_wish, e) (inr (inr (refl, ground (arith, less, e, ws ad who))))
      ]

  Dropped-transaction :
      (ad : ℕ) (m : Action (Stall lt it) Bool) (s : Stall lt it)
      → Dropped ad s (m s)
      → Dropped ad s (transaction m s)
  unfolding Dropped
  Dropped-transaction ad m s h = go (m s).0 (m s).1 h
    where
      go :
          (r : Result Bool) (t : Stall lt it)
          → Dropped ad s (r, t)
          → Dropped ad s
              (elim r as (λ x. Result Bool × Stall lt it) [ ok a ↦ (ok a, t) | err e ↦ (err e, s) ])
      go (ok a) t k = k
      go (err e) t k = inr (inl (e, refl))

  -- The number in the answer, from how the mark ended.
  abbrev answered : ℕ → Bool → Result Bool × Stall lt it → Result (Bool × ℤ) × Stall lt it
  answered k b x = elim x.0 [ ok a ↦ (ok (b, shown_count lt it k a b), x.1) | err e ↦ (err e, x.1) ]

  answered-Saved :
      (ad who k : ℕ) (s : Stall lt it) (x : Result Bool × Stall lt it) (c : Bool) (n : ℤ)
      → k ≡ marks it ad s.wishes
      → Saved ad who s x
      → (answered k true x).0 ≡ ok (c, n)
      → n ≡ pos (marks it ad (answered k true x).1.wishes)
  unfolding Saved
  answered-Saved ad who k s (ok true, t) c n h (inr (inr (r, m))) e = ground (arith, e, m, h)
  answered-Saved ad who k s (ok a, t) c n h saved e = ground (arith, e, h, saved)
  answered-Saved ad who k s (err x, t) c n h saved e = ground (arith, e)

  answered-Dropped :
      (ad k : ℕ) (s : Stall lt it) (x : Result Bool × Stall lt it) (c : Bool) (n : ℤ)
      → k ≡ marks it ad s.wishes
      → Dropped ad s x
      → (answered k false x).0 ≡ ok (c, n)
      → n ≡ pos (marks it ad (answered k false x).1.wishes)
  unfolding Dropped
  answered-Dropped ad k s (ok a, t) c n h dropped e = ground (arith, e, h, dropped)
  answered-Dropped ad k s (err x, t) c n h dropped e = ground (arith, e)

  -- The listing that is read has the count of its rows.
  counted_listing :
      (id : ℕ) (s : Stall lt it) (ad : Listing)
      → IsCounted lt it s
      → find_by_id lt it id s ≡ some ad
      → ad.wishlist_count ≡ marks it id s.wishes
  unfolding find_by_id
  counted_listing id s ad (w, _, _, _) e =
      let (found, own) = lt.find_sound (λ l. l.id == id && is_shown l) s.listings ad e in
      w id ad (ground (arith, found, own))

  set_wishlisted-true :
      (id who row : ℕ) (s : Stall lt it) (ad : Listing)
      → find_by_id lt it id s ≡ some ad
      → set_wishlisted lt it id who true row s
        ≡ answered ad.wishlist_count true (add_to_wishlist lt it id who row s)
  unfolding set_wishlisted
  set_wishlisted-true id who row s ad e = rw (set_wishlisted, e) refl

  set_wishlisted-false :
      (id who row : ℕ) (s : Stall lt it) (ad : Listing)
      → find_by_id lt it id s ≡ some ad
      → set_wishlisted lt it id who false row s
        ≡ answered ad.wishlist_count false (remove_from_wishlist lt it id who s)
  unfolding set_wishlisted
  set_wishlisted-false id who row s ad e = rw (set_wishlisted, e) refl

  set_wishlisted-none :
      (id who : ℕ) (b : Bool) (row : ℕ) (s : Stall lt it)
      → find_by_id lt it id s ≡ none
      → set_wishlisted lt it id who b row s ≡ (err (Failure.not_found Resource.ad), s)
  unfolding set_wishlisted
  set_wishlisted-none id who b row s e = rw (set_wishlisted, e) refl

  -- Where the counters are right, the number that saving or unsaving a listing returns is the number of
  -- people who have it saved afterwards.
  pub set_wishlisted_count :
      (id who : ℕ) (b : Bool) (row : ℕ) (s : Stall lt it) (c : Bool) (n : ℤ)
      → IsCounted lt it s
      → (set_wishlisted lt it id who b row s).0 ≡ ok (c, n)
      → n ≡ pos (marks it id (set_wishlisted lt it id who b row s).1.wishes)
  unfolding add_to_wishlist remove_from_wishlist
  set_wishlisted_count id who b row s c n i r = elim (Option-cases (find_by_id lt it id s)) [
    | inl e ↦ ground (arith, set_wishlisted-none id who b row s e)
    | inr (ad, e) ↦ by_mark b ad e r
  ]
    where
      by_mark :
          (b : Bool) (ad : Listing)
          → find_by_id lt it id s ≡ some ad
          → (set_wishlisted lt it id who b row s).0 ≡ ok (c, n)
          → n ≡ pos (marks it id (set_wishlisted lt it id who b row s).1.wishes)
      by_mark true ad e r =
          let same = set_wishlisted-true id who row s ad e in
          rw same (
            answered-Saved id who ad.wishlist_count s (add_to_wishlist lt it id who row s) c n
              (counted_listing id s ad i e)
              (Saved-transaction id who (mark_wish lt it id who row) s
                (Saved-mark_wish id who row s))
              (ap (λ z. z.0) (sym same) ∙ r))
      by_mark false ad e r =
          let same = set_wishlisted-false id who row s ad e in
          rw same (
            answered-Dropped id ad.wishlist_count s (remove_from_wishlist lt it id who s) c n
              (counted_listing id s ad i e)
              (Dropped-transaction id (unmark_wish lt it id who) s (Dropped-unmark_wish id who s i))
              (ap (λ z. z.0) (sym same) ∙ r))
