-- ===== src/Marketplace/Counters.antt =====
-- The counters of a listing are the numbers of people.
use v2_backend.Common.Keeps.{Keeps, Keeps-transaction, Gives, bind_err, bind_ok}
use v2_backend.Marketplace.Marks.{
  IsSingle, marks, marks-create, IsSingle-create, marks-delete, IsSingle-delete,
}
use v2_backend.Marketplace.Listings.{
  ListingTable, InterestTable, Listing, Stall, wished, viewed, of_pair, remove_from_wishlist,
  add_to_wishlist, record_view, first_wish, first_view, insert_wish, insert_view, write_listing,
  unwished, listing_at, Interest, unmark_wish, mark_wish, mark_view,
}
use v2_backend.Common.{
  ℕ, ◌==◌, Bool, ◌≡◌, some, if◌then◌else◌, arith, Option-cases, inl, inr, ◌≢◌, ◌&&◌, Bool-cases,
  ltb, refl, none, ok, ◌>>◌, err, pure, Failure, true, ap, sym, ◌∙◌, ◌⊎◌,
}

module _ (lt : ListingTable) (it : InterestTable) where
  -- A counter of each listing against the rows that it counts.
  abbrev pub Tallies : (Listing → ℕ) → lt.Rows → it.Rows → Type 0
  Tallies n l t = (k : ℕ) (x : Listing) → lt.find (λ y. y.id == k) l ≡ some x → n x ≡ marks it k t

  abbrev pub IsCounted : Stall lt it → Type 0
  IsCounted s =
      Tallies (λ x. x.wishlist_count) s.listings s.wishes
      × IsSingle it s.wishes
      × Tallies (λ x. x.view_count) s.listings s.views
      × IsSingle it s.views

  -- A write that moves one counter of one listing.
  Tallies-moved :
      (n : Listing → ℕ) (p : Listing → Bool) (f : Listing → Listing) (l : lt.Rows) (t u : it.Rows)
      → ((x : Listing) → (f x).id ≡ x.id)
      → ((x : Listing)
          → lt.find (λ y. y.id == x.id) l ≡ some x
          → n x ≡ marks it x.id t
          → n (if p x then f x else x) ≡ marks it x.id u)
      → Tallies n l t
      → Tallies n (lt.update_many p f l).0 u
  Tallies-moved n p f l t u key moved h k x e = elim (Option-cases (lt.find (λ y. y.id == k) l)) [
    | inl o ↦ ground (arith, lt.find_update p f l k key, o)
    | inr (y, o) ↦
        let (own, at) = lt.find_sound (λ z. z.id == k) l y o in
        let new = lt.find_update p f l k key in ground (arith, new, o, own, moved y at, h y.id y at)
  ]

  IsCounted-first_wish :
      (ad who id : ℕ) (s : Stall lt it) (t : it.Rows)
      → it.create (record { id = id; ad = ad; user = who }) s.wishes ≡ some t
      → IsCounted s
      → IsCounted (record s {
        listings = (lt.update_many (λ l. l.id == ad) (wished lt it) s.listings).0;
        wishes = t;
      })
  IsCounted-first_wish ad who id s t e (w, ws, v, vs) =
      let row : Interest = record { id = id; ad = ad; user = who } in
      (
        Tallies-moved (λ x. x.wishlist_count) (λ l. l.id == ad) (wished lt it) s.listings s.wishes t
            (λ x. refl) (λ x at n. ground (arith, marks-create it row s.wishes e x.id, n)) w,
        IsSingle-create it row s.wishes e ws,
        Tallies-moved (λ x. x.view_count) (λ l. l.id == ad) (wished lt it) s.listings s.views
            s.views (λ x. refl) (λ x at n. ground (arith, n)) v,
        vs,
      )

  IsCounted-first_view :
      (ad who id : ℕ) (s : Stall lt it) (t : it.Rows)
      → it.create (record { id = id; ad = ad; user = who }) s.views ≡ some t
      → IsCounted s
      → IsCounted (record s {
        listings = (lt.update_many (λ l. l.id == ad) (viewed lt it) s.listings).0;
        views = t;
      })
  IsCounted-first_view ad who id s t e (w, ws, v, vs) =
      let row : Interest = record { id = id; ad = ad; user = who } in
      (
        Tallies-moved (λ x. x.wishlist_count) (λ l. l.id == ad) (viewed lt it) s.listings s.wishes
            s.wishes (λ x. refl) (λ x at n. ground (arith, n)) w,
        ws,
        Tallies-moved (λ x. x.view_count) (λ l. l.id == ad) (viewed lt it) s.listings s.views t
            (λ x. refl) (λ x at n. ground (arith, marks-create it row s.views e x.id, n)) v,
        IsSingle-create it row s.views e vs,
      )

  -- Nobody's mark goes where there was none; one goes, and the counter with it, where there was one.
  IsCounted-unmarked :
      (ad who : ℕ) (s : Stall lt it)
      → it.count (of_pair ad who) s.wishes ≡ 0
      → IsCounted s
      → IsCounted (record s { wishes = it.delete_many (of_pair ad who) s.wishes })
  IsCounted-unmarked ad who s none_there (w, ws, v, vs) = (
    (λ k x e. ground (arith, marks-delete it ad who s.wishes k, w k x e, none_there)),
    IsSingle-delete it ad who s.wishes ws,
    v,
    vs,
  )

  IsCounted-unwished :
      (ad who : ℕ) (s : Stall lt it)
      → it.count (of_pair ad who) s.wishes ≢ 0
      → IsCounted s
      → IsCounted (record s {
        listings =
            (lt.update_many
              (λ l. l.id == ad && ltb 0 l.wishlist_count)
              (unwished lt it)
              s.listings).0;
        wishes = it.delete_many (of_pair ad who) s.wishes;
      })
  IsCounted-unwished ad who s there (w, ws, v, vs) =
      let one : it.count (of_pair ad who) s.wishes ≡ 1 = ground (arith, ws ad who) in
      (
        Tallies-moved (λ x. x.wishlist_count) (λ l. l.id == ad && ltb 0 l.wishlist_count)
            (unwished lt it) s.listings s.wishes (it.delete_many (of_pair ad who) s.wishes)
            (λ x. refl) (λ x at n. ground (arith, marks-delete it ad who s.wishes x.id, n, one)) w,
        IsSingle-delete it ad who s.wishes ws,
        Tallies-moved (λ x. x.view_count) (λ l. l.id == ad && ltb 0 l.wishlist_count)
            (unwished lt it) s.listings s.views s.views (λ x. refl) (λ x at n. ground (arith, n)) v,
        vs,
      )

  pub Keeps-remove_from_wishlist :
      (ad who : ℕ) → Keeps IsCounted (remove_from_wishlist lt it ad who)
  unfolding remove_from_wishlist unmark_wish
  Keeps-remove_from_wishlist ad who =
      Keeps-transaction IsCounted (unmark_wish lt it ad who) (λ s i a r.
        elim (Bool-cases (it.count (of_pair ad who) s.wishes == 0)) [
          | inl e ↦ rw (unmark_wish, e) (IsCounted-unmarked ad who s (ground (arith, e)) i)
          | inr e ↦ rw (unmark_wish, e) (IsCounted-unwished ad who s (λ z. ground (arith, e, z)) i)
        ])

  write_listing-none :
      (id : ℕ) (f : Listing → Listing) (s : Stall lt it)
      → listing_at lt it id s ≡ none
      → write_listing lt it id f s ≡ (err Failure.crash, s)
  unfolding write_listing
  write_listing-none id f s e = rw (write_listing, e) refl

  write_listing-some :
      (id : ℕ) (f : Listing → Listing) (s : Stall lt it) (l : Listing)
      → listing_at lt it id s ≡ some l
      → write_listing lt it id f s
        ≡ (ok (f l), record s { listings = (lt.update_many (λ y. y.id == id) f s.listings).0 })
  unfolding write_listing
  write_listing-some id f s l e = rw (write_listing, e) refl

  -- A first mark is written with its counter, or ends in an exception.
  pub first_wish_ends :
      (ad who id : ℕ) (s : Stall lt it)
      → ((e : Failure) × (u : Stall lt it) × (first_wish lt it ad who id s ≡ (err e, u)))
        ⊎ ((t : it.Rows) × (it.create (record { id = id; ad = ad; user = who }) s.wishes ≡ some t)
            × (first_wish lt it ad who id s ≡ (
              ok true,
              record s {
                listings = (lt.update_many (λ y. y.id == ad) (wished lt it) s.listings).0;
                wishes = t;
              },
            )))
  unfolding first_wish
  first_wish_ends ad who id s =
      let new : Interest = record { id = id; ad = ad; user = who } in
      let write = write_listing lt it ad (wished lt it) >> pure true in
      elim (Option-cases (it.create new s.wishes)) [
        | inl c ↦ inl (
          Failure.crash,
          s,
          bind_err (insert_wish lt it new) (λ _. write) s s Failure.crash
              (rw (insert_wish, c) refl),
        )
        | inr (t, c) ↦
            let u = record s { wishes = t } in
            let start =
              bind_ok (insert_wish lt it new) (λ _. write) s u tt (rw (insert_wish, c) refl) in
            elim (Option-cases (listing_at lt it ad s)) [
              | inl n ↦ inl (
                Failure.crash,
                u,
                start
                    ∙ bind_err (write_listing lt it ad (wished lt it)) (λ _. pure true) u u
                        Failure.crash (write_listing-none ad (wished lt it) u n),
              )
              | inr (l, n) ↦ inr (
                t,
                c,
                start
                    ∙ bind_ok (write_listing lt it ad (wished lt it)) (λ _. pure true) u
                        (record u {
                          listings = (lt.update_many (λ y. y.id == ad) (wished lt it) s.listings).0;
                        })
                        (wished lt it l) (write_listing-some ad (wished lt it) u l n),
              )
            ]
      ]

  Gives-first_wish : (ad who id : ℕ) → Gives IsCounted (first_wish lt it ad who id) (λ _. IsCounted)
  Gives-first_wish ad who id s i a r = elim (first_wish_ends ad who id s) [
    | inl (e, u, done) ↦ ground (arith, done)
    | inr (t, c, done) ↦ rw done (IsCounted-first_wish ad who id s t c i)
  ]

  mark_wish-none :
      (ad who id : ℕ) (s : Stall lt it)
      → it.find (of_pair ad who) s.wishes ≡ none
      → mark_wish lt it ad who id s ≡ first_wish lt it ad who id s
  unfolding mark_wish
  mark_wish-none ad who id s e = rw e refl

  pub Keeps-add_to_wishlist : (ad who id : ℕ) → Keeps IsCounted (add_to_wishlist lt it ad who id)
  unfolding add_to_wishlist mark_wish
  Keeps-add_to_wishlist ad who id =
      Keeps-transaction IsCounted (mark_wish lt it ad who id) (λ s i a r.
        elim (Option-cases (it.find (of_pair ad who) s.wishes)) [
          | inr (x, e) ↦ rw (mark_wish, e) i
          | inl e ↦
              let same = mark_wish-none ad who id s e in
              rw same (Gives-first_wish ad who id s i a (ap (λ z. z.0) (sym same) ∙ r))
        ])

  -- A first mark is written with its counter, or ends in an exception.
  pub first_view_ends :
      (ad who id : ℕ) (s : Stall lt it)
      → ((e : Failure) × (u : Stall lt it) × (first_view lt it ad who id s ≡ (err e, u)))
        ⊎ ((t : it.Rows) × (it.create (record { id = id; ad = ad; user = who }) s.views ≡ some t)
            × (first_view lt it ad who id s ≡ (
              ok true,
              record s {
                listings = (lt.update_many (λ y. y.id == ad) (viewed lt it) s.listings).0;
                views = t;
              },
            )))
  unfolding first_view
  first_view_ends ad who id s =
      let new : Interest = record { id = id; ad = ad; user = who } in
      let write = write_listing lt it ad (viewed lt it) >> pure true in
      elim (Option-cases (it.create new s.views)) [
        | inl c ↦ inl (
          Failure.crash,
          s,
          bind_err (insert_view lt it new) (λ _. write) s s Failure.crash
              (rw (insert_view, c) refl),
        )
        | inr (t, c) ↦
            let u = record s { views = t } in
            let start =
              bind_ok (insert_view lt it new) (λ _. write) s u tt (rw (insert_view, c) refl) in
            elim (Option-cases (listing_at lt it ad s)) [
              | inl n ↦ inl (
                Failure.crash,
                u,
                start
                    ∙ bind_err (write_listing lt it ad (viewed lt it)) (λ _. pure true) u u
                        Failure.crash (write_listing-none ad (viewed lt it) u n),
              )
              | inr (l, n) ↦ inr (
                t,
                c,
                start
                    ∙ bind_ok (write_listing lt it ad (viewed lt it)) (λ _. pure true) u
                        (record u {
                          listings = (lt.update_many (λ y. y.id == ad) (viewed lt it) s.listings).0;
                        })
                        (viewed lt it l) (write_listing-some ad (viewed lt it) u l n),
              )
            ]
      ]

  Gives-first_view : (ad who id : ℕ) → Gives IsCounted (first_view lt it ad who id) (λ _. IsCounted)
  Gives-first_view ad who id s i a r = elim (first_view_ends ad who id s) [
    | inl (e, u, done) ↦ ground (arith, done)
    | inr (t, c, done) ↦ rw done (IsCounted-first_view ad who id s t c i)
  ]

  mark_view-none :
      (ad who id : ℕ) (s : Stall lt it)
      → it.find (of_pair ad who) s.views ≡ none
      → mark_view lt it ad who id s ≡ first_view lt it ad who id s
  unfolding mark_view
  mark_view-none ad who id s e = rw e refl

  pub Keeps-record_view : (ad who id : ℕ) → Keeps IsCounted (record_view lt it ad who id)
  unfolding record_view mark_view
  Keeps-record_view ad who id = Keeps-transaction IsCounted (mark_view lt it ad who id) (λ s i a r.
      elim (Option-cases (it.find (of_pair ad who) s.views)) [
        | inr (x, e) ↦ rw (mark_view, e) i
        | inl e ↦
            let same = mark_view-none ad who id s e in
            rw same (Gives-first_view ad who id s i a (ap (λ z. z.0) (sym same) ∙ r))
      ])
