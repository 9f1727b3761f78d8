-- ===== src/Table/Listed.antt =====
-- A table as a list of rows: newer rows stand first, and hide older ones of the same key.
use v2_backend.Common.{
  ℕ, ◌+◌, ◌≡◌, ◌≢◌, ◌∙◌, refl, inl, inr, Bool, true, false, not, ◌&&◌, Option, none, some, List, [],
  ◌∷◌, map, arith, ◌==◌, if◌then◌else◌, find, select, Option-cases, is_some, Bool-cases,
}
use v2_backend.Table.{Table, hits, revised, kept}

module _ {Row : Type 0} (key : Row → ℕ) where
  -- The rows of other keys.
  abbrev others : ℕ → List Row → List Row
  others k = select (λ s. not (key s == k))

  unfoldable pub visible : List Row → List Row
  visible [] = []
  visible (r ∷ t) = r ∷ others (key r) (visible t)

  find-others :
      (j k : ℕ) (l : List Row)
      → j ≢ k
      → find (λ x. key x == k) (others j l) ≡ find (λ x. key x == k) l
  find-others j k [] h = refl
  find-others j k (x ∷ l) h = ground (arith, find-others j k l h)

  find-select-others :
      (q : Row → Bool) (j k : ℕ) (l : List Row)
      → j ≢ k
      → find (λ x. key x == k) (select q (others j l)) ≡ find (λ x. key x == k) (select q l)
  find-select-others q j k [] h = refl
  find-select-others q j k (x ∷ l) h = ground (arith, find-select-others q j k l h)

  find-select-others_self :
      (q : Row → Bool) (k : ℕ) (l : List Row)
      → find (λ x. key x == k) (select q (others k l)) ≡ none
  find-select-others_self q k [] = refl
  find-select-others_self q k (x ∷ l) = ground (arith, find-select-others_self q k l)

  find-visible :
      (k : ℕ) (t : List Row) → find (λ x. key x == k) (visible t) ≡ find (λ x. key x == k) t
  unfolding visible
  find-visible k [] = refl
  find-visible k (x ∷ t) = ground (arith, find-visible k t, find-others (key x) k (visible t))

  find-select : (p g : Row → Bool) (l : List Row) → find p (select g l) ≡ find (λ s. g s && p s) l
  find-select p g [] = refl
  find-select p g (x ∷ l) = ground (arith, find-select p g l)

  pub find_sound :
      (p : Row → Bool) (t : List Row) (r : Row)
      → find p (visible t) ≡ some r
      → (p r ≡ true) × (find (λ x. key x == key r) (visible t) ≡ some r)
  unfolding visible
  find_sound p [] r h = ground arith
  find_sound p (x ∷ t) r h = ground (
    arith,
    find-select p (λ s. not (key s == key x)) (visible t),
    find_sound (λ s. not (key s == key x) && p s) t r,
    find-others (key x) (key r) (visible t),
  )

  pub find_complete :
      (p : Row → Bool) (l : List Row) (k : ℕ) (r : Row)
      → find p l ≡ none
      → find (λ x. key x == k) l ≡ some r
      → p r ≡ false
  find_complete p [] k r h e = ground arith
  find_complete p (x ∷ l) k r h e = ground (arith, find_complete p l k r)

  abbrev pub write : (Row → Bool) → (Row → Row) → Row → Row
  write p f r = if p r then f r else r

  find-write :
      (p : Row → Bool) (f : Row → Row) (l : List Row) (k : ℕ)
      → ((r : Row) → key (f r) ≡ key r)
      → find (λ x. key x == k) (map (write p f) l) ≡ revised p f (find (λ x. key x == k) l)
  find-write p f [] k h = refl
  find-write p f (x ∷ l) k h = ground (arith, find-write p f l k h, h x)

  pub find_update :
      (p : Row → Bool) (f : Row → Row) (t : List Row) (k : ℕ)
      → ((r : Row) → key (f r) ≡ key r)
      → find (λ x. key x == k) (visible (map (write p f) (visible t)))
        ≡ revised p f (find (λ x. key x == k) (visible t))
  find_update p f t k h = find-visible k _ ∙ find-write p f (visible t) k h

  abbrev pub count : (Row → Bool) → List Row → ℕ
  count p [] = 0
  count p (x ∷ l) = (if p x then 1 else 0) + count p l

  count-others :
      (q : Row → Bool) (j k : ℕ) (l : List Row)
      → j ≢ k
      → count (λ r. (key r == k) && q r) (others j l) ≡ count (λ r. (key r == k) && q r) l
  count-others q j k [] h = refl
  count-others q j k (x ∷ l) h = ground (arith, count-others q j k l h)

  count-others_self :
      (q : Row → Bool) (k : ℕ) (l : List Row) → count (λ r. (key r == k) && q r) (others k l) ≡ 0
  count-others_self q k [] = refl
  count-others_self q k (x ∷ l) = ground (arith, count-others_self q k l)

  pub count_unique :
      (q : Row → Bool) (t : List Row) (k : ℕ)
      → count (λ r. (key r == k) && q r) (visible t) ≡ hits q (find (λ x. key x == k) (visible t))
  unfolding visible
  count_unique q [] k = refl
  count_unique q (x ∷ t) k = ground (
    arith,
    count_unique q t k,
    count-others q (key x) k (visible t),
    count-others_self q k (visible t),
    find-others (key x) k (visible t),
  )

  pub count_zero : (p : Row → Bool) (l : List Row) → count p l ≡ 0 → find p l ≡ none
  count_zero p [] h = refl
  count_zero p (x ∷ l) h = ground (arith, count_zero p l)

  pub count_found : (p : Row → Bool) (l : List Row) → find p l ≡ none → count p l ≡ 0
  count_found p [] h = refl
  count_found p (x ∷ l) h = ground (arith, count_found p l)

  find-kept :
      (p : Row → Bool) (t : List Row) (k : ℕ)
      → find (λ x. key x == k) (select (λ r. not (p r)) (visible t))
        ≡ kept p (find (λ x. key x == k) (visible t))
  unfolding visible
  find-kept p [] k = refl
  find-kept p (x ∷ t) k = ground (
    arith,
    find-kept p t k,
    find-others (key x) k (visible t),
    find-select-others (λ r. not (p r)) (key x) k (visible t),
    find-select-others_self (λ r. not (p r)) k (visible t),
  )

  pub find_delete :
      (p : Row → Bool) (t : List Row) (k : ℕ)
      → find (λ x. key x == k) (visible (select (λ r. not (p r)) (visible t)))
        ≡ kept p (find (λ x. key x == k) (visible t))
  find_delete p t k = find-visible k _ ∙ find-kept p t k

  find-visible_cons :
      (r : Row) (t : List Row) (k : ℕ)
      → find (λ x. key x == k) (visible (r ∷ t))
        ≡ (if key r == k then some r else find (λ x. key x == k) (visible t))
  unfolding visible
  find-visible_cons r t k = ground (arith, find-others (key r) k (visible t))

  -- No two rows share a key.
  abbrev IsDistinct : List Row → Type 0
  IsDistinct [] = Unit
  IsDistinct (r ∷ t) = (find (λ x. key x == key r) t ≡ none) × IsDistinct t

  others-fresh : (k : ℕ) (l : List Row) → find (λ x. key x == k) l ≡ none → others k l ≡ l
  others-fresh k [] h = refl
  others-fresh k (x ∷ l) h = ground (arith, others-fresh k l)

  visible-IsDistinct : (l : List Row) → IsDistinct l → visible l ≡ l
  unfolding visible
  visible-IsDistinct [] h = refl
  visible-IsDistinct (r ∷ t) (fresh, h) =
      rw (visible-IsDistinct t h, others-fresh (key r) t fresh) refl

  find-select-none :
      (p g : Row → Bool) (l : List Row) → find p l ≡ none → find p (select g l) ≡ none
  find-select-none p g [] h = refl
  find-select-none p g (x ∷ l) h = ground (arith, find-select-none p g l)

  IsDistinct-select : (g : Row → Bool) (l : List Row) → IsDistinct l → IsDistinct (select g l)
  IsDistinct-select g [] h = tt
  IsDistinct-select g (x ∷ l) (fresh, h) = elim (Bool-cases (g x)) [
    | inl e ↦ rw e (find-select-none (λ y. key y == key x) g l fresh, IsDistinct-select g l h)
    | inr e ↦ rw e (IsDistinct-select g l h)
  ]

  find-others_own : (k : ℕ) (l : List Row) → find (λ x. key x == k) (others k l) ≡ none
  find-others_own k [] = refl
  find-others_own k (x ∷ l) = ground (arith, find-others_own k l)

  IsDistinct-visible : (l : List Row) → IsDistinct (visible l)
  unfolding visible
  IsDistinct-visible [] = tt
  IsDistinct-visible (x ∷ l) = (
    find-others_own (key x) (visible l),
    IsDistinct-select (λ s. not (key s == key x)) (visible l) (IsDistinct-visible l),
  )

  count-select :
      (p g : Row → Bool) (l : List Row) → count p (select g l) ≡ count (λ r. g r && p r) l
  count-select p g [] = refl
  count-select p g (x ∷ l) = ground (arith, count-select p g l)

  pub count_delete :
      (p q : Row → Bool) (t : List Row)
      → count p (visible (select (λ r. not (q r)) (visible t)))
        ≡ count (λ r. not (q r) && p r) (visible t)
  count_delete p q t =
      rw
        (visible-IsDistinct (select (λ r. not (q r)) (visible t))
          (IsDistinct-select (λ r. not (q r)) (visible t) (IsDistinct-visible t)))
        (count-select p (λ r. not (q r)) (visible t))

  pub count_split :
      (p q : Row → Bool) (l : List Row)
      → count p l ≡ count (λ r. q r && p r) l + count (λ r. not (q r) && p r) l
  count_split p q [] = refl
  count_split p q (x ∷ l) = ground (arith, count_split p q l)

  count-cons :
      (p : Row → Bool) (r : Row) (t : List Row)
      → find (λ x. key x == key r) (visible t) ≡ none
      → count p (visible (r ∷ t)) ≡ (if p r then 1 else 0) + count p (visible t)
  unfolding visible
  count-cons p r t h = rw (others-fresh (key r) (visible t) h) refl

  module _ (conflict : Row → Row → Bool) where
    abbrev pub insert : Row → List Row → Option (List Row)
    insert r t = if is_some (find (conflict r) (visible t)) then none else some (r ∷ t)

    pub create_some :
        (r : Row) (t : List Row) {t' : List Row}
        → insert r t ≡ some t'
        → (find (conflict r) (visible t) ≡ none)
          × ((k : ℕ)
              → find (λ x. key x == k) (visible t')
                ≡ (if key r == k then some r else find (λ x. key x == k) (visible t)))
    create_some r t {t'} h = elim (Option-cases (find (conflict r) (visible t))) [
      | inl free ↦
          let same : r ∷ t ≡ t' = ground arith in (free, λ k. rw (← same) (find-visible_cons r t k))
      | inr (s, e) ↦ ground arith
    ]

    pub count_create :
        (p : Row → Bool) (r : Row) (t : List Row) {t' : List Row}
        → insert r t ≡ some t'
        → find (λ x. key x == key r) (visible t) ≡ none
        → count p (visible t') ≡ (if p r then 1 else 0) + count p (visible t)
    count_create p r t {t'} h free = elim (Option-cases (find (conflict r) (visible t))) [
      | inl e ↦ let same : r ∷ t ≡ t' = ground arith in rw (← same) (count-cons p r t free)
      | inr (s, e) ↦ ground arith
    ]

    pub create_fresh :
        (r : Row) (t : List Row) → find (conflict r) (visible t) ≡ none → insert r t ≢ none
    create_fresh r t h e = ground arith

-- The interface filled: the rows are lists.
abbrev pub listed :
    {Row : Type 0} (key : Row → ℕ) (conflict : Row → Row → Bool) → Table Row key conflict
listed {Row} key conflict = record {
  Rows = List Row;
  find = λ p t. find p (visible key t);
  update_many = λ p f t. (map (write key p f) (visible key t), count key p (visible key t));
  delete_many = λ p t. select (λ r. not (p r)) (visible key t);
  create = insert key conflict;
  find_sound = find_sound key;
  find_complete = λ p t. find_complete key p (visible key t);
  find_update = find_update key;
  count_unique = λ q f. count_unique key q;
  count_zero = λ p f t. count_zero key p (visible key t);
  count_found = λ p f t. count_found key p (visible key t);
  find_delete = find_delete key;
  create_some = create_some key conflict;
  create_fresh = create_fresh key conflict;
  count = λ p t. count key p (visible key t);
  count_update = λ p f t. refl;
  count_create = count_create key conflict;
  count_delete = count_delete key;
  count_split = λ p q t. count_split key p q (visible key t);
}
