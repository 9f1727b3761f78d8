-- ===== src/Marketplace/Marks.antt =====
-- Counting the rows of people who viewed or saved a listing.
use v2_backend.Marketplace.Listings.{InterestTable, of_pair, Interest, interest_conflict}
use v2_backend.Common.{
  ℕ, ◌==◌, ◌≡◌, ◌≤◌, Bool, some, if◌then◌else◌, arith, none, false, ap, ◌+◌, Bool-cases, sym,
  Option-cases, inl, ◌∙◌, inr, ◌&&◌,
}

module _ (it : InterestTable) where
  -- The people who marked a listing.
  abbrev pub marks : ℕ → it.Rows → ℕ
  marks k t = it.count (λ i. i.ad == k) t

  abbrev pub IsSingle : it.Rows → Type 0
  IsSingle t = (ad who : ℕ) → it.count (of_pair ad who) t ≤ 1

  count-none : (p : Interest → Bool) (t : it.Rows) → it.find p t ≡ none → it.count p t ≡ 0
  count-none p t h = sym (it.count_update p (λ i. i) t) ∙ it.count_found p (λ i. i) t h

  count-never :
      (p : Interest → Bool) (t : it.Rows) → ((i : Interest) → p i ≡ false) → it.count p t ≡ 0
  count-never p t never = count-none p t (elim (Option-cases (it.find p t)) [
    | inl e ↦ e
    | inr (i, e) ↦ ground (arith, (it.find_sound p t i e).0, never i)
  ])

  count_same :
      (p q : Interest → Bool) (t : it.Rows)
      → ((i : Interest) → p i ≡ q i)
      → it.count p t ≡ it.count q t
  count_same p q t same = ap (λ f. it.count f t) (λ j i. same i j)

  -- A row that was created had no row of its identifier before.
  module _ (row : Interest) (t : it.Rows) {t' : it.Rows} (h : it.create row t ≡ some t') where
    fresh_id : it.find (λ i. i.id == row.id) t ≡ none
    fresh_id = elim (Option-cases (it.find (λ i. i.id == row.id) t)) [
      | inl e ↦ e
      | inr (i, e) ↦ ground (
        arith,
        it.find_complete (interest_conflict row) t row.id i (it.create_some row t h).0 e,
        (it.find_sound (λ i. i.id == row.id) t i e).0,
      )
    ]

    no_pair : it.find (of_pair row.ad row.user) t ≡ none
    no_pair = elim (Option-cases (it.find (of_pair row.ad row.user) t)) [
      | inl e ↦ e
      | inr (i, e) ↦
          let (pair, at) = it.find_sound (of_pair row.ad row.user) t i e in
          ground (
            arith,
            it.find_complete (interest_conflict row) t i.id i (it.create_some row t h).0 at,
            pair,
          )
    ]

    pub marks-create : (k : ℕ) → marks k t' ≡ (if row.ad == k then 1 else 0) + marks k t
    marks-create k = it.count_create (λ i. i.ad == k) row t h fresh_id

    pub IsSingle-create : IsSingle t → IsSingle t'
    IsSingle-create single ad who =
        let grown = it.count_create (of_pair ad who) row t h fresh_id in
        elim (Bool-cases (of_pair ad who row)) [
          | inl e ↦
              let a : row.ad ≡ ad = ground (arith, e) in
              let w : row.user ≡ who = ground (arith, e) in
              let none_yet : it.count (of_pair ad who) t ≡ 0 =
                rw (← a, ← w) (count-none (of_pair row.ad row.user) t no_pair) in
              ground (arith, grown, e, none_yet)
          | inr e ↦ ground (arith, grown, e, single ad who)
        ]

  -- Taking a person's mark away.
  module _ (ad who : ℕ) (t : it.Rows) where
    abbrev rest : it.Rows
    rest = it.delete_many (of_pair ad who) t

    pub marks-delete :
        (k : ℕ) → marks k t ≡ (if ad == k then it.count (of_pair ad who) t else 0) + marks k rest
    marks-delete k =
        let split = it.count_split (λ i. i.ad == k) (of_pair ad who) t in
        let gone = it.count_delete (λ i. i.ad == k) (of_pair ad who) t in
        elim (Bool-cases (ad == k)) [
          | inl e ↦
              let same =
                count_same (λ i. of_pair ad who i && i.ad == k) (of_pair ad who) t
                  (λ i. ground (arith, e)) in
              ground (arith, split, gone, e, same)
          | inr e ↦
              let never =
                count-never (λ i. of_pair ad who i && i.ad == k) t (λ i. ground (arith, e)) in
              ground (arith, split, gone, e, never)
        ]

    pub IsSingle-delete : IsSingle t → IsSingle rest
    IsSingle-delete single a w =
        let split = it.count_split (of_pair a w) (of_pair ad who) t in
        let gone = it.count_delete (of_pair a w) (of_pair ad who) t in
        ground (arith, split, gone, single a w)
