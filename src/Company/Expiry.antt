-- ===== src/Company/Expiry.antt =====
-- A promo code that a request creates or switches on has not expired.
use v2_backend.Company.Promos.{
  PromoTable, PromoRow, create_promo_code, update_promo_code, promo_at, promo_state, NewPromo,
  PromoEdit, new_promo, usable, expired, promo_by_code, name_taken, revives, edited_promo,
  switched_off,
}
use v2_backend.Common.{
  ℕ, ◌≡◌, some, ok, true, ◌≢◌, Option-cases, inl, upper, arith, none, inr, Bool-cases, Option, ltb,
  Bool, sym, false, if◌then◌else◌, ap, ◌∙◌, ◌==◌, get_or, refl,
}

module _ (pt : PromoTable) where
  abbrev too_late : Option ℕ → ℕ → Bool
  too_late till today = elim till [ none ↦ false | some day ↦ ltb day today ]

  not_late :
      (p : PromoRow) (today : ℕ)
      → ltb p.valid_till today ≡ false
      → promo_state p today ≡ (if p.active then usable else switched_off)
  unfolding promo_state
  not_late p today h = rw h refl

  fit_new :
      (dto : NewPromo) (id today : ℕ) (p : PromoRow)
      → ltb dto.valid_till today ≡ false
      → new_promo dto id ≡ p
      → promo_state p today ≢ expired
  fit_new dto id today p e same z =
      let state = not_late (new_promo dto id) today e in
      let late : promo_state (new_promo dto id) today ≡ expired =
        ap (λ q. promo_state q today) same ∙ z in
      elim (Bool-cases (get_or dto.active true)) [
        | inl b ↦ ground (arith, state, late, b)
        | inr b ↦ ground (arith, state, late, b)
      ]

  fit_edit :
      (dto : PromoEdit) (c : PromoRow) (today : ℕ)
      → dto.active ≡ some true
      → too_late dto.valid_till today ≡ false
      → revives dto c today ≡ false
      → promo_state (edited_promo dto c) today ≡ usable
  fit_edit dto c today a d r =
      let open_day : ltb (edited_promo dto c).valid_till today ≡ false =
        elim (Option-cases dto.valid_till) [
          | inl n ↦ ground (arith, a, d, r, n)
          | inr (day, n) ↦ ground (arith, d, n)
        ] in
      not_late (edited_promo dto c) today open_day ∙ rw a refl

  created :
      (dto : NewPromo) (id today : ℕ) (s u : pt.Rows)
      → ltb dto.valid_till today ≡ false
      → promo_by_code pt (upper dto.code) s ≡ none
      → pt.create (new_promo dto id) s ≡ some u
      → (create_promo_code pt dto id today s).1 ≡ u
  unfolding create_promo_code
  created dto id today s u e t c = rw (create_promo_code, e, t, c) refl

  updated :
      (id : ℕ) (dto : PromoEdit) (today : ℕ) (s : pt.Rows) (c : PromoRow)
      → promo_at pt id s ≡ some c
      → name_taken pt dto c s ≡ false
      → too_late dto.valid_till today ≡ false
      → revives dto c today ≡ false
      → (update_promo_code pt id dto today s).1
        ≡ (pt.update_many (λ p. p.id == id) (edited_promo dto) s).0
  unfolding update_promo_code
  updated id dto today s c e n d r = rw (update_promo_code, e, n, d, r) refl

  pub create_promo_code_lem :
      (dto : NewPromo) (id today : ℕ) (s : pt.Rows) (p : PromoRow)
      → (create_promo_code pt dto id today s).0 ≡ ok p
      → (p ≡ new_promo dto id)
        × (promo_at pt id (create_promo_code pt dto id today s).1 ≡ some p)
        × (promo_state p today ≢ expired)
        × (promo_by_code pt (upper dto.code) s ≡ none)
  unfolding create_promo_code promo_state
  create_promo_code_lem dto id today s p h = elim (Bool-cases (ltb dto.valid_till today)) [
    | inl e ↦ ground (arith, e)
    | inr e ↦ elim (Option-cases (promo_by_code pt (upper dto.code) s)) [
      | inr (q, t) ↦ ground (arith, e, t)
      | inl t ↦ elim (Option-cases (pt.create (new_promo dto id) s)) [
        | inl c ↦ ground (arith, e, t, c)
        | inr (u, c) ↦
            let same : new_promo dto id ≡ p = ground (arith, e, t, c) in
            let end = created dto id today s u e t c in
            (
              sym same,
              rw end (ground (arith, (pt.create_some (new_promo dto id) s c).1 id, same)),
              fit_new dto id today p e same,
              t,
            )
      ]
    ]
  ]

  -- Where an edit that switches a promo code on returns, the code that it returns is stored and is
  -- usable: it is switched on and its last day is not over.
  pub update_promo_code_lem :
      (id : ℕ) (dto : PromoEdit) (today : ℕ) (s : pt.Rows) (p : PromoRow)
      → (update_promo_code pt id dto today s).0 ≡ ok p
      → dto.active ≡ some true
      → (promo_at pt id (update_promo_code pt id dto today s).1 ≡ some p)
        × (promo_state p today ≡ usable)
  unfolding update_promo_code promo_state
  update_promo_code_lem id dto today s p h a = elim (Option-cases (promo_at pt id s)) [
    | inl e ↦ ground (arith, e)
    | inr (c, e) ↦ elim (Bool-cases (name_taken pt dto c s)) [
      | inl n ↦ ground (arith, e, n)
      | inr n ↦ elim (Bool-cases (too_late dto.valid_till today)) [
        | inl d ↦ ground (arith, e, n, d)
        | inr d ↦ elim (Bool-cases (revives dto c today)) [
          | inl r ↦ ground (arith, e, n, d, r)
          | inr r ↦
              let same : edited_promo dto c ≡ p = ground (arith, e, n, d, r) in
              let row = pt.find_update (λ z. z.id == id) (edited_promo dto) s id (λ z. refl) in
              let key = (pt.find_sound (λ z. z.id == id) s c e).0 in
              (
                rw (updated id dto today s c e n d r, row) (ground (arith, e, key, same)),
                rw (← same) (fit_edit dto c today a d r),
              )
        ]
      ]
    ]
  ]
