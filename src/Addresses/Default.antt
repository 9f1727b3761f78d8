-- ===== src/Addresses/Default.antt =====
-- A user has one default address at most.
use v2_backend.Common.Keeps.{Keeps, transaction_at}
use v2_backend.Addresses.{
  AddressTable, SavedAddress, remove_address, address_at, some, find_owned_address, Bool, false,
  undefault, insert_address, create_address, AddressInput, get_or, new_address, clear_default,
  AddressEdit, edit_row, Option, edited_address, write_address, update_address, not, deleted,
  is_some,
}
use v2_backend.Common.{
  ℕ, ◌≡◌, ◌==◌, some, true, Option-cases, inl, arith, inr, ◌∙◌, Bool, false, sym, Bool-cases, ap,
  refl, ◌⊎◌, get_or, ◌&&◌, ◌>>=◌, Option, none, not, is_some,
}

module _ (at : AddressTable) where
  abbrev pub OneDefault : at.Rows → Type 0
  OneDefault s =
      (j k : ℕ) (a b : SavedAddress)
      → address_at at j s ≡ some a
      → address_at at k s ≡ some b
      → a.user ≡ b.user
      → a.is_default ≡ true
      → b.is_default ≡ true
      → j ≡ k

  -- No default but those that were there, of the same users.
  Thinner : at.Rows → at.Rows → Type 0
  Thinner s t =
      (j : ℕ) (a : SavedAddress)
      → address_at at j t ≡ some a
      → a.is_default ≡ true
      → (b : SavedAddress) × (address_at at j s ≡ some b)
        × (b.user ≡ a.user)
        × (b.is_default ≡ true)

  OneDefault-Thinner : (s t : at.Rows) → Thinner s t → OneDefault s → OneDefault t
  unfolding Thinner
  OneDefault-Thinner s t thin h j k a b p q u d f =
      let (x, px, ux, dx) = thin j a p d in
      let (y, qy, uy, dy) = thin k b q f in h j k x y px qy (ux ∙ u ∙ sym uy) dx dy

  Thinner-undefault :
      (P : SavedAddress → Bool) (s : at.Rows) → Thinner s (at.update_many P undefault s).0
  unfolding Thinner
  Thinner-undefault P s j a p d = elim (Option-cases (address_at at j s)) [
    | inl e ↦ ground (arith, at.find_update P undefault s j (λ z. refl), e)
    | inr (x, e) ↦ elim (Bool-cases (P x)) [
      | inl c ↦ ground (arith, at.find_update P undefault s j (λ z. refl), e, c)
      | inr c ↦
          let same : x ≡ a = ground (arith, at.find_update P undefault s j (λ z. refl), e, c) in
          (x, e, ground arith, ground arith)
    ]
  ]

  Thinner-deleted :
      (P : SavedAddress → Bool) (now : ℕ) (s : at.Rows)
      → Thinner s (at.update_many P (deleted now) s).0
  unfolding Thinner
  Thinner-deleted P now s j a p d = elim (Option-cases (address_at at j s)) [
    | inl e ↦ ground (arith, at.find_update P (deleted now) s j (λ z. refl), e)
    | inr (x, e) ↦
        let row = at.find_update P (deleted now) s j (λ z. refl) in
        elim (Bool-cases (P x)) [
          | inl c ↦
              let same : deleted now x ≡ a = ground (arith, row, e, c) in
              (x, e, ap (λ z. z.user) same, ap (λ z. z.is_default) same ∙ d)
          | inr c ↦
              let same : x ≡ a = ground (arith, row, e, c) in
              (x, e, ap (λ z. z.user) same, ap (λ z. z.is_default) same ∙ d)
        ]
  ]

  OneDefault-remove_address : (owner id now : ℕ) → Keeps OneDefault (remove_address at owner id now)
  unfolding remove_address
  OneDefault-remove_address owner id now s h =
      elim (Option-cases (find_owned_address at id owner s)) [
        | inl e ↦ rw (remove_address, e) h
        | inr (x, e) ↦
            rw (remove_address, e)
              (OneDefault-Thinner s (at.update_many (λ a. a.id == id) (deleted now) s).0
                (Thinner-deleted (λ a. a.id == id) now s) h)
      ]

  -- After the defaults of a user were cleared, none of theirs is left.
  cleared :
      (P : SavedAddress → Bool) (s : at.Rows) (j : ℕ) (a : SavedAddress)
      → address_at at j (at.update_many P undefault s).0 ≡ some a
      → a.is_default ≡ true
      → (address_at at j s ≡ some a) × (P a ≡ false)
  cleared P s j a p d = elim (Option-cases (address_at at j s)) [
    | inl e ↦ ground (arith, at.find_update P undefault s j (λ z. refl), e)
    | inr (x, e) ↦ elim (Bool-cases (P x)) [
      | inl c ↦ ground (arith, at.find_update P undefault s j (λ z. refl), e, c)
      | inr c ↦
          let same : x ≡ a = ground (arith, at.find_update P undefault s j (λ z. refl), e, c) in
          (e ∙ ap some same, ap P (sym same) ∙ c)
    ]
  ]

  inserted :
      (row : SavedAddress) (s t : at.Rows)
      → at.create row s ≡ some t
      → (j : ℕ) (a : SavedAddress) → address_at at j t ≡ some a
      → ((row ≡ a) × (row.id ≡ j)) ⊎ (address_at at j s ≡ some a)
  inserted row s t e j a p = elim (Bool-cases (row.id == j)) [
    | inl i ↦ inl (ground (arith, (at.create_some row s e).1 j, i), ground (arith, i))
    | inr i ↦ inr (ground (arith, (at.create_some row s e).1 j, i))
  ]

  -- A row that is the only default of its user, or no default, may come beside the others.
  OneDefault-created :
      (row : SavedAddress) (s t : at.Rows)
      → at.create row s ≡ some t
      → ((j : ℕ) (a : SavedAddress)
          → address_at at j s ≡ some a
          → a.user ≡ row.user
          → a.is_default ≡ true
          → row.is_default ≡ false)
      → OneDefault s
      → OneDefault t
  OneDefault-created row s t e alone h j k a b p q u d f = elim (inserted row s t e j a p) [
    | inl (same, i) ↦ elim (inserted row s t e k b q) [
      | inl (other, l) ↦ sym i ∙ l
      | inr old ↦ ground (arith, alone k b old, same)
    ]
    | inr old ↦ elim (inserted row s t e k b q) [
      | inl (other, l) ↦ ground (arith, alone j a old, other)
      | inr older ↦ h j k a b old older u d f
    ]
  ]

  OneDefault-insert :
      (row : SavedAddress) (s : at.Rows)
      → ((j : ℕ) (a : SavedAddress)
          → address_at at j s ≡ some a
          → a.user ≡ row.user
          → a.is_default ≡ true
          → row.is_default ≡ false)
      → OneDefault s
      → OneDefault (insert_address at row s).1
  unfolding insert_address
  OneDefault-insert row s alone h = elim (Option-cases (at.create row s)) [
    | inl e ↦ rw (insert_address, e) h
    | inr (t, e) ↦ rw (insert_address, e) (OneDefault-created row s t e alone h)
  ]

  OneDefault-create_address :
      (owner : ℕ) (input : AddressInput) (id : ℕ)
      → Keeps OneDefault (create_address at owner input id)
  unfolding create_address
  OneDefault-create_address owner input id s h =
      transaction_at OneDefault
        (clear_default at (get_or input.is_default false) P >>= λ _. insert_address at row) s h
        (placed (get_or input.is_default false) refl)
    where
      P : SavedAddress → Bool
      P a = a.user == owner && a.is_default

      row : SavedAddress
      row = new_address owner input id

      placed :
          (b : Bool)
          → get_or input.is_default false ≡ b
          → OneDefault ((clear_default at b P >>= λ _. insert_address at row) s).1
      placed true c =
          OneDefault-insert row (at.update_many P undefault s).0
            (λ j a p u d. ground (arith, cleared P s j a p d))
            (OneDefault-Thinner s (at.update_many P undefault s).0 (Thinner-undefault P s) h)
      placed false c = OneDefault-insert row s (λ j a p u d. c) h

  -- Where the default of an edited row comes from: it was one, or the edit makes it one.
  Source : ℕ → AddressEdit → at.Rows → ℕ → SavedAddress → Type 0
  Source id input s j a =
      (x : SavedAddress) × (address_at at j s ≡ some x)
      × (x.user ≡ a.user)
      × ((x.is_default ≡ true) ⊎ ((j ≡ id) × (get_or input.is_default false ≡ true)))

  default_source :
      (o : Option Bool) (b : Bool) → get_or o b ≡ true → (b ≡ true) ⊎ (get_or o false ≡ true)
  default_source none b h = inl h
  default_source (some c) b h = inr h

  sourced :
      (id : ℕ) (input : AddressEdit) (s : at.Rows) (j : ℕ) (a : SavedAddress)
      → address_at at j (at.update_many (λ z. z.id == id) (edited_address input) s).0 ≡ some a
      → a.is_default ≡ true
      → Source id input s j a
  unfolding Source
  sourced id input s j a p d =
      let row = at.find_update (λ z. z.id == id) (edited_address input) s j (λ z. refl) in
      elim (Option-cases (address_at at j s)) [
        | inl e ↦ ground (arith, row, e)
        | inr (x, e) ↦
            let own = (at.find_sound (λ z. z.id == j) s x e).0 in
            elim (Bool-cases (x.id == id)) [
              | inr c ↦
                  let same : x ≡ a = ground (arith, row, e, c) in
                  (x, e, ap (λ z. z.user) same, inl (ap (λ z. z.is_default) same ∙ d))
              | inl c ↦
                  let same : edited_address input x ≡ a = ground (arith, row, e, c) in
                  (
                    x,
                    e,
                    ap (λ z. z.user) same,
                    elim (default_source input.is_default x.is_default
                        (ap (λ z. z.is_default) same ∙ d)) [
                          | inl old ↦ inl old
                          | inr new ↦ inr (ground (arith, own, c), new)
                        ],
                  )
            ]
      ]

  -- An edit keeps the condition where nobody else's row of that user is a default when it makes one.
  OneDefault-edited :
      (id : ℕ) (input : AddressEdit) (s : at.Rows)
      → (get_or input.is_default false ≡ true
          → (j : ℕ) (x a : SavedAddress) → address_at at id s ≡ some x
          → address_at at j s ≡ some a
          → a.user ≡ x.user
          → a.is_default ≡ true
          → j ≡ id)
      → OneDefault s
      → OneDefault (at.update_many (λ z. z.id == id) (edited_address input) s).0
  unfolding Source
  OneDefault-edited id input s alone h j k a b p q u d f =
      let (x, px, ux, dx) = sourced id input s j a p d in
      let (y, qy, uy, dy) = sourced id input s k b q f in
      let same = ux ∙ u ∙ sym uy in
      elim dx [
        | inl old ↦ elim dy [
          | inl older ↦ h j k x y px qy same old older
          | inr (at_id, new) ↦ alone new j y x (ground (arith, qy, at_id)) px same old ∙ sym at_id
        ]
        | inr (at_id, new) ↦ elim dy [
          | inl older ↦
              at_id ∙ sym (alone new k x y (ground (arith, px, at_id)) qy (sym same) older)
          | inr (also, _) ↦ at_id ∙ sym also
        ]
      ]

  OneDefault-edit_row :
      (id : ℕ) (input : AddressEdit) (s : at.Rows)
      → (get_or input.is_default false ≡ true
          → (j : ℕ) (x a : SavedAddress) → address_at at id s ≡ some x
          → address_at at j s ≡ some a
          → a.user ≡ x.user
          → a.is_default ≡ true
          → j ≡ id)
      → OneDefault s
      → OneDefault (edit_row at id input s).1
  unfolding edit_row
  OneDefault-edit_row id input s alone h = elim (Option-cases (address_at at id s)) [
    | inl e ↦ rw (edit_row, e) h
    | inr (x, e) ↦ rw (edit_row, e) (OneDefault-edited id input s alone h)
  ]

  OneDefault-write_address :
      (id owner : ℕ) (input : AddressEdit) (s : at.Rows) (x : SavedAddress)
      → address_at at id s ≡ some x
      → x.user ≡ owner
      → OneDefault s
      → OneDefault (write_address at id owner input s).1
  unfolding write_address
  OneDefault-write_address id owner input s x found own h =
      transaction_at OneDefault
        (clear_default at (get_or input.is_default false) P >>= λ _. edit_row at id input) s h
        (after_edit (get_or input.is_default false) refl)
    where
      P : SavedAddress → Bool
      P a = a.user == owner && a.is_default && not (a.id == id)

      t : at.Rows
      t = (at.update_many P undefault s).0

      user_at : (y : SavedAddress) → address_at at id t ≡ some y → y.user ≡ owner
      user_at y e = elim (Bool-cases (P x)) [
        | inl c ↦ ground (arith, at.find_update P undefault s id (λ z. refl), found, c, own)
        | inr c ↦ ground (arith, at.find_update P undefault s id (λ z. refl), found, c, own)
      ]

      after_edit :
          (b : Bool)
          → get_or input.is_default false ≡ b
          → OneDefault ((clear_default at b P >>= λ _. edit_row at id input) s).1
      after_edit true c =
          OneDefault-edit_row id input t
            (λ _ j y a e p u d.
              let (old, passed) = cleared P s j a p d in
              ground (arith, passed, d, u, user_at y e, (at.find_sound (λ z. z.id == j) s a old).0))
            (OneDefault-Thinner s t (Thinner-undefault P s) h)
      after_edit false c = OneDefault-edit_row id input s (λ new. ground (arith, c, new)) h

  OneDefault-update_address :
      (owner id : ℕ) (input : AddressEdit) → Keeps OneDefault (update_address at owner id input)
  unfolding update_address find_owned_address
  OneDefault-update_address owner id input s h =
      elim (Option-cases (find_owned_address at id owner s)) [
        | inl e ↦ rw (update_address, e) h
        | inr (x, e) ↦
            let (found, own) =
              at.find_sound (λ a. (a.id == id && a.user == owner) && not (is_some a.deleted_at)) s x
                e in
            rw (update_address, e)
              (OneDefault-write_address id owner input s x (ground (arith, found, own))
                (ground (arith, found)) h)
      ]

  -- Where no user has two default addresses, none has after an address was saved, edited or removed.
  pub one_default :
      (owner id fresh now : ℕ) (input : AddressInput) (edit : AddressEdit) (s : at.Rows)
      → OneDefault s
      → OneDefault (create_address at owner input fresh s).1
        × OneDefault (update_address at owner id edit s).1
        × OneDefault (remove_address at owner id now s).1
  one_default owner id fresh now input edit s h = (
    OneDefault-create_address owner input fresh s h,
    OneDefault-update_address owner id edit s h,
    OneDefault-remove_address owner id now s h,
  )
