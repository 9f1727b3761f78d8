-- ===== src/Auth/Rotation.antt =====
-- Refresh tokens: each is used once, and every family of sessions has one that is live at most.
use v2_backend.Table.{revised}
use v2_backend.Auth.Sessions.{
  claim, AuthDb, create_session, revoke_family, session_at, claim, is_unrevoked, revoked_row,
  spent_row,
}
use v2_backend.Auth.Redis.{Redis}
use v2_backend.Auth.Model.{SessionTable, UserTable, RefreshSession, session_conflict}
use v2_backend.Common.{
  ℕ, ◌≡◌, some, Bool, err, inl, ◌==◌, arith, Failure, inr, ◌&&◌, true, false, ◌⊎◌, ◌≢◌,
  Option-cases, ap, ok, Bool-cases, refl, sym, if◌then◌else◌, ◌∙◌,
}

module _ (st : SessionTable) (ut : UserTable) (r : Redis) where
  -- No two live sessions share a family, and no two sessions share a token.
  pub record IsSecure (s : AuthDb st ut r) : Type 0 where
    pub single :
        (j k : ℕ) (a b : RefreshSession)
        → session_at st ut r j s ≡ some a
        → session_at st ut r k s ≡ some b
        → is_unrevoked a ≡ true
        → is_unrevoked b ≡ true
        → a.family ≡ b.family
        → j ≡ k
    pub distinct :
        (j k : ℕ) (a b : RefreshSession)
        → session_at st ut r j s ≡ some a
        → session_at st ut r k s ≡ some b
        → a.token_hash ≡ b.token_hash
        → j ≡ k

  -- No session of the family is live.
  abbrev pub IsEnded : ℕ → AuthDb st ut r → Type 0
  IsEnded family s =
      (k : ℕ) (a : RefreshSession)
      → session_at st ut r k s ≡ some a
      → is_unrevoked a ≡ true
      → a.family ≢ family

  abbrev pub sessions_store :
      (RefreshSession → Bool) → (RefreshSession → RefreshSession) → AuthDb st ut r → AuthDb st ut r
  sessions_store P F s = record s { sessions = (st.update_many P F s.sessions).0 }

  session_key :
      (k : ℕ) (s : AuthDb st ut r) (a : RefreshSession) → session_at st ut r k s ≡ some a → a.id ≡ k
  session_key k s a e = ground (arith, (st.find_sound _ _ _ e).0)

  module _ (P : RefreshSession → Bool) (F : RefreshSession → RefreshSession)
      (key : (x : RefreshSession) → (F x).id ≡ x.id)
      (hash : (x : RefreshSession) → (F x).token_hash ≡ x.token_hash)
      (dead : (x : RefreshSession) → is_unrevoked (F x) ≡ false) (s : AuthDb st ut r) where
    session-sessions_store :
        (k : ℕ) → session_at st ut r k (sessions_store P F s) ≡ revised P F (session_at st ut r k s)
    session-sessions_store k = st.find_update P F s.sessions k key

    -- Where a row of the new store comes from; one that is live was not touched.
    before :
        (k : ℕ) (a : RefreshSession)
        → session_at st ut r k (sessions_store P F s) ≡ some a
        → (b : RefreshSession) × (session_at st ut r k s ≡ some b)
          × (a.token_hash ≡ b.token_hash)
          × (is_unrevoked a ≡ true → (a ≡ b) × (P b ≡ false))
    before k a e = elim (Option-cases (session_at st ut r k s)) [
      | inl x ↦ ground (arith, session-sessions_store k)
      | inr (b, x) ↦ elim (Bool-cases (P b)) [
        | inl hit ↦ (
          b,
          x,
          ground (arith, session-sessions_store k, hash b),
          λ up. ground (arith, session-sessions_store k, dead b),
        )
        | inr miss ↦ (
          b,
          x,
          ground (arith, session-sessions_store k),
          λ up. (ground (arith, session-sessions_store k), miss),
        )
      ]
    ]

    sessions_store-IsSecure : IsSecure s → IsSecure (sessions_store P F s)
    sessions_store-IsSecure h = record {
      single = λ j k a b e f x y o.
          let (a', ea, _, same_a) = before j a e in
          let (b', eb, _, same_b) = before k b f in
          h.single j k a' b' ea eb (rw (← (same_a x).0) x) (rw (← (same_b y).0) y)
            (ap (λ z. z.family) (sym (same_a x).0) ∙ o ∙ ap (λ z. z.family) (same_b y).0);
      distinct = λ j k a b e f o.
          let (a', ea, ha, _) = before j a e in
          let (b', eb, hb, _) = before k b f in h.distinct j k a' b' ea eb (sym ha ∙ o ∙ hb);
    }

  -- What a session that is created leaves.
  pub create_session_ends :
      (row : RefreshSession) (s : AuthDb st ut r)
      → (create_session st ut r row s ≡ (err Failure.duplicate, s))
        ⊎ (((create_session st ut r row s).0 ≡ ok tt)
            × ((k : ℕ)
                → session_at st ut r k (create_session st ut r row s).1
                  ≡ (if row.id == k then some row else session_at st ut r k s))
            × ((k : ℕ) (a : RefreshSession)
                → session_at st ut r k s ≡ some a
                → (row.id ≢ k) × (a.token_hash ≢ row.token_hash)))
  unfolding create_session
  create_session_ends row s = elim (Option-cases (st.create row s.sessions)) [
    | inl e ↦ inl (ground (arith, e))
    | inr (rows, e) ↦
        let (free, at) = st.create_some row s.sessions e in
        inr (
          ground (arith, e),
          (λ k. ground (arith, e, at k)),
          λ k a f.
              let clash = st.find_complete (session_conflict row) s.sessions k a free f in
              let here = session_key k s a f in
              ((λ same. ground (arith, clash, here)), λ same. ground (arith, clash)),
        )
  ]

  pub create_session-IsSecure :
      (row : RefreshSession) (s : AuthDb st ut r)
      → IsEnded row.family s
      → IsSecure s
      → IsSecure (create_session st ut r row s).1
  create_session-IsSecure row s ended h = elim (create_session_ends row s) [
    | inl e ↦ rw e h
    | inr (_, at, fresh) ↦
        let old : (k : ℕ) (a : RefreshSession)
            → session_at st ut r k (create_session st ut r row s).1 ≡ some a
            → ((row.id ≡ k) × (a ≡ row)) ⊎ (session_at st ut r k s ≡ some a) =
          λ k a e. elim (Bool-cases (row.id == k)) [
            | inl same ↦ inl (ground arith, ground (arith, at k))
            | inr other ↦ inr (ground (arith, at k))
          ] in
        record {
          single = λ j k a b e f x y o. elim (old j a e) [
            | inl (ja, ra) ↦ elim (old k b f) [
              | inl (kb, rb) ↦ ground arith
              | inr g ↦ absurd (ended k b g y (sym o ∙ ap (λ z. z.family) ra))
            ]
            | inr g ↦ elim (old k b f) [
              | inl (kb, rb) ↦ absurd (ended j a g x (o ∙ ap (λ z. z.family) rb))
              | inr g' ↦ h.single j k a b g g' x y o
            ]
          ];
          distinct = λ j k a b e f o. elim (old j a e) [
            | inl (ja, ra) ↦ elim (old k b f) [
              | inl (kb, rb) ↦ ground arith
              | inr g ↦ absurd ((fresh k b g).1 (sym o ∙ ap (λ z. z.token_hash) ra))
            ]
            | inr g ↦ elim (old k b f) [
              | inl (kb, rb) ↦ absurd ((fresh j a g).1 (o ∙ ap (λ z. z.token_hash) rb))
              | inr g' ↦ h.distinct j k a b g g' o
            ]
          ];
        }
  ]

  -- Ending a family.
  pub revoke_family-IsEnded :
      (family now : ℕ) (s : AuthDb st ut r) → IsEnded family (revoke_family st ut r family now s).1
  unfolding revoke_family
  revoke_family-IsEnded family now s k a e up same =
      let (b, _, _, kept) =
        before (λ x. (x.family == family) && is_unrevoked x) (revoked_row st ut r now) (λ x. refl)
          (λ x. refl) (λ x. refl) s k a e in
      let (eq, missed) = kept up in ground (arith, eq, missed)

  pub revoke_family-IsSecure :
      (family now : ℕ) (s : AuthDb st ut r)
      → IsSecure s
      → IsSecure (revoke_family st ut r family now s).1
  unfolding revoke_family
  revoke_family-IsSecure family now s h =
      sessions_store-IsSecure (λ x. (x.family == family) && is_unrevoked x)
        (revoked_row st ut r now) (λ x. refl) (λ x. refl) (λ x. refl) s h

  -- Claiming the one live session of a family ends the family.
  pub claim-IsEnded :
      (x : RefreshSession) (hash now : ℕ) (s : AuthDb st ut r)
      → IsSecure s
      → session_at st ut r x.id s ≡ some x
      → is_unrevoked x ≡ true
      → IsEnded x.family (claim st ut r x.id hash now s).1
  unfolding claim
  claim-IsEnded x hash now s h e up k a f live same =
      let (b, g, _, kept) =
        before (λ y. (y.id == x.id) && is_unrevoked y) (spent_row st ut r hash now) (λ x. refl)
          (λ x. refl) (λ x. refl) s k a f in
      let (eq, missed) = kept live in
      let here : k ≡ x.id =
        h.single k x.id b x g e (rw (← eq) live) up (ap (λ z. z.family) (sym eq) ∙ same) in
      ground (arith, missed, session_key k s b g, eq)

  pub claim-IsSecure :
      (id hash now : ℕ) (s : AuthDb st ut r) → IsSecure s → IsSecure (claim st ut r id hash now s).1
  unfolding claim
  claim-IsSecure id hash now s h =
      sessions_store-IsSecure (λ x. (x.id == id) && is_unrevoked x) (spent_row st ut r hash now)
        (λ x. refl) (λ x. refl) (λ x. refl) s h

  -- A claim goes through for a live session, and spends it.
  pub claim_lem :
      (x : RefreshSession) (hash now : ℕ) (s : AuthDb st ut r)
      → session_at st ut r x.id s ≡ some x
      → is_unrevoked x ≡ true
      → ((claim st ut r x.id hash now s).0 ≡ ok true)
        × (session_at st ut r x.id (claim st ut r x.id hash now s).1
            ≡ some (spent_row st ut r hash now x))
  unfolding claim
  claim_lem x hash now s e up = (
    ground (arith, st.count_unique is_unrevoked (spent_row st ut r hash now) s.sessions x.id),
    ground (
      arith,
      session-sessions_store (λ y. (y.id == x.id) && is_unrevoked y) (spent_row st ut r hash now)
          (λ x. refl) (λ x. refl) (λ x. refl) s x.id,
    ),
  )
