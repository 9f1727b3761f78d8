-- ===== src/Auth/Renewal.antt =====
-- Renewing a session by its refresh token: once, and for one live session of its family.
use v2_backend.Auth.Rotation.{
  claim_lem, IsSecure, revoke_family-IsSecure, create_session_ends, IsEnded,
  create_session-IsSecure, revoke_family-IsEnded, claim-IsEnded, claim-IsSecure,
}
use v2_backend.Common.Keeps.{state_seq}
use v2_backend.Auth.Sessions.{
  claim, AuthDb, create_session, revoke_family, session_at, claim, is_unrevoked, spent_row,
  rotate_claimed, rotate_refresh_token, rotate_read, find_by_token_hash, new_session, find_user,
  new_pair,
}
use v2_backend.Auth.Redis.{Redis}
use v2_backend.Auth.Model.{
  SessionTable, UserTable, RefreshSession, Tokens, User, Meta, Fresh, TokenPair,
}
use v2_backend.Common.{
  ℕ, ◌≡◌, some, err, inl, ◌==◌, arith, Failure, inr, ◌&&◌, true, ◌⊎◌, Option-cases, ap, ok,
  Bool-cases, refl, ◌∙◌, Action, ◌>>◌, ◌<◌, pure, leb, not, is_some,
}

module _ (st : SessionTable) (ut : UserTable) (r : Redis) (t : Tokens) where
  -- The end of a rotation that claimed its session.
  renewed : RefreshSession → User → Meta → Fresh → Action (AuthDb st ut r) TokenPair
  renewed x u meta f =
      create_session st ut r (new_session st ut r t u.id x.family f meta)
      >> pure (new_pair st ut r t u f)

  rotate_claimed_state :
      (x : RefreshSession) (u : User) (meta : Meta) (f : Fresh) (s : AuthDb st ut r)
      → session_at st ut r x.id s ≡ some x
      → is_unrevoked x ≡ true
      → rotate_claimed st ut r t x u meta f s
        ≡ renewed x u meta f (claim st ut r x.id (t.hash f.token) f.now s).1
  unfolding rotate_claimed renewed
  rotate_claimed_state x u meta f s e up =
      ground (arith, claim_lem st ut r x (t.hash f.token) f.now s e up)

  -- How a rotation ends: for a token of no session, one that has expired, one that was used or whose
  -- user is gone, and one that is good.
  pub rotate_ends :
      (token : ℕ) (meta : Meta) (f : Fresh) (s : AuthDb st ut r)
      → (rotate_refresh_token st ut r t token meta f s ≡ (err Failure.unauthenticated, s))
        ⊎ ((x : RefreshSession) × (st.find (λ y. y.token_hash == t.hash token) s.sessions ≡ some x)
            × ((rotate_refresh_token st ut r t token meta f s
                  ≡ (err Failure.unauthenticated, (revoke_family st ut r x.family f.now s).1))
                ⊎ ((u : User) × (is_unrevoked x ≡ true)
                    × (f.now < x.expires_at)
                    × (rotate_refresh_token st ut r t token meta f s
                        ≡ rotate_claimed st ut r t x u meta f s))))
  unfolding rotate_refresh_token rotate_read find_by_token_hash find_user revoke_family
  rotate_ends token meta f s =
      elim (Option-cases (st.find (λ y. y.token_hash == t.hash token) s.sessions)) [
        | inl e ↦ inl (ground (arith, e))
        | inr (x, e) ↦ elim (Option-cases x.revoked_at) [
          | inr (at, used) ↦ inr (x, e, inl (ground (arith, e, used)))
          | inl live ↦ elim (Bool-cases (leb x.expires_at f.now)) [
            | inl old ↦ inl (ground (arith, e, live, old))
            | inr young ↦
                elim (Option-cases
                  (ut.find (λ u. (u.id == x.user) && not (is_some u.deleted_at)) s.users)) [
                    | inl gone ↦ inr (x, e, inl (ground (arith, e, live, young, gone)))
                    | inr (u, there) ↦ inr (
                      x,
                      e,
                      inr (u, ground arith, ground arith, ground (arith, e, live, young, there)),
                    )
                  ]
          ]
        ]
      ]

  -- Rotating a refresh token keeps the sessions secure, however it ends: no two live sessions share a
  -- family, and no two sessions share a token.
  pub rotate-IsSecure :
      (token : ℕ) (meta : Meta) (f : Fresh) (s : AuthDb st ut r)
      → IsSecure st ut r s
      → IsSecure st ut r (rotate_refresh_token st ut r t token meta f s).1
  unfolding renewed
  rotate-IsSecure token meta f s h = elim (rotate_ends token meta f s) [
    | inl e ↦ rw e h
    | inr (x, found, inl e) ↦ rw e (revoke_family-IsSecure st ut r x.family f.now s h)
    | inr (x, found, inr (u, up, _, e)) ↦
        let here : session_at st ut r x.id s ≡ some x = (st.find_sound _ _ _ found).1 in
        let s' = (claim st ut r x.id (t.hash f.token) f.now s).1 in
        rw (e, rotate_claimed_state x u meta f s here up)
          (rw
            (state_seq (create_session st ut r (new_session st ut r t u.id x.family f meta))
              (pure (new_pair st ut r t u f)) s' (λ z. refl))
            (create_session-IsSecure st ut r (new_session st ut r t u.id x.family f meta) s'
              (claim-IsEnded st ut r x (t.hash f.token) f.now s h here up)
              (claim-IsSecure st ut r x.id (t.hash f.token) f.now s h)))
  ]

  -- The session of a token that was rotated, afterwards.
  spent_after :
      (token : ℕ) (meta : Meta) (f : Fresh) (s s' : AuthDb st ut r) (pair : TokenPair)
      (x : RefreshSession)
      → st.find (λ y. y.token_hash == t.hash token) s.sessions ≡ some x
      → rotate_refresh_token st ut r t token meta f s ≡ (ok pair, s')
      → session_at st ut r x.id s' ≡ some (spent_row st ut r (t.hash f.token) f.now x)
  unfolding renewed
  spent_after token meta f s s' pair x found done = elim (rotate_ends token meta f s) [
    | inl e ↦ ground arith
    | inr (y, found', inl e) ↦ ground arith
    | inr (y, found', inr (u, up, _, e)) ↦
        let same : y ≡ x = ground arith in
        let here : session_at st ut r x.id s ≡ some x = (st.find_sound _ _ _ found).1 in
        let mid = (claim st ut r x.id (t.hash f.token) f.now s).1 in
        let (_, spent) = claim_lem st ut r x (t.hash f.token) f.now s here (rw (← same) up) in
        let ran : rotate_refresh_token st ut r t token meta f s ≡ renewed x u meta f mid =
          e ∙ rw same (rotate_claimed_state x u meta f s here (rw (← same) up)) in
        elim (create_session_ends st ut r (new_session st ut r t u.id x.family f meta) mid) [
          | inl refused ↦ ground (arith, ran, refused, done)
          | inr (made, at, fresh) ↦ ground (
            arith,
            ran,
            made,
            at x.id,
            fresh x.id (spent_row st ut r (t.hash f.token) f.now x) spent,
            spent,
            done,
          )
        ]
  ]

  rotate_used :
      (token at : ℕ) (meta : Meta) (f : Fresh) (s : AuthDb st ut r) (x : RefreshSession)
      → st.find (λ y. y.token_hash == t.hash token) s.sessions ≡ some x
      → x.revoked_at ≡ some at
      → rotate_refresh_token st ut r t token meta f s
        ≡ (err Failure.unauthenticated, (revoke_family st ut r x.family f.now s).1)
  unfolding rotate_refresh_token rotate_read find_by_token_hash revoke_family
  rotate_used token at meta f s x e used = ground (arith, e, used)

  -- In secure stores, after a refresh token was rotated, using it again throws and leaves no live
  -- session in its family.
  pub rotate_once :
      (token : ℕ) (meta meta' : Meta) (f f' : Fresh) (s s' : AuthDb st ut r) (pair : TokenPair)
      (x : RefreshSession)
      → IsSecure st ut r s
      → st.find (λ y. y.token_hash == t.hash token) s.sessions ≡ some x
      → rotate_refresh_token st ut r t token meta f s ≡ (ok pair, s')
      → ((rotate_refresh_token st ut r t token meta' f' s').0 ≡ err Failure.unauthenticated)
        × IsEnded st ut r x.family (rotate_refresh_token st ut r t token meta' f' s').1
  rotate_once token meta meta' f f' s s' pair x h found done =
      let spent = spent_after token meta f s s' pair x found done in
      let hash : x.token_hash ≡ t.hash token = ground (arith, (st.find_sound _ _ _ found).0) in
      let s'-IsSecure : IsSecure st ut r s' =
        rw (ap (λ z. z.1) done) at (rotate-IsSecure token meta f s h) in
      elim (Option-cases (st.find (λ y. y.token_hash == t.hash token) s'.sessions)) [
        | inl lost ↦ absurd (
            ground (
              arith,
              st.find_complete (λ y. y.token_hash == t.hash token) s'.sessions x.id
                  (spent_row st ut r (t.hash f.token) f.now x) lost spent,
              hash,
            ))
        | inr (y, again) ↦
            let (hit, here) =
              st.find_sound (λ z. z.token_hash == t.hash token) s'.sessions y again in
            let same : y.id ≡ x.id =
              s'-IsSecure.distinct y.id x.id y (spent_row st ut r (t.hash f.token) f.now x) here
                spent (ground (arith, hit, hash)) in
            let row : y ≡ spent_row st ut r (t.hash f.token) f.now x =
              ground (arith, here, spent, same) in
            let used = rotate_used token f.now meta' f' s' y again (ap (λ z. z.revoked_at) row) in
            rw used
              (refl, rw (ap (λ z. z.family) row) (revoke_family-IsEnded st ut r x.family f'.now s'))
      ]
