-- ===== src/Auth/Sessions.antt =====
-- src/modules/auth/auth.service.ts and refresh-session.repository.ts, with the lookups of
-- src/modules/users/users.repository.ts: refresh tokens are kept as hashes, one row per session, and
-- each is used once. Prisma hides the users that are deleted from a `findFirst`.
use v2_backend.Auth.Otp.{OtpConfig, deny, verify_otp}
use v2_backend.Auth.Redis.{Redis}
use v2_backend.Auth.Model.{
  RefreshSession, SessionTable, UserTable, AuthStore, User, Tokens, UserType, Fresh, Meta,
  same_phone, TokenPair,
}
use v2_backend.Common.{
  ℕ, some, none, Bool, not, is_some, Option, Action, ◌==◌, throw, gets, update, ◌>>=◌, ◌>>◌,
  Failure, ◌&&◌, ◌+◌, ◌/◌, pure, ◌*◌, if◌then◌else◌, when, leb, modify,
}

abbrev pub day_ms : ℕ
day_ms = 86_400_000

abbrev pub is_unrevoked : RefreshSession → Bool
is_unrevoked s = not (is_some s.revoked_at)

module _ (st : SessionTable) (ut : UserTable) (r : Redis) where
  abbrev pub AuthDb : Type 0
  AuthDb = AuthStore st.Rows ut.Rows r.State

  abbrev pub session_at : ℕ → AuthDb → Option RefreshSession
  session_at k s = st.find (λ x. x.id == k) s.sessions

  unfoldable pub create_session : RefreshSession → Action AuthDb (Unit {0})
  create_session row s = elim (st.create row s.sessions) [
    | none ↦ throw Failure.duplicate s
    | some rows ↦ pure tt (record s { sessions = rows })
  ]

  unfoldable pub find_by_token_hash : ℕ → Action AuthDb (Option RefreshSession)
  find_by_token_hash hash = gets (λ s. st.find (λ x. x.token_hash == hash) s.sessions)

  abbrev pub update_sessions :
      (RefreshSession → Bool) → (RefreshSession → RefreshSession) → Action AuthDb ℕ
  update_sessions p f =
      update
        (λ s. let (rows, n) = st.update_many p f s.sessions in (n, record s { sessions = rows }))

  abbrev pub spent_row : ℕ → ℕ → RefreshSession → RefreshSession
  spent_row hash now x = record x { revoked_at = some now; replaced_by = some hash }

  abbrev pub revoked_row : ℕ → RefreshSession → RefreshSession
  revoked_row now x = record x { revoked_at = some now }

  -- Claims a session that nobody has rotated yet.
  unfoldable pub claim : ℕ → ℕ → ℕ → Action AuthDb Bool
  claim id hash now = do
    n ← update_sessions (λ x. (x.id == id) && is_unrevoked x) (spent_row hash now)
    pure (n == 1)

  unfoldable pub revoke : ℕ → ℕ → Action AuthDb (Unit {0})
  revoke id now = do
    update_sessions (λ x. (x.id == id) && is_unrevoked x) (revoked_row now)
    pure tt

  unfoldable pub revoke_family : ℕ → ℕ → Action AuthDb (Unit {0})
  revoke_family family now = do
    update_sessions (λ x. (x.family == family) && is_unrevoked x) (revoked_row now)
    pure tt

  unfoldable pub revoke_all_for_user : ℕ → ℕ → Action AuthDb (Unit {0})
  revoke_all_for_user user_key now = do
    update_sessions (λ x. (x.user == user_key) && is_unrevoked x) (revoked_row now)
    pure tt

  unfoldable pub find_user : ℕ → Action AuthDb (Option User)
  find_user id = gets (λ s. ut.find (λ u. (u.id == id) && not (is_some u.deleted_at)) s.users)

  unfoldable pub find_by_phone : ℕ → Action AuthDb (Option User)
  find_by_phone phone =
      gets
        (λ s. ut.find (λ u. same_phone u.phone (some phone) && not (is_some u.deleted_at)) s.users)

  abbrev pub bare_user : ℕ → ℕ → User
  bare_user id phone = record {
    id = id;
    phone = some phone;
    user_type = UserType.user;
    deleted_at = none;
  }

  unfoldable pub create_by_phone : ℕ → ℕ → Action AuthDb User
  create_by_phone id phone s = elim (ut.create (bare_user id phone) s.users) [
    | none ↦ throw Failure.duplicate s
    | some rows ↦ pure (bare_user id phone) (record s { users = rows })
  ]

  module _ (t : Tokens) where
    abbrev pub new_session : ℕ → ℕ → Fresh → Meta → RefreshSession
    new_session owner family f meta = record {
      id = f.session;
      user = owner;
      token_hash = t.hash f.token;
      family = family;
      user_agent = meta.user_agent;
      ip = meta.ip;
      expires_at = f.now + t.refresh_days * day_ms;
      revoked_at = none;
      replaced_by = none;
    }

    abbrev pub new_pair : User → Fresh → TokenPair
    new_pair owner f = record {
      access = t.sign owner.id owner.user_type f.jti;
      refresh = f.token;
      expires_in = t.access_ttl;
    }

    unfoldable pub issue_token_pair : User → Meta → ℕ → Fresh → Action AuthDb TokenPair
    issue_token_pair owner meta family f = do
      create_session (new_session owner.id family f meta)
      pure (new_pair owner f)

    abbrev pub invalid : {A : Type 0} → Action AuthDb A
    invalid = throw Failure.unauthenticated

    -- A session that was read as unrevoked and unexpired, of a user who is there.
    unfoldable pub rotate_claimed : RefreshSession → User → Meta → Fresh → Action AuthDb TokenPair
    rotate_claimed session owner meta f = do
      claimed ← claim session.id (t.hash f.token) f.now
      if claimed
          then (create_session (new_session owner.id session.family f meta)
              >> pure (new_pair owner f))
          else (revoke_family session.family f.now >> invalid)

    unfoldable pub rotate_read : RefreshSession → Meta → Fresh → Action AuthDb TokenPair
    unfolding rotate_claimed
    rotate_read session meta f =
        if is_some session.revoked_at
        then (revoke_family session.family f.now >> invalid)
        else if leb session.expires_at f.now
        then invalid
        else do
          owner ← find_user session.user
          elim owner [
            | none ↦ revoke_family session.family f.now >> invalid
            | some u ↦ rotate_claimed session u meta f
          ]

    unfoldable pub rotate_refresh_token : ℕ → Meta → Fresh → Action AuthDb TokenPair
    unfolding rotate_read
    rotate_refresh_token token meta f = do
      found ← find_by_token_hash (t.hash token)
      elim found [ none ↦ invalid | some session ↦ rotate_read session meta f ]

    abbrev pub on_cache : {A : Type 0} → Action r.State A → Action AuthDb A
    on_cache m s = let (x, c) = m s.cache in (x, record s { cache = c })

    unfoldable pub login_with_phone : OtpConfig → ℕ → ℕ → Meta → Fresh → Action AuthDb TokenPair
    unfolding issue_token_pair
    login_with_phone c phone code meta f = do
      on_cache (verify_otp r c phone code (f.now / 1000))
      found ← find_by_phone phone
      owner ← (elim found [ none ↦ create_by_phone f.user phone | some u ↦ pure u ])
      issue_token_pair owner meta f.family f

    abbrev pub denying : ℕ → ℕ → ℕ → AuthDb → AuthDb
    denying jti expires now s = record s { cache = deny r jti expires (now / 1000) s.cache }

    -- Only its owner ends a session; the access token is refused either way.
    unfoldable pub logout : ℕ → ℕ → ℕ → ℕ → ℕ → Action AuthDb (Unit {0})
    logout caller jti expires token now = do
      found ← find_by_token_hash (t.hash token)
      elim found [
        | none ↦ pure tt
        | some session ↦ when (session.user == caller) (revoke session.id now)
      ]
      modify (denying jti expires now)
