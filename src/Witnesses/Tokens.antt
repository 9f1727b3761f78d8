-- ===== src/Witnesses/Tokens.antt =====
-- The properties of sessions and codes at concrete inputs: one session, and a Redis of functions.
use v2_backend.Auth.Codes.{issue_accepts, issue_waits, verify_once, verify_exhausts}
use v2_backend.Auth.Redis.{Key, in_memory, Entry, otp_code, otp_attempts}
use v2_backend.Auth.Otp.{OtpConfig, issue, verify_otp, deliver, check, code_for}
use v2_backend.Auth.Rotation.{IsSecure, IsEnded}
use v2_backend.Auth.Renewal.{rotate-IsSecure, rotate_once}
use v2_backend.Table.Listed.{visible, listed}
use v2_backend.Auth.Sessions.{
  AuthDb, rotate_refresh_token, rotate_read, rotate_claimed, find_by_token_hash, find_user, claim,
  create_session,
}
use v2_backend.Auth.Model.{
  SessionTable, UserTable, Tokens, RefreshSession, User, Fresh, Meta, UserType, session_id, user_id,
  session_conflict, user_conflict,
}
use v2_backend.Common.{ℕ, ◌≡◌, some, none, ◌+◌, [], Option, ◌∷◌, arith, ok, err, Failure, refl}

abbrev session_table : SessionTable
session_table = listed session_id session_conflict

abbrev user_table : UserTable
user_table = listed user_id user_conflict

abbrev tokens : Tokens
tokens = record {
  hash = λ token. token + 1;
  sign = λ id role jti. jti;
  access_ttl = 900;
  refresh_days = 30;
}

abbrev session : RefreshSession
session = record {
  id = 1;
  user = 2;
  token_hash = 41;
  family = 3;
  user_agent = none;
  ip = none;
  expires_at = 900000;
  revoked_at = none;
  replaced_by = none;
}

abbrev owner : User
owner = record { id = 2; phone = some 99; user_type = UserType.user; deleted_at = none }

abbrev signed_in : AuthDb session_table user_table in_memory
signed_in = record { sessions = session ∷ []; users = owner ∷ []; cache = λ k. none }

abbrev fresh : ℕ → Fresh
fresh n = record { now = 1000 + n; session = n; user = n; family = n; token = n; jti = n }

abbrev meta : Meta
meta = record { user_agent = none; ip = none }

signed_in-IsSecure : IsSecure session_table user_table in_memory signed_in
unfolding visible
signed_in-IsSecure = record {
  single = λ j k a b e f x y o. ground arith;
  distinct = λ j k a b e f o. ground arith;
}

rotate-IsSecure_example :
    IsSecure session_table user_table in_memory
      (rotate_refresh_token session_table user_table in_memory tokens 40 meta
        (fresh 70)
        signed_in).1
rotate-IsSecure_example =
    rotate-IsSecure session_table user_table in_memory tokens 40 meta (fresh 70) signed_in
      signed_in-IsSecure

rotate_once_example :
    let s' =
      (rotate_refresh_token session_table user_table in_memory tokens 40 meta
        (fresh 70)
        signed_in).1 in
    ((rotate_refresh_token session_table user_table in_memory tokens 40 meta (fresh 80) s').0
      ≡ err Failure.unauthenticated)
    × IsEnded session_table user_table in_memory 3
        (rotate_refresh_token session_table user_table in_memory tokens 40 meta (fresh 80) s').1
unfolding visible rotate_refresh_token rotate_read rotate_claimed find_by_token_hash find_user claim
    create_session
rotate_once_example =
    rotate_once session_table user_table in_memory tokens 40 meta meta (fresh 70) (fresh 80)
      signed_in
      (rotate_refresh_token session_table user_table in_memory tokens 40 meta (fresh 70)
        signed_in).1
      (record { access = 70; refresh = 70; expires_in = 900 }) session signed_in-IsSecure refl refl

abbrev sms : OtpConfig
sms = record {
  ttl = 300;
  cooldown = 60;
  test_phones = [];
  test_code = 0;
  send = λ phone code. ok tt;
}

abbrev blank : Key → Option Entry
blank k = none

issue_accepts_example :
    (verify_otp in_memory sms 99
      (code_for in_memory sms 99 1234)
      500
      (issue in_memory sms 99 1234 400 blank).1).0
    ≡ ok tt
unfolding issue deliver
issue_accepts_example = issue_accepts in_memory sms 99 1234 400 500 blank refl (ground arith)

issue_waits_example :
    issue in_memory sms 99 1235 420 (issue in_memory sms 99 1234 400 blank).1
    ≡ (err Failure.too_many_requests, (issue in_memory sms 99 1234 400 blank).1)
unfolding issue deliver
issue_waits_example = issue_waits in_memory sms 99 1234 1235 400 420 blank refl (ground arith)

abbrev sent : Key → Option Entry
sent (otp_code k) = some (1234, some 700)
sent (otp_attempts k) = some (4, none)
sent _ = none

verify_once_example :
    verify_otp in_memory sms 99 1234 600 (verify_otp in_memory sms 99 1234 500 sent).1
    ≡ (err Failure.unauthenticated, (verify_otp in_memory sms 99 1234 500 sent).1)
unfolding verify_otp check
verify_once_example =
    verify_once in_memory sms 99 1234 1234 500 600 sent
      (verify_otp in_memory sms 99 1234 500 sent).1 refl

verify_exhausts_example :
    let (x, s') = verify_otp in_memory sms 99 1111 500 sent in
    (x ≡ err Failure.unauthenticated)
    × (verify_otp in_memory sms 99 1234 510 s' ≡ (err Failure.unauthenticated, s'))
verify_exhausts_example =
    verify_exhausts in_memory sms 99 1111 1234 1234 500 510 4 sent refl (ground arith) refl
      (ground arith)
