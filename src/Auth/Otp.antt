-- ===== src/Auth/Otp.antt =====
-- src/modules/auth/otp.service.ts and token-denylist.service.ts: codes sent by SMS, and access tokens
-- refused before they expire. A random code and the outcome of the SMS are given; logging is left out.
use v2_backend.Auth.Redis.{Redis, otp_attempts, otp_cooldown, otp_code, denied}
use v2_backend.Common.{
  ℕ, List, Result, if◌then◌else◌, Action, Option, Bool, includes, on_error, throw, ltb, is_some,
  ◌>>=◌, ◌>>◌, answer, gets, modify, Failure, pure, throw_if, leb, some, get_or, ◌==◌, ◌-◌, none,
}

-- The configuration, and the SMS gateway.
pub record OtpConfig : Type 0 where
  pub ttl : ℕ
  pub cooldown : ℕ
  pub test_phones : List ℕ
  pub test_code : ℕ
  pub send : ℕ → ℕ → Result (Unit {0})

abbrev pub max_attempts : ℕ
max_attempts = 5

module _ (r : Redis) (c : OtpConfig) where
  -- The code: fixed for a test phone, else the random one.
  unfoldable pub code_for : ℕ → ℕ → ℕ
  code_for phone random = if includes phone c.test_phones then c.test_code else random

  unfoldable pub stored : ℕ → ℕ → ℕ → r.State → r.State
  stored phone code now s =
      r.del (otp_attempts phone)
        (r.set (otp_cooldown phone) 1 c.cooldown now (r.set (otp_code phone) code c.ttl now s))

  -- A failed SMS takes the code and the cooldown back.
  unfoldable pub deliver : ℕ → ℕ → Action r.State ℕ
  deliver phone code =
      on_error (answer (c.send phone code) >> pure c.cooldown)
        (λ e. modify (λ s. r.del (otp_cooldown phone) (r.del (otp_code phone) s)) >> throw e)

  unfoldable pub issue : ℕ → ℕ → ℕ → Action r.State ℕ
  unfolding code_for stored deliver
  issue phone random now = do
    wait ← gets (r.ttl (otp_cooldown phone) now)
    throw_if (ltb 0 wait) Failure.too_many_requests
    modify (stored phone (code_for phone random) now)
    if includes phone c.test_phones then pure c.cooldown else deliver phone (code_for phone random)

  -- A wrong code counts, and the last attempt takes the code away.
  unfoldable pub refuse : ℕ → ℕ → Action r.State (Unit {0})
  refuse phone now = do
    modify (r.incr (otp_attempts phone) now)
    attempts ← gets (r.get (otp_attempts phone) now)
    if leb max_attempts (get_or attempts 0)
        then (modify (λ s. r.del (otp_attempts phone) (r.del (otp_code phone) s))
            >> throw Failure.unauthenticated)
        else throw Failure.unauthenticated

  -- `verify`, with the code that is stored; an empty one is as good as none.
  unfoldable pub check : ℕ → ℕ → ℕ → Option ℕ → Action r.State (Unit {0})
  unfolding refuse
  check phone code now none = throw Failure.unauthenticated
  check phone code now (some kept) =
      if kept == code
      then modify (λ s. r.del (otp_attempts phone) (r.del (otp_code phone) s))
      else refuse phone now

  unfoldable pub verify_otp : ℕ → ℕ → ℕ → Action r.State (Unit {0})
  unfolding check
  verify_otp phone code now = do
    found ← gets (r.get (otp_code phone) now)
    check phone code now found

-- `TokenDenylistService`: an access token is refused until it would have expired anyway.
module _ (r : Redis) where
  unfoldable pub deny : ℕ → ℕ → ℕ → r.State → r.State
  deny jti expires now s = if ltb now expires then r.set (denied jti) 1 (expires - now) now s else s

  unfoldable pub is_revoked : ℕ → ℕ → r.State → Bool
  is_revoked jti now s = is_some (r.get (denied jti) now s)
