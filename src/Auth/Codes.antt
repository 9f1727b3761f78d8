-- ===== src/Auth/Codes.antt =====
-- Codes by SMS: what a code is good for, and how often it can be guessed.
use v2_backend.Auth.Otp.{
  OtpConfig, issue, verify_otp, check, stored, deliver, refuse, code_for, max_attempts,
}
use v2_backend.Auth.Redis.{Redis, otp_code, otp_cooldown, otp_attempts}
use v2_backend.Common.{
  ℕ, ◌≡◌, some, ok, ◌<◌, err, ◌+◌, Failure, Option-cases, Bool-cases, ltb, inl, arith, inr,
  includes, ◌==◌, true, false, leb, ◌≢◌, Result, ◌≤◌, get_or, refl,
}

module _ (r : Redis) (c : OtpConfig) where
  stored_code :
      (phone code now later : ℕ) (s : r.State)
      → later < now + c.ttl
      → r.get (otp_code phone) later (stored r c phone code now s) ≡ some code
  unfolding stored
  stored_code phone code now later s young =
      let first = r.get_set (otp_code phone) (otp_code phone) code c.ttl now later s in
      let second =
        r.get_set (otp_cooldown phone) (otp_code phone) 1 c.cooldown now later
          (r.set (otp_code phone) code c.ttl now s) in
      let third =
        r.get_del (otp_attempts phone) (otp_code phone) later
          (r.set (otp_cooldown phone) 1 c.cooldown now (r.set (otp_code phone) code c.ttl now s)) in
      ground (arith, first, second, third)

  stored_wait :
      (phone code now later : ℕ) (s : r.State)
      → later < now + c.cooldown
      → ltb 0 (r.ttl (otp_cooldown phone) later (stored r c phone code now s)) ≡ true
  unfolding stored
  stored_wait phone code now later s young =
      let second =
        r.ttl_set (otp_cooldown phone) (otp_cooldown phone) 1 c.cooldown now later
          (r.set (otp_code phone) code c.ttl now s) in
      let third =
        r.ttl_del (otp_attempts phone) (otp_cooldown phone) later
          (r.set (otp_cooldown phone) 1 c.cooldown now (r.set (otp_code phone) code c.ttl now s)) in
      ground (arith, second, third)

  -- A request that returns has stored its code.
  issue_stores :
      (phone random now : ℕ) (s : r.State)
      → (issue r c phone random now s).0 ≡ ok c.cooldown
      → (issue r c phone random now s).1 ≡ stored r c phone (code_for r c phone random) now s
  unfolding issue deliver
  issue_stores phone random now s done =
      elim (Bool-cases (ltb 0 (r.ttl (otp_cooldown phone) now s))) [
        | inl wait ↦ ground arith
        | inr free ↦ elim (Bool-cases (includes phone c.test_phones)) [
          | inl test ↦ ground arith
          | inr real ↦ sent free real (c.send phone (code_for r c phone random)) refl
        ]
      ]
    where
      sent :
          ltb 0 (r.ttl (otp_cooldown phone) now s) ≡ false
          → includes phone c.test_phones ≡ false
          → (x : Result (Unit {0})) → c.send phone (code_for r c phone random) ≡ x
          → (issue r c phone random now s).1 ≡ stored r c phone (code_for r c phone random) now s
      sent free real (ok u) e = ground arith
      sent free real (err w) e = ground arith

  -- If issuing a code returned the cooldown, verifying that code before its lifetime is over returns.
  pub issue_accepts :
      (phone random now later : ℕ) (s : r.State)
      → (issue r c phone random now s).0 ≡ ok c.cooldown
      → later < now + c.ttl
      → (verify_otp r c phone (code_for r c phone random) later (issue r c phone random now s).1).0
        ≡ ok tt
  unfolding verify_otp check
  issue_accepts phone random now later s done young =
      rw (issue_stores phone random now s done)
        (ground (arith, stored_code phone (code_for r c phone random) now later s young))

  -- If issuing a code returned the cooldown, issuing another for that phone before the cooldown is over
  -- throws and changes nothing.
  pub issue_waits :
      (phone random again now later : ℕ) (s : r.State)
      → (issue r c phone random now s).0 ≡ ok c.cooldown
      → later < now + c.cooldown
      → issue r c phone again later (issue r c phone random now s).1
        ≡ (err Failure.too_many_requests, (issue r c phone random now s).1)
  unfolding issue
  issue_waits phone random again now later s done young =
      rw (issue_stores phone random now s done)
        (ground (arith, stored_wait phone (code_for r c phone random) now later s young))

  refuse_throws :
      (phone now : ℕ) (s : r.State) → (refuse r c phone now s).0 ≡ err Failure.unauthenticated
  unfolding refuse
  refuse_throws phone now s =
      elim (Bool-cases (
        leb max_attempts
          (get_or (r.get (otp_attempts phone) now (r.incr (otp_attempts phone) now s)) 0))) [
            | inl e ↦ ground arith
            | inr e ↦ ground arith
          ]

  -- After a code was accepted, verifying any code, at any time before another write, throws and changes
  -- nothing.
  pub verify_once :
      (phone code other now later : ℕ) (s s' : r.State)
      → verify_otp r c phone code now s ≡ (ok tt, s')
      → verify_otp r c phone other later s' ≡ (err Failure.unauthenticated, s')
  unfolding verify_otp check refuse
  verify_once phone code other now later s s' done =
      elim (Option-cases (r.get (otp_code phone) now s)) [
        | inl e ↦ ground arith
        | inr (kept, e) ↦ elim (Bool-cases (kept == code)) [
          | inl same ↦ ground (
            arith,
            r.get_del (otp_attempts phone) (otp_code phone) later (r.del (otp_code phone) s),
            r.get_del (otp_code phone) (otp_code phone) later s,
          )
          | inr other_code ↦ ground (arith, refuse_throws phone now s)
        ]
      ]

  -- If four wrong codes have been counted or more, another wrong code throws and takes the stored code
  -- away: any code verified after it, at any time before another write, throws and changes nothing.
  pub verify_exhausts :
      (phone code kept other now later before : ℕ) (s : r.State)
      → r.get (otp_code phone) now s ≡ some kept
      → kept ≢ code
      → r.get (otp_attempts phone) now s ≡ some before
      → 4 ≤ before
      → let (x, s') = verify_otp r c phone code now s in
        (x ≡ err Failure.unauthenticated)
        × (verify_otp r c phone other later s' ≡ (err Failure.unauthenticated, s'))
  unfolding verify_otp check refuse
  verify_exhausts phone code kept other now later before s e wrong a many =
      let counted = r.get_incr (otp_attempts phone) now s in
      let mid = r.incr (otp_attempts phone) now s in
      let gone = r.get_del (otp_code phone) (otp_code phone) later mid in
      let left =
        r.get_del (otp_attempts phone) (otp_code phone) later (r.del (otp_code phone) mid) in
      ground (arith, counted, gone, left)
