-- ===== src/Auth/Redis.antt =====
-- Redis as the token denylist and the codes use it, through a client that is not part of the
-- repository: an interface, with what Redis documents of its commands as laws, and an implementation
-- by functions. Times are in seconds.
use v2_backend.Common.{
  ℕ, ◌≡◌, Bool, true, Option, ◌==◌, arith, if◌then◌else◌, some, false, ltb, suc, ◌+◌, none, get_or,
  Bool-cases, refl, inl, inr, ◌-◌,
}

-- The keys, by their prefix.
pub data Key : Type 0 where
  denied otp_code otp_cooldown otp_attempts : ℕ → Key

abbrev pub same_key : Key → Key → Bool
same_key (denied a) (denied b) = a == b
same_key (otp_code a) (otp_code b) = a == b
same_key (otp_cooldown a) (otp_cooldown b) = a == b
same_key (otp_attempts a) (otp_attempts b) = a == b
same_key _ _ = false

pub same_key_refl : (a : Key) → same_key a a ≡ true
same_key_refl a = ground arith

pub record Redis : Type 1 where
  pub State : Type 0
  -- `GET` and `TTL` at a time; no time to live is 0
  pub get : Key → ℕ → State → Option ℕ
  pub ttl : Key → ℕ → State → ℕ
  -- `SET key value EX seconds` at a time
  pub set : Key → ℕ → ℕ → ℕ → State → State
  pub del : Key → State → State
  -- `INCR` at a time
  pub incr : Key → ℕ → State → State
  pub get_set :
      (a b : Key) (v seconds now later : ℕ) (s : State)
      → get b later (set a v seconds now s) ≡ (
          if same_key a b
          then (if ltb later (now + seconds) then some v else none)
          else get b later s)
  pub ttl_set :
      (a b : Key) (v seconds now later : ℕ) (s : State)
      → ttl b later (set a v seconds now s)
        ≡ (if same_key a b then (now + seconds) - later else ttl b later s)
  pub get_del :
      (a b : Key) (later : ℕ) (s : State)
      → get b later (del a s) ≡ (if same_key a b then none else get b later s)
  pub ttl_del :
      (a b : Key) (later : ℕ) (s : State)
      → ttl b later (del a s) ≡ (if same_key a b then 0 else ttl b later s)
  pub get_incr :
      (a : Key) (now : ℕ) (s : State)
      → get a now (incr a now s) ≡ some (suc (get_or (get a now s) 0))
  pub get_incr_ne :
      (a b : Key) (now later : ℕ) (s : State)
      → same_key a b ≡ false
      → get b later (incr a now s) ≡ get b later s

-- A value, and when it expires if it does.
abbrev pub Entry : Type 0
Entry = ℕ × Option ℕ

abbrev pub live : Option Entry → ℕ → Option ℕ
live none now = none
live (some (v, none)) now = some v
live (some (v, some until)) now = if ltb now until then some v else none

abbrev pub left : Option Entry → ℕ → ℕ
left none now = 0
left (some (v, none)) now = 0
left (some (v, some until)) now = until - now

-- `INCR` keeps the time to live of a key that is there.
abbrev pub raised : Option Entry → ℕ → Entry
raised none now = (1, none)
raised (some (v, none)) now = (suc v, none)
raised (some (v, some until)) now = if ltb now until then (suc v, some until) else (1, none)

abbrev pub put : Key → Option Entry → (Key → Option Entry) → Key → Option Entry
put a e s b = if same_key a b then e else s b

pub live-raised :
    (x : Option Entry) (now : ℕ)
    → live (some (raised x now)) now ≡ some (suc (get_or (live x now) 0))
live-raised none now = refl
live-raised (some (v, none)) now = refl
live-raised (some (v, some until)) now = ground arith

abbrev pub in_memory : Redis
in_memory = record {
  State = Key → Option Entry;
  get = λ k now s. live (s k) now;
  ttl = λ k now s. left (s k) now;
  set = λ k v seconds now s. put k (some (v, some (now + seconds))) s;
  del = λ k s. put k none s;
  incr = λ k now s. put k (some (raised (s k) now)) s;
  get_set = λ a b v seconds now later s. elim (Bool-cases (same_key a b)) [
    | inl e ↦ rw e refl
    | inr e ↦ rw e refl
  ];
  ttl_set = λ a b v seconds now later s. elim (Bool-cases (same_key a b)) [
    | inl e ↦ rw e refl
    | inr e ↦ rw e refl
  ];
  get_del =
      λ a b later s. elim (Bool-cases (same_key a b)) [ inl e ↦ rw e refl | inr e ↦ rw e refl ];
  ttl_del =
      λ a b later s. elim (Bool-cases (same_key a b)) [ inl e ↦ rw e refl | inr e ↦ rw e refl ];
  get_incr = λ a now s. rw (same_key_refl a) (live-raised (s a) now);
  get_incr_ne = λ a b now later s e. rw e refl;
}
