-- ===== src/Auth/Model.antt =====
-- The rows of prisma/schema.prisma behind the sessions, and what comes from outside.
use v2_backend.Table.{Table}
use v2_backend.Common.{some, ℕ, Option, Bool, ◌==◌, ◌||◌, false}

pub data UserType : Type 0 where
  user admin super_admin : UserType

pub record User : Type 0 where
  pub id : ℕ
  pub phone : Option ℕ
  pub user_type : UserType
  pub deleted_at : Option ℕ

pub record RefreshSession : Type 0 where
  pub id : ℕ
  pub user : ℕ
  pub token_hash : ℕ
  pub family : ℕ
  pub user_agent : Option ℕ
  pub ip : Option ℕ
  pub expires_at : ℕ
  pub revoked_at : Option ℕ
  pub replaced_by : Option ℕ

abbrev pub user_id : User → ℕ
user_id u = u.id

abbrev pub session_id : RefreshSession → ℕ
session_id s = s.id

abbrev pub same_phone : Option ℕ → Option ℕ → Bool
same_phone (some a) (some b) = a == b
same_phone _ _ = false

-- The unique indexes.
abbrev pub user_conflict : User → User → Bool
user_conflict a b = b.id == a.id || same_phone b.phone a.phone

abbrev pub session_conflict : RefreshSession → RefreshSession → Bool
session_conflict a b = b.id == a.id || b.token_hash == a.token_hash

abbrev pub SessionTable : Type 1
SessionTable = Table RefreshSession session_id session_conflict

abbrev pub UserTable : Type 1
UserTable = Table User user_id user_conflict

pub record AuthStore (Sessions Users Cache : Type 0) : Type 0 where
  pub sessions : Sessions
  pub users : Users
  pub cache : Cache

-- SHA-256 of a token, the JWT library, and the configured lifetimes (seconds and days).
pub record Tokens : Type 0 where
  pub hash : ℕ → ℕ
  pub sign : ℕ → UserType → ℕ → ℕ
  pub access_ttl : ℕ
  pub refresh_days : ℕ

-- The clock in milliseconds, and what is generated: row identifiers, a family, a token and a `jti`.
pub record Fresh : Type 0 where
  pub now : ℕ
  pub session : ℕ
  pub user : ℕ
  pub family : ℕ
  pub token : ℕ
  pub jti : ℕ

pub record Meta : Type 0 where
  pub user_agent : Option ℕ
  pub ip : Option ℕ

pub record TokenPair : Type 0 where
  pub access : ℕ
  pub refresh : ℕ
  pub expires_in : ℕ
