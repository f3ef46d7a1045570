-- ===== src/Auth/Accounts.antt =====
-- What sign-in reads of a user, and its state: the users and the cache
-- (apps/api/src/auth/auth.service.ts, `ensureAttemptAllowed`, `createJwt`).
use bonapp.Base.{ℕ, Bool, Option, List, ◌==◌, ◌&&◌, ltb, Result, ok, Error, throw_if, ◌>>=◌}
use bonapp.Database.{UserRole}
use bonapp.Auth.Cache.{Redis, Key, increment}

-- A PIN is stored as it is in older rows, and as a hash in newer ones.
pub data PinHash : Type 0 where
  legacy hashed : ℕ → PinHash

pub record Account : Type 0 where
  pub id : ℕ
  pub tenant_id : ℕ
  pub email : ℕ
  pub role : UserRole
  pub is_active : Bool
  pub is_blocked : Bool
  pub password_hash : ℕ
  pub pin_hash : Option PinHash
  pub totp_secret : Option ℕ
  pub totp_enabled : Bool
  pub must_change_password : Bool
  pub session_version : ℕ
  pub last_login_at : Option ℕ

pub record AuthStore (State : Type 0) : Type 0 where
  pub accounts : List Account
  pub cache : State

-- The claims of a token, with its lifetime in seconds.
pub record Session : Type 0 where
  pub tenant_id : ℕ
  pub user_id : ℕ
  pub role : UserRole
  pub ttl : ℕ

abbrev pub session : ℕ → Account → Session
session ttl a = record { tenant_id = a.tenant_id; user_id = a.id; role = a.role; ttl = ttl }

abbrev pub of_account : ℕ → ℕ → Account → Bool
of_account id tenant a = a.id == id && a.tenant_id == tenant

module _ (redis : Redis) where
  -- an operation of the cache, on the whole state
  abbrev pub cached :
      {A : Type 0}
      → (redis.State → Result A × redis.State)
      → AuthStore redis.State
      → Result A × AuthStore redis.State
  cached f s = let (r, cache) = f s.cache in (r, record s { cache = cache })

  abbrev pub delete : Key → AuthStore redis.State → Result (Unit {0}) × AuthStore redis.State
  delete k s = (ok tt, record s { cache = redis.del k s.cache })

  unfoldable pub ensure_attempt_allowed :
      ℕ → Key → ℕ → ℕ → AuthStore redis.State → Result (Unit {0}) × AuthStore redis.State
  unfolding increment
  ensure_attempt_allowed now key limit window = do
    attempts ← cached (increment redis now key window)
    throw_if (ltb limit attempts) Error.too_many
