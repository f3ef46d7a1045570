-- ===== src/Auth/Sessions.antt =====
-- `StaffAuthService` (apps/api/src/staff-auth/staff-auth.service.ts): sign-in with tokens, their
-- renewal and their end. bcrypt is a parameter; moments are whole seconds, and one reading of the
-- clock stands for those of a request. DEL is taken to succeed.
pub mod Laws
pub mod Requests
use bonapp.Base.{
  ℕ, ◌+◌, ◌-◌, Bool, true, false, Option, none, some, List, if◌then◌else◌, ◌==◌, ◌&&◌, ◌||◌, not,
  leb, ltb, any, Result, ok, err, Error, require, throw_if, gets, pure, modify, ◌>>=◌, ◌>>◌,
}
use bonapp.Database.{Prisma, update_many}
use bonapp.Auth.Cache.{Redis, Key, Value}
use bonapp.Auth.Guard.{VersionClaim}
use bonapp.Auth.Accounts.{Account, AuthStore, of_account, cached, delete}
use bonapp.Auth.Tokens.{Jwt, TokenPair, TokenType, Payload, verify_token, build_token_pair}

pub record LoginResponse (Part : Type 0) : Type 0 where
  pub access_token : List Part
  pub refresh_token : List Part
  pub must_change_password : Bool

abbrev pub is_refresh : TokenType → Bool
is_refresh TokenType.refresh = true
is_refresh _ = false

-- `payload.sessionVersion !== (user.sessionVersion ?? 0)`
abbrev pub other_version : VersionClaim → ℕ → Bool
other_version (VersionClaim.version v) n = not (v == n)
other_version _ n = true

abbrev pub is_current : ℕ → Account → Bool
is_current tenant a = a.tenant_id == tenant && (a.is_active && not a.is_blocked)

abbrev pub held_by : Payload → Account → Bool
held_by p a = is_current p.tenant_id a && a.id == p.user_id

abbrev pub min : ℕ → ℕ → ℕ
min a b = if leb a b then a else b

-- A command of Redis that fails is thrown on.
abbrev pub or_failure : {A : Type 0} → Option A → Result A
or_failure none = err Error.failure
or_failure (some a) = ok a

abbrev pub as_result : {A S : Type 0} → Result A → S → Result A × S
as_result r s = (r, s)

module _ (redis : Redis) (db : Prisma) (jwt : Jwt) (secret : ℕ) (compare : ℕ → ℕ → Bool)
    (hash : ℕ → ℕ) where
  abbrev Handler : Type 0 → Type 0
  Handler A = AuthStore redis.State → Result A × AuthStore redis.State

  -- a command of Redis, on the whole state
  abbrev pub command : {A : Type 0} → (redis.State → Option A × redis.State) → Handler A
  command f = cached redis (λ c. let (r, c') = f c in (or_failure r, c'))

  unfoldable pub reserve_login_attempt : ℕ → ℕ → Handler (Unit {0})
  reserve_login_attempt now ip = do
    count ← command (redis.incr_ex now (Key.staff_attempts ip) 60)
    throw_if (ltb 5 count) Error.too_many

  unfoldable pub update_account : ℕ → ℕ → (Account → Account) → Handler (Unit {0})
  update_account id tenant data' = do
    accounts ← gets (λ s. s.accounts)
    throw_if (not (any (of_account id tenant) accounts)) Error.failure
    modify (λ s. record s { accounts = update_many (of_account id tenant) data' s.accounts })

  -- `access_jti` and `refresh_jti` are the random ids of the new tokens.
  unfoldable pub login : ℕ → ℕ → ℕ → ℕ → ℕ → ℕ → ℕ → Handler (LoginResponse jwt.Part)
  unfolding reserve_login_attempt update_account
  login access_jti refresh_jti now tenant email password ip = do
    reserve_login_attempt now ip
    user ←
        gets
          (λ s. db.find_first (λ (a : Account). is_current tenant a && a.email == email) s.accounts)
    a ← require user Error.unauthorized
    throw_if a.is_blocked Error.unauthorized
    throw_if (not (compare password a.password_hash)) Error.unauthorized
    delete redis (Key.staff_attempts ip)
    update_account a.id tenant (λ (r : Account). record r { last_login_at = some now })
    (let pair =
          build_token_pair jwt secret now a.id tenant a.role a.session_version access_jti
            refresh_jti in
        pure (record {
          access_token = pair.access_token;
          refresh_token = pair.refresh_token;
          must_change_password = a.must_change_password;
        }))

  -- the row that a refresh token may be renewed for
  unfoldable pub holder : Payload → List Account → Option Account
  holder p accounts = db.find_first (held_by p) accounts

  abbrev pub is_refused : Payload → Account → Bool
  is_refused p a = a.is_blocked || other_version p.session_version a.session_version

  unfoldable pub refresh : ℕ → ℕ → ℕ → List jwt.Part → Handler (TokenPair jwt.Part)
  unfolding holder
  refresh access_jti refresh_jti now token = do
    p ← as_result (verify_token jwt secret now token)
    throw_if (not (is_refresh p.token_type)) Error.unauthorized
    throw_if (leb p.exp now) Error.unauthorized
    user ← gets (λ s. holder p s.accounts)
    a ← require user Error.unauthorized
    throw_if (is_refused p a) Error.unauthorized
    claimed ←
        command (redis.set_nx now (Key.revoked p.jti) (Value.number 1) (min (p.exp - now) 604800))
    throw_if (not claimed) Error.unauthorized
    pure (
        build_token_pair jwt secret now p.user_id p.tenant_id a.role a.session_version access_jti
          refresh_jti)

  unfoldable pub logout : ℕ → List jwt.Part → Handler (Unit {0})
  logout now token s = elim (verify_token jwt secret now token) [
    | err e ↦ (ok tt, s)
    | ok p ↦
        if is_refresh p.token_type && ltb now p.exp
        then command
            (redis.set_ex now (Key.revoked p.jti) (Value.number 1) (min (p.exp - now) 604800)) s
        else (ok tt, s)
  ]

  -- `size` is the length of the new password.
  unfoldable pub change_password : ℕ → ℕ → ℕ → ℕ → ℕ → Handler (Unit {0})
  unfolding update_account
  change_password tenant id current new size = do
    throw_if (ltb size 8) Error.bad_request
    user ←
        gets
          (λ s. db.find_first (λ (a : Account). of_account id tenant a && a.is_active) s.accounts)
    a ← require user Error.unauthorized
    throw_if (not (compare current a.password_hash)) Error.unauthorized
    update_account id tenant (λ (r : Account). record r {
      password_hash = hash new;
      must_change_password = false;
      session_version = r.session_version + 1;
    })
