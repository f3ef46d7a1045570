-- ===== src/Auth/Login.antt =====
-- `login`, `pinLogin` and `setInitialPassword` (apps/api/src/auth/auth.service.ts). The comparison of
-- a password with its hash, and the hash itself, are parameters, as is the restaurant that a slug
-- names.
pub mod Laws
use bonapp.Base.{
  ℕ, Bool, true, false, Option, none, some, List, [], ◌∷◌, if◌then◌else◌, ◌==◌, ◌&&◌, ◌||◌, not,
  ltb, select, Result, ok, err, Error, require, throw_if, gets, pure, modify, ◌>>=◌, ◌>>◌,
}
use bonapp.Database.{Prisma, UserRole, is_manager, update_many}
use bonapp.Auth.Cache.{Redis, Key, Value, Challenge, get_json, set_json_required}
use bonapp.Auth.Accounts.{
  Account, AuthStore, Session, PinHash, session, of_account, cached, delete, ensure_attempt_allowed,
}

-- `STAFF_ROLES.has(role)`
abbrev pub is_staff_role : UserRole → Bool
is_staff_role UserRole.cashier = true
is_staff_role UserRole.waiter = true
is_staff_role UserRole.chef = true
is_staff_role _ = false

pub data LoginResult : Type 0 where
  signed_in : Session → LoginResult
  challenged : ℕ → LoginResult

abbrev pub has_email : ℕ → ℕ → Account → Bool
has_email tenant email a = a.tenant_id == tenant && a.email == email

-- the row that may sign in with the password, or the exception that is thrown
unfoldable pub checked : (ℕ → ℕ → Bool) → ℕ → Option Account → Result Account
checked compare password none = err Error.unauthorized
checked compare password (some a) =
    if not a.is_active
      || (a.is_blocked || (not (is_manager a.role) || not (compare password a.password_hash)))
    then (if a.is_blocked then err Error.forbidden else err Error.unauthorized)
    else ok a

-- `totpFailCount !== null && totpFailCount > TOTP_FAIL_LIMIT`
abbrev pub too_many_fails : Option Value → Bool
too_many_fails (some (Value.number n)) = ltb 5 n
too_many_fails _ = false

abbrev pub as_result : {A S : Type 0} → Result A → S → Result A × S
as_result r s = (r, s)

-- the plain PIN of an older row, or the hash of a newer one
abbrev pub pin_matches : (ℕ → ℕ → Bool) → ℕ → Option PinHash → Bool
pin_matches compare pin none = false
pin_matches compare pin (some (PinHash.legacy p)) = pin == p
pin_matches compare pin (some (PinHash.hashed h)) = compare pin h

abbrev pub is_legacy : Option PinHash → Bool
is_legacy (some (PinHash.legacy p)) = true
is_legacy _ = false

abbrev pub is_staff_user : ℕ → Account → Bool
is_staff_user tenant a =
    a.tenant_id == tenant && (is_staff_role a.role && (a.is_active && not a.is_blocked))

unfoldable pub matched_users : (ℕ → ℕ → Bool) → ℕ → ℕ → List Account → List Account
matched_users compare tenant pin accounts =
    select (λ (a : Account). pin_matches compare pin a.pin_hash)
      (select (is_staff_user tenant) accounts)

-- `matchedUsers.length !== 1` throws
abbrev pub only_one : List Account → Option Account
only_one (a ∷ []) = some a
only_one _ = none

module _ (redis : Redis) (db : Prisma) (compare : ℕ → ℕ → Bool) (hash : ℕ → ℕ) where
  unfoldable pub answer :
      ℕ → ℕ → Account → AuthStore redis.State → Result LoginResult × AuthStore redis.State
  unfolding get_json set_json_required
  answer new_id now a =
      if a.totp_enabled
      then (do
        fails ← gets (λ s. get_json redis now (Key.totp_fails a.id) s.cache)
        throw_if (too_many_fails fails) Error.too_many
        cached redis (
            set_json_required redis now (Key.totp_challenge new_id)
              (Value.challenge
                (record { is_setup = false; user_id = a.id; tenant_id = a.tenant_id }))
              180)
        pure (LoginResult.challenged new_id))
      else pure (LoginResult.signed_in (session 86400 a))

  -- `new_id` is the random id of a challenge.
  unfoldable pub login :
      ℕ
      → ℕ
      → Option ℕ
      → ℕ
      → ℕ
      → ℕ
      → AuthStore redis.State
      → Result LoginResult × AuthStore redis.State
  login new_id now tenant email password ip = do
    t ← require tenant Error.unauthorized
    ensure_attempt_allowed redis now (Key.login_attempts t ip) 5 900
    user ← gets (λ s. db.find_first (has_email t email) s.accounts)
    a ← as_result (checked compare password user)
    delete redis (Key.login_attempts t ip)
    answer new_id now a

  unfoldable pub pin_login :
      ℕ → Option ℕ → ℕ → ℕ → AuthStore redis.State → Result Session × AuthStore redis.State
  pin_login now tenant pin ip = do
    t ← require tenant Error.unauthorized
    ensure_attempt_allowed redis now (Key.pin_attempts t ip) 5 900
    matched ← gets (λ s. matched_users compare t pin s.accounts)
    a ← require (only_one matched) Error.unauthorized
    (if is_legacy a.pin_hash
        then modify (λ s. record s {
          accounts =
              update_many (of_account a.id t)
                (λ (r : Account). record r { pin_hash = some (PinHash.hashed (hash pin)) })
                s.accounts;
        })
        else pure tt)
    delete redis (Key.pin_attempts t ip)
    pure (session 28800 a)

  abbrev pub is_new_owner : ℕ → ℕ → Account → Bool
  is_new_owner id tenant a =
      of_account id tenant a
      && ((elim a.role [ UserRole.owner ↦ true | _ ↦ false ]) && a.must_change_password)

  -- `size` is the length of the password.
  unfoldable pub set_initial_password :
      ℕ → ℕ → ℕ → ℕ → AuthStore redis.State → Result Bool × AuthStore redis.State
  set_initial_password id tenant password size = do
    throw_if (ltb size 8 || ltb 128 size) Error.bad_request
    user ← require (← gets (λ s. db.find_first (is_new_owner id tenant) s.accounts)) Error.forbidden
    modify (λ s. record s {
      accounts =
          update_many (of_account id tenant)
            (λ (a : Account). record a {
              password_hash = hash password;
              must_change_password = false;
            })
            s.accounts;
    })
    pure true
