-- ===== src/Auth/Codes.antt =====
-- Two-factor sign-in (apps/api/src/auth/auth.service.ts): `setup2fa`, `verify2fa` and
-- `totpVerifyGetCounter`. The code of a secret at a counter, and the encryption of secrets, are
-- parameters.
pub mod Laws
pub mod Replay
use bonapp.Base.{
  ℕ, ◌+◌, ◌-◌, ◌/◌, Bool, true, false, Option, none, some, List, [], ◌∷◌, if◌then◌else◌, ◌==◌, ◌&&◌,
  ◌||◌, not, Result, ok, err, Error, require, throw_if, gets, pure, modify, is_some, ◌>>=◌, ◌>>◌,
}
use bonapp.Database.{Prisma, UserRole, is_manager, update_many}
use bonapp.Auth.Cache.{
  Redis, Key, Value, Challenge, as_challenge, consume_json, set_json_if_absent, set_json_required,
}
use bonapp.Auth.Accounts.{
  Account, AuthStore, Session, session, of_account, cached, delete, ensure_attempt_allowed,
}

-- The counters from one step before to one after the present one, the first that fits.
unfoldable pub totp_counter : (ℕ → ℕ → ℕ) → ℕ → ℕ → ℕ → Option ℕ
totp_counter hotp now secret code =
    let step = now / 30 in
    if hotp secret (step - 1) == code
    then some (step - 1)
    else if hotp secret step == code
    then some step
    else if hotp secret (step + 1) == code
    then some (step + 1)
    else none

pub data Verified : Type 0 where
  totp_enabled : Verified
  signed_in : Session → Verified

pub record Setup : Type 0 where
  pub secret : ℕ
  pub setup_challenge : ℕ

-- the row that may verify a code, or the exception that is thrown
unfoldable pub verifiable : Option Account → Result Account
verifiable none = err Error.unauthorized
verifiable (some a) =
    if a.is_blocked
    then err Error.forbidden
    else if not a.is_active || not (is_some a.totp_secret)
    then err Error.unauthorized
    else ok a

abbrev pub as_result : {A S : Type 0} → Result A → S → Result A × S
as_result r s = (r, s)

-- `decrypt` gives the secret, or fails; `hotp` is the code of a secret at a counter.
module _ (redis : Redis) (db : Prisma) (hotp : ℕ → ℕ → ℕ) (encrypt : ℕ → ℕ)
    (decrypt : ℕ → Result ℕ) where
  abbrev Handler : Type 0 → Type 0
  Handler A = AuthStore redis.State → Result A × AuthStore redis.State

  -- the decrypted secret of a row
  abbrev pub secret_of : Account → Result ℕ
  secret_of a = elim a.totp_secret [ none ↦ err Error.unauthorized | some c ↦ decrypt c ]

  -- The code fits, and no code of the same counter was used.
  unfoldable pub use_code : ℕ → Account → ℕ → Handler ℕ
  unfolding set_json_if_absent
  use_code now a code = do
    secret ← as_result (secret_of a)
    ensure_attempt_allowed redis now (Key.totp_fails a.id) 5 300
    counter ← require (totp_counter hotp now secret code) Error.unauthorized
    marked ←
        cached redis
          (set_json_if_absent redis now (Key.totp_used a.id counter) (Value.number 1) 120)
    throw_if (not marked) Error.unauthorized
    delete redis (Key.totp_fails a.id)
    pure counter

  unfoldable pub finish : Challenge → Account → Handler Verified
  finish c a =
      if c.is_setup
      then (do
        modify (λ s. record s {
          accounts =
              update_many (of_account c.user_id c.tenant_id)
                (λ (r : Account). record r { totp_enabled = true }) s.accounts;
        })
        pure Verified.totp_enabled)
      else pure (Verified.signed_in (session 86400 a))

  -- what a challenge is for: its payload and the row of its user
  unfoldable pub take_challenge : ℕ → ℕ → Handler Challenge
  unfolding consume_json
  take_challenge now id = do
    stored ← cached redis (consume_json redis now (Key.totp_challenge id))
    require (as_challenge stored) Error.unauthorized

  unfoldable pub verify_2fa : ℕ → ℕ → ℕ → Handler Verified
  verify_2fa now id code = do
    c ← take_challenge now id
    user ← gets (λ s. db.find_first (of_account c.user_id c.tenant_id) s.accounts)
    a ← as_result (verifiable user)
    use_code now a code
    finish c a

  -- `secret` and `new_id` are what the random generator gives.
  unfoldable pub setup_2fa : ℕ → ℕ → ℕ → ℕ → ℕ → Handler Setup
  unfolding set_json_required
  setup_2fa secret new_id now id tenant = do
    user ← require (← gets (λ s. db.find_first (of_account id tenant) s.accounts)) Error.forbidden
    throw_if (not (is_manager user.role)) Error.forbidden
    throw_if user.totp_enabled Error.forbidden
    modify (λ s. record s {
      accounts =
          update_many (of_account id tenant)
            (λ (r : Account). record r {
              totp_secret = some (encrypt secret);
              totp_enabled = false;
            })
            s.accounts;
    })
    cached redis (
        set_json_required redis now (Key.totp_challenge new_id)
          (Value.challenge (record { is_setup = true; user_id = user.id; tenant_id = tenant })) 300)
    pure (record { secret = secret; setup_challenge = new_id })
