-- ===== src/Tests/Auth.antt =====
-- Runs of the sign-in operations.
use bonapp.Base.{
  ℕ, ◌≡◌, refl, Bool, true, false, none, some, [], ◌∷◌, arith, ok, is_ok, Result, ◌==◌,
}
use bonapp.Database.Instance.{first_row}
use bonapp.Database.{UserRole}
use bonapp.Auth.Instance.{Map, expiring_map, entry, put}
use bonapp.Auth.Cache.{Key, Value, Challenge, same_key}
use bonapp.Auth.Accounts.{ensure_attempt_allowed, Account, AuthStore, PinHash, session}
use bonapp.Auth.Login.{LoginResult, answer, checked, login, pin_login, matched_users}
use bonapp.Auth.Login.Laws.{
  Permitted, is_challenged, login-Permitted, MayEnter, IsAlone, pin_login-single,
}
use bonapp.Auth.Base32.{base32_encode, base32_decode}
use bonapp.Auth.Base32.RoundTrip.{base32_decode-base32_encode}
use bonapp.Auth.Codes.{verify_2fa, take_challenge, verifiable, use_code, totp_counter, finish}
use bonapp.Auth.Codes.Laws.{verify_2fa-verify_2fa}
use bonapp.Auth.Codes.Replay.{Used, verify_2fa-replay}

abbrev manager : Account
manager = record {
  id = 3;
  tenant_id = 1;
  email = 8;
  role = UserRole.manager;
  is_active = true;
  is_blocked = false;
  password_hash = 55;
  pin_hash = none;
  totp_secret = some 9;
  totp_enabled = true;
  must_change_password = false;
  session_version = 6;
  last_login_at = none;
}

abbrev waiter : Account
waiter = record manager {
  id = 4;
  role = UserRole.waiter;
  pin_hash = some (PinHash.hashed 66);
  totp_enabled = false;
}

abbrev matches : ℕ → ℕ → Bool
matches text hash = hash == text

abbrev same : ℕ → ℕ
same n = n

abbrev start : AuthStore Map
start = record { accounts = manager ∷ waiter ∷ []; cache = λ k. none }

login-Permitted_example :
    (a : Account) × Permitted expiring_map first_row matches same 1 start 8 55 a
    × (is_challenged (LoginResult.challenged 70) ≡ a.totp_enabled)
unfolding login ensure_attempt_allowed checked answer
login-Permitted_example =
    login-Permitted expiring_map first_row matches same 1 start 70 1000 8 55 2
      (LoginResult.challenged 70) refl

pin_login-single_example :
    (a : Account) × MayEnter matches 1 66 a
    × IsAlone matches 1 66 a start.accounts
    × (session 28800 waiter ≡ session 28800 a)
unfolding pin_login ensure_attempt_allowed matched_users
pin_login-single_example =
    pin_login-single expiring_map first_row matches same 1 start 1000 66 2 (session 28800 waiter)
      refl

abbrev login_challenge : Challenge
login_challenge = record { is_setup = false; user_id = 3; tenant_id = 1 }

-- two challenges wait for the manager
abbrev waiting : AuthStore Map
waiting = record start {
  cache = put (Key.totp_challenge 70) (some (entry (Value.challenge login_challenge) 1180)) (
      put (Key.totp_challenge 71) (some (entry (Value.challenge login_challenge) 1180))
        (λ k. none));
}

-- the code of a counter is the counter
abbrev hotp : ℕ → ℕ → ℕ
hotp secret counter = counter

abbrev decrypt : ℕ → Result ℕ
decrypt n = ok n

verify_2fa-verify_2fa_example :
    is_ok
      (verify_2fa expiring_map first_row hotp same decrypt 1020 70 34
        (verify_2fa expiring_map first_row hotp same decrypt 1000 70 33 waiting).1).0
    ≡ false
unfolding take_challenge
verify_2fa-verify_2fa_example =
    verify_2fa-verify_2fa expiring_map first_row hotp same decrypt 1000 1020 70 33 34
      login_challenge waiting refl

verify_2fa-replay_example :
    (a : Account) × (a' : Account) × (n : ℕ) × (n' : ℕ) × Used expiring_map first_row hotp same
      decrypt 1000 70 33 waiting a n
    × Used expiring_map first_row hotp same decrypt 1020 71 34
        (verify_2fa expiring_map first_row hotp same decrypt 1000 70 33 waiting).1
        a'
        n'
    × (same_key (Key.totp_used a.id n) (Key.totp_used a'.id n') ≡ false)
unfolding verify_2fa take_challenge verifiable use_code ensure_attempt_allowed totp_counter finish
verify_2fa-replay_example =
    verify_2fa-replay expiring_map first_row hotp same decrypt 1000 1020 70 71 33 34 waiting
      (ground arith) refl refl

base32_decode-base32_encode_example :
    base32_decode (base32_encode (104 ∷ 105 ∷ 33 ∷ [])) ≡ ok (104 ∷ 105 ∷ 33 ∷ [])
base32_decode-base32_encode_example =
    base32_decode-base32_encode (104 ∷ 105 ∷ 33 ∷ [])
      (omega arith, (omega arith, (omega arith, tt)))
