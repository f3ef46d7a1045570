-- ===== src/Tests/Sessions.antt =====
-- Runs of the sign-in of the staff.
use bonapp.Base.{
  All, ℕ, ◌≡◌, refl, Bool, true, false, Option, none, some, List, [], ◌∷◌, ◌==◌, arith, is_ok, inr,
}
use bonapp.Database.Instance.{first_row}
use bonapp.Database.{UserRole}
use bonapp.Auth.Instance.{Map, expiring_map}
use bonapp.Auth.Accounts.{Account, AuthStore, PinHash, of_account}
use bonapp.Auth.Login.{matched_users}
use bonapp.Staff.Members.{deactivate}
use bonapp.Staff.Members.Inactive.{deactivate-refresh}
use bonapp.Auth.Tokens.{Jwt, Claims, verify_token, build_token_pair}
use bonapp.Auth.Sessions.{refresh, logout, change_password}
use bonapp.Auth.Sessions.Laws.{token, change_password-refresh}
use bonapp.Auth.Sessions.Requests.{
  Request, serve_all, is_renewed, refresh-serve_all, logout-serve_all,
}

-- the parts of a token as they are before base64url
data Segment : Type 0 where
  hs256 : Segment
  object : Claims → Segment
  digest : ℕ → Segment

abbrev is_hs256 : Segment → Option Bool
is_hs256 Segment.hs256 = some true
is_hs256 _ = none

abbrev decode : Segment → Option Claims
decode (Segment.object c) = some c
decode _ = none

abbrev read : Segment → ℕ
read (Segment.digest n) = n
read _ = 0

abbrev segments : Jwt
segments = record {
  Part = Segment;
  header = Segment.hs256;
  is_hs256 = is_hs256;
  encode = Segment.object;
  decode = decode;
  hmac = λ secret h p. secret;
  write = Segment.digest;
  read = read;
  header_is_hs256 = refl;
  decode_encode = λ c. refl;
  read_write = λ n. refl;
}

abbrev cook : Account
cook = record {
  id = 4;
  tenant_id = 1;
  email = 8;
  role = UserRole.chef;
  is_active = true;
  is_blocked = false;
  password_hash = 55;
  pin_hash = none;
  totp_secret = none;
  totp_enabled = false;
  must_change_password = false;
  session_version = 6;
  last_login_at = none;
}

abbrev matches : ℕ → ℕ → Bool
matches text hash = hash == text

abbrev same : ℕ → ℕ
same n = n

abbrev kitchen : AuthStore Map
kitchen = record { accounts = cook ∷ []; cache = λ k. none }

-- a refresh token that was issued to the cook at 1000
abbrev issued : List Segment
issued = token expiring_map first_row segments 9 matches same 1000 4 1 UserRole.chef 6 71 72

-- a sign-out with the same token, a change of the password of somebody else, and a sign-in
abbrev between : List (Request Segment)
between =
    Request.logout_request 2200 issued
    ∷ Request.password_request 1 5 50 51 9
    ∷ Request.login_request 81 82 2500 1 8 55 3
    ∷ []

refresh-serve_all_example :
    is_renewed expiring_map first_row segments 9 matches same 1000 4 1 UserRole.chef 6 71 72 75 76
      3000
      (serve_all expiring_map first_row segments 9 matches same between
        (refresh expiring_map first_row segments 9 matches same 73 74 2000 issued kitchen).1)
    ≡ false
unfolding refresh verify_token build_token_pair
refresh-serve_all_example =
    refresh-serve_all expiring_map first_row segments 9 matches same 1000 4 1 UserRole.chef 6 71 72
      73 74 2000 75 76 3000 between kitchen (omega arith) ((omega arith, inr refl), (tt, (tt, tt)))
      refl

logout-serve_all_example :
    is_renewed expiring_map first_row segments 9 matches same 1000 4 1 UserRole.chef 6 71 72 75 76
      3000
      (serve_all expiring_map first_row segments 9 matches same between
        (logout expiring_map first_row segments 9 matches same 2000 issued kitchen).1)
    ≡ false
unfolding logout verify_token build_token_pair
logout-serve_all_example =
    logout-serve_all expiring_map first_row segments 9 matches same 1000 4 1 UserRole.chef 6 71 72
      2000 75 76 3000 between kitchen (omega arith) (omega arith)
      ((omega arith, inr refl), (tt, (tt, tt))) refl

change_password-refresh_example :
    is_ok
      (refresh expiring_map first_row segments 9 matches same 75 76 3000 issued
        (change_password expiring_map first_row segments 9 matches same 1 4 55 77 10 kitchen).1).0
    ≡ false
unfolding change_password
change_password-refresh_example =
    change_password-refresh expiring_map first_row segments 9 matches same 1000 4 1 UserRole.chef 6
      71 72 3000 75 76 55 77 10 kitchen (inr (omega arith), tt) refl

abbrev staff : AuthStore Map
staff = record {
  accounts = record cook { role = UserRole.waiter; pin_hash = some (PinHash.hashed 66) } ∷ [];
  cache = λ k. none;
}

deactivate-refresh_example :
    All
      (λ (u : Account). of_account 4 1 u ≡ false)
      (matched_users matches 1 66 (deactivate 1 4 staff).1.accounts)
    × (is_ok
          (refresh expiring_map first_row segments 9 matches same 75 76 2000
            (token expiring_map first_row segments 9 matches same 1000 4 1 UserRole.waiter 6 71 72)
            (deactivate 1 4 staff).1).0
        ≡ false)
deactivate-refresh_example =
    deactivate-refresh 1 4 expiring_map first_row segments 9 matches same 1000 UserRole.waiter 6 71
      72 2000 75 76 66 staff (inr refl, tt)
