-- ===== src/Tests/Guard.antt =====
-- Runs of the guard.
use bonapp.Base.{ℕ, ◌≡◌, refl, true, false, none, some, List, [], ◌∷◌, ◌==◌}
use bonapp.Database.Instance.{first_row}
use bonapp.Database.{UserRole}
use bonapp.Auth.Guard.{
  JwtPayload, Identity, Reader, GuardTenant, GuardUser, RequestUser, TextClaim, TypeClaim,
  VersionClaim, RoleClaim, is_shut, can_activate, verify_token,
}
use bonapp.Auth.Guard.Laws.{Signed, ActsAs, can_activate-Signed, can_activate-GuardUser}

abbrev claims : JwtPayload
claims = record {
  tenant_id = TextClaim.text 1;
  sub = TextClaim.text 3;
  user_id = TextClaim.absent;
  token_type = TypeClaim.access;
  exp = some 2000;
  session_version = VersionClaim.version 6;
  role = RoleClaim.absent;
}

-- every payload has these claims, and a signature is its own HMAC
abbrev reader : Reader
reader = record {
  is_hs256 = λ h. some true;
  payload = λ p. some claims;
  signature = λ s. s;
  hmac = λ h p. 12;
}

abbrev token : List ℕ
token = 10 ∷ 11 ∷ 12 ∷ []

abbrev restaurant : GuardTenant
restaurant = record { id = 1; is_blocked = false; is_active = true }

abbrev user : GuardUser
user = record {
  id = 3;
  tenant_id = 1;
  role = UserRole.manager;
  is_active = true;
  is_blocked = false;
  must_change_password = false;
  session_version = 6;
}

abbrev known : Identity
known = record {
  tenant_id = 1;
  user_id = some 3;
  staff_user_id = none;
  is_access = true;
  session_version = some 6;
  role = none;
}

abbrev passed : RequestUser
passed = record { tenant_id = 1; user_id = some 3; role = some UserRole.manager }

can_activate-Signed_example :
    Signed reader 1000 token 1
    × (is_shut (first_row.find_first (λ (t : GuardTenant). t.id == 1) (restaurant ∷ [])) ≡ false)
unfolding can_activate verify_token
can_activate-Signed_example =
    can_activate-Signed reader 1000 first_row false token (restaurant ∷ []) (user ∷ []) passed refl

can_activate-GuardUser_example :
    (u : GuardUser) × ActsAs reader 1000 first_row false token
      (restaurant ∷ [])
      (user ∷ [])
      known
      3
      passed
      u
unfolding can_activate verify_token
can_activate-GuardUser_example =
    can_activate-GuardUser reader 1000 first_row false token (restaurant ∷ []) (user ∷ []) known 3
      passed refl refl refl refl
